-- ===== src/Contracts/Common/Fields.antt =====
-- contracts/v1/common.py: the field constraints that pydantic checks when a value is built.
use loyiha.Base.{ltb, Bool, true, ◌&&◌, Option, none, some, String}
use loyiha.Contracts.Common.{
  ModelProvenance, StorageRef, ImageFrame, PixelBox, text_in, text_at_most, is_sha256_hex,
}

optional_sha256 : Option String → Bool
optional_sha256 none = true
optional_sha256 (some s) = is_sha256_hex s

unfoldable pub provenance_ok : ModelProvenance → Bool
unfolding optional_sha256
provenance_ok m =
    text_in 1 128 m.name
    && text_in 1 64 m.version
    && optional_sha256 m.weights_sha256
    && text_at_most 128 m.runtime

unfoldable pub storage_ok : StorageRef → Bool
storage_ok r =
    text_in 1 1024 r.uri
    && text_in 0 64 r.media_type
    && is_sha256_hex r.sha256
    && ltb 0 r.size_bytes

unfoldable pub frame_ok : ImageFrame → Bool
unfolding storage_ok
frame_ok f =
    text_in 1 64 f.frame_id
    && ltb 0 f.width_px
    && ltb 0 f.height_px
    && storage_ok f.image
    && text_at_most 64 f.view_label

unfoldable pub box_ok : PixelBox → Bool
box_ok b = ltb 0 b.width && ltb 0 b.height

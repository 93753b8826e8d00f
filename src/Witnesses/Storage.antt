-- ===== src/Witnesses/Storage.antt =====
-- A store with one blob, whose encryptor puts the random bytes in front.
use loyiha.Base.{
  ◌≡◌, refl, ap, false, Bool, none, some, List, [], ◌∷◌, Option, if◌then◌else◌, ◌==◌, ==_iff,
  String, str_eq, ok, Bool-cases, inl, inr,
}
use loyiha.Contracts.Common.{StorageRef, is_sha256_hex}
use loyiha.Contracts.Common.Fields.{storage_ok}
use loyiha.Datalayer.Ingestion.{Bytes}
use loyiha.Datalayer.Storage.{
  System, SecureImageStore, Disk, put, get, blob_path, resolve_local, is_within,
}
use loyiha.Datalayer.Storage.Vault.{IsStored, put-IsStored, get-put}
use loyiha.Witnesses.Data.{sha}

abbrev without_first : Bytes → Option Bytes
without_first [] = none
without_first (b ∷ bs) = some bs

abbrev is_seven : Bytes → Bool
is_seven [] = false
is_seven (b ∷ []) = b == 7
is_seven (b ∷ c ∷ bs) = false

unfoldable digest : Bytes → String
digest p = if is_seven p then sha else ""

abbrev vault : SecureImageStore
vault = record {
  root = "store" ∷ [];
  enc = record { encrypt = λ nonce p. nonce ∷ p; decrypt = without_first };
}

-- the name of a file two folders deep
abbrev name_of : List String → String
name_of [] = ""
name_of (a ∷ []) = ""
name_of (a ∷ b ∷ []) = ""
name_of (a ∷ b ∷ c ∷ ps) = c

abbrev system : System
system = record {
  scheme = λ uri. some "file";
  url_path = λ uri. uri;
  resolve = λ raw. some ("store" ∷ "aa" ∷ raw ∷ []);
  as_uri = name_of;
  sha256_hex = digest;
}

abbrev blank : Disk
blank path = none

abbrev changed : Disk
changed path = some (9 ∷ 7 ∷ [])

stored :
    (ref : StorageRef) × ((put system vault 5 (7 ∷ []) "image/tiff" blank).0 ≡ ok ref)
    × (q : Bytes) × (get system vault ref changed ≡ ok q)
unfolding put blob_path storage_ok is_sha256_hex digest get resolve_local is_within
stored = (_, refl, _, refl)

only_seven : (q : Bytes) → digest q ≡ digest (7 ∷ []) → q ≡ 7 ∷ []
unfolding digest
only_seven [] e = cc e
only_seven (b ∷ []) e = elim (Bool-cases (b == 7)) [
  | inl f ↦ ap (λ x. x ∷ []) ((==_iff b 7).0 f)
  | inr f ↦ cc (ap (λ s. str_eq s sha) (rw f at e))
]
only_seven (b ∷ c ∷ bs) e = cc e

put-IsStored_example :
    IsStored system vault (7 ∷ []) stored.0 blank (put system vault 5 (7 ∷ []) "image/tiff" blank).1
unfolding blob_path digest
put-IsStored_example =
    put-IsStored system vault 5 (7 ∷ []) "image/tiff" blank stored.0 (λ p c h. cc) refl only_seven
      refl refl stored.1

get-put_example : stored.2 ≡ 7 ∷ []
get-put_example =
    get-put system vault 5 (7 ∷ []) stored.2 "image/tiff" blank changed stored.0 stored.1
      (only_seven stored.2) stored.3

-- ===== src/Datalayer/Storage.antt =====
-- datalayer/storage.py, `SecureImageStore`. hashlib, urllib and pathlib are the record `System`, an
-- encryptor is a parameter, and so are its random bytes. A path is its parts, a disk what each path
-- holds. A blob appears whole: the temporary file and its renaming are one write.
pub mod Paths
pub mod Vault
use loyiha.Base.{
  ℕ, ◌+◌, Bool, true, false, not, ◌&&◌, ◌||◌, ◌==◌, Option, none, some, List, [], ◌∷◌, ◌++◌, String,
  str_eq, if◌then◌else◌, length, Result, ok, raised,
}
use loyiha.Contracts.Common.{StorageRef, append}
use loyiha.Contracts.Common.Fields.{storage_ok}
use loyiha.Datalayer.Ingestion.{Bytes}

pub record Encryptor : Type 0 where
  pub encrypt : ℕ → Bytes → Bytes
  pub decrypt : Bytes → Option Bytes

abbrev pub dev_passthrough : Encryptor
dev_passthrough = record { encrypt = λ nonce p. p; decrypt = λ c. some c }

-- `urlparse(uri).scheme`, `unquote(urlparse(uri).path)`, `Path(raw).resolve()`, `path.as_uri()`;
-- `none` where the library raises
pub record System : Type 0 where
  pub scheme : String → Option String
  pub url_path : String → String
  pub resolve : String → Option (List String)
  pub as_uri : List String → String
  pub sha256_hex : Bytes → String

pub record SecureImageStore : Type 0 where
  pub root : List String
  pub enc : Encryptor

-- `ValueError` of `put`, pydantic's of a reference, a path that is no path, and the two of the module
pub data StorageError : Type 0 where
  empty_bytes invalid_ref invalid_path egress_refused store_integrity : StorageError

abbrev pub Disk : Type 0
Disk = List String → Option Bytes

abbrev pub is_file : Option Bytes → Bool
is_file none = false
is_file (some c) = true

abbrev pub is_empty : Bytes → Bool
is_empty [] = true
is_empty (b ∷ bs) = false

unfoldable pub same_path : List String → List String → Bool
same_path [] [] = true
same_path [] (q ∷ qs) = false
same_path (p ∷ ps) [] = false
same_path (p ∷ ps) (q ∷ qs) = str_eq p q && same_path ps qs

unfoldable pub write : List String → Bytes → Disk → Disk
write path c disk q = if same_path path q then some c else disk q

-- `sha256[:2]`
abbrev pub first_two : String → String
first_two String.[] = String.[]
first_two (String.◌∷◌ a String.[]) = String.◌∷◌ a String.[]
first_two (String.◌∷◌ a (String.◌∷◌ b s)) = String.◌∷◌ a (String.◌∷◌ b String.[])

-- `self._root in path.parents or path == self._root`
unfoldable pub is_within : List String → List String → Bool
is_within [] path = true
is_within (r ∷ rs) [] = false
is_within (r ∷ rs) (p ∷ ps) = str_eq r p && is_within rs ps

module _ (sys : System) (store : SecureImageStore) where
  -- `_blob_path`
  unfoldable pub blob_path : String → List String
  blob_path sha256 = store.root ++ (first_two sha256 ∷ append sha256 ".blob" ∷ [])

  abbrev pub ref_of : Bytes → String → StorageRef
  ref_of plaintext media_type = record {
    uri = sys.as_uri (blob_path (sys.sha256_hex plaintext));
    media_type = media_type;
    sha256 = sys.sha256_hex plaintext;
    size_bytes = length plaintext;
  }

  -- `put`: identical bytes are stored once
  unfoldable pub put : ℕ → Bytes → String → Disk → Result StorageError StorageRef × Disk
  put nonce plaintext media_type disk =
      if is_empty plaintext
      then (raised empty_bytes, disk)
      else let path = blob_path (sys.sha256_hex plaintext) in
        let ref = ref_of plaintext media_type in
        (
          if storage_ok ref then ok ref else raised invalid_ref,
          if is_file (disk path) then disk else write path (store.enc.encrypt nonce plaintext) disk,
        )

  abbrev pub in_root : Option (List String) → Result StorageError (List String)
  in_root none = raised invalid_path
  in_root (some path) = if is_within store.root path then ok path else raised egress_refused

  abbrev pub local_path : String → Option String → Result StorageError (List String)
  local_path uri none = raised invalid_path
  local_path uri (some scheme) =
      if str_eq scheme "file"
      then in_root (sys.resolve (sys.url_path uri))
      else if str_eq scheme ""
      then in_root (sys.resolve uri)
      else raised egress_refused

  -- `_resolve_local`
  unfoldable pub resolve_local : StorageRef → Result StorageError (List String)
  resolve_local ref = local_path ref.uri (sys.scheme ref.uri)

  abbrev pub exists_at : Disk → Result StorageError (List String) → Result StorageError Bool
  exists_at disk (ok path) = ok (is_file (disk path))
  exists_at disk (raised egress_refused) = ok false
  exists_at disk (raised e) = raised e

  -- `exists`
  unfoldable pub exists : StorageRef → Disk → Result StorageError Bool
  exists ref disk = exists_at disk (resolve_local ref)

  abbrev pub verified : StorageRef → Option Bytes → Result StorageError Bytes
  verified ref none = raised store_integrity
  verified ref (some plaintext) =
      if not (length plaintext == ref.size_bytes)
      then raised store_integrity
      else if not (str_eq (sys.sha256_hex plaintext) ref.sha256)
      then raised store_integrity
      else ok plaintext

  abbrev pub read_blob : StorageRef → Option Bytes → Result StorageError Bytes
  read_blob ref none = raised store_integrity
  read_blob ref (some c) = verified ref (store.enc.decrypt c)

  abbrev pub get_at :
      StorageRef → Disk → Result StorageError (List String) → Result StorageError Bytes
  get_at ref disk (raised e) = raised e
  get_at ref disk (ok path) = read_blob ref (disk path)

  -- `get`
  unfoldable pub get : StorageRef → Disk → Result StorageError Bytes
  get ref disk = get_at ref disk (resolve_local ref)

-- ===== src/Datalayer/Storage/Vault.antt =====
-- datalayer/storage.py: what is put comes back, and nothing else does.
use loyiha.Base.{
  ℕ, ◌≡◌, refl, sym, ap, subst, ◌∙◌, inl, inr, true, ◌==◌, ==_iff, ==_refl, Option, none, some,
  List, [], ◌∷◌, ◌++◌, String, str_eq, eq_iff, if◌then◌else◌, length, Result, ok, ok_inj, raised,
  Bool-cases, Option-cases,
}
use loyiha.Contracts.Common.{StorageRef, append}
use loyiha.Contracts.Common.Fields.{storage_ok}
use loyiha.Datalayer.Ingestion.{Bytes}
use loyiha.Datalayer.Storage.{
  System, SecureImageStore, StorageError, Disk, is_file, is_empty, same_path, write, first_two,
  is_within, blob_path, ref_of, put, resolve_local, verified, get_at, get,
}
use loyiha.Datalayer.Storage.Paths.{same_path_refl, same_path_eq, within_append, stem, stem-append}

module _ (sys : System) (store : SecureImageStore) where
  -- A reference that `get` accepts is that of the bytes it returns, whatever is on the disk.
  pub got :
      (ref : StorageRef) (disk : Disk) (q : Bytes)
      → get sys store ref disk ≡ ok q
      → (length q ≡ ref.size_bytes) × (sys.sha256_hex q ≡ ref.sha256)
  unfolding get
  got ref disk q h = at (resolve_local sys store ref) h
    where
      check :
          (p : Option Bytes)
          → verified sys store ref p ≡ ok q
          → (length q ≡ ref.size_bytes) × (sys.sha256_hex q ≡ ref.sha256)
      check none e = cc
      check (some p) e = elim (Bool-cases (length p == ref.size_bytes)) [
        | inr a ↦ cc (rw a at e)
        | inl a ↦ elim (Bool-cases (str_eq (sys.sha256_hex p) ref.sha256)) [
          | inr b ↦ cc (rw (a, b) at e)
          | inl b ↦
              let same : p ≡ q = ok_inj (rw (a, b) at e) in
              subst (λ r. (length r ≡ ref.size_bytes) × (sys.sha256_hex r ≡ ref.sha256)) same
                ((==_iff _ _).0 a, (eq_iff _ _).0 b)
        ]
      ]

      at :
          (r : Result StorageError (List String))
          → get_at sys store ref disk r ≡ ok q
          → (length q ≡ ref.size_bytes) × (sys.sha256_hex q ≡ ref.sha256)
      at (raised e) f = cc
      at (ok path) f = elim (Option-cases (disk path)) [
        | inl e ↦ cc (rw e at f)
        | inr (c, e) ↦ check (store.enc.decrypt c) (rw e at f)
      ]

  same_blob : (d e : String) → blob_path sys store d ≡ blob_path sys store e → d ≡ e
  unfolding blob_path
  same_blob d e h = sym (stem-append d) ∙ ap stem (after store.root h) ∙ stem-append e
    where
      second : List String → String
      second [] = String.[]
      second (p ∷ []) = String.[]
      second (p ∷ q ∷ ps) = q

      rest : List String → List String
      rest [] = []
      rest (p ∷ ps) = ps

      after :
          (root : List String)
          → root ++ (first_two d ∷ append d ".blob" ∷ [])
            ≡ root ++ (first_two e ∷ append e ".blob" ∷ [])
          → append d ".blob" ≡ append e ".blob"
      after [] g = ap second g
      after (r ∷ rs) g = after rs (ap rest g)

  -- What lies at the address of some bytes decrypts to them.
  abbrev pub IsSealed : Disk → Type 0
  IsSealed disk =
      (p c : Bytes)
      → disk (blob_path sys store (sys.sha256_hex p)) ≡ some c
      → store.enc.decrypt c ≡ some p

  write-IsSealed :
      (p c : Bytes) (disk : Disk)
      → IsSealed disk
      → store.enc.decrypt c ≡ some p
      → ((q : Bytes) → sys.sha256_hex q ≡ sys.sha256_hex p → q ≡ p)
      → IsSealed (write (blob_path sys store (sys.sha256_hex p)) c disk)
  unfolding write
  write-IsSealed p c disk sealed opens single q c' h =
      elim (Bool-cases (
        same_path (blob_path sys store (sys.sha256_hex p))
          (blob_path sys store (sys.sha256_hex q)))) [
            | inr e ↦ sealed q c' (rw e at h)
            | inl e ↦
                let here : some c ≡ some c' = rw e at h in
                let same : q ≡ p = single q (sym (same_blob _ _ (same_path_eq _ _ e))) in
                cc (here, same, opens)
          ]

  blob-IsWithin : (d : String) → is_within store.root (blob_path sys store d) ≡ true
  unfolding blob_path
  blob-IsWithin d = within_append store.root _

  -- the read of a reference that `put` has made
  read_back :
      (p c : Bytes) (media_type : String) (disk : Disk)
      → sys.scheme (sys.as_uri (blob_path sys store (sys.sha256_hex p))) ≡ some "file"
      → sys.resolve (sys.url_path (sys.as_uri (blob_path sys store (sys.sha256_hex p))))
        ≡ some (blob_path sys store (sys.sha256_hex p))
      → disk (blob_path sys store (sys.sha256_hex p)) ≡ some c
      → store.enc.decrypt c ≡ some p
      → get sys store (ref_of sys store p media_type) disk ≡ ok p
  unfolding get resolve_local
  read_back p c media_type disk file back found opens =
      let inside : is_within store.root (blob_path sys store (sys.sha256_hex p)) ≡ true =
        blob-IsWithin (sys.sha256_hex p) in
      let sized : (length p == length p) ≡ true = ==_refl (length p) in
      let hashed : str_eq (sys.sha256_hex p) (sys.sha256_hex p) ≡ true = (eq_iff _ _).1 refl in
      rw (file, back, inside, found, opens, sized, hashed) refl

  made :
      (nonce : ℕ) (p : Bytes) (media_type : String) (disk : Disk) (ref : StorageRef)
      → (put sys store nonce p media_type disk).0 ≡ ok ref
      → (ref ≡ ref_of sys store p media_type)
        × ((put sys store nonce p media_type disk).1 ≡ (
            if is_file (disk (blob_path sys store (sys.sha256_hex p)))
            then disk
            else write (blob_path sys store (sys.sha256_hex p)) (store.enc.encrypt nonce p) disk))
  unfolding put
  made nonce p media_type disk ref h = elim (Bool-cases (is_empty p)) [
    | inl e ↦ cc (rw e at h)
    | inr e ↦ elim (Bool-cases (storage_ok (ref_of sys store p media_type))) [
      | inl f ↦ (sym (ok_inj (rw (e, f) at h)), rw e refl)
      | inr f ↦ cc (rw (e, f) at h)
    ]
  ]

  -- What a successful `put` leaves: the sealed disk again, the bytes behind the reference, and every
  -- blob that was there.
  abbrev pub IsStored : Bytes → StorageRef → Disk → Disk → Type 0
  IsStored p ref disk disk' =
      IsSealed disk'
      × (get sys store ref disk' ≡ ok p)
      × ((path : List String) (c : Bytes) → disk path ≡ some c → disk' path ≡ some c)

  write-kept :
      (path : List String) (c : Bytes) (disk : Disk)
      → disk path ≡ none
      → (q : List String) (c' : Bytes) → disk q ≡ some c'
      → write path c disk q ≡ some c'
  unfolding write
  write-kept path c disk new q c' h = elim (Bool-cases (same_path path q)) [
    | inr e ↦ rw e h
    | inl e ↦ cc (ap disk (same_path_eq path q e), new, h)
  ]

  write-written : (path : List String) (c : Bytes) (disk : Disk) → write path c disk path ≡ some c
  unfolding write
  write-written path c disk = rw (same_path_refl path) refl

  -- On a disk where each address holds its own bytes, sealed, a `put` that succeeds leaves such a disk,
  -- its reference gives the bytes back, and no blob that was there has changed, whether the bytes were
  -- stored before or not. A blob is decrypted to what was encrypted, no other bytes have the same
  -- hash, and the URI of the blob's path is a file URI that leads back to it.
  pub put-IsStored :
      (nonce : ℕ) (p : Bytes) (media_type : String) (disk : Disk) (ref : StorageRef)
      → IsSealed disk
      → store.enc.decrypt (store.enc.encrypt nonce p) ≡ some p
      → ((q : Bytes) → sys.sha256_hex q ≡ sys.sha256_hex p → q ≡ p)
      → sys.scheme (sys.as_uri (blob_path sys store (sys.sha256_hex p))) ≡ some "file"
      → sys.resolve (sys.url_path (sys.as_uri (blob_path sys store (sys.sha256_hex p))))
        ≡ some (blob_path sys store (sys.sha256_hex p))
      → (put sys store nonce p media_type disk).0 ≡ ok ref
      → IsStored p ref disk (put sys store nonce p media_type disk).1
  put-IsStored nonce p media_type disk ref sealed opens single file back h =
      let path = blob_path sys store (sys.sha256_hex p) in
      let c = store.enc.encrypt nonce p in
      let (named, left) = made nonce p media_type disk ref h in
      let read : (d : Disk) (x : Bytes)
          → d path ≡ some x
          → store.enc.decrypt x ≡ some p
          → get sys store ref d ≡ ok p =
        λ d x found o.
          ap (λ r. get sys store r d) named ∙ read_back p x media_type d file back found o in
      subst (IsStored p ref disk) (sym left) (elim (Option-cases (disk path)) [
        | inr (x, e) ↦ rw e (sealed, read disk x e (sealed p x e), λ q c' k. k)
        | inl e ↦ rw e (
          write-IsSealed p c disk sealed opens single,
          read (write path c disk) c (write-written path c disk) opens,
          write-kept path c disk e,
        )
      ])

  -- Whatever has been done to the disk since, a `get` of the reference of a `put` that succeeds gives
  -- the very bytes that were put, if no other bytes have their hash.
  pub get-put :
      (nonce : ℕ) (p q : Bytes) (media_type : String) (disk other : Disk) (ref : StorageRef)
      → (put sys store nonce p media_type disk).0 ≡ ok ref
      → (sys.sha256_hex q ≡ sys.sha256_hex p → q ≡ p)
      → get sys store ref other ≡ ok q
      → q ≡ p
  get-put nonce p q media_type disk other ref h single g =
      let (named, left) = made nonce p media_type disk ref h in
      let (size, hash) = got ref other q g in
      single (hash ∙ ap (λ (r : StorageRef). r.sha256) named)

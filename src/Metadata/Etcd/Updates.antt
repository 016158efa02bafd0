-- ===== src/Metadata/Etcd/Updates.antt =====
-- Conditional writes of pkg/metadata/etcd.go among other writes.
use lilio.Prelude.{
  Bool-cases, Option, Option-cases, Text, [], ap, arith, false, if◌then◌else◌, inl, inr, int_eq,
  is_ok, nat_eq, none, ok, pos, refl, some, sym, text_eq, true, ℕ, ℤ, ◌<◌, ◌==◌, ◌∙◌, ◌∷◌, ◌≡◌, ◌≤◌,
  ◌⊎◌,
}
use lilio.Storage.{Bytes}
use lilio.Metadata.{BucketMetadata, EncryptionConfig, ObjectMetadata}
use lilio.Metadata.Codec.{Codec}
use lilio.Metadata.Etcd.{
  Compare, EtcdClient, EtcdStore, KeyValue, bucket_key, compare_and_save,
  create_bucket_with_encryption, delete_bucket, delete_object, get_object, mod_revision_is,
  object_key, objects_prefix, put_bucket, save_object, version_is_zero,
}

-- From one state of the server to a later one: the revision does not fall, and an entry is as it
-- was, has been deleted, or has been written at a revision above the first state's.
abbrev pub Rewritten : ℕ → Option KeyValue → Type 0
Rewritten before none = Unit
Rewritten before (some kv) = (n : ℕ) × (kv.mod_revision ≡ pos n) × (before < n)

module _ (C : EtcdClient) (entry : C.State → Text → Option KeyValue) (revision : C.State → ℕ) where
  abbrev pub Advances : C.State → C.State → Type 0
  Advances c c' =
      (revision c ≤ revision c')
      × ((k : Text) → (entry c' k ≡ entry c k) ⊎ Rewritten (revision c) (entry c' k))

abbrev pub HoldsOf : Compare → Option KeyValue → Type 0
HoldsOf version_is_zero none = Unit
HoldsOf version_is_zero (some kv) = ⊥
HoldsOf (mod_revision_is r) none = ⊥
HoldsOf (mod_revision_is r) (some kv) = kv.mod_revision ≡ r

-- What etcd documents: a read that is answered gives the entry, the revisions of entries count
-- from 1 up to the server's, every call advances the server, and a transaction is done only where
-- its condition holds.
pub record EtcdIsLawful (C : EtcdClient) (entry : C.State → Text → Option KeyValue)
    (revision : C.State → ℕ) : Type 0 where
  pub get-entry :
      (c : C.State) (k : Text) (o : Option KeyValue) → C.get c k ≡ some o → o ≡ entry c k
  pub bounded :
      (c : C.State) (k : Text) (kv : KeyValue)
      → entry c k ≡ some kv
      → (n : ℕ) × (kv.mod_revision ≡ pos n) × (0 < n) × (n ≤ revision c)
  pub put-Advances :
      (c : C.State) (k : Text) (d : Bytes) → Advances C entry revision c (C.put c k d).1
  pub txn-Advances :
      (c : C.State) (q : Compare) (k : Text) (d : Bytes)
      → Advances C entry revision c (C.txn_put c q k d).1
  pub delete-Advances : (c : C.State) (k : Text) → Advances C entry revision c (C.delete c k).1
  pub txn-holds :
      (c : C.State) (q : Compare) (k : Text) (d : Bytes) (header : Option ℤ)
      → (C.txn_put c q k d).0 ≡ some (true, header)
      → HoldsOf q (entry c k)

module _ (C : EtcdClient) (J : Codec) (entry : C.State → Text → Option KeyValue)
    (revision : C.State → ℕ) (L : EtcdIsLawful C entry revision) where
  -- One write by any client of the store, which need not succeed.
  pub data Step : EtcdStore C J → EtcdStore C J → Type 0 where
    creates_bucket :
        (s : EtcdStore C J) (now : ℕ) (name : Text) (e : EncryptionConfig)
        → Step s (create_bucket_with_encryption C J s now name e).1
    deletes_bucket : (s : EtcdStore C J) (name : Text) → Step s (delete_bucket C J s name).1
    saves : (s : EtcdStore C J) (m : ObjectMetadata) → Step s (save_object C J s m).1
    compares :
        (s : EtcdStore C J) (m : ObjectMetadata) (e : ℤ) → Step s (compare_and_save C J s m e).1
    deletes : (s : EtcdStore C J) (b k : Text) → Step s (delete_object C J s b k).1

  -- A sequence of writes.
  pub data Reach (s : EtcdStore C J) : EtcdStore C J → Type 0 where
    here : Reach s s
    next : {t u : EtcdStore C J} → Reach s t → Step t u → Reach s u

  abbrev Later : EtcdStore C J → EtcdStore C J → Type 0
  Later s s' = (s'.prefix ≡ s.prefix) × Advances C entry revision s.client s'.client

  Later-refl : (s : EtcdStore C J) → Later s s
  Later-refl s = (refl, (omega arith, λ k. inl refl))

  Rewritten-weaken : (m n : ℕ) (o : Option KeyValue) → m ≤ n → Rewritten n o → Rewritten m o
  Rewritten-weaken m n none le h = tt
  Rewritten-weaken m n (some kv) le (r, e, lt) = (r, e, omega arith)

  Later-trans : (s s' s'' : EtcdStore C J) → Later s s' → Later s' s'' → Later s s''
  Later-trans s s' s'' (p, (le, h)) (p', (le', h')) = (
    p' ∙ p,
    (
      omega arith,
      λ k. elim (h' k) [
        | inl same ↦ elim (h k) [ inl same' ↦ inl (same ∙ same') | inr new ↦ inr (rw same new) ]
        | inr new ↦
            inr (
              Rewritten-weaken (revision s.client) (revision s'.client) (entry s''.client k) le new)
      ],
    ),
  )

  put_bucket-Later : (s : EtcdStore C J) (b : BucketMetadata) → Later s (put_bucket C J s b).1
  unfolding put_bucket
  put_bucket-Later s b = elim (Option-cases (J.encode_bucket b)) [
    | inl failed ↦ rw (failed, put_bucket) (Later-refl s)
    | inr (d, encoded) ↦
        let key = bucket_key C J s b.name in
        let (answer, c) = C.txn_put s.client version_is_zero key d in
        let later : Later s (record s { client = c }) =
          (refl, L.txn-Advances s.client version_is_zero key d) in
        elim (Option-cases answer) [
          | inl lost ↦ rw (encoded, put_bucket, lost) later
          | inr ((true, header), told) ↦ rw (encoded, put_bucket, told) later
          | inr ((false, header), told) ↦ rw (encoded, put_bucket, told) later
        ]
  ]

  create-Later :
      (s : EtcdStore C J) (now : ℕ) (name : Text) (e : EncryptionConfig)
      → Later s (create_bucket_with_encryption C J s now name e).1
  unfolding create_bucket_with_encryption
  create-Later s now name e = elim (Option-cases (C.get s.client (bucket_key C J s name))) [
    | inl lost ↦ rw (lost, create_bucket_with_encryption) (Later-refl s)
    | inr (some kv, taken) ↦ rw (taken, create_bucket_with_encryption) (Later-refl s)
    | inr (none, free) ↦
        rw (free, create_bucket_with_encryption)
          (put_bucket-Later s (record { name = name; created_at = now; encryption = e }))
  ]

  delete_bucket-Later : (s : EtcdStore C J) (name : Text) → Later s (delete_bucket C J s name).1
  unfolding delete_bucket
  delete_bucket-Later s name =
      let (deleted, c) = C.delete s.client (bucket_key C J s name) in
      let later : Later s (record s { client = c }) =
        (refl, L.delete-Advances s.client (bucket_key C J s name)) in
      elim (Option-cases (C.get_prefix s.client (objects_prefix C J s name) 1)) [
        | inl lost ↦ rw (lost, delete_bucket) (Later-refl s)
        | inr (kv ∷ kvs, used) ↦ rw (used, delete_bucket) (Later-refl s)
        | inr ([], empty) ↦ elim (Option-cases deleted) [
          | inl lost ↦ rw (empty, delete_bucket, lost) later
          | inr (n, told) ↦ rw (empty, delete_bucket, told) later
        ]
      ]

  save_object-Later : (s : EtcdStore C J) (m : ObjectMetadata) → Later s (save_object C J s m).1
  unfolding save_object
  save_object-Later s m = elim (Option-cases (J.encode_object m)) [
    | inl failed ↦ rw (failed, save_object) (Later-refl s)
    | inr (d, encoded) ↦
        let key = object_key C J s m.bucket m.key in
        let (answer, c) = C.put s.client key d in
        let later : Later s (record s { client = c }) = (refl, L.put-Advances s.client key d) in
        elim (Option-cases answer) [
          | inl lost ↦ rw (encoded, save_object, lost) later
          | inr (header, told) ↦ rw (encoded, save_object, told) later
        ]
  ]

  -- The condition of CompareAndSaveObjectMetadata.
  abbrev condition_of : ℤ → Compare
  condition_of e = if e == pos 0 then version_is_zero else mod_revision_is e

  compare_and_save-Later :
      (s : EtcdStore C J) (m : ObjectMetadata) (e : ℤ) → Later s (compare_and_save C J s m e).1
  unfolding compare_and_save
  compare_and_save-Later s m e = elim (Option-cases (J.encode_object m)) [
    | inl failed ↦ rw (failed, compare_and_save) (Later-refl s)
    | inr (d, encoded) ↦
        let key = object_key C J s m.bucket m.key in
        let (answer, c) = C.txn_put s.client (condition_of e) key d in
        let later : Later s (record s { client = c }) =
          (refl, L.txn-Advances s.client (condition_of e) key d) in
        elim (Option-cases answer) [
          | inl lost ↦ rw (encoded, compare_and_save, lost) later
          | inr ((true, header), told) ↦ rw (encoded, compare_and_save, told) later
          | inr ((false, header), told) ↦ rw (encoded, compare_and_save, told) later
        ]
  ]

  delete_object-Later : (s : EtcdStore C J) (b k : Text) → Later s (delete_object C J s b k).1
  unfolding delete_object
  delete_object-Later s b k =
      let (deleted, c) = C.delete s.client (object_key C J s b k) in
      let later : Later s (record s { client = c }) =
        (refl, L.delete-Advances s.client (object_key C J s b k)) in
      elim (Option-cases deleted) [
        | inl lost ↦ rw (delete_object, lost) later
        | inr (n, told) ↦ elim (Bool-cases (n == 0)) [
          | inl missing ↦ rw (delete_object, told, missing) later
          | inr gone ↦ rw (delete_object, told, gone) later
        ]
      ]

  Step-Later : {s s' : EtcdStore C J} → Step s s' → Later s s'
  Step-Later (creates_bucket s now name e) = create-Later s now name e
  Step-Later (deletes_bucket s name) = delete_bucket-Later s name
  Step-Later (saves s m) = save_object-Later s m
  Step-Later (compares s m e) = compare_and_save-Later s m e
  Step-Later (deletes s b k) = delete_object-Later s b k

  Reach-Later : (s : EtcdStore C J) {s' : EtcdStore C J} → Reach s s' → Later s s'
  Reach-Later s here = Later-refl s
  Reach-Later s (next {t} {u} before step) =
      Later-trans s t u (Reach-Later s before) (Step-Later step)

  -- What GetObjectMetadata read, and the revision it put into the metadata.
  read_entry :
      (s : EtcdStore C J) (b k : Text) (m : ObjectMetadata)
      → get_object C J s b k ≡ ok m
      → (kv : KeyValue) × (entry s.client (object_key C J s b k) ≡ some kv)
        × (m.revision ≡ kv.mod_revision)
  unfolding get_object
  read_entry s b k m h =
      let key = object_key C J s b k in
      elim (Option-cases (C.get s.client key)) [
        | inl lost ↦ ground arith
        | inr (none, absent) ↦ ground arith
        | inr (some kv, found) ↦ (kv, sym (L.get-entry s.client key (some kv) found), ground arith)
      ]

  -- A conditional write that succeeds found its condition true.
  compared_entry :
      (s : EtcdStore C J) (m : ObjectMetadata) (e : ℤ)
      → is_ok (compare_and_save C J s m e).0 ≡ true
      → HoldsOf (condition_of e) (entry s.client (object_key C J s m.bucket m.key))
  unfolding compare_and_save
  compared_entry s m e h = elim (Option-cases (J.encode_object m)) [
    | inl failed ↦ ground arith
    | inr (d, encoded) ↦
        let key = object_key C J s m.bucket m.key in
        elim (Option-cases (C.txn_put s.client (condition_of e) key d).0) [
          | inl lost ↦ ground arith
          | inr ((true, header), told) ↦ L.txn-holds s.client (condition_of e) key d header told
          | inr ((false, header), told) ↦ ground arith
        ]
  ]

  unmoved :
      (before n : ℕ) (o o' : Option KeyValue)
      → (o' ≡ o) ⊎ Rewritten before o'
      → 0 < n
      → n ≤ before
      → HoldsOf (condition_of (pos n)) o'
      → o' ≡ o
  unmoved before n o o' (inl same) positive le holds = same
  unmoved before n o none (inr new) positive le holds = ground arith
  unmoved before n o (some kv) (inr (r, e, lt)) positive le holds = ground arith

  -- No update is lost. Read an object from etcd, let any sequence of writes happen, and write
  -- conditionally on the revision that was read: if that write succeeds, then until then the server
  -- still had the very entry that was read. So also when the object was deleted and stored again
  -- in between. For an etcd that keeps EtcdIsLawful.
  pub compare_and_save-Reach :
      (s s' : EtcdStore C J) (m meta : ObjectMetadata)
      → get_object C J s meta.bucket meta.key ≡ ok m
      → Reach s s'
      → is_ok (compare_and_save C J s' meta m.revision).0 ≡ true
      → entry s'.client (object_key C J s' meta.bucket meta.key)
        ≡ entry s.client (object_key C J s meta.bucket meta.key)
  unfolding object_key objects_prefix
  compare_and_save-Reach s s' m meta got runs saved =
      let (prefix_kept, (le, moved)) = Reach-Later s runs in
      let (kv, found, same_revision) = read_entry s meta.bucket meta.key m got in
      let (n, numbered, positive, below) =
        L.bounded s.client (object_key C J s meta.bucket meta.key) kv found in
      let key = object_key C J s meta.bucket meta.key in
      let same_key : object_key C J s' meta.bucket meta.key ≡ key = ground arith in
      let holds : HoldsOf (condition_of (pos n)) (entry s'.client key) =
        rw same_key at
          (rw (same_revision ∙ numbered) at (compared_entry s' meta m.revision saved)) in
      ap (entry s'.client) same_key
      ∙ unmoved (revision s.client) n (entry s.client key) (entry s'.client key) (moved key)
          positive below holds

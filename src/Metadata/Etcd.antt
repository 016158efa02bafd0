-- ===== src/Metadata/Etcd.antt =====
-- pkg/metadata/etcd.go: the store that keeps its metadata in etcd. The etcd client is a parameter;
-- a call that fails or exceeds the store's timeout is `none`.
pub mod Updates
use lilio.Prelude.{
  Bool, List, Option, Result, Text, [], bytes, err, false, if◌then◌else◌, int_eq, length, nat_eq,
  none, ok, pos, some, text_eq, trim_prefix, true, ℕ, ℤ, ◌++◌, ◌+◌, ◌==◌, ◌∷◌,
}
use lilio.Storage.{Bytes}
use lilio.Paging.{ListOptions, ListResult, page_limit, paginate}
use lilio.Metadata.{
  BucketMetadata, EncryptionConfig, MetaError, MetadataStore, ObjectMetadata, bucket_exists,
  bucket_not_empty, bucket_not_found, object_not_found, revision_mismatch, unavailable,
}
use lilio.Metadata.Codec.{Codec}

pub record KeyValue : Type 0 where
  pub key : Text
  pub value : Bytes
  pub mod_revision : ℤ

-- The condition of a transaction on one key.
pub data Compare : Type 0 where
  version_is_zero : Compare
  mod_revision_is : ℤ → Compare

-- The calls of `clientv3.Client`. `get_prefix` has a limit, where 0 is none, and so has
-- `get_range`, which gives the keys from a start to below an end in ascending order. A put and a
-- transaction answer with the revision in the header, if there is one; a transaction also tells
-- whether its condition held, and a delete how many keys it deleted.
pub record EtcdClient : Type 1 where
  pub State : Type 0
  pub get : State → Text → Option (Option KeyValue)
  pub get_prefix : State → Text → ℕ → Option (List KeyValue)
  pub get_range : State → Text → Text → ℕ → Option (List KeyValue)
  pub put : State → Text → Bytes → Option (Option ℤ) × State
  pub txn_put : State → Compare → Text → Bytes → Option (Bool × Option ℤ) × State
  pub delete : State → Text → Option ℕ × State
  pub status : State → Bool
  pub prefix_range_end : Text → Text

pub record EtcdConfig : Type 0 where
  pub endpoints : List Text
  pub dial_timeout : ℕ
  pub username : Text
  pub password : Text
  pub prefix : Text

module _ (C : EtcdClient) (J : Codec) where
  pub record EtcdStore : Type 0 where
    pub client : C.State
    pub prefix : Text
    pub timeout : ℕ

  -- NewEtcdStore; `connected` is the client that `clientv3.New` gives. The timeout counts seconds.
  unfoldable pub new_etcd_store : EtcdConfig → Option C.State → Option EtcdStore
  new_etcd_store cfg connected =
      let timeout = if cfg.dial_timeout == 0 then 5 else cfg.dial_timeout in
      let prefix = if cfg.prefix == [] then bytes "/lilio" else cfg.prefix in
      if length cfg.endpoints == 0 then none else elim connected [
        | none ↦ none
        | some client ↦
            if C.status client
            then some (record { client = client; prefix = prefix; timeout = timeout })
            else none
      ]

  -- bucketsPrefix
  unfoldable pub buckets_prefix : EtcdStore → Text
  buckets_prefix s = s.prefix ++ bytes "/buckets/"

  -- bucketKey
  unfoldable pub bucket_key : EtcdStore → Text → Text
  bucket_key s name = s.prefix ++ bytes "/buckets/" ++ name

  -- objectsPrefix
  unfoldable pub objects_prefix : EtcdStore → Text → Text
  objects_prefix s bucket = s.prefix ++ bytes "/objects/" ++ bucket ++ bytes "/"

  -- objectKey
  unfoldable pub object_key : EtcdStore → Text → Text → Text
  unfolding objects_prefix
  object_key s bucket key = objects_prefix s bucket ++ key

  -- CreateBucketWithEncryption once the name is free.
  unfoldable pub put_bucket : EtcdStore → BucketMetadata → Result MetaError (Unit {0}) × EtcdStore
  unfolding bucket_key
  put_bucket s b = elim (J.encode_bucket b) [
    | none ↦ (err unavailable, s)
    | some d ↦
        let (answer, c) = C.txn_put s.client version_is_zero (bucket_key s b.name) d in
        let s' : EtcdStore = record s { client = c } in
        elim answer [
          | none ↦ (err unavailable, s')
          | some told ↦ if told.0 then (ok tt, s') else (err bucket_exists, s')
        ]
  ]

  -- CreateBucketWithEncryption
  unfoldable pub create_bucket_with_encryption :
      EtcdStore → ℕ → Text → EncryptionConfig → Result MetaError (Unit {0}) × EtcdStore
  unfolding put_bucket
  create_bucket_with_encryption s now name encryption = elim (C.get s.client (bucket_key s name)) [
    | none ↦ (err unavailable, s)
    | some (some kv) ↦ (err bucket_exists, s)
    | some none ↦ put_bucket s (record { name = name; created_at = now; encryption = encryption })
  ]

  -- CreateBucket
  unfoldable pub create_bucket : EtcdStore → ℕ → Text → Result MetaError (Unit {0}) × EtcdStore
  unfolding create_bucket_with_encryption
  create_bucket s now name =
      create_bucket_with_encryption s now name
        (record { enabled = false; algorithm = []; salt = []; key_hash = [] })

  -- GetBucket
  unfoldable pub get_bucket : EtcdStore → Text → Result MetaError BucketMetadata
  unfolding bucket_key
  get_bucket s name = elim (C.get s.client (bucket_key s name)) [
    | none ↦ err unavailable
    | some none ↦ err bucket_not_found
    | some (some kv) ↦ elim (J.decode_bucket kv.value) [ none ↦ err unavailable | some b ↦ ok b ]
  ]

  -- BucketExists
  unfoldable pub has_bucket : EtcdStore → Text → Bool
  unfolding bucket_key
  has_bucket s name = elim (C.get s.client (bucket_key s name)) [
    | none ↦ false
    | some none ↦ false
    | some (some kv) ↦ true
  ]

  -- IsBucketEncrypted
  unfoldable pub is_bucket_encrypted : EtcdStore → Text → Result MetaError Bool
  unfolding get_bucket
  is_bucket_encrypted s name = elim (get_bucket s name) [
    | ok b ↦ ok b.encryption.enabled
    | err e ↦ err e
  ]

  -- GetBucketEncryption
  unfoldable pub get_bucket_encryption : EtcdStore → Text → Result MetaError EncryptionConfig
  unfolding get_bucket
  get_bucket_encryption s name = elim (get_bucket s name) [ ok b ↦ ok b.encryption | err e ↦ err e ]

  -- The keys of a response without a prefix.
  unfoldable pub trimmed_keys : Text → List KeyValue → List Text
  trimmed_keys prefix [] = []
  trimmed_keys prefix (kv ∷ kvs) = trim_prefix kv.key prefix ∷ trimmed_keys prefix kvs

  -- ListBuckets
  unfoldable pub list_buckets : EtcdStore → Result MetaError (List Text)
  unfolding buckets_prefix trimmed_keys
  list_buckets s = elim (C.get_prefix s.client (buckets_prefix s) 0) [
    | none ↦ err unavailable
    | some kvs ↦ ok (trimmed_keys (buckets_prefix s) kvs)
  ]

  -- DeleteBucket
  unfoldable pub delete_bucket : EtcdStore → Text → Result MetaError (Unit {0}) × EtcdStore
  unfolding objects_prefix bucket_key
  delete_bucket s name = elim (C.get_prefix s.client (objects_prefix s name) 1) [
    | none ↦ (err unavailable, s)
    | some (kv ∷ kvs) ↦ (err bucket_not_empty, s)
    | some [] ↦
        let (deleted, c) = C.delete s.client (bucket_key s name) in
        let s' : EtcdStore = record s { client = c } in
        elim deleted [ none ↦ (err unavailable, s') | some n ↦ (ok tt, s') ]
  ]

  -- `if resp.Header != nil { meta.Revision = resp.Header.Revision }`
  abbrev pub with_revision : Option ℤ → ObjectMetadata → ObjectMetadata
  with_revision none meta = meta
  with_revision (some r) meta = record meta { revision = r }

  -- SaveObjectMetadata
  unfoldable pub save_object :
      EtcdStore → ObjectMetadata → Result MetaError ObjectMetadata × EtcdStore
  unfolding object_key
  save_object s meta = elim (J.encode_object meta) [
    | none ↦ (err unavailable, s)
    | some d ↦
        let (answer, c) = C.put s.client (object_key s meta.bucket meta.key) d in
        let s' : EtcdStore = record s { client = c } in
        elim answer [
          | none ↦ (err unavailable, s')
          | some header ↦ (ok (with_revision header meta), s')
        ]
  ]

  -- CompareAndSaveObjectMetadata
  unfoldable pub compare_and_save :
      EtcdStore → ObjectMetadata → ℤ → Result MetaError ObjectMetadata × EtcdStore
  unfolding object_key
  compare_and_save s meta expected = elim (J.encode_object meta) [
    | none ↦ (err unavailable, s)
    | some d ↦
        let condition = if expected == pos 0 then version_is_zero else mod_revision_is expected in
        let (answer, c) = C.txn_put s.client condition (object_key s meta.bucket meta.key) d in
        let s' : EtcdStore = record s { client = c } in
        elim answer [
          | none ↦ (err unavailable, s')
          | some told ↦
              if told.0 then (ok (with_revision told.1 meta), s') else (err revision_mismatch, s')
        ]
  ]

  -- GetObjectMetadata
  unfoldable pub get_object : EtcdStore → Text → Text → Result MetaError ObjectMetadata
  unfolding object_key
  get_object s bucket key = elim (C.get s.client (object_key s bucket key)) [
    | none ↦ err unavailable
    | some none ↦ err object_not_found
    | some (some kv) ↦ elim (J.decode_object kv.value) [
      | none ↦ err unavailable
      | some m ↦ ok (record m { revision = kv.mod_revision })
    ]
  ]

  -- DeleteObjectMetadata
  unfoldable pub delete_object : EtcdStore → Text → Text → Result MetaError (Unit {0}) × EtcdStore
  unfolding object_key
  delete_object s bucket key =
      let (deleted, c) = C.delete s.client (object_key s bucket key) in
      let s' : EtcdStore = record s { client = c } in
      elim deleted [
        | none ↦ (err unavailable, s')
        | some n ↦ if n == 0 then (err object_not_found, s') else (ok tt, s')
      ]

  -- clientv3PrefixSuccessor
  unfoldable pub prefix_successor : Text → Text
  prefix_successor k = k ++ 0 ∷ []

  -- ListObjects
  unfoldable pub list_objects : EtcdStore → Text → ListOptions → Result MetaError ListResult
  unfolding has_bucket objects_prefix prefix_successor trimmed_keys
  list_objects s bucket o =
      let bucket_prefix = objects_prefix s bucket in
      let limit = page_limit o in
      let start =
        if o.after == []
        then bucket_prefix ++ o.prefix
        else prefix_successor (bucket_prefix ++ o.after) in
      let end = C.prefix_range_end (bucket_prefix ++ o.prefix) in
      if has_bucket s bucket
      then elim (C.get_range s.client start end (limit + 1)) [
        | none ↦ err unavailable
        | some kvs ↦ ok (paginate (trimmed_keys bucket_prefix kvs) limit)
      ]
      else err bucket_not_found

  -- `var _ MetadataStore = (*EtcdStore)(nil)`
  unfoldable pub etcd_store : MetadataStore
  etcd_store = record {
    State = EtcdStore;
    create_bucket = create_bucket;
    create_bucket_with_encryption = create_bucket_with_encryption;
    get_bucket = get_bucket;
    list_buckets = list_buckets;
    bucket_exists = has_bucket;
    delete_bucket = delete_bucket;
    compare_and_save = compare_and_save;
    get_object = get_object;
    delete_object = delete_object;
    list_objects = list_objects;
  }

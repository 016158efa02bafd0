-- ===== src/Metadata/Local/Objects.antt =====
-- pkg/metadata/local.go: the methods on objects, from saveLocked to ListObjects.
use lilio.Prelude.{
  Bool, List, Result, Text, [], bytes, err, if◌then◌else◌, inc64, int_eq, nat_eq, none, not, ok,
  pos, some, text_eq, true, ℕ, ℤ, ◌&&◌, ◌+◌, ◌==◌, ◌∷◌,
}
use lilio.Prelude.Dict.{keys}
use lilio.Prelude.Sorting.{sort_strings}
use lilio.Storage.{Bytes}
use lilio.Files.{contents, io_error, not_exist, remove_failed, removed, was_absent}
use lilio.Paging.{ListOptions, ListResult, is_listed, page_limit, paginate}
use lilio.Metadata.{
  MetaError, MetadataStore, ObjectMetadata, bucket_not_found, object_not_found, revision_mismatch,
  unavailable,
}
use lilio.Metadata.Codec.{Codec}
use lilio.Metadata.Memory.{any_revision}
use lilio.Metadata.Local.{
  FileTree, LocalStore, create_bucket, create_bucket_with_encryption, delete_bucket, get_bucket,
  has_bucket, list_buckets, object_file_name, objects_dir, read_in, remove_in, trim_suffix,
  write_in,
}

module _ (T : FileTree) (J : Codec) (sha256 : Text → Bytes) where
  -- readObjectFile
  unfoldable pub read_object_file :
      LocalStore T J sha256 → Text → Text → Result MetaError ObjectMetadata
  unfolding read_in
  read_object_file s dir name = elim (read_in T J sha256 s dir name) [
    | not_exist ↦ err object_not_found
    | io_error ↦ err unavailable
    | contents d ↦ elim (J.decode_object d) [ none ↦ err unavailable | some m ↦ ok m ]
  ]

  -- saveLocked once the revision has been compared.
  unfoldable pub write_object :
      LocalStore T J sha256
      → ObjectMetadata
      → Result MetaError ObjectMetadata × LocalStore T J sha256
  unfolding write_in object_file_name
  write_object s stored = elim (J.encode_object stored) [
    | none ↦ (err unavailable, s)
    | some d ↦
        let (written, s') =
          write_in T J sha256 s (objects_dir T J sha256 s stored.bucket)
            (object_file_name sha256 stored.key) d in
        (if written then ok stored else err unavailable, s')
  ]

  -- saveLocked once the stored revision is known.
  unfoldable pub save_at :
      LocalStore T J sha256
      → ObjectMetadata
      → ℤ
      → ℤ
      → Result MetaError ObjectMetadata × LocalStore T J sha256
  unfolding write_object
  save_at s meta expected current =
      if not (expected == any_revision) && not (current == expected)
      then (err revision_mismatch, s)
      else write_object s (record meta { revision = inc64 current })

  -- saveLocked
  unfoldable pub save_locked :
      LocalStore T J sha256
      → ObjectMetadata
      → ℤ
      → Result MetaError ObjectMetadata × LocalStore T J sha256
  unfolding read_object_file save_at
  save_locked s meta expected =
      let found =
        read_object_file s (objects_dir T J sha256 s meta.bucket)
          (object_file_name sha256 meta.key) in
      elim found [
        | ok existing ↦ save_at s meta expected existing.revision
        | err object_not_found ↦ save_at s meta expected (pos 0)
        | err e ↦ (err e, s)
      ]

  -- SaveObjectMetadata
  unfoldable pub save_object :
      LocalStore T J sha256
      → ObjectMetadata
      → Result MetaError ObjectMetadata × LocalStore T J sha256
  unfolding save_locked
  save_object s meta = save_locked s meta any_revision

  -- CompareAndSaveObjectMetadata
  unfoldable pub compare_and_save :
      LocalStore T J sha256
      → ObjectMetadata
      → ℤ
      → Result MetaError ObjectMetadata × LocalStore T J sha256
  unfolding save_locked
  compare_and_save s meta expected = save_locked s meta expected

  -- GetObjectMetadata
  unfoldable pub get_object : LocalStore T J sha256 → Text → Text → Result MetaError ObjectMetadata
  unfolding read_object_file object_file_name
  get_object s bucket key =
      read_object_file s (objects_dir T J sha256 s bucket) (object_file_name sha256 key)

  -- DeleteObjectMetadata
  unfoldable pub delete_object :
      LocalStore T J sha256 → Text → Text → Result MetaError (Unit {0}) × LocalStore T J sha256
  unfolding remove_in object_file_name
  delete_object s bucket key =
      let (gone, s') =
        remove_in T J sha256 s (objects_dir T J sha256 s bucket) (object_file_name sha256 key) in
      elim gone [
        | removed ↦ (ok tt, s')
        | was_absent ↦ (err object_not_found, s')
        | remove_failed ↦ (err unavailable, s')
      ]

  -- The loop of ListObjects: the key in each file that ends in `.json`, with the tests on it.
  -- `alive i` says that the context is not cancelled at entry number `i`.
  unfoldable pub keys_in :
      LocalStore T J sha256
      → (ℕ → Bool)
      → ListOptions
      → Text
      → List (Text × Bool)
      → ℕ
      → Result MetaError (List Text)
  unfolding read_object_file trim_suffix is_listed
  keys_in s alive o dir [] i = ok []
  keys_in s alive o dir ((name, is_dir) ∷ entries) i =
      let rest = keys_in s alive o dir entries (i + 1) in
      if not (alive i)
      then err unavailable
      else if is_dir
      then rest
      else elim (trim_suffix name (bytes ".json")) [
        | none ↦ rest
        | some _ ↦ elim (read_object_file s dir name) [
          | err e ↦ err e
          | ok m ↦
              if is_listed o m.key
              then elim rest [ err e ↦ err e | ok keys ↦ ok (m.key ∷ keys) ]
              else rest
        ]
      ]

  -- ListObjects
  unfoldable pub list_objects :
      LocalStore T J sha256 → (ℕ → Bool) → Text → ListOptions → Result MetaError ListResult
  unfolding keys_in page_limit sort_strings paginate
  list_objects s alive bucket o = elim (T.open_dir s.tree (objects_dir T J sha256 s bucket)) [
    | none ↦ err bucket_not_found
    | some f ↦ elim (T.folder.read_dir f) [
      | none ↦ err unavailable
      | some entries ↦ elim (keys_in s alive o (objects_dir T J sha256 s bucket) entries 0) [
        | err e ↦ err e
        | ok keys ↦ ok (paginate (sort_strings keys) (page_limit o))
      ]
    ]
  ]

  -- `var _ MetadataStore = (*LocalStore)(nil)`
  unfoldable pub local_store : MetadataStore
  local_store = record {
    State = LocalStore T J sha256;
    create_bucket = create_bucket T J sha256;
    create_bucket_with_encryption = create_bucket_with_encryption T J sha256;
    get_bucket = get_bucket T J sha256;
    list_buckets = list_buckets T J sha256;
    bucket_exists = has_bucket T J sha256;
    delete_bucket = delete_bucket T J sha256;
    compare_and_save = compare_and_save;
    get_object = get_object;
    delete_object = delete_object;
    list_objects = λ s bucket o. list_objects s (λ i. true) bucket o;
  }

-- ===== src/Metadata/Local.antt =====
-- pkg/metadata/local.go: the store that keeps its metadata in JSON files. The directories are a
-- parameter, and files in one of them are read and replaced as in internal/fsatomic. Bucket names
-- are taken to be file names, without a path separator.
pub mod Objects
pub mod Saving
use lilio.Prelude.{
  Bool, List, Option, Result, Text, [], bytes, err, false, hex, if◌then◌else◌, int_eq, nat_eq, none,
  not, ok, some, text_eq, true, ℕ, ◌++◌, ◌==◌, ◌∷◌,
}
use lilio.Storage.{Bytes}
use lilio.Files.{
  FileRead, FileSystem, Removal, contents, io_error, not_exist, remove_failed, removed, replace,
  was_absent,
}
use lilio.Metadata.{
  BucketMetadata, EncryptionConfig, MetaError, bucket_exists, bucket_not_empty, bucket_not_found,
  unavailable,
}
use lilio.Metadata.Codec.{Codec}

-- A tree of directories, each with its files: the directory at a path, the tree that an operation
-- inside a directory leaves, `os.MkdirAll`, `os.RemoveAll`, `os.Stat` and `filepath.Join`.
pub record FileTree : Type 1 where
  pub folder : FileSystem
  pub State : Type 0
  pub open_dir : State → Text → Option folder.State
  pub set_dir : State → Text → folder.State → State
  pub mkdir_all : State → Text → Bool × State
  pub remove_all : State → Text → State
  pub exists : State → Text → Bool
  pub join : List Text → Text

-- objectFileName
unfoldable pub object_file_name : (Text → Bytes) → Text → Text
unfolding hex
object_file_name sha256 key = hex (sha256 key) ++ bytes ".json"

-- `strings.HasSuffix(s, suffix)` and `strings.TrimSuffix(s, suffix)`
unfoldable pub trim_suffix : Text → Text → Option Text
trim_suffix [] suffix = if suffix == [] then some [] else none
trim_suffix (c ∷ s) suffix =
    let rest = trim_suffix s suffix in
    if c ∷ s == suffix then some [] else elim rest [ none ↦ none | some t ↦ some (c ∷ t) ]

-- The names that the loop of ListBuckets takes from a directory's entries.
unfoldable pub bucket_names : List (Text × Bool) → List Text
unfolding trim_suffix
bucket_names [] = []
bucket_names ((name, is_dir) ∷ entries) =
    let rest = bucket_names entries in
    if is_dir
    then rest
    else elim (trim_suffix name (bytes ".json")) [ none ↦ rest | some bucket ↦ bucket ∷ rest ]

module _ (T : FileTree) (J : Codec) (sha256 : Text → Bytes) where
  pub record LocalStore : Type 0 where
    pub base_path : Text
    pub tree : T.State

  abbrev pub buckets_dir : LocalStore → Text
  buckets_dir s = T.join (s.base_path ∷ bytes "buckets" ∷ [])

  abbrev pub objects_dir : LocalStore → Text → Text
  objects_dir s bucket = T.join (s.base_path ∷ bytes "objects" ∷ bucket ∷ [])

  -- NewLocalStore
  unfoldable pub make_dirs : T.State → List Text → Bool × T.State
  make_dirs t [] = (true, t)
  make_dirs t (dir ∷ dirs) =
      let (made, t') = T.mkdir_all t dir in
      let rest = make_dirs t' dirs in if made then rest else (false, t')

  unfoldable pub new_local_store : T.State → Text → Option LocalStore
  unfolding make_dirs
  new_local_store t base =
      let dirs =
        base ∷ T.join (base ∷ bytes "buckets" ∷ []) ∷ T.join (base ∷ bytes "objects" ∷ []) ∷ [] in
      let (made, t') = make_dirs t dirs in
      if made then some (record { base_path = base; tree = t' }) else none

  -- Health
  unfoldable pub health : LocalStore → Bool
  health s = T.exists s.tree s.base_path

  -- `os.ReadFile` on a file of a directory
  unfoldable pub read_in : LocalStore → Text → Text → FileRead
  read_in s dir name = elim (T.open_dir s.tree dir) [
    | none ↦ not_exist
    | some f ↦ T.folder.read_file f name
  ]

  -- `os.Stat` on a file of a directory
  unfoldable pub exists_in : LocalStore → Text → Text → Bool
  exists_in s dir name = elim (T.open_dir s.tree dir) [
    | none ↦ false
    | some f ↦ T.folder.file_exists f name
  ]

  -- `fsatomic.WriteFile` on a file of a directory
  unfoldable pub write_in : LocalStore → Text → Text → Bytes → Bool × LocalStore
  unfolding replace
  write_in s dir name d = elim (T.open_dir s.tree dir) [
    | none ↦ (false, s)
    | some f ↦
        let (done, f') = replace T.folder f name d true in
        (done, record s { tree = T.set_dir s.tree dir f' })
  ]

  -- `os.Remove` on a file of a directory
  unfoldable pub remove_in : LocalStore → Text → Text → Removal × LocalStore
  remove_in s dir name = elim (T.open_dir s.tree dir) [
    | none ↦ (was_absent, s)
    | some f ↦
        let (gone, f') = T.folder.remove_file f name in
        (gone, record s { tree = T.set_dir s.tree dir f' })
  ]

  -- CreateBucketWithEncryption once the name is free.
  unfoldable pub write_bucket :
      LocalStore → BucketMetadata → Result MetaError (Unit {0}) × LocalStore
  unfolding write_in
  write_bucket s b = elim (J.encode_bucket b) [
    | none ↦ (err unavailable, s)
    | some d ↦
        let (written, s1) = write_in s (buckets_dir s) (b.name ++ bytes ".json") d in
        let (made, t) = T.mkdir_all s1.tree (objects_dir s b.name) in
        if not written
        then (err unavailable, s1)
        else if made
        then (ok tt, record s1 { tree = t })
        else (err unavailable, record s1 { tree = t })
  ]

  -- CreateBucketWithEncryption
  unfoldable pub create_bucket_with_encryption :
      LocalStore → ℕ → Text → EncryptionConfig → Result MetaError (Unit {0}) × LocalStore
  unfolding exists_in write_bucket
  create_bucket_with_encryption s now name encryption =
      if exists_in s (buckets_dir s) (name ++ bytes ".json")
      then (err bucket_exists, s)
      else write_bucket s (record { name = name; created_at = now; encryption = encryption })

  -- CreateBucket
  unfoldable pub create_bucket : LocalStore → ℕ → Text → Result MetaError (Unit {0}) × LocalStore
  unfolding create_bucket_with_encryption
  create_bucket s now name =
      create_bucket_with_encryption s now name
        (record { enabled = false; algorithm = []; salt = []; key_hash = [] })

  -- GetBucket
  unfoldable pub get_bucket : LocalStore → Text → Result MetaError BucketMetadata
  unfolding read_in
  get_bucket s name = elim (read_in s (buckets_dir s) (name ++ bytes ".json")) [
    | not_exist ↦ err bucket_not_found
    | io_error ↦ err unavailable
    | contents d ↦ elim (J.decode_bucket d) [ none ↦ err unavailable | some b ↦ ok b ]
  ]

  -- BucketExists
  unfoldable pub has_bucket : LocalStore → Text → Bool
  unfolding exists_in
  has_bucket s name = exists_in s (buckets_dir s) (name ++ bytes ".json")

  -- IsBucketEncrypted
  unfoldable pub is_bucket_encrypted : LocalStore → Text → Result MetaError Bool
  unfolding get_bucket
  is_bucket_encrypted s name = elim (get_bucket s name) [
    | ok b ↦ ok b.encryption.enabled
    | err e ↦ err e
  ]

  -- GetBucketEncryption
  unfoldable pub get_bucket_encryption : LocalStore → Text → Result MetaError EncryptionConfig
  unfolding get_bucket
  get_bucket_encryption s name = elim (get_bucket s name) [ ok b ↦ ok b.encryption | err e ↦ err e ]

  -- ListBuckets
  unfoldable pub list_buckets : LocalStore → Result MetaError (List Text)
  unfolding bucket_names
  list_buckets s = elim (T.open_dir s.tree (buckets_dir s)) [
    | none ↦ err unavailable
    | some f ↦ elim (T.folder.read_dir f) [
      | none ↦ err unavailable
      | some entries ↦ ok (bucket_names entries)
    ]
  ]

  -- `entries, _ := os.ReadDir(dir)`
  abbrev pub entries_of : LocalStore → Text → List (Text × Bool)
  entries_of s dir = elim (T.open_dir s.tree dir) [
    | none ↦ []
    | some f ↦ elim (T.folder.read_dir f) [ none ↦ [] | some entries ↦ entries ]
  ]

  -- DeleteBucket
  unfoldable pub delete_bucket : LocalStore → Text → Result MetaError (Unit {0}) × LocalStore
  unfolding remove_in
  delete_bucket s name =
      let s1 : LocalStore = record s { tree = T.remove_all s.tree (objects_dir s name) } in
      let (gone, s2) = remove_in s1 (buckets_dir s) (name ++ bytes ".json") in
      elim (entries_of s (objects_dir s name)) [
        | entry ∷ entries ↦ (err bucket_not_empty, s)
        | [] ↦ elim gone [
          | removed ↦ (ok tt, s2)
          | was_absent ↦ (err unavailable, s2)
          | remove_failed ↦ (err unavailable, s2)
        ]
      ]

-- ===== src/Files.antt =====
-- internal/fsatomic/fsatomic.go, on one directory of a file system that is a parameter, and
-- LocalBackendPod of pkg/storage/storage-models/local.go, which keeps chunks in such a directory.
pub mod Replacing
pub mod Pods
pub mod Backend
use lilio.Prelude.{
  Bool, List, Option, Text, [], add64, bytes, dec64, false, has_prefix, if◌then◌else◌, inc64,
  int_eq, length, nat_eq, negsuc, none, not, ok, pos, some, text_eq, true, ℕ, ℤ, ◌&&◌, ◌==◌, ◌||◌,
  ◌∷◌,
}
use lilio.Storage.{BackendInfo, BackendStats, Bytes, local, offline, online}

-- What reading a file gives.
pub data FileRead : Type 0 where
  contents : Bytes → FileRead
  not_exist io_error : FileRead

-- What `os.Remove` answers.
pub data Removal : Type 0 where
  removed was_absent remove_failed : Removal

-- The calls of Go's `os` package on one directory. A write returns whether it succeeded beside
-- the state it leaves; `join` is the file that `filepath.Join` of the directory and a name names,
-- by its clean path below the directory; `create_temp` returns the name that `os.CreateTemp` made up, `write_file` is
-- `os.WriteFile`, and `free_bytes` is what `syscall.Statfs` tells.
pub record FileSystem : Type 1 where
  pub State : Type 0
  pub join : Text → Text
  pub read_file : State → Text → FileRead
  pub file_exists : State → Text → Bool
  pub create_temp : State → Option (Text × State)
  pub write_to : State → Text → Bytes → Bool × State
  pub chmod : State → Text → Bool × State
  pub sync_file : State → Text → Bool × State
  pub close_file : State → Text → Bool × State
  pub rename : State → Text → Text → Bool × State
  pub remove_file : State → Text → Removal × State
  pub sync_dir : State → Bool
  pub write_file : State → Text → Bytes → Bool × State
  pub free_bytes : State → Option ℤ
  pub read_dir : State → Option (List (Text × Bool))

-- const TempPrefix
abbrev pub temp_prefix : Text
temp_prefix = bytes ".tmp-"

-- IsTemp
unfoldable pub is_temp : Text → Bool
unfolding has_prefix
is_temp name = has_prefix name temp_prefix

module _ (F : FileSystem) where
  -- The local function `fail` of writeTemp.
  abbrev pub give_up_temp : F.State → Text → Option Text × F.State
  give_up_temp s temp = (none, (F.remove_file (F.close_file s temp).1 temp).1)

  -- writeTemp from its last call on
  unfoldable pub close_temp : F.State → Text → Option Text × F.State
  close_temp s temp =
      let (closed, s') = F.close_file s temp in
      if closed then (some temp, s') else (none, (F.remove_file s' temp).1)

  -- writeTemp from `if sync` on
  unfoldable pub sync_temp : F.State → Text → Bool → Option Text × F.State
  unfolding close_temp
  sync_temp s temp false = close_temp s temp
  sync_temp s temp true =
      let (synced, s') = F.sync_file s temp in
      if synced then close_temp s' temp else give_up_temp s' temp

  -- writeTemp once it has a temporary file
  unfoldable pub fill_temp : F.State → Text → Bytes → Bool → Option Text × F.State
  unfolding sync_temp
  fill_temp s temp d sync =
      let (written, s1) = F.write_to s temp d in
      let (changed, s2) = F.chmod s1 temp in
      if not written
      then give_up_temp s1 temp
      else if not changed
      then give_up_temp s2 temp
      else sync_temp s2 temp sync

  -- writeTemp
  unfoldable pub write_temp : F.State → Bytes → Bool → Option Text × F.State
  unfolding fill_temp
  write_temp s d sync = elim (F.create_temp s) [
    | none ↦ (none, s)
    | some made ↦ fill_temp made.1 made.0 d sync
  ]

  -- Replace and WriteFile behind writeTemp, with the deferred `os.Remove`.
  unfoldable pub commit_temp : F.State → Text → Text → Bool → Bool × F.State
  commit_temp s temp path durable =
      let (renamed, s') = F.rename s temp path in
      let synced = if durable then F.sync_dir s' else true in
      (renamed && synced, (F.remove_file s' temp).1)

  -- Replace, and WriteFile where `durable` is true.
  unfoldable pub replace : F.State → Text → Bytes → Bool → Bool × F.State
  unfolding write_temp commit_temp
  replace s path d durable =
      let (made, s') = write_temp s d durable in
      elim made [ none ↦ (false, s') | some temp ↦ commit_temp s' temp path durable ]

  -- LocalBackendPod; its counters wrap as an int64.
  pub record LocalBackendPod : Type 0 where
    pub pod_name : Text
    pub directory : F.State
    pub pod_priority : ℕ
    pub chunks_stored : ℤ
    pub bytes_stored : ℤ

  -- StoreChunk
  unfoldable pub store_chunk : LocalBackendPod → Text → Bytes → Bool × LocalBackendPod
  unfolding replace
  store_chunk p c d =
      let (stored, s) = replace p.directory (F.join c) d false in
      if stored
      then (
        true,
        record p {
          directory = s;
          chunks_stored = inc64 p.chunks_stored;
          bytes_stored = add64 (length d) p.bytes_stored;
        },
      )
      else (false, record p { directory = s })

  -- RetrieveChunk
  unfoldable pub retrieve_chunk : LocalBackendPod → Text → Option Bytes
  retrieve_chunk p c = elim (F.read_file p.directory (F.join c)) [
    | contents d ↦ some d
    | not_exist ↦ none
    | io_error ↦ none
  ]

  -- HasChunk
  unfoldable pub has_chunk : LocalBackendPod → Text → Bool
  has_chunk p c = F.file_exists p.directory (F.join c)

  -- DeleteChunk: a chunk that is not there counts as deleted.
  unfoldable pub delete_chunk : LocalBackendPod → Text → Bool × LocalBackendPod
  delete_chunk p c =
      let (gone, s) = F.remove_file p.directory (F.join c) in
      elim gone [
        | removed ↦ (true, record p { directory = s; chunks_stored = dec64 p.chunks_stored })
        | was_absent ↦ (true, record p { directory = s })
        | remove_failed ↦ (false, record p { directory = s })
      ]

  -- The loop of ListChunks.
  unfoldable pub chunk_names : List (Text × Bool) → List Text
  unfolding is_temp
  chunk_names [] = []
  chunk_names ((name, is_dir) ∷ entries) =
      let rest = chunk_names entries in
      if is_dir || name == bytes ".health_check" || is_temp name then rest else name ∷ rest

  -- ListChunks
  unfoldable pub list_chunks : LocalBackendPod → Option (List Text)
  unfolding chunk_names
  list_chunks p = elim (F.read_dir p.directory) [
    | none ↦ none
    | some entries ↦ some (chunk_names entries)
  ]

  -- Stats
  unfoldable pub stats : LocalBackendPod → BackendStats
  stats p = record {
    bytes_used = p.bytes_stored;
    bytes_free = elim (F.free_bytes p.directory) [ none ↦ negsuc 0 | some n ↦ n ];
    chunks_stored = p.chunks_stored;
  }

  -- Health: it writes a file and removes it.
  unfoldable pub health : LocalBackendPod → Bool × LocalBackendPod
  health p =
      let (written, s) = F.write_file p.directory (F.join (bytes ".health_check")) (bytes "ok") in
      if written
      then (true, record p { directory = (F.remove_file s (F.join (bytes ".health_check"))).1 })
      else (false, record p { directory = s })

  -- Info
  unfoldable pub info : LocalBackendPod → BackendInfo × LocalBackendPod
  unfolding health
  info p =
      let (healthy, p') = health p in
      (
        record {
          name = p.pod_name;
          backend_type = local;
          status = if healthy then online else offline;
          priority = p.pod_priority;
        },
        p',
      )

  -- NewLocalBackendPod, on a directory that has been made
  unfoldable pub new_local_backend_pod : Text → F.State → ℕ → LocalBackendPod
  unfolding list_chunks
  new_local_backend_pod name dir priority =
      let pod : LocalBackendPod = record {
        pod_name = name;
        directory = dir;
        pod_priority = priority;
        chunks_stored = pos 0;
        bytes_stored = pos 0;
      } in
      elim (list_chunks pod) [
        | none ↦ pod
        | some chunks ↦ record pod { chunks_stored = pos (length chunks) }
      ]

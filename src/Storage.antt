-- ===== src/Storage.antt =====
-- pkg/storage/interface.go: what a storage backend tells of itself, and the interface
-- `StorageBackend`; CalculateChecksum of pkg/storage/node.go.
use lilio.Prelude.{Bool, Eq, List, Option, Text, false, some, true, ℕ, ℤ, ◌≡◌, ◌≢◌}

-- The bytes of a chunk.
abbrev pub Bytes : Type 0
Bytes = List ℕ

pub data BackendType : Type 0 where
  local gdrive dropbox s3 sftp remote : BackendType

pub data BackendStatus : Type 0 where
  online offline degraded : BackendStatus

-- What Stats tells, without the time.
pub record BackendStats : Type 0 where
  pub bytes_used : ℤ
  pub bytes_free : ℤ
  pub chunks_stored : ℤ

-- What a backend tells of itself; its priority is taken not to be negative.
pub record BackendInfo : Type 0 where
  pub name : Text
  pub backend_type : BackendType
  pub status : BackendStatus
  pub priority : ℕ

unfoldable pub type_discrete : Discrete BackendType
type_discrete = hlevel

instance unfoldable pub type_eq : Eq BackendType
unfolding type_discrete
type_eq = record { dec = type_discrete }

-- `info.Status == StatusOnline`
abbrev pub is_online : BackendInfo → Bool
is_online i = elim (i.status) [ online ↦ true | offline ↦ false | degraded ↦ false ]

-- The interface `StorageBackend`. StoreChunk and DeleteChunk return whether they succeeded (a nil
-- error) beside the state they leave; of the others it has the answer, where `none` is an error.
-- What a backend changes in itself to give an answer is in its own module only: the file that the
-- local backend's Health writes and removes, the flag that the remote one sets on every call.
pub record StorageBackend : Type 1 where
  pub State : Type 0
  pub info : State → BackendInfo
  pub health : State → Bool
  pub store_chunk : State → Text → Bytes → Bool × State
  pub retrieve_chunk : State → Text → Option Bytes
  pub delete_chunk : State → Text → Bool × State
  pub has_chunk : State → Text → Bool
  pub list_chunks : State → Option (List Text)
  pub stats : State → Option BackendStats

-- What the coordinator relies on, for the chunk IDs that pass a test. A chunk that was stored is
-- read back, a store that fails and a store of another chunk leave what is read alone (writes are
-- atomic), a delete leaves other chunks alone, and a backend keeps its name.
pub record IsLawful (B : StorageBackend) (ids : Text → Bool) : Type 0 where
  pub retrieve-store :
      (s : B.State) (c : Text) (d : Bytes)
      → ids c ≡ true
      → (B.store_chunk s c d).0 ≡ true
      → B.retrieve_chunk (B.store_chunk s c d).1 c ≡ some d
  pub retrieve-store_failed :
      (s : B.State) (c : Text) (d : Bytes)
      → ids c ≡ true
      → (B.store_chunk s c d).0 ≡ false
      → B.retrieve_chunk (B.store_chunk s c d).1 c ≡ B.retrieve_chunk s c
  pub retrieve-store_ne :
      (s : B.State) (c c' : Text) (d : Bytes)
      → ids c ≡ true
      → ids c' ≡ true
      → c' ≢ c
      → B.retrieve_chunk (B.store_chunk s c d).1 c' ≡ B.retrieve_chunk s c'
  pub retrieve-delete_ne :
      (s : B.State) (c c' : Text)
      → ids c ≡ true
      → ids c' ≡ true
      → c' ≢ c
      → B.retrieve_chunk (B.delete_chunk s c).1 c' ≡ B.retrieve_chunk s c'
  pub name-store :
      (s : B.State) (c : Text) (d : Bytes) → (B.info (B.store_chunk s c d).1).name ≡ (B.info s).name

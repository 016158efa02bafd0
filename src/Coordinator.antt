-- ===== src/Coordinator.antt =====
-- pkg/storage/lilio.go: the coordinator `Lilio`, its state and its errors. Each child module holds
-- a group of its methods, and the modules below those their properties.
pub mod Backends
pub mod Replicas
pub mod Objects
pub mod Scrub
pub mod Quorum
use lilio.Prelude.{
  Bool, List, Option, Text, [], hex, if◌then◌else◌, ltb, none, pos, some, ℕ, ℤ, ◌++◌, ◌+◌, ◌/◌,
  ◌||◌, ◌∷◌,
}
use lilio.Prelude.Dict.{Dict}
use lilio.Storage.{Bytes, StorageBackend}
use lilio.Metadata.{MetaError, MetadataStore}
use lilio.Crypto.{Cipher, Encryptor}
use lilio.Ring.{HashRing, new_hash_ring}

-- What the coordinator is built on: a metadata store, a kind of backend, and the hashes and the
-- cipher of Go's library.
pub record Platform : Type 1 where
  pub store : MetadataStore
  pub backend : StorageBackend
  pub cipher : Cipher
  pub sha256 : Text → Bytes
  pub md5 : Bytes → Bytes

-- What the source's methods record through `metrics.Collector`.
pub data Metric : Type 0 where
  quorum_write : Bool → ℕ → ℕ → Metric
  quorum_read : Bool → ℕ → ℕ → Metric
  chunk_stored : Text → ℕ → Metric
  chunk_retrieved : Text → ℕ → Metric
  chunk_deleted : Text → Metric
  read_repaired : Text → Metric
  object_put : Text → ℕ → Metric
  object_got : Text → ℕ → Metric
  object_deleted : Text → Metric
  backend_health : Text → Bool → Metric

pub data LilioError : Type 0 where
  from_store : MetaError → LilioError
  no_such_bucket bucket_locked bucket_not_encrypted invalid_password bad_encryptor : LilioError
  read_failed encryption_failed no_backends no_healthy_backends quorum_failed : LilioError
  concurrent_write placement_diverges : LilioError
  cancelled no_intact_replica decryption_failed writer_failed checksum_failed : LilioError

pub record QuorumConfig : Type 0 where
  pub n : ℕ
  pub w : ℕ

-- DefaultQuorum, on a replication factor that is not negative
unfoldable pub default_quorum : ℕ → QuorumConfig
default_quorum rf = record { n = rf; w = rf / 2 + 1 }

-- The choice of a quorum in NewLilioInstance; the factor itself is not compared with it.
unfoldable pub choose_quorum : Option QuorumConfig → ℕ → Option QuorumConfig
unfolding default_quorum
choose_quorum none rf = some (default_quorum rf)
choose_quorum (some q) rf =
    if ltb q.n 1 then none else if ltb q.w 1 || ltb q.n q.w then none else some q

pub record FailedBackend : Type 0 where
  pub name : Text
  pub kind : Text
  pub priority : ℤ
  pub message : Text

pub record Lilio (P : Platform) : Type 0 where
  pub chunk_size : ℕ
  pub replication_factor : ℕ
  pub registry : Dict Text (P.backend.State)
  pub failed_backends : Dict Text FailedBackend
  pub metadata : P.store.State
  pub hash_ring : HashRing
  pub metrics : List Metric
  pub encryptors : Dict Text Encryptor
  pub quorum : QuorumConfig

-- CalculateChecksum (pkg/storage/node.go)
unfoldable pub checksum_of : Platform → Bytes → Text
unfolding hex
checksum_of P d = hex (P.md5 d)

module _ {P : Platform} where
  abbrev pub record_metric : Metric → Lilio P → Lilio P
  record_metric m l = record l { metrics = l.metrics ++ m ∷ [] }

  -- NewLilioInstance, on a metadata store that has been opened; none if the quorum is refused.
  unfoldable pub new_lilio : P.store.State → Option QuorumConfig → ℕ → ℕ → Option (Lilio P)
  unfolding choose_quorum new_hash_ring
  new_lilio m q chunk_size replication_factor = elim (choose_quorum q replication_factor) [
    | none ↦ none
    | some quorum ↦ some (record {
      chunk_size = chunk_size;
      replication_factor = replication_factor;
      registry = [];
      failed_backends = [];
      metadata = m;
      hash_ring = new_hash_ring (pos 150);
      metrics = [];
      encryptors = [];
      quorum = quorum;
    })
  ]

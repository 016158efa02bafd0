-- ===== src/Tests/Old.antt =====
-- Tests of the methods of pkg/storage/lilio.go that make a coordinator or are no longer called.
use lilio.Prelude.{[], bytes, false, hex, is_ok, ok, pos, refl, ◌≡◌}
use lilio.Metadata.{ObjectMetadata}
use lilio.Metadata.Memory.{MemoryStore, compare_and_save, get_object}
use lilio.Coordinator.{Lilio, Platform}
use lilio.Coordinator.Objects.Old.{get_object_old, get_object_old_fails}
use lilio.Tests.Platforms.{small, zeros}
use lilio.Tests.Stores.{a_bucket, object}

-- The sizes of real MD5 and SHA-256 hashes.
abbrev sized : Platform
sized = record small { md5 = λ d. zeros 16; sha256 = λ t. zeros 32 }

abbrev stored : ObjectMetadata
stored = record (object (bytes "a") (bytes "k") 0) { checksum = hex (zeros 32) }

abbrev filled : MemoryStore
filled = (compare_and_save a_bucket stored (pos 0)).1

abbrev old_client : Lilio sized
unfolding lilio.Metadata.Memory.memory_store
old_client = record {
  chunk_size = 4;
  replication_factor = 2;
  registry = [];
  failed_backends = [];
  metadata = filled;
  hash_ring = record {
    ring = [];
    position_to_node = [];
    node_to_positions = [];
    virtual_nodes = 1;
  };
  metrics = [];
  encryptors = [];
  quorum = record { n = 2; w = 2 };
}

found : get_object filled (bytes "a") (bytes "k") ≡ ok (record stored { revision = pos 1 })
unfolding get_object lilio.Prelude.Dict.lookup compare_and_save lilio.Prelude.int_eq a_bucket
    lilio.Prelude.Dict.has_key lilio.Prelude.Dict.insert lilio.Prelude.text_eq
    lilio.Metadata.Memory.full_key lilio.Prelude.inc64
found = refl

old_read_fails : is_ok (get_object_old old_client (bytes "a") (bytes "k")).0 ≡ false
unfolding lilio.Metadata.Memory.memory_store get_object old_client compare_and_save
old_read_fails =
    get_object_old_fails sized (λ d. refl) (λ t. refl) old_client (bytes "a") (bytes "k")
      (record stored { revision = pos 1 }) [] found refl

-- ===== src/Coordinator/Backends/Stats.antt =====
-- GetStorageStats of pkg/storage/lilio.go.
use lilio.Prelude.{
  List, Option, Text, [], any, arith, int_eq, nat_eq, none, pos, refl, some, text_eq, ℤ, ◌==◌, ◌||◌,
  ◌∙◌, ◌∷◌, ◌≡◌,
}
use lilio.Prelude.Dict.{Dict, has_key, insert, values}
use lilio.Prelude.Sorting.{any-sort_slice}
use lilio.Registry
use lilio.Storage.{BackendStats, BackendStatus, BackendType}
use lilio.Coordinator.{Lilio, Platform}

-- The inner map; `path` holds the backend's type.
pub record NodeStats : Type 0 where
  pub node_id : Text
  pub path : BackendType
  pub status : BackendStatus
  pub chunks_stored : ℤ
  pub bytes_stored : ℤ

-- The zero value that a Stats with an error leaves
abbrev stats_or_zero : Option BackendStats → BackendStats
stats_or_zero none = record { bytes_used = pos 0; bytes_free = pos 0; chunks_stored = pos 0 }
stats_or_zero (some s) = s

module _ (P : Platform) where
  abbrev pub node_stats : P.backend.State → NodeStats
  node_stats b =
      let info = P.backend.info b in
      let s = stats_or_zero (P.backend.stats b) in
      record {
        node_id = info.name;
        path = info.backend_type;
        status = info.status;
        chunks_stored = s.chunks_stored;
        bytes_stored = s.bytes_used;
      }

  -- The loop of GetStorageStats
  unfoldable pub collect_stats : List P.backend.State → Dict Text NodeStats → Dict Text NodeStats
  collect_stats [] stats = stats
  collect_stats (b ∷ bs) stats =
      collect_stats bs (insert (P.backend.info b).name (node_stats b) stats)

  -- GetStorageStats
  unfoldable pub get_storage_stats : Lilio P → Dict Text NodeStats
  unfolding collect_stats Registry.list
  get_storage_stats l = collect_stats (Registry.list P.backend l.registry) []

has_key-insert :
    (name node : Text) (s : NodeStats) (d : Dict Text NodeStats)
    → has_key name (insert node s d) ≡ (name == node || has_key name d)
unfolding has_key insert
has_key-insert name node s [] = ground arith
has_key-insert name node s (_ ∷ d) = ground (arith, has_key-insert name node s d)

module _ (P : Platform) where
  has_key-collect_stats :
      (name : Text) (bs : List P.backend.State) (d : Dict Text NodeStats)
      → has_key name (collect_stats P bs d)
        ≡ (any (λ b. name == (P.backend.info b).name) bs || has_key name d)
  unfolding collect_stats
  has_key-collect_stats name [] d = refl
  has_key-collect_stats name (b ∷ bs) d =
      let node = (P.backend.info b).name in
      ground (
        arith,
        has_key-collect_stats name bs (insert node (node_stats P b) d),
        has_key-insert name node (node_stats P b) d,
      )

  -- GetStorageStats has an entry for the name that each registered backend gives, whether its
  -- Stats succeeds or not, and for no other name.
  pub has_key-get_storage_stats :
      (l : Lilio P) (name : Text)
      → has_key name (get_storage_stats P l)
        ≡ any (λ b. name == (P.backend.info b).name) (values l.registry)
  unfolding get_storage_stats Registry.list has_key
  has_key-get_storage_stats l name =
      has_key-collect_stats name (Registry.list P.backend l.registry) []
      ∙ ground (
        arith,
        any-sort_slice (Registry.before P.backend) (λ b. name == (P.backend.info b).name)
            (values l.registry),
      )

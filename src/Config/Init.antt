-- ===== src/Config/Init.antt =====
-- cmd/lilio/server.go: initFromConfig, which makes a running coordinator of a configuration, and
-- NewCollector of pkg/metrics/factory.go.
pub mod Loop
pub mod Starting
use lilio.Prelude.{
  Bool, List, Option, Text, [], bytes, if◌then◌else◌, int_eq, length, nat_eq, none, not, some,
  text_eq, true, ℤ, ◌+◌, ◌==◌, ◌||◌, ◌∷◌,
}
use lilio.Coordinator.{Lilio, Platform, new_lilio}
use lilio.Coordinator.Backends.{add_backend, track_failed_backend}
use lilio.Registry
use lilio.Config.{
  Config, MetricsSetting, ScrubSetting, StorageSetting, TextTools, interval_duration,
  parse_chunk_size, validate,
}
use lilio.Config.Start.{
  BackendChoice, StoreChoice, create_backend, metadata_config, quorum_config, to_nat,
}

-- NewCollector, on what metricsConfig makes of the metrics section: false is an error.
unfoldable pub new_collector : Option MetricsSetting → Bool
new_collector none = true
new_collector (some m) =
    not m.enabled || m.kind == bytes "prometheus" || m.kind == [] || m.kind == bytes "nouse"

-- What a coordinator finds where it starts: the metadata store and the backends that their
-- constructors open, or none, and the text of the error that a storage met.
pub record Host (P : Platform) : Type 0 where
  pub open_store : StoreChoice → Option P.store.State
  pub open_backend : BackendChoice → Option P.backend.State
  pub error_text : StorageSetting → Text

module _ {P : Platform} (T : TextTools) where
  -- initFromConfig behind the loop: there has to be a backend, be it a failed one, and the
  -- interval of the scrubber that is started has to be a duration.
  unfoldable pub check_started : Option ScrubSetting → Lilio P → Option (Lilio P)
  unfolding Registry.count
  check_started scrub l =
      if Registry.count P.backend l.registry + length l.failed_backends == 0
      then none
      else elim scrub [
        | none ↦ some l
        | some s ↦
            if s.enabled
            then elim (interval_duration T s) [ none ↦ none | some interval ↦ some l ]
            else some l
      ]

module _ {P : Platform} (T : TextTools) (H : Host P) where
  -- createBackend with the constructor that it calls
  unfoldable pub opened : StorageSetting → Option P.backend.State
  unfolding create_backend
  opened s = elim (create_backend T s) [ none ↦ none | some choice ↦ H.open_backend choice ]

  -- The call of TrackFailedBackend
  abbrev pub track : Lilio P → StorageSetting → Lilio P
  track l s = track_failed_backend l s.name s.kind s.priority (H.error_text s)

  -- The body of initFromConfig's loop over the storages
  unfoldable pub start_storage : Lilio P → StorageSetting → Lilio P
  unfolding opened
  start_storage l s = elim (opened s) [
    | none ↦ track l s
    | some b ↦ let (added, l') = add_backend l b in if added then l' else track l' s
  ]

  -- The loop
  unfoldable pub start_storages : Lilio P → List StorageSetting → Lilio P
  unfolding start_storage
  start_storages l [] = l
  start_storages l (s ∷ storages) = start_storages (start_storage l s) storages

  -- initFromConfig from NewLilioInstance on. A chunk size that is negative, which no test refuses,
  -- is 0 here.
  unfoldable pub init_with : Config → ℤ → Option P.store.State → Option (Lilio P)
  unfolding start_storages check_started new_collector
  init_with c size none = none
  init_with c size (some m) =
      elim (new_lilio m (quorum_config c) (to_nat size) (to_nat c.replication_factor)) [
        | none ↦ none
        | some l ↦
            if new_collector c.metrics
            then check_started T c.scrub (start_storages l c.storages)
            else none
      ]

  -- initFromConfig, with the tests of Load on the configuration that it has decoded
  unfoldable pub init_from_config : Config → Option (Lilio P)
  unfolding init_with
  init_from_config c = if not (validate T c) then none else elim (parse_chunk_size T c.chunk_size) [
    | none ↦ none
    | some size ↦ elim (metadata_config T c) [
      | none ↦ none
      | some choice ↦ init_with c size (H.open_store choice)
    ]
  ]

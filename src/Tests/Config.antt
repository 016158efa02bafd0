-- ===== src/Tests/Config.antt =====
-- A test of pkg/config/config.go.
use lilio.Prelude.{
  Option, Text, [], bytes, arith, contains, false, if◌then◌else◌, int_eq, is_some, nat_eq, none,
  pos, refl, some, text_eq, true, ◌==◌, ◌∷◌, ◌≡◌,
}
use lilio.Prelude.Distinct.{Distinct}
use lilio.Metadata.Memory.{memory_store, new_memory_store}
use lilio.Coordinator.{Lilio, choose_quorum}
use lilio.Config.{
  Config, StorageSetting, TextTools, default_config, no_number, number_and_unit, parse_chunk_size,
  validate,
}
use lilio.Config.Start.{
  BackendChoice, gdrive_folder, local_at, remote_choice, remote_node, create_backend, local_pod,
  metadata_config, quorum_config,
}
use lilio.Config.Storages.{get_storage}
use lilio.Config.Init.{Host, init_from_config, opened}
use lilio.Coordinator.Backends.Agreeing.{RingAgrees}
use lilio.Config.Init.Loop.{known, outcome}
use lilio.Config.Init.Starting.{init_from_config_lem}
use lilio.Tests.Platforms.{Disk, small}
use lilio.Config.Accepted.{names_of, validate_lem}

abbrev tools : TextTools
tools = record {
  trim_space = λ t. t;
  to_upper = λ t. t;
  parse_duration = λ t. none;
  scan_size = λ t. if t == bytes "2MB" then number_and_unit (pos 2) (bytes "MB") else no_number;
}

abbrev disk_setting : Text → StorageSetting
disk_setting name = record {
  name = name;
  kind = bytes "local";
  priority = pos 0;
  options = λ key. none;
}

abbrev config : Config
config = record default_config {
  quorum = some (record { n = pos 0; w = pos 2 });
  storages = disk_setting (bytes "d1") ∷ disk_setting (bytes "d2") ∷ [];
}

two_megabytes : parse_chunk_size tools (bytes "2MB") ≡ some (pos 2097152)
unfolding parse_chunk_size text_eq
two_megabytes = refl

valid : validate tools config ≡ true
unfolding validate default_config text_eq
valid = refl

validate_lem_example :
    (is_some (choose_quorum (quorum_config config) 3) ≡ true)
    × (is_some (metadata_config tools config) ≡ true)
    × Distinct (names_of config.storages)
    × (contains (names_of config.storages) [] ≡ false)
unfolding default_config
validate_lem_example = validate_lem tools config valid

default_path :
    create_backend tools (disk_setting (bytes "d1"))
    ≡ some (local_pod (bytes "d1") (bytes "./lilio_data/storage/d1") (pos 0))
unfolding create_backend text_eq
default_path = refl

abbrev setting : Text → Text → StorageSetting
setting name kind = record (disk_setting name) { kind = kind }

-- A host whose disks open and that has no other kind of storage.
abbrev disks_of : BackendChoice → Option Disk
disks_of (local_pod name path priority) = some (record { label = name; up = true; held = [] })
disks_of (gdrive_folder name credentials token folder priority) = none
disks_of (remote_node name url priority timeout) = none

abbrev nothing_kept : small.store.State
unfolding memory_store
nothing_kept = new_memory_store

abbrev host : Host small
host = record {
  open_store = λ choice. some nothing_kept;
  open_backend = disks_of;
  error_text = λ s. bytes "failed";
}

abbrev two_kinds : Config
two_kinds = record config {
  chunk_size = bytes "2MB";
  storages = setting (bytes "d1") (bytes "local") ∷ setting (bytes "g1") (bytes "gdrive") ∷ [];
}

two_kinds_valid : validate tools two_kinds ≡ true
unfolding validate default_config text_eq
two_kinds_valid = refl

disks_named : (s : StorageSetting) (b : Disk) → opened tools host s ≡ some b → b.label ≡ s.name
unfolding opened create_backend remote_choice
disks_named s b h = ground arith

sized : parse_chunk_size tools two_kinds.chunk_size ≡ some (pos 2097152)
unfolding parse_chunk_size default_config text_eq
sized = refl

chosen : metadata_config tools two_kinds ≡ some (local_at (bytes "./lilio_data/metadata"))
unfolding metadata_config default_config text_eq
chosen = refl

init_from_config_lem_example :
    (l : Lilio small) × (init_from_config tools host two_kinds ≡ some l)
    × RingAgrees l
    × ((name : Text)
        → known l name ≡ (elim (get_storage two_kinds name) [
          | none ↦ (none, false)
          | some s ↦ outcome (opened tools host s)
        ]))
init_from_config_lem_example =
    init_from_config_lem tools host disks_named two_kinds (pos 2097152)
      (local_at (bytes "./lilio_data/metadata")) nothing_kept two_kinds_valid sized chosen refl
      (λ e. ground arith)

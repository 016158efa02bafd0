-- ===== src/Config/Start.antt =====
-- cmd/lilio/server.go: what initFromConfig makes of the quorum, of the metadata section and
-- of each storage.
use lilio.Prelude.{
  Option, Text, [], bytes, if◌then◌else◌, int_eq, nat_eq, negsuc, none, pos, some, text_eq, ℕ, ℤ,
  ◌++◌, ◌==◌, ◌||◌,
}
use lilio.Metadata.Etcd.{EtcdConfig}
use lilio.Coordinator.{QuorumConfig}
use lilio.Config.{
  Config, EtcdSetting, MetadataSetting, StorageSetting, TextTools, dial_timeout_duration,
  effective_n, get_option,
}

-- A number of the configuration as the coordinator has it: no less than 0, as Validate accepts
-- the replication factor and the quorum.
abbrev pub to_nat : ℤ → ℕ
to_nat (pos n) = n
to_nat (negsuc n) = 0

-- quorumConfig
unfoldable pub quorum_config : Config → Option QuorumConfig
unfolding effective_n
quorum_config c = elim (c.quorum) [
  | none ↦ none
  | some q ↦ some (record { n = to_nat (effective_n q c.replication_factor); w = to_nat q.w })
]

-- The metadata store that is asked for.
pub data StoreChoice : Type 0 where
  local_at : Text → StoreChoice
  in_memory_store : StoreChoice
  etcd_with : EtcdConfig → StoreChoice

-- The local case of metadataConfig
unfoldable pub local_choice : Text → Option MetadataSetting → StoreChoice
local_choice path none = local_at path
local_choice path (some m) = elim (m.local_path) [
  | none ↦ local_at path
  | some p ↦ local_at (if p == [] then path else p)
]

-- The etcd case of metadataConfig; the timeout counts nanoseconds here.
unfoldable pub etcd_choice : TextTools → Option EtcdSetting → Option StoreChoice
unfolding dial_timeout_duration
etcd_choice T none = none
etcd_choice T (some e) = elim (dial_timeout_duration T e) [
  | none ↦ none
  | some d ↦ some (
      etcd_with (record {
        endpoints = e.endpoints;
        dial_timeout = to_nat d;
        username = e.username;
        password = e.password;
        prefix = e.prefix;
      }))
]

-- metadataConfig
unfoldable pub metadata_config : TextTools → Config → Option StoreChoice
unfolding local_choice etcd_choice
metadata_config T c =
    let path = if c.metadata_path == [] then bytes "./lilio_data/metadata" else c.metadata_path in
    elim (c.metadata) [
      | none ↦ some (local_choice path none)
      | some m ↦
          if m.kind == [] || m.kind == bytes "local"
          then some (local_choice path (some m))
          else if m.kind == bytes "memory"
          then some in_memory_store
          else if m.kind == bytes "etcd"
          then etcd_choice T m.etcd
          else none
    ]

-- The backend that a storage asks for; a timeout of 0 leaves it to the backend.
pub data BackendChoice : Type 0 where
  local_pod : Text → Text → ℤ → BackendChoice
  gdrive_folder : Text → Text → Text → Text → ℤ → BackendChoice
  remote_node : Text → Text → ℤ → ℤ → BackendChoice

-- The remote case of createBackend
unfoldable pub remote_choice : TextTools → StorageSetting → Option BackendChoice
unfolding get_option
remote_choice T c =
    let url = get_option c (bytes "url") [] in
    let t = get_option c (bytes "timeout") [] in
    if url == []
    then none
    else if t == []
    then some (remote_node c.name url c.priority (pos 0))
    else elim (T.parse_duration t) [
      | none ↦ none
      | some d ↦ some (remote_node c.name url c.priority d)
    ]

-- createBackend; none is an error.
unfoldable pub create_backend : TextTools → StorageSetting → Option BackendChoice
unfolding get_option remote_choice
create_backend T c =
    let path = get_option c (bytes "path") (bytes "./lilio_data/storage/" ++ c.name) in
    let credentials = get_option c (bytes "credentials") [] in
    let default_token = bytes "./lilio_data/tokens/" ++ c.name ++ bytes "_token.json" in
    let token = get_option c (bytes "token_path") default_token in
    let folder = get_option c (bytes "folder_id") [] in
    if c.kind == bytes "local"
    then some (local_pod c.name path c.priority)
    else if c.kind == bytes "gdrive"
    then (if credentials == []
        then none
        else some (gdrive_folder c.name credentials token folder c.priority))
    else if c.kind == bytes "remote"
    then remote_choice T c
    else none

-- ===== src/Config.antt =====
-- pkg/config/config.go: the configuration file once it is decoded, and what cmd/lilio/server.go
-- makes of it. The texts of errors are left out: false or none stands for an error.
pub mod Storages
pub mod Start
pub mod Accepted
pub mod Init
use lilio.Prelude.{
  Bool, List, Option, Text, [], bytes, contains, false, if◌then◌else◌, int_eq, length, ltb, nat_eq,
  negsuc, none, not, pos, some, text_eq, true, ℕ, ℤ, ◌%◌, ◌&&◌, ◌*◌, ◌+◌, ◌-◌, ◌==◌, ◌||◌, ◌∷◌,
}

-- The functions of Go's library on texts: `strings.TrimSpace` and `ToUpper`, `time.ParseDuration`
-- in nanoseconds, and what `fmt.Sscanf` finds with the format "%d%s".
pub data Scan : Type 0 where
  no_number : Scan
  only_number : ℤ → Scan
  number_and_unit : ℤ → Text → Scan

pub record TextTools : Type 0 where
  pub trim_space : Text → Text
  pub to_upper : Text → Text
  pub parse_duration : Text → Option ℤ
  pub scan_size : Text → Scan

-- QuorumConfig; `R` is ignored.
pub record QuorumSetting : Type 0 where
  pub n : ℤ
  pub w : ℤ

pub record EtcdSetting : Type 0 where
  pub endpoints : List Text
  pub prefix : Text
  pub dial_timeout : Text
  pub username : Text
  pub password : Text

-- MetadataConfig; `local_path` is none where the local section is missing.
pub record MetadataSetting : Type 0 where
  pub kind : Text
  pub local_path : Option Text
  pub etcd : Option EtcdSetting

pub record ScrubSetting : Type 0 where
  pub enabled : Bool
  pub interval : Text
  pub deep : Bool

pub record MetricsSetting : Type 0 where
  pub enabled : Bool
  pub kind : Text

-- StorageConfig; a missing map of options is an empty one.
pub record StorageSetting : Type 0 where
  pub name : Text
  pub kind : Text
  pub priority : ℤ
  pub options : Text → Option Text

pub record Config : Type 0 where
  pub chunk_size : Text
  pub replication_factor : ℤ
  pub quorum : Option QuorumSetting
  pub metadata_path : Text
  pub api_port : ℤ
  pub metadata : Option MetadataSetting
  pub metrics : Option MetricsSetting
  pub scrub : Option ScrubSetting
  pub storages : List StorageSetting

-- DefaultConfig
unfoldable pub default_config : Config
default_config = record {
  chunk_size = bytes "1MB";
  replication_factor = pos 3;
  quorum = none;
  metadata_path = bytes "./lilio_data/metadata";
  api_port = pos 8080;
  metadata = none;
  metrics = none;
  scrub = none;
  storages = [];
}

-- `a < b` on integers
unfoldable pub less_int : ℤ → ℤ → Bool
less_int (pos a) (pos b) = ltb a b
less_int (pos a) (negsuc b) = false
less_int (negsuc a) (pos b) = true
less_int (negsuc a) (negsuc b) = ltb b a

-- EffectiveN
unfoldable pub effective_n : QuorumSetting → ℤ → ℤ
unfolding less_int
effective_n q factor = if less_int (pos 0) q.n then q.n else factor

-- GetOption
unfoldable pub get_option : StorageSetting → Text → Text → Text
get_option s key default = elim (s.options key) [ none ↦ default | some v ↦ v ]

-- 2 ^ 64 and half of it
abbrev pub word : ℕ
word = 18446744073709551616

abbrev pub half_word : ℕ
half_word = 9223372036854775808

-- A product on 64 bits: `x * (k + 1)`, wrapped.
unfoldable pub times64 : ℤ → ℕ → ℤ
times64 (pos n) k =
    let m = n * (k + 1) % word in if ltb m half_word then pos m else negsuc (word - 1 - m)
times64 (negsuc n) k =
    let m = ((n + 1) * (k + 1) - 1) % word in
    if ltb m half_word then negsuc m else pos (word - 1 - m)

-- The unit of ParseChunkSize
unfoldable pub scale : ℤ → Text → Option ℤ
unfolding times64
scale value unit =
    if unit == bytes "B"
    then some value
    else if unit == bytes "KB" || unit == bytes "K"
    then some (times64 value 1023)
    else if unit == bytes "MB" || unit == bytes "M"
    then some (times64 value 1048575)
    else if unit == bytes "GB" || unit == bytes "G"
    then some (times64 value 1073741823)
    else none

-- The tests of Validate on the quorum
unfoldable pub quorum_valid : ℤ → Option QuorumSetting → Bool
unfolding effective_n less_int
quorum_valid factor none = true
quorum_valid factor (some q) =
    not (less_int q.w (pos 1)) && not (less_int (effective_n q factor) q.w)

-- The tests of Validate on the metrics section
unfoldable pub metrics_valid : Option MetricsSetting → Bool
metrics_valid none = true
metrics_valid (some m) =
    not m.enabled || m.kind == [] || m.kind == bytes "prometheus" || m.kind == bytes "nouse"

abbrev pub storage_types : List Text
storage_types =
    bytes "local"
    ∷ bytes "gdrive"
    ∷ bytes "dropbox"
    ∷ bytes "s3"
    ∷ bytes "sftp"
    ∷ bytes "remote"
    ∷ []

module _ (T : TextTools) where
  -- DialTimeoutDuration
  unfoldable pub dial_timeout_duration : EtcdSetting → Option ℤ
  dial_timeout_duration e =
      if e.dial_timeout == [] then some (pos 5000000000) else T.parse_duration e.dial_timeout

  -- IntervalDuration
  unfoldable pub interval_duration : ScrubSetting → Option ℤ
  interval_duration s =
      if s.interval == [] then some (pos 21600000000000) else T.parse_duration s.interval

  -- ParseChunkSize
  unfoldable pub parse_chunk_size : Text → Option ℤ
  unfolding scale
  parse_chunk_size text =
      let size = T.trim_space text in
      if size == [] then some (pos 1048576) else elim (T.scan_size size) [
        | no_number ↦ none
        | only_number value ↦ some value
        | number_and_unit value unit ↦ scale value (T.to_upper (T.trim_space unit))
      ]

  -- The tests of Validate on the metadata section
  unfoldable pub metadata_valid : Option MetadataSetting → Bool
  unfolding dial_timeout_duration
  metadata_valid none = true
  metadata_valid (some m) =
      if m.kind == [] || m.kind == bytes "local" || m.kind == bytes "memory"
      then true
      else if m.kind == bytes "etcd"
      then elim (m.etcd) [
        | none ↦ false
        | some e ↦
            not (length e.endpoints == 0)
            && (elim (dial_timeout_duration e) [ none ↦ false | some d ↦ true ])
      ]
      else false

  -- The tests of Validate on the scrub section
  unfoldable pub scrub_valid : Option ScrubSetting → Bool
  unfolding interval_duration less_int
  scrub_valid none = true
  scrub_valid (some s) =
      if s.enabled
      then elim (interval_duration s) [ none ↦ false | some d ↦ not (less_int d (pos 60000000000)) ]
      else true

  -- The tests of Validate on the options of a remote storage
  unfoldable pub remote_valid : StorageSetting → Bool
  unfolding get_option
  remote_valid s =
      let timeout = get_option s (bytes "timeout") [] in
      not (get_option s (bytes "url") [] == [])
      && (timeout == [] || (elim (T.parse_duration timeout) [ none ↦ false | some d ↦ true ]))

  -- The loop of Validate over the storages; `seen` has the names so far.
  unfoldable pub storages_valid : List Text → List StorageSetting → Bool
  unfolding remote_valid
  storages_valid seen [] = true
  storages_valid seen (s ∷ storages) =
      not (s.name == [])
      && not (contains seen s.name)
      && contains storage_types s.kind
      && (not (s.kind == bytes "remote") || remote_valid s)
      && storages_valid (s.name ∷ seen) storages

  -- Validate
  unfoldable pub validate : Config → Bool
  unfolding quorum_valid metadata_valid scrub_valid metrics_valid storages_valid less_int
  validate c =
      not (less_int c.replication_factor (pos 1))
      && quorum_valid c.replication_factor c.quorum
      && metadata_valid c.metadata
      && scrub_valid c.scrub
      && metrics_valid c.metrics
      && storages_valid [] c.storages

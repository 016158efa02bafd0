-- ===== src/Coordinator/Scrub.antt =====
-- pkg/storage/scrub.go: the scrubber. The times in the report are left out.
pub mod Pass
pub mod Chunk
pub mod Repair
pub mod Keeps
pub mod Steps
pub mod Covers
pub mod Periodic
use lilio.Registry
use lilio.Prelude.{
  Bool, List, Option, Text, [], false, if◌then◌else◌, int_eq, length, nat_eq, none, some, text_eq,
  true, ℕ, ◌&&◌, ◌++◌, ◌==◌, ◌∷◌,
}
use lilio.Prelude.Dict.{Dict, lookup}
use lilio.Prelude.Sorting.{sort_strings}
use lilio.Storage.{Bytes}
use lilio.Metadata.{ChunkInfo}
use lilio.Coordinator.{Lilio, Platform, checksum_of, chunk_stored, record_metric}
use lilio.Coordinator.Replicas.{store_on}

pub record ScrubOptions : Type 0 where
  pub deep : Bool
  pub dry_run : Bool

pub record ChunkIssue : Type 0 where
  pub bucket : Text
  pub key : Text
  pub chunk_id : Text
  pub expected_on : List Text
  pub healthy_on : List Text
  pub repaired_on : List Text
  pub failed_on : List Text
  pub unrepairable : Bool

-- The texts in `report.Errors`, by what they tell.
pub data ScrubError : Type 0 where
  list_objects_failed : Text → ScrubError
  read_metadata_failed : Text → Text → ScrubError
  list_chunks_failed : Text → ScrubError

pub record ScrubReport : Type 0 where
  pub deep : Bool
  pub dry_run : Bool
  pub objects_scanned : ℕ
  pub chunks_scanned : ℕ
  pub chunks_healthy : ℕ
  pub chunks_repaired : ℕ
  pub chunks_unrepairable : ℕ
  pub replicas_restored : ℕ
  pub issues : List ChunkIssue
  pub orphan_chunks : Dict Text (List Text)
  pub errors : List ScrubError

-- ScrubReport.Healthy
unfoldable pub is_healthy : ScrubReport → Bool
is_healthy r = length r.issues == 0 && (r.chunks_unrepairable == 0 && length r.errors == 0)

-- What the first loop of scrubChunk finds out.
pub record Inspection : Type 0 where
  pub healthy : List Text
  pub damaged : List Text
  pub good_data : Option Bytes

abbrev pub note_damaged : Text → Inspection → Inspection
note_damaged name x = record x { damaged = x.damaged ++ name ∷ [] }

abbrev pub note_healthy : Text → Inspection → Inspection
note_healthy name x = record x { healthy = x.healthy ++ name ∷ [] }

-- `if goodData == nil { goodData = data }`
abbrev pub first_of_two : Option Bytes → Bytes → Option Bytes
first_of_two none d = some d
first_of_two (some e) d = some e

-- One replica under the deep check, which reads it.
unfoldable pub check_deep :
    (P : Platform) → ChunkInfo → Text → P.backend.State → Inspection → Inspection
unfolding checksum_of
check_deep P c name b x = elim (P.backend.retrieve_chunk b c.chunk_id) [
  | none ↦ note_damaged name x
  | some d ↦
      if checksum_of P d == c.checksum
      then record (note_healthy name x) { good_data = first_of_two x.good_data d }
      else note_damaged name x
]

-- One replica under the check of presence.
unfoldable pub check_present :
    (P : Platform) → ChunkInfo → Text → P.backend.State → Inspection → Inspection
check_present P c name b x =
    if P.backend.has_chunk b c.chunk_id then note_healthy name x else note_damaged name x

abbrev pub give_up : ChunkIssue → List Text → ChunkIssue
give_up issue damaged = record issue { unrepairable = true; failed_on = damaged }

abbrev pub nothing_seen : Inspection
nothing_seen = record { healthy = []; damaged = []; good_data = none }

-- The issue that scrubChunk starts from.
abbrev pub new_issue : Text → Text → ChunkInfo → Inspection → ChunkIssue
new_issue bucket key c x = record {
  bucket = bucket;
  key = key;
  chunk_id = c.chunk_id;
  expected_on = c.storage_nodes;
  healthy_on = sort_strings x.healthy;
  repaired_on = [];
  failed_on = [];
  unrepairable = false;
}

module _ {P : Platform} where
  -- The first loop of scrubChunk.
  unfoldable pub inspect : Lilio P → Bool → ChunkInfo → List Text → Inspection → Inspection
  unfolding check_deep check_present
  inspect l deep c [] x = x
  inspect l deep c (name ∷ names) x = elim (lookup name l.registry) [
    | none ↦ inspect l deep c names (note_damaged name x)
    | some b ↦
        inspect l deep c names
          (if deep then check_deep P c name b x else check_present P c name b x)
  ]

  -- fetchVerifiedChunk
  unfoldable pub fetch_verified_chunk : Lilio P → ChunkInfo → List Text → Option Bytes
  unfolding checksum_of
  fetch_verified_chunk l c [] = none
  fetch_verified_chunk l c (name ∷ names) =
      let rest = fetch_verified_chunk l c names in
      elim (lookup name l.registry) [
        | none ↦ rest
        | some b ↦ elim (P.backend.retrieve_chunk b c.chunk_id) [
          | none ↦ rest
          | some d ↦ if checksum_of P d == c.checksum then some d else rest
        ]
      ]

  -- The last loop of scrubChunk: the damaged replicas, and the issue that it fills in.
  unfoldable pub repair : Lilio P → Text → Bytes → List Text → ChunkIssue → ChunkIssue × Lilio P
  unfolding store_on
  repair l chunk_id d [] issue = (issue, l)
  repair l chunk_id d (name ∷ names) issue = elim (lookup name l.registry) [
    | none ↦ repair l chunk_id d names (record issue { failed_on = issue.failed_on ++ name ∷ [] })
    | some b ↦
        let (stored, l') = store_on l name b chunk_id d in
        repair (if stored then record_metric (chunk_stored name (length d)) l' else l') chunk_id d
          names
          (if stored
            then record issue { repaired_on = issue.repaired_on ++ name ∷ [] }
            else record issue { failed_on = issue.failed_on ++ name ∷ [] })
  ]

  -- scrubChunk once there is a damaged replica.
  unfoldable pub handle_damage :
      Lilio P
      → ScrubOptions
      → ChunkInfo
      → ChunkIssue
      → List Text
      → List Text
      → Option Bytes
      → ChunkIssue × Lilio P
  handle_damage l o c issue [] damaged good = (give_up issue damaged, l)
  handle_damage l o c issue (h ∷ hs) damaged good =
      if o.dry_run then (record issue { failed_on = damaged }, l) else elim good [
        | some d ↦ repair l c.chunk_id d damaged issue
        | none ↦ elim (fetch_verified_chunk l c (h ∷ hs)) [
          | none ↦ (give_up issue damaged, l)
          | some d ↦ repair l c.chunk_id d damaged issue
        ]
      ]

  -- scrubChunk behind its first loop; none where the chunk is fully replicated.
  unfoldable pub act_on :
      Lilio P → Text → Text → ChunkInfo → ScrubOptions → Inspection → Option ChunkIssue × Lilio P
  act_on l bucket key c o x =
      let (found, l') =
        handle_damage l o c (new_issue bucket key c x) (sort_strings x.healthy)
          (sort_strings x.damaged) x.good_data in
      elim (x.damaged) [ [] ↦ (none, l) | name ∷ names ↦ (some found, l') ]

  -- scrubChunk
  unfoldable pub scrub_chunk :
      Lilio P → Text → Text → ChunkInfo → ScrubOptions → Option ChunkIssue × Lilio P
  unfolding act_on
  scrub_chunk l bucket key c o =
      act_on l bucket key c o (inspect l o.deep c c.storage_nodes nothing_seen)

-- ===== src/Coordinator/Scrub/Chunk.antt =====
-- What scrubChunk of pkg/storage/scrub.go finds, and that it does no harm.
use mathlib.Core.List.{append_assoc, append-nil}
use lilio.Prelude.{
  Bool, Bool-cases, List, Option, Option-cases, Text, [], any, any-false_of_select, arith, false,
  inl, inr, int_eq, nat_eq, none, not, select, select-nil, some, sym, text_eq, true, ◌++◌, ◌==◌,
  ◌↔◌, ◌∷◌, ◌≡◌,
}
use lilio.Storage.{Bytes}
use lilio.Metadata.{ChunkInfo}
use lilio.Coordinator.{Lilio, Platform, checksum_of}
use lilio.Coordinator.Replicas.Reading.{is_intact, reads}
use lilio.Coordinator.Scrub.{
  Inspection, check_deep, check_present, fetch_verified_chunk, first_of_two, inspect, note_damaged,
  note_healthy, nothing_seen, scrub_chunk,
}

-- Bytes that may be copied: none, or bytes that match the checksum.
abbrev pub Verified : (P : Platform) → ChunkInfo → Option Bytes → Type 0
Verified P c none = Unit
Verified P c (some d) = checksum_of P d ≡ c.checksum

first_of_two-Verified :
    (P : Platform) (c : ChunkInfo) (o : Option Bytes) (d : Bytes)
    → Verified P c o
    → checksum_of P d ≡ c.checksum
    → Verified P c (first_of_two o d)
first_of_two-Verified P c none d h good = good
first_of_two-Verified P c (some e) d h good = h

module _ {P : Platform} where
  -- What the deep check finds on each replica, told by whether its copy is intact.
  pub inspect_deep :
      (l : Lilio P) (c : ChunkInfo) (names : List Text) (x : Inspection)
      → Verified P c x.good_data
      → let y = inspect l true c names x in
        (y.healthy ≡ x.healthy ++ select (is_intact l c) names)
        × (y.damaged ≡ x.damaged ++ select (λ n. not (is_intact l c n)) names)
        × Verified P c y.good_data
  unfolding inspect check_deep
  inspect_deep l c [] x good = (sym (append-nil _), sym (append-nil _), good)
  inspect_deep l c (name ∷ names) x good =
      let h = append_assoc x.healthy (name ∷ []) (select (is_intact l c) names) in
      let b = append_assoc x.damaged (name ∷ []) (select (λ n. not (is_intact l c n)) names) in
      let bad = inspect_deep l c names (note_damaged name x) good in
      elim (Option-cases (reads l name c.chunk_id)) [
        | inl silent ↦ ground (arith, bad, b)
        | inr (d, got) ↦ elim (Bool-cases (checksum_of P d == c.checksum)) [
          | inl good_sum ↦
              let y : Inspection = record (note_healthy name x) {
                good_data = first_of_two x.good_data d;
              } in
              ground
                (arith, h, first_of_two-Verified P c x.good_data d good, inspect_deep l c names y)
          | inr bad_sum ↦ ground (arith, bad, b)
        ]
      ]

  pub fetch_verified_chunk-Verified :
      (l : Lilio P) (c : ChunkInfo) (names : List Text)
      → Verified P c (fetch_verified_chunk l c names)
  unfolding fetch_verified_chunk
  fetch_verified_chunk-Verified l c [] = tt
  fetch_verified_chunk-Verified l c (name ∷ names) =
      ground (arith, fetch_verified_chunk-Verified l c names)

  pub inspect_present :
      (l : Lilio P) (c : ChunkInfo) (names : List Text) (x : Inspection)
      → Verified P c x.good_data
      → Verified P c (inspect l false c names x).good_data
  unfolding inspect check_present
  inspect_present l c [] x good = good
  inspect_present l c (name ∷ names) x good = ground (
    arith,
    inspect_present l c names (note_damaged name x) good,
    inspect_present l c names (note_healthy name x) good,
  )

  -- With `deep`, scrubChunk finds nothing to report exactly when every replica is intact.
  pub scrub_chunk-eq-none :
      (l : Lilio P) (bucket key : Text) (c : ChunkInfo) (dry : Bool)
      → ((scrub_chunk l bucket key c (record { deep = true; dry_run = dry })).0 ≡ none)
        ↔ (any (λ n. not (is_intact l c n)) c.storage_nodes ≡ false)
  unfolding scrub_chunk
  scrub_chunk-eq-none l bucket key c dry =
      let bad : Text → Bool = λ n. not (is_intact l c n) in
      let found = inspect_deep l c c.storage_nodes nothing_seen tt in
      (
        λ clean. any-false_of_select bad c.storage_nodes (ground (arith, found)),
        λ fine. ground (arith, found, select-nil bad c.storage_nodes fine),
      )

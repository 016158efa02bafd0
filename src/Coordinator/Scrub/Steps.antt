-- ===== src/Coordinator/Scrub/Steps.antt =====
-- What the steps of a pass of pkg/storage/scrub.go leave alone: the metadata and the count of objects.
use lilio.Prelude.{
  Bool-cases, List, Option, Option-cases, Text, [], arith, contains, inl, inr, length, ltb, none,
  not, refl, select, some, text_eq, ◌∷◌, ◌≡◌,
}
use lilio.Prelude.Dict.{lookup}
use lilio.Prelude.Sorting.{sort_strings}
use lilio.Storage.{Bytes}
use lilio.Metadata.{ChunkInfo}
use lilio.Coordinator.{Lilio, Platform}
use lilio.Coordinator.Replicas.{store_on}
use lilio.Coordinator.Scrub.{
  ChunkIssue, ScrubOptions, ScrubReport, act_on, fetch_verified_chunk, handle_damage, inspect,
  new_issue, nothing_seen, repair, scrub_chunk,
}
use lilio.Coordinator.Scrub.Pass.{collect_orphans, count_chunk}
use lilio.Registry.{}

module _ {P : Platform} where
  repair_metadata :
      (names : List Text) (l : Lilio P) (id : Text) (d : Bytes) (issue : ChunkIssue)
      → (repair l id d names issue).1.metadata ≡ l.metadata
  unfolding repair store_on
  repair_metadata [] l id d issue = refl
  repair_metadata (name ∷ names) l id d issue = elim (Option-cases (lookup name l.registry)) [
    | inl gone ↦ rw (gone, repair) (repair_metadata names l id d _)
    | inr (b, here) ↦ elim (Bool-cases (P.backend.store_chunk b id d).0) [
      | inl stored ↦ rw (here, stored, repair) (repair_metadata names _ id d _)
      | inr refused ↦ rw (here, refused, repair) (repair_metadata names _ id d _)
    ]
  ]

  handle_damage_metadata :
      (l : Lilio P) (o : ScrubOptions) (c : ChunkInfo) (issue : ChunkIssue)
      (healthy damaged : List Text) (good : Option Bytes)
      → (handle_damage l o c issue healthy damaged good).1.metadata ≡ l.metadata
  unfolding handle_damage
  handle_damage_metadata l o c issue [] damaged good = refl
  handle_damage_metadata l o c issue (h ∷ hs) damaged good = elim (Bool-cases (o.dry_run)) [
    | inl dry ↦ rw (dry, handle_damage) refl
    | inr wet ↦ elim (Option-cases good) [
      | inr (d, have) ↦ rw (wet, have, handle_damage) (repair_metadata damaged l c.chunk_id d issue)
      | inl nothing ↦ elim (Option-cases (fetch_verified_chunk l c (h ∷ hs))) [
        | inl lost ↦ rw (wet, nothing, lost, handle_damage) refl
        | inr (d, got) ↦
            rw (wet, nothing, got, handle_damage) (repair_metadata damaged l c.chunk_id d issue)
      ]
    ]
  ]

  pub scrub_chunk_metadata :
      (l : Lilio P) (bucket key : Text) (c : ChunkInfo) (o : ScrubOptions)
      → (scrub_chunk l bucket key c o).1.metadata ≡ l.metadata
  unfolding scrub_chunk act_on
  scrub_chunk_metadata l bucket key c o =
      let x = inspect l o.deep c c.storage_nodes nothing_seen in
      ground (
        arith,
        handle_damage_metadata l o c (new_issue bucket key c x) (sort_strings x.healthy)
            (sort_strings x.damaged) x.good_data,
      )

pub count_chunk_scanned :
    (r : ScrubReport) (issue : Option ChunkIssue)
    → (count_chunk r issue).objects_scanned ≡ r.objects_scanned
unfolding count_chunk
count_chunk_scanned r none = refl
count_chunk_scanned r (some i) = refl

pub collect_orphans_scanned :
    (P : Platform) (bs : List P.backend.State) (referenced : List Text) (r : ScrubReport)
    → (collect_orphans P bs referenced r).objects_scanned ≡ r.objects_scanned
unfolding collect_orphans
collect_orphans_scanned P [] referenced r = refl
collect_orphans_scanned P (b ∷ bs) referenced r = elim (Option-cases (P.backend.list_chunks b)) [
  | inl silent ↦ rw (silent, collect_orphans) (collect_orphans_scanned P bs referenced _)
  | inr (stored, told) ↦
      let found = sort_strings (select (λ c. not (contains referenced c)) stored) in
      elim (Bool-cases (ltb 0 (length found))) [
        | inl some_orphan ↦
            rw (told, some_orphan, collect_orphans) (collect_orphans_scanned P bs referenced _)
        | inr no_orphan ↦
            rw (told, no_orphan, collect_orphans) (collect_orphans_scanned P bs referenced r)
      ]
]

-- ===== src/Coordinator/Scrub/Pass.antt =====
-- pkg/storage/scrub.go: a pass of Scrub over the metadata, and collectOrphans.
use lilio.Registry
use lilio.Prelude.{
  Bool, List, Option, Text, [], contains, err, false, if◌then◌else◌, int_eq, length, ltb, nat_eq,
  none, not, ok, pos, select, some, suc, text_eq, true, zero, ℕ, ◌++◌, ◌+◌, ◌∷◌,
}
use lilio.Prelude.Dict.{insert, keys}
use lilio.Prelude.Sorting.{sort_strings}
use lilio.Metadata.{ChunkInfo}
use lilio.Paging.{ListOptions}
use lilio.Coordinator.{Lilio, Platform}
use lilio.Coordinator.Scrub.{
  ChunkIssue, ScrubOptions, ScrubReport, list_chunks_failed, list_objects_failed,
  read_metadata_failed, scrub_chunk,
}
use lilio.Registry.{Registry}

-- The state of a pass: its report, the chunk IDs that metadata refers to, and how many times the
-- context was asked whether it is cancelled.
pub record Pass : Type 0 where
  pub report : ScrubReport
  pub referenced : List Text
  pub asked : ℕ

pub data Outcome : Type 0 where
  finished stopped out_of_fuel : Outcome

-- The report that a pass starts from.
abbrev pub nothing_yet : ScrubOptions → ScrubReport
nothing_yet o = record {
  deep = o.deep;
  dry_run = o.dry_run;
  objects_scanned = 0;
  chunks_scanned = 0;
  chunks_healthy = 0;
  chunks_repaired = 0;
  chunks_unrepairable = 0;
  replicas_restored = 0;
  issues = [];
  orphan_chunks = [];
  errors = [];
}

abbrev count_issue : ScrubReport → ChunkIssue → ScrubReport
count_issue r i = record r {
  issues = r.issues ++ i ∷ [];
  replicas_restored = r.replicas_restored + length i.repaired_on;
  chunks_unrepairable = if i.unrepairable then r.chunks_unrepairable + 1 else r.chunks_unrepairable;
  chunks_repaired =
      if i.unrepairable
      then r.chunks_repaired
      else if ltb 0 (length i.repaired_on)
      then r.chunks_repaired + 1
      else r.chunks_repaired;
}

-- What the report says of one chunk.
unfoldable pub count_chunk : ScrubReport → Option ChunkIssue → ScrubReport
count_chunk r none = record r {
  chunks_scanned = r.chunks_scanned + 1;
  chunks_healthy = r.chunks_healthy + 1;
}
count_chunk r (some i) = count_issue (record r { chunks_scanned = r.chunks_scanned + 1 }) i

module _ {P : Platform} (o : ScrubOptions) (alive : ℕ → Bool) where
  -- The loop of Scrub over the chunks of an object.
  unfoldable pub scan_chunks : Lilio P → Text → Text → List ChunkInfo → Pass → Pass × Lilio P
  unfolding scrub_chunk count_chunk
  scan_chunks l bucket key [] p = (p, l)
  scan_chunks l bucket key (c ∷ cs) p =
      let (issue, l') = scrub_chunk l bucket key c o in
      scan_chunks l' bucket key cs
        (record p { report = count_chunk p.report issue; referenced = c.chunk_id ∷ p.referenced })

  -- The loop of Scrub over the keys of a page.
  unfoldable pub scan_keys : Lilio P → Text → List Text → Pass → Outcome × Pass × Lilio P
  unfolding scan_chunks
  scan_keys l bucket [] p = (finished, p, l)
  scan_keys l bucket (key ∷ keys) p =
      let p1 : Pass = record p { asked = p.asked + 1 } in
      let failed : Pass = record p1 {
        report = record p.report {
          errors = p.report.errors ++ read_metadata_failed bucket key ∷ [];
        };
      } in
      let counted : Pass = record p1 {
        report = record p.report { objects_scanned = p.report.objects_scanned + 1 };
      } in
      elim (alive p.asked) [
        | false ↦ (stopped, p1, l)
        | true ↦ elim (P.store.get_object l.metadata bucket key) [
          | err e ↦ scan_keys l bucket keys failed
          | ok meta ↦
              let (p2, l') = scan_chunks l bucket key meta.chunks counted in
              scan_keys l' bucket keys p2
        ]
      ]

  -- The loop of Scrub over the pages of a bucket, on fuel.
  unfoldable pub scan_pages : ℕ → Lilio P → Text → ListOptions → Pass → Outcome × Pass × Lilio P
  unfolding scan_keys
  scan_pages zero l bucket opts p = (out_of_fuel, p, l)
  scan_pages (suc fuel) l bucket opts p =
      let p1 : Pass = record p { asked = p.asked + 1 } in
      let failed : Pass = record p1 {
        report = record p.report { errors = p.report.errors ++ list_objects_failed bucket ∷ [] };
      } in
      elim (alive p.asked) [
        | false ↦ (stopped, p1, l)
        | true ↦ elim (P.store.list_objects l.metadata bucket opts) [
          | err e ↦ (finished, failed, l)
          | ok page ↦
              let (done, p2, l') = scan_keys l bucket page.page_keys p1 in
              elim done [
                | finished ↦ elim (page.truncated) [
                  | false ↦ (finished, p2, l')
                  | true ↦ scan_pages fuel l' bucket (record opts { after = page.next_after }) p2
                ]
                | stopped ↦ (stopped, p2, l')
                | out_of_fuel ↦ (out_of_fuel, p2, l')
              ]
        ]
      ]

  -- The loop of Scrub over the buckets; `fuel` pages for each.
  unfoldable pub scan_buckets : ℕ → Lilio P → List Text → Pass → Outcome × Pass × Lilio P
  unfolding scan_pages
  scan_buckets fuel l [] p = (finished, p, l)
  scan_buckets fuel l (bucket ∷ buckets) p =
      let (done, p', l') =
        scan_pages fuel l bucket (record { prefix = []; after = []; limit = pos 0 }) p in
      elim done [
        | finished ↦ scan_buckets fuel l' buckets p'
        | stopped ↦ (stopped, p', l')
        | out_of_fuel ↦ (out_of_fuel, p', l')
      ]

-- The loop of collectOrphans over the backends.
unfoldable pub collect_orphans :
    (P : Platform) → List (P.backend.State) → List Text → ScrubReport → ScrubReport
unfolding sort_strings
collect_orphans P [] referenced r = r
collect_orphans P (b ∷ bs) referenced r = elim (P.backend.list_chunks b) [
  | none ↦
      collect_orphans P bs referenced
        (record r { errors = r.errors ++ list_chunks_failed (P.backend.info b).name ∷ [] })
  | some stored ↦
      let found = sort_strings (select (λ c. not (contains referenced c)) stored) in
      collect_orphans P bs referenced (
        if ltb 0 (length found)
        then record r { orphan_chunks = insert (P.backend.info b).name found r.orphan_chunks }
        else r)
]

module _ {P : Platform} where
  -- Scrub: none if the buckets cannot be listed. Orphans are looked for in a pass that ran
  -- through; `fuel` bounds the pages of a bucket.
  unfoldable pub scrub :
      ℕ → (ℕ → Bool) → Lilio P → ScrubOptions → Option (Outcome × ScrubReport) × Lilio P
  unfolding scan_buckets collect_orphans Registry.list
  scrub fuel alive l o = elim (P.store.list_buckets l.metadata) [
    | err e ↦ (none, l)
    | ok buckets ↦
        let (done, p, l') =
          scan_buckets o alive fuel l buckets
            (record { report = nothing_yet o; referenced = []; asked = 0 }) in
        let orphans =
          collect_orphans P (Registry.list P.backend l'.registry) p.referenced p.report in
        elim done [
          | finished ↦ (some (finished, orphans), l')
          | stopped ↦ (some (stopped, p.report), l')
          | out_of_fuel ↦ (some (out_of_fuel, p.report), l')
        ]
  ]

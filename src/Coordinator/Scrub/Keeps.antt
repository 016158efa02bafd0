-- ===== src/Coordinator/Scrub/Keeps.antt =====
-- What a whole pass of pkg/storage/scrub.go does to the state that it walks over.
use lilio.Registry
use lilio.Prelude.{
  All, ok, Bool, Bool-cases, List, Option, Result-cases, Text, [], arith, false, inl, inr, none,
  pos, some, suc, true, zero, ℕ, ◌+◌, ◌∷◌, ◌≡◌,
}
use lilio.Coordinator.Scrub.Pass.{
  Outcome, Pass, collect_orphans, finished, nothing_yet, out_of_fuel, scan_buckets, scan_chunks,
  scan_keys, scan_pages, scrub, stopped,
}
use lilio.Metadata.{ChunkInfo, ObjectMetadata}
use lilio.Coordinator.Scrub.Steps.{scrub_chunk_metadata}
use lilio.Coordinator.{Lilio, Platform}
use lilio.Paging.{ListOptions}
use lilio.Coordinator.Scrub.{ScrubOptions, ScrubReport, scrub_chunk}
use lilio.Coordinator.Replicas.Reading.{reads}
use lilio.Storage.{Bytes, IsLawful}
use lilio.Coordinator.Replicas.Effects.{Improves}
use lilio.Registry.{Registry}
use lilio.Coordinator.Scrub.Repair.{scrub_chunk-Improves}

-- Did a replica answer?
abbrev pub is_held : Option Bytes → Bool
is_held none = false
is_held (some d) = true

-- A relation between states that each scrubbed chunk keeps, kept along a whole pass over objects
-- whose chunks are as they should be.
module _ {P : Platform} (o : ScrubOptions) (alive : ℕ → Bool) (IsOk : ChunkInfo → Type 0)
    (Good : Lilio P → Type 0) (R : Lilio P → Lilio P → Type 0)
    (good_chunks : (l : Lilio P) (bucket key : Text) (meta : ObjectMetadata)
      → Good l
      → P.store.get_object l.metadata bucket key ≡ ok meta
      → All IsOk meta.chunks)
    (R_refl : (l : Lilio P) → R l l) (R_trans : (l l2 l3 : Lilio P) → R l l2 → R l2 l3 → R l l3)
    (step : (l : Lilio P) (bucket key : Text) (c : ChunkInfo)
      → IsOk c
      → Good l
      → Good (scrub_chunk l bucket key c o).1 × R l (scrub_chunk l bucket key c o).1) where
  abbrev Keeps : Lilio P → Lilio P → Type 0
  Keeps l l' = Good l → Good l' × R l l'

  Keeps-refl : (l : Lilio P) → Keeps l l
  Keeps-refl l good = (good, R_refl l)

  Keeps-trans : (l l2 l3 : Lilio P) → Keeps l l2 → Keeps l2 l3 → Keeps l l3
  Keeps-trans l l2 l3 first second good =
      let (good2, r) = first good in let (good3, r2) = second good2 in (good3, R_trans l l2 l3 r r2)

  scan_chunks-Keeps :
      (chunks : List ChunkInfo) (l : Lilio P) (bucket key : Text) (p : Pass)
      → All IsOk chunks
      → Keeps l (scan_chunks o alive l bucket key chunks p).1
  unfolding scan_chunks
  scan_chunks-Keeps [] l bucket key p tt = Keeps-refl l
  scan_chunks-Keeps (c ∷ chunks) l bucket key p (is_ok, all) =
      let (issue, l2) = scrub_chunk l bucket key c o in
      Keeps-trans l l2 _ (step l bucket key c is_ok) (scan_chunks-Keeps chunks l2 bucket key _ all)

  scan_keys-Keeps :
      (ks : List Text) (l : Lilio P) (bucket : Text) (p : Pass)
      → Keeps l (scan_keys o alive l bucket ks p).2
  unfolding scan_keys
  scan_keys-Keeps [] l bucket p = Keeps-refl l
  scan_keys-Keeps (key ∷ ks) l bucket p = elim (Bool-cases (alive p.asked)) [
    | inr dead ↦ rw (dead, scan_keys) (Keeps-refl l)
    | inl awake ↦ elim (Result-cases (P.store.get_object l.metadata bucket key)) [
      | inl (x, unread) ↦ rw (awake, unread, scan_keys) (scan_keys-Keeps ks l bucket _)
      | inr (meta, found) ↦
          rw (awake, found, scan_keys)
            (Keeps-trans l _ _
              (λ good.
                scan_chunks-Keeps meta.chunks l bucket key _
                  (good_chunks l bucket key meta good found) good)
              (scan_keys-Keeps ks _ bucket _))
    ]
  ]

  next_page-Keeps :
      (done : Outcome) (truncated : Bool) (l l2 : Lilio P) (p : Pass)
      (next : Outcome × Pass × Lilio P)
      → Keeps l l2
      → Keeps l next.2
      → Keeps l
          (elim done as (λ _. Outcome × Pass × Lilio P) [
            | finished ↦ elim truncated as (λ _. Outcome × Pass × Lilio P) [
              | false ↦ (finished, p, l2)
              | true ↦ next
            ]
            | stopped ↦ (stopped, p, l2)
            | out_of_fuel ↦ (out_of_fuel, p, l2)
          ]).2
  next_page-Keeps finished false l l2 p next here there = here
  next_page-Keeps finished true l l2 p next here there = there
  next_page-Keeps stopped truncated l l2 p next here there = here
  next_page-Keeps out_of_fuel truncated l l2 p next here there = here

  next_bucket-Keeps :
      (done : Outcome) (l l2 : Lilio P) (p : Pass) (next : Outcome × Pass × Lilio P)
      → Keeps l l2
      → Keeps l next.2
      → Keeps l
          (elim done as (λ _. Outcome × Pass × Lilio P) [
            | finished ↦ next
            | stopped ↦ (stopped, p, l2)
            | out_of_fuel ↦ (out_of_fuel, p, l2)
          ]).2
  next_bucket-Keeps finished l l2 p next here there = there
  next_bucket-Keeps stopped l l2 p next here there = here
  next_bucket-Keeps out_of_fuel l l2 p next here there = here

  scan_pages-Keeps :
      (fuel : ℕ) (l : Lilio P) (bucket : Text) (opts : ListOptions) (p : Pass)
      → Keeps l (scan_pages o alive fuel l bucket opts p).2
  unfolding scan_pages
  scan_pages-Keeps zero l bucket opts p = Keeps-refl l
  scan_pages-Keeps (suc fuel) l bucket opts p = elim (Bool-cases (alive p.asked)) [
    | inr dead ↦ rw (dead, scan_pages) (Keeps-refl l)
    | inl awake ↦ elim (Result-cases (P.store.list_objects l.metadata bucket opts)) [
      | inl (x, unread) ↦ rw (awake, unread, scan_pages) (Keeps-refl l)
      | inr (page, found) ↦
          let p1 : Pass = record p { asked = p.asked + 1 } in
          let (done, p2, l2) = scan_keys o alive l bucket page.page_keys p1 in
          let opts2 : ListOptions = record opts { after = page.next_after } in
          let kept = scan_keys-Keeps page.page_keys l bucket p1 in
          rw (awake, found, scan_pages)
            (next_page-Keeps done page.truncated l l2 p2
              (scan_pages o alive fuel l2 bucket opts2 p2) kept
              (Keeps-trans l l2 _ kept (scan_pages-Keeps fuel l2 bucket opts2 p2)))
    ]
  ]

  scan_buckets-Keeps :
      (fuel : ℕ) (buckets : List Text) (l : Lilio P) (p : Pass)
      → Keeps l (scan_buckets o alive fuel l buckets p).2
  unfolding scan_buckets
  scan_buckets-Keeps fuel [] l p = Keeps-refl l
  scan_buckets-Keeps fuel (bucket ∷ buckets) l p =
      let opts : ListOptions = record { prefix = []; after = []; limit = pos 0 } in
      let (done, p2, l2) = scan_pages o alive fuel l bucket opts p in
      let kept = scan_pages-Keeps fuel l bucket opts p in
      next_bucket-Keeps done l l2 p2 (scan_buckets o alive fuel l2 buckets p2) kept
        (Keeps-trans l l2 _ kept (scan_buckets-Keeps fuel buckets l2 p2))

  reported-Keeps :
      (done : Outcome) (l l2 : Lilio P) (orphans unfinished : ScrubReport)
      → Keeps l l2
      → Keeps l
          (elim done as (λ _. Option (Outcome × ScrubReport) × Lilio P) [
            | finished ↦ (some (finished, orphans), l2)
            | stopped ↦ (some (stopped, unfinished), l2)
            | out_of_fuel ↦ (some (out_of_fuel, unfinished), l2)
          ]).1
  reported-Keeps finished l l2 orphans unfinished h = h
  reported-Keeps stopped l l2 orphans unfinished h = h
  reported-Keeps out_of_fuel l l2 orphans unfinished h = h

  pub scrub-Keeps : (fuel : ℕ) (l : Lilio P) → Keeps l (scrub fuel alive l o).1
  unfolding scrub
  scrub-Keeps fuel l = elim (Result-cases (P.store.list_buckets l.metadata)) [
    | inl (x, unread) ↦ rw (unread, scrub) (Keeps-refl l)
    | inr (buckets, found) ↦
        let start : Pass = record { report = nothing_yet o; referenced = []; asked = 0 } in
        let (done, p, l2) = scan_buckets o alive fuel l buckets start in
        rw (found, scrub)
          (reported-Keeps done l l2
            (collect_orphans P (Registry.list P.backend l2.registry) p.referenced p.report) p.report
            (scan_buckets-Keeps fuel buckets l start))
  ]

-- The chunk IDs that the metadata records pass the test.
abbrev pub Named : {P : Platform} → (Text → Bool) → Lilio P → Type 0
Named {P} ids l =
    (bucket key : Text) (meta : ObjectMetadata)
    → P.store.get_object l.metadata bucket key ≡ ok meta
    → All (λ c. ids c.chunk_id ≡ true) meta.chunks

module _ {P : Platform} {ids : Text → Bool} (L : IsLawful P.backend ids) where
  -- What is read is still read.
  abbrev KeepsData : Lilio P → Lilio P → Type 0
  KeepsData l l' =
      (n c : Text) → ids c ≡ true → is_held (reads l n c) ≡ true → is_held (reads l' n c) ≡ true

  Improves-KeepsData :
      (chunk : ChunkInfo) (l l' : Lilio P) → Improves ids chunk l l' → KeepsData l l'
  Improves-KeepsData chunk l l' better n c asked h = ground (arith, better n c asked)

  scrub_chunk-Named :
      (l : Lilio P) (bucket key : Text) (c : ChunkInfo) (o : ScrubOptions)
      → Named ids l
      → Named ids (scrub_chunk l bucket key c o).1
  scrub_chunk-Named l bucket key c o named b k meta h =
      named b k meta (rw (scrub_chunk_metadata l bucket key c o) at h)

  -- A pass never removes data, with any options and however it ends, on backends that keep
  -- IsLawful: each replica that answered with some bytes for a chunk ID still answers with some.
  -- For chunk IDs that pass its test.
  pub scrub-KeepsData :
      (fuel : ℕ) (alive : ℕ → Bool) (l : Lilio P) (o : ScrubOptions)
      → Named ids l
      → Named ids (scrub fuel alive l o).1 × KeepsData l (scrub fuel alive l o).1
  scrub-KeepsData fuel alive l o named =
      scrub-Keeps o alive (λ c. ids c.chunk_id ≡ true) (Named ids) KeepsData
        (λ l b k meta good found. good b k meta found) (λ l n c asked h. h)
        (λ l l2 l3 f g n c asked h. g n c asked (f n c asked h))
        (λ l bucket key chunk is_named good. (
          scrub_chunk-Named l bucket key chunk o good,
          Improves-KeepsData chunk l (scrub_chunk l bucket key chunk o).1
              (scrub_chunk-Improves L l bucket key chunk o is_named),
        ))
        fuel l named

-- ===== src/Coordinator/Scrub/Covers.antt =====
-- How far a pass of pkg/storage/scrub.go gets that nobody cancels.
use lilio.Registry
use lilio.Prelude.{
  All, Bool, List, Result-cases, Text, [], ap, arith, contains, inl, inr, is_ok, length,
  length-drop, length-take, ok, pos, refl, select, some, suc, sym, take, text_eq, true, zero, ℕ,
  ◌+◌, ◌-◌, ◌<◌, ◌∙◌, ◌∷◌, ◌≡◌,
}
use lilio.Prelude.Sorting.{length-sort_slice, sort_strings, text_less}
use lilio.Prelude.TextOrder.{contains-sort_strings}
use lilio.Paging.{ListOptions, is_listed, last_key, list_page}
use lilio.Paging.Walk.{contains-select, list_page-Pages, listing, listing_behind}
use lilio.Metadata.{ChunkInfo}
use lilio.Metadata.Listed.{IsListed, objects_in}
use lilio.Coordinator.{Lilio, Platform}
use lilio.Coordinator.Scrub.{ScrubOptions, ScrubReport, scrub_chunk}
use lilio.Coordinator.Scrub.Pass.{
  Outcome, Pass, collect_orphans, count_chunk, finished, nothing_yet, scan_buckets, scan_chunks,
  scan_keys, scan_pages, scrub,
}
use lilio.Registry.{Registry}
use lilio.Coordinator.Scrub.Steps.{
  collect_orphans_scanned, count_chunk_scanned, scrub_chunk_metadata,
}

-- The options that Scrub starts a bucket with.
abbrev whole_bucket : ListOptions
whole_bucket = record { prefix = []; after = []; limit = pos 0 }

length-select_whole : (ks : List Text) → length (select (is_listed whole_bucket) ks) ≡ length ks
unfolding is_listed
length-select_whole [] = refl
length-select_whole (k ∷ ks) = ground (arith, length-select_whole ks)

length-listing : (ks : List Text) → length (listing ks whole_bucket) ≡ length ks
unfolding sort_strings
length-listing ks =
    length-sort_slice text_less (select (is_listed whole_bucket) ks) ∙ length-select_whole ks

-- Every text of a list has a property.
All-contains :
    (P : Text → Type 0) (xs : List Text) → ((x : Text) → contains xs x ≡ true → P x) → All P xs
All-contains P [] h = tt
All-contains P (x ∷ xs) h = (h x (ground arith), All-contains P xs (λ y k. h y (ground arith)))

contains-take :
    (n : ℕ) (xs : List Text) (a : Text) → contains (take n xs) a ≡ true → contains xs a ≡ true
contains-take zero xs a h = absurd (ground arith)
contains-take (suc n) [] a h = h
contains-take (suc n) (x ∷ xs) a h = ground (arith, contains-take n xs a)

module _ {P : Platform} (o : ScrubOptions) (alive : ℕ → Bool)
    (awake : (j : ℕ) → alive j ≡ true) where
  scan_chunks_lem :
      (chunks : List ChunkInfo) (l : Lilio P) (bucket key : Text) (p : Pass)
      → ((scan_chunks o alive l bucket key chunks p).0.report.objects_scanned
          ≡ p.report.objects_scanned)
        × ((scan_chunks o alive l bucket key chunks p).1.metadata ≡ l.metadata)
  unfolding scan_chunks
  scan_chunks_lem [] l bucket key p = (refl, refl)
  scan_chunks_lem (c ∷ chunks) l bucket key p =
      let (issue, l2) = scrub_chunk l bucket key c o in
      let (count, kept) = scan_chunks_lem chunks l2 bucket key (record p {
        report = count_chunk p.report issue;
        referenced = c.chunk_id ∷ p.referenced;
      }) in
      (count ∙ count_chunk_scanned p.report issue, kept ∙ scrub_chunk_metadata l bucket key c o)

  -- The loop ran through, counted so many objects, and left the metadata alone.
  abbrev Scans : ℕ → Lilio P → Pass → Outcome × Pass × Lilio P → Type 0
  Scans n l p (done, p', l') =
      (done ≡ finished)
      × (p'.report.objects_scanned ≡ p.report.objects_scanned + n)
      × (l'.metadata ≡ l.metadata)

  scan_keys-Scans :
      (ks : List Text) (l : Lilio P) (bucket : Text) (p : Pass)
      → All (λ k. is_ok (P.store.get_object l.metadata bucket k) ≡ true) ks
      → Scans (length ks) l p (scan_keys o alive l bucket ks p)
  unfolding scan_keys
  scan_keys-Scans [] l bucket p found = (refl, omega arith, refl)
  scan_keys-Scans (k ∷ ks) l bucket p (here, found) =
      elim (Result-cases (P.store.get_object l.metadata bucket k)) [
        | inl (x, unread) ↦ absurd (ground arith)
        | inr (meta, read) ↦
            let counted : Pass = record p {
              asked = p.asked + 1;
              report = record p.report { objects_scanned = p.report.objects_scanned + 1 };
            } in
            let (p2, l2) = scan_chunks o alive l bucket k meta.chunks counted in
            let (count, kept) = scan_chunks_lem meta.chunks l bucket k counted in
            let (done, total, kept2) = scan_keys-Scans ks l2 bucket p2 (rw kept found) in
            rw (awake p.asked, read, scan_keys) (done, omega (arith, total, count), kept2 ∙ kept)
      ]

  module _ {s0 : P.store.State} {buckets : List Text} {keys_in : Text → List Text}
      (I : IsListed P.store s0 buckets keys_in) where
    found_in :
        (l : Lilio P) (bucket : Text) (opts : ListOptions) (keys : List Text)
        → l.metadata ≡ s0
        → ((k : Text) → contains keys k ≡ true → contains (listing (keys_in bucket) opts) k ≡ true)
        → All (λ k. is_ok (P.store.get_object l.metadata bucket k) ≡ true) keys
    found_in l bucket opts keys same sub =
        let ks = keys_in bucket in
        rw same (
          All-contains (λ k. is_ok (P.store.get_object s0 bucket k) ≡ true) keys
            λ k h.
              let there : contains (select (is_listed opts) ks) k ≡ true =
                sym (contains-sort_strings (select (is_listed opts) ks) k) ∙ sub k h in
              I.found bucket k (ground (arith, contains-select (is_listed opts) ks k)))

    scan_pages-Scans :
        (fuel : ℕ) (l : Lilio P) (bucket : Text) (opts : ListOptions) (p : Pass)
        → contains buckets bucket ≡ true
        → l.metadata ≡ s0
        → length (listing (keys_in bucket) opts) < fuel
        → Scans
            (length (listing (keys_in bucket) opts))
            l
            p
            (scan_pages o alive fuel l bucket opts p)
    unfolding scan_pages
    scan_pages-Scans zero l bucket opts p known same less = absurd (omega arith)
    scan_pages-Scans (suc fuel) l bucket opts p known same less =
        let ks = keys_in bucket in
        let p1 : Pass = record p { asked = p.asked + 1 } in
        let paged : P.store.list_objects l.metadata bucket opts ≡ ok (list_page opts ks) =
          rw same (I.list_objects-eq bucket opts known) in
        elim (list_page-Pages ks opts) [
          | inl all ↦
              let found = found_in l bucket opts (listing ks opts) same (λ k h. h) in
              let (done, total, kept) = scan_keys-Scans (listing ks opts) l bucket p1 found in
              rw (awake p.asked, paged ∙ ap ok all, scan_pages, done) (refl, total, kept)
          | inr (n, le, page) ↦
              let L = listing ks opts in
              let opts2 : ListOptions = record opts { after = last_key (take (suc n) L) } in
              let found = found_in l bucket opts (take (suc n) L) same (contains-take (suc n) L) in
              let (done, total, kept) = scan_keys-Scans (take (suc n) L) l bucket p1 found in
              let (_, p2, l2) = scan_keys o alive l bucket (take (suc n) L) p1 in
              let rest = listing_behind ks opts n (I.distinct bucket) (I.named bucket known) le in
              let size : length (listing ks opts2) ≡ length L - suc n =
                ap length rest ∙ length-drop (suc n) L in
              let (done2, total2, kept2) =
                scan_pages-Scans fuel l2 bucket opts2 p2 known (kept ∙ same)
                  (omega (arith, size)) in
              rw (awake p.asked, paged ∙ ap ok page, scan_pages, done)
                (done2, omega (arith, total, total2, size, length-take (suc n) L), kept2 ∙ kept)
        ]

    scan_buckets-Scans :
        (fuel : ℕ) (bs : List Text) (l : Lilio P) (p : Pass)
        → All (λ b. contains buckets b ≡ true) bs
        → All (λ b. length (keys_in b) < fuel) bs
        → l.metadata ≡ s0
        → Scans (objects_in keys_in bs) l p (scan_buckets o alive fuel l bs p)
    unfolding scan_buckets
    scan_buckets-Scans fuel [] l p known enough same = (refl, omega arith, refl)
    scan_buckets-Scans fuel (b ∷ bs) l p (here, known) (less, enough) same =
        let size = length-listing (keys_in b) in
        let (done, total, kept) =
          scan_pages-Scans fuel l b whole_bucket p here same (omega (arith, size)) in
        let (_, p2, l2) = scan_pages o alive fuel l b whole_bucket p in
        let (done2, total2, kept2) = scan_buckets-Scans fuel bs l2 p2 known enough (kept ∙ same) in
        rw (done, scan_buckets) (done2, omega (arith, total, total2, size), kept2 ∙ kept)

  -- A pass that is never cancelled comes to its end and looks at every object: on a store whose
  -- listings are as IsListed says, with fuel for more pages than any bucket has keys, Scrub
  -- finishes, and it counts as many scanned objects as all buckets have keys.
  pub scrub_covers :
      (fuel : ℕ) (l : Lilio P) (buckets : List Text) (keys_in : Text → List Text)
      → IsListed P.store l.metadata buckets keys_in
      → All (λ b. length (keys_in b) < fuel) buckets
      → (report : ScrubReport) × ((scrub fuel alive l o).0 ≡ some (finished, report))
        × (report.objects_scanned ≡ objects_in keys_in buckets)
  unfolding scrub
  scrub_covers fuel l buckets keys_in I enough =
      let start : Pass = record { report = nothing_yet o; referenced = []; asked = 0 } in
      let (done, total, kept) =
        scan_buckets-Scans I fuel buckets l start
          (All-contains (λ b. contains buckets b ≡ true) buckets (λ b h. h)) enough refl in
      let (_, p, l2) = scan_buckets o alive fuel l buckets start in
      let backends = Registry.list P.backend l2.registry in
      (
        collect_orphans P backends p.referenced p.report,
        rw (I.list_buckets-eq, scrub, done) refl,
        omega (arith, total, collect_orphans_scanned P backends p.referenced p.report),
      )

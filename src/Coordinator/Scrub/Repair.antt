-- ===== src/Coordinator/Scrub/Repair.antt =====
-- What scrubChunk of pkg/storage/scrub.go repairs.
use lilio.Prelude.{
  Bool, Bool-cases, List, Option, Option-cases, Text, [], any, any-append, any-select-not,
  any-not-select, arith, false, if◌then◌else◌, inl, inr, int_eq, length, nat_eq, none, not, refl,
  select, some, text_eq, true, ◌++◌, ◌||◌, ◌∷◌, ◌≡◌,
}
use lilio.Prelude.Dict.{lookup}
use lilio.Prelude.Sorting.{any-sort_strings, sort_strings}
use lilio.Storage.{Bytes, IsLawful}
use lilio.Metadata.{ChunkInfo}
use lilio.Coordinator.{Lilio, Platform, checksum_of, chunk_stored, record_metric}
use lilio.Coordinator.Replicas.{store_on}
use lilio.Coordinator.Replicas.Effects.{
  Improves, ImprovesAt, ImprovesAt-trans, reads-store_on, store_on-ImprovesAt,
}
use lilio.Coordinator.Scrub.{
  ChunkIssue, Inspection, ScrubOptions, act_on, fetch_verified_chunk, handle_damage, inspect,
  new_issue, nothing_seen, repair, scrub_chunk,
}
use lilio.Coordinator.Scrub.Chunk.{
  Verified, fetch_verified_chunk-Verified, inspect_deep, inspect_present, scrub_chunk-eq-none,
}
use lilio.Coordinator.Replicas.Reading.{is_intact}

-- A replica that is intact stays so.
pub intact_stays :
    {P : Platform} (l l' : Lilio P) (c : ChunkInfo) (n : Text)
    → ImprovesAt c n c.chunk_id l l'
    → is_intact l c n ≡ true
    → is_intact l' c n ≡ true
intact_stays l l' c n better h = ground arith

any_bad_stays :
    {P : Platform} (l l' : Lilio P) (c : ChunkInfo) (names : List Text)
    → ((n : Text) → ImprovesAt c n c.chunk_id l l')
    → any (λ n. not (is_intact l c n)) names ≡ false
    → any (λ n. not (is_intact l' c n)) names ≡ false
any_bad_stays l l' c [] better h = refl
any_bad_stays l l' c (n ∷ names) better h =
    ground (arith, better n, any_bad_stays l l' c names better)

module _ {P : Platform} {ids : Text → Bool} (L : IsLawful P.backend ids) where
  -- One round of the last loop that finds a backend.
  repair_one : Lilio P → ChunkInfo → Bytes → Text → P.backend.State → Lilio P
  repair_one l c d name b =
      let (stored, l') = store_on l name b c.chunk_id d in
      if stored then record_metric (chunk_stored name (length d)) l' else l'

  repair_one-ImprovesAt :
      (l : Lilio P) (c : ChunkInfo) (d : Bytes) (name : Text) (b : P.backend.State) (n t : Text)
      → ids c.chunk_id ≡ true
      → ids t ≡ true
      → lookup name l.registry ≡ some b
      → checksum_of P d ≡ c.checksum
      → ImprovesAt c n t l (repair_one l c d name b)
  unfolding repair_one
  repair_one-ImprovesAt l c d name b n t named asked here good =
      ground (arith, store_on-ImprovesAt L l name b c d n t named asked here good)

  repair-ImprovesAt :
      (names : List Text) (l : Lilio P) (c : ChunkInfo) (d : Bytes) (issue : ChunkIssue)
      (n t : Text)
      → ids c.chunk_id ≡ true
      → ids t ≡ true
      → checksum_of P d ≡ c.checksum
      → ImprovesAt c n t l (repair l c.chunk_id d names issue).1
  unfolding repair repair_one
  repair-ImprovesAt [] l c d issue n t named asked good = inl refl
  repair-ImprovesAt (name ∷ names) l c d issue n t named asked good =
      elim (Option-cases (lookup name l.registry)) [
        | inl gone ↦
            rw (gone, repair)
              (repair-ImprovesAt names l c d
                (record issue { failed_on = issue.failed_on ++ name ∷ [] }) n t named asked good)
        | inr (b, here) ↦
            let l2 = repair_one l c d name b in
            let issue2 : ChunkIssue =
              if (store_on l name b c.chunk_id d).0
              then record issue { repaired_on = issue.repaired_on ++ name ∷ [] }
              else record issue { failed_on = issue.failed_on ++ name ∷ [] } in
            rw (here, repair)
              (ImprovesAt-trans c n t l l2 (repair l2 c.chunk_id d names issue2).1
                (repair_one-ImprovesAt l c d name b n t named asked here good)
                (repair-ImprovesAt names l2 c d issue2 n t named asked good))
      ]

  handle_damage-ImprovesAt :
      (l : Lilio P) (o : ScrubOptions) (c : ChunkInfo) (issue : ChunkIssue)
      (healthy damaged : List Text) (good : Option Bytes) (n t : Text)
      → ids c.chunk_id ≡ true
      → ids t ≡ true
      → Verified P c good
      → ImprovesAt c n t l (handle_damage l o c issue healthy damaged good).1
  unfolding handle_damage
  handle_damage-ImprovesAt l o c issue [] damaged good n t named asked ok_data = inl refl
  handle_damage-ImprovesAt l o c issue (h ∷ hs) damaged (some d) n t named asked ok_data =
      ground (arith, repair-ImprovesAt damaged l c d issue n t named asked ok_data)
  handle_damage-ImprovesAt l o c issue (h ∷ hs) damaged none n t named asked ok_data =
      elim (Option-cases (fetch_verified_chunk l c (h ∷ hs))) [
        | inl lost ↦ ground arith
        | inr (d, found) ↦
            let sum : checksum_of P d ≡ c.checksum =
              rw found at (fetch_verified_chunk-Verified l c (h ∷ hs)) in
            ground (arith, repair-ImprovesAt damaged l c d issue n t named asked sum)
      ]

  inspect-Verified :
      (l : Lilio P) (c : ChunkInfo) (deep : Bool)
      → Verified P c (inspect l deep c c.storage_nodes nothing_seen).good_data
  inspect-Verified l c true = (inspect_deep l c c.storage_nodes nothing_seen tt).2
  inspect-Verified l c false = inspect_present l c c.storage_nodes nothing_seen tt

  -- Scrubbing a chunk does no harm, with any options, on backends that keep IsLawful: each replica
  -- of each chunk answers as it did before, or is now an intact copy of the scrubbed chunk. For
  -- chunk IDs that pass the test of IsLawful.
  pub scrub_chunk-Improves :
      (l : Lilio P) (bucket key : Text) (c : ChunkInfo) (o : ScrubOptions)
      → ids c.chunk_id ≡ true
      → Improves ids c l (scrub_chunk l bucket key c o).1
  unfolding scrub_chunk
  scrub_chunk-Improves l bucket key c o named n t asked =
      let x = inspect l o.deep c c.storage_nodes nothing_seen in
      ground (
        arith,
        handle_damage-ImprovesAt l o c (new_issue bucket key c x) (sort_strings x.healthy)
            (sort_strings x.damaged) x.good_data n t named asked (inspect-Verified l c o.deep),
      )

  module _ (l : Lilio P) (c : ChunkInfo) (d : Bytes) (name : Text) (b : P.backend.State)
      (named : ids c.chunk_id ≡ true) (here : lookup name l.registry ≡ some b)
      (good : checksum_of P d ≡ c.checksum) where
    repaired_now :
        (store_on l name b c.chunk_id d).0 ≡ true
        → is_intact (repair_one l c d name b) c name ≡ true
    unfolding repair_one
    repaired_now stored =
        ground (arith, reads-store_on L l name b c.chunk_id d name c.chunk_id named named here)

    still_repaired :
        (names : List Text)
        → any (λ n. not (is_intact l c n)) names ≡ false
        → any (λ n. not (is_intact (repair_one l c d name b) c n)) names ≡ false
    still_repaired names =
        any_bad_stays l (repair_one l c d name b) c names
          (λ n. repair_one-ImprovesAt l c d name b n c.chunk_id named named here good)

  Accounts : List Text → ChunkInfo → ChunkIssue → ChunkIssue × Lilio P → Type 0
  Accounts names c issue (out, l') =
      (any (λ n. not (is_intact l' c n)) out.repaired_on ≡ false)
      × ((q : Text → Bool)
          → (any q out.repaired_on || any q out.failed_on)
            ≡ (any q issue.repaired_on || any q issue.failed_on || any q names))

  -- The loop of repairs accounts for every damaged replica, and the ones that it says it
  -- repaired are intact when it ends.
  repair-Accounts :
      (names : List Text) (l : Lilio P) (c : ChunkInfo) (d : Bytes) (issue : ChunkIssue)
      → ids c.chunk_id ≡ true
      → checksum_of P d ≡ c.checksum
      → any (λ n. not (is_intact l c n)) issue.repaired_on ≡ false
      → Accounts names c issue (repair l c.chunk_id d names issue)
  unfolding repair repair_one Accounts
  repair-Accounts [] l c d issue named good done = (done, λ q. ground arith)
  repair-Accounts (name ∷ names) l c d issue named good done =
      elim (Option-cases (lookup name l.registry)) [
        | inl gone ↦
            let issue2 : ChunkIssue = record issue { failed_on = issue.failed_on ++ name ∷ [] } in
            let (first, rest) = repair-Accounts names l c d issue2 named good done in
            rw (gone, repair)
              (first, λ q. ground (arith, rest q, any-append q issue.failed_on (name ∷ [])))
        | inr (b, here) ↦ elim (Bool-cases (store_on l name b c.chunk_id d).0) [
          | inl stored ↦
              let l2 =
                record_metric (chunk_stored name (length d)) (store_on l name b c.chunk_id d).1 in
              let issue2 : ChunkIssue = record issue {
                repaired_on = issue.repaired_on ++ name ∷ [];
              } in
              let done2 : any (λ n. not (is_intact l2 c n)) issue2.repaired_on ≡ false = ground (
                arith,
                repaired_now l c d name b named here good stored,
                still_repaired l c d name b named here good issue.repaired_on done,
                any-append (λ n. not (is_intact l2 c n)) issue.repaired_on (name ∷ []),
              ) in
              let (first, rest) = repair-Accounts names l2 c d issue2 named good done2 in
              rw (here, repair, stored)
                (first, λ q. ground (arith, rest q, any-append q issue.repaired_on (name ∷ [])))
          | inr refused ↦
              let l2 = (store_on l name b c.chunk_id d).1 in
              let issue2 : ChunkIssue = record issue { failed_on = issue.failed_on ++ name ∷ [] } in
              let done2 : any (λ n. not (is_intact l2 c n)) issue2.repaired_on ≡ false =
                ground
                  (arith, still_repaired l c d name b named here good issue.repaired_on done) in
              let (first, rest) = repair-Accounts names l2 c d issue2 named good done2 in
              rw (here, repair, refused)
                (first, λ q. ground (arith, rest q, any-append q issue.failed_on (name ∷ [])))
        ]
      ]

  -- If no replica is listed as failed, all the damaged ones are intact afterwards.
  HealsAll : List Text → ChunkInfo → ChunkIssue × Lilio P → Type 0
  HealsAll damaged c (out, l') =
      out.failed_on ≡ [] → any (λ n. not (is_intact l' c n)) damaged ≡ false

  repair-HealsAll :
      (damaged : List Text) (l : Lilio P) (c : ChunkInfo) (d : Bytes) (issue : ChunkIssue)
      → ids c.chunk_id ≡ true
      → checksum_of P d ≡ c.checksum
      → issue.repaired_on ≡ []
      → issue.failed_on ≡ []
      → HealsAll damaged c (repair l c.chunk_id d damaged issue)
  unfolding HealsAll Accounts
  repair-HealsAll damaged l c d issue named good none_yet none_failed = λ all_done.
      let l' = (repair l c.chunk_id d damaged issue).1 in
      let (healed, covered) = repair-Accounts damaged l c d issue named good (rw none_yet) in
      ground (arith, covered (λ n. not (is_intact l' c n)))

  handle_damage-HealsAll :
      (l : Lilio P) (o : ScrubOptions) (c : ChunkInfo) (issue : ChunkIssue)
      (healthy damaged : List Text) (good : Option Bytes)
      → ids c.chunk_id ≡ true
      → Verified P c good
      → issue.repaired_on ≡ []
      → issue.failed_on ≡ []
      → HealsAll damaged c (handle_damage l o c issue healthy damaged good)
  unfolding handle_damage HealsAll
  handle_damage-HealsAll l o c issue [] damaged good named v r f = λ none_left. rw none_left
  handle_damage-HealsAll l o c issue (h ∷ hs) damaged (some d) named v r f = λ none_left.
      elim (Bool-cases o.dry_run) [
        | inl dry ↦ ground arith
        | inr wet ↦ ground (arith, repair-HealsAll damaged l c d issue named v r f)
      ]
  handle_damage-HealsAll l o c issue (h ∷ hs) damaged none named v r f = λ none_left.
      elim (Bool-cases o.dry_run) [
        | inl dry ↦ ground arith
        | inr wet ↦ elim (Option-cases (fetch_verified_chunk l c (h ∷ hs))) [
          | inl lost ↦ ground arith
          | inr (d, found) ↦
              let sum : checksum_of P d ≡ c.checksum =
                rw found at (fetch_verified_chunk-Verified l c (h ∷ hs)) in
              ground (arith, repair-HealsAll damaged l c d issue named sum r f)
        ]
      ]

  act_on-HealsAll :
      (l : Lilio P) (bucket key : Text) (c : ChunkInfo) (o : ScrubOptions) (x : Inspection)
      (issue : ChunkIssue)
      → ids c.chunk_id ≡ true
      → Verified P c x.good_data
      → (act_on l bucket key c o x).0 ≡ some issue
      → issue.failed_on ≡ []
      → any (λ n. not (is_intact (act_on l bucket key c o x).1 c n)) x.damaged ≡ false
  unfolding act_on HealsAll
  act_on-HealsAll l bucket key c o x issue named good found healed =
      let (out, l') =
        handle_damage l o c (new_issue bucket key c x) (sort_strings x.healthy)
          (sort_strings x.damaged) x.good_data in
      let all_done : HealsAll (sort_strings x.damaged) c (out, l') =
        handle_damage-HealsAll l o c (new_issue bucket key c x) (sort_strings x.healthy)
          (sort_strings x.damaged) x.good_data named good refl refl in
      ground (arith, all_done, any-sort_strings (λ n. not (is_intact l' c n)) x.damaged)

  scrub_chunk-fixes :
      (l : Lilio P) (bucket key : Text) (c : ChunkInfo) (dry : Bool) (issue : ChunkIssue)
      → ids c.chunk_id ≡ true
      → (scrub_chunk l bucket key c (record { deep = true; dry_run = dry })).0 ≡ some issue
      → issue.failed_on ≡ []
      → let l' = (scrub_chunk l bucket key c (record { deep = true; dry_run = dry })).1 in
        any (λ n. not (is_intact l' c n)) (select (λ n. not (is_intact l c n)) c.storage_nodes)
        ≡ false
  unfolding scrub_chunk
  scrub_chunk-fixes l bucket key c dry issue named found healed =
      let x = inspect l true c c.storage_nodes nothing_seen in
      let (_, damaged_eq, good) = inspect_deep l c c.storage_nodes nothing_seen tt in
      rw (← damaged_eq) (
        act_on-HealsAll l bucket key c (record { deep = true; dry_run = dry }) x issue named good
          found healed)

  -- A deep scrub of a chunk that reports an issue with no replica in failed_on has made the chunk
  -- fully replicated: a deep scrub straight after it, dry or not, finds nothing to report. For
  -- backends that keep IsLawful, and a chunk ID that passes its test.
  pub scrub_chunk_heals :
      (l : Lilio P) (bucket key : Text) (c : ChunkInfo) (dry again : Bool) (issue : ChunkIssue)
      → ids c.chunk_id ≡ true
      → (scrub_chunk l bucket key c (record { deep = true; dry_run = dry })).0 ≡ some issue
      → issue.failed_on ≡ []
      → let l' = (scrub_chunk l bucket key c (record { deep = true; dry_run = dry })).1 in
        (scrub_chunk l' bucket key c (record { deep = true; dry_run = again })).0 ≡ none
  scrub_chunk_heals l bucket key c dry again issue named found healed =
      let o : ScrubOptions = record { deep = true; dry_run = dry } in
      let l' = (scrub_chunk l bucket key c o).1 in
      let good : Text → Bool = is_intact l c in
      let bad : Text → Bool = λ n. not (is_intact l' c n) in
      let kept : any bad (select good c.storage_nodes) ≡ false =
        any_bad_stays l l' c (select good c.storage_nodes)
          (λ n. scrub_chunk-Improves l bucket key c o named n c.chunk_id named)
          (any-not-select good c.storage_nodes) in
      let fixed : any bad (select (λ n. not (good n)) c.storage_nodes) ≡ false =
        scrub_chunk-fixes l bucket key c dry issue named found healed in
      (scrub_chunk-eq-none l' bucket key c again).1
        (ground (arith, any-select-not bad good c.storage_nodes))

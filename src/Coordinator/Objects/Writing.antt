-- ===== src/Coordinator/Objects/Writing.antt =====
-- What PutObject of pkg/storage/lilio.go does to the replicas before it commits.
use mathlib.Core.Path.{subst}
use lilio.Prelude.{
  Bool, Bool-cases, List, Option-cases, Text, [], ap, arith, if◌then◌else◌, inl, inr, int_eq,
  length, length-append, nat_eq, none, ok, refl, select, some, suc, text_eq, true, ℕ, ◌++◌, ◌+◌,
  ◌∷◌, ◌≡◌, ◌≤◌,
}
use lilio.Prelude.Dict.{lookup}
use lilio.Prelude.Sorting.{sort_strings}
use lilio.Storage.{Bytes, IsLawful}
use lilio.Metadata.{ChunkInfo}
use lilio.Coordinator.{Lilio, Platform, checksum_of, chunk_stored, quorum_write, record_metric}
use lilio.Coordinator.Replicas.{store_on}
use lilio.Coordinator.Replicas.Reading.{is_intact}
use lilio.Coordinator.Replicas.Effects.{
  ImprovesAt, ImprovesAt-trans, reads-store_on, store_on-ImprovesAt,
}
use lilio.Coordinator.Objects.{info_of, record_stored, store_all, write_chunk}
use lilio.Coordinator.Scrub.Repair.{intact_stays}

module _ {P : Platform} {ids : Text → Bool} (L : IsLawful P.backend ids) where
  pub store_all-ImprovesAt :
      (targets : List Text) (l : Lilio P) (c : ChunkInfo) (d : Bytes) (done : List Text)
      (n t : Text)
      → ids c.chunk_id ≡ true
      → ids t ≡ true
      → checksum_of P d ≡ c.checksum
      → ImprovesAt c n t l (store_all l c.chunk_id d targets done).1
  unfolding store_all
  store_all-ImprovesAt [] l c d done n t named asked good = inl refl
  store_all-ImprovesAt (name ∷ targets) l c d done n t named asked good =
      elim (Option-cases (lookup name l.registry)) [
        | inl gone ↦
            rw (gone, store_all) (store_all-ImprovesAt targets l c d done n t named asked good)
        | inr (b, here) ↦
            let (stored, l2) = store_on l name b c.chunk_id d in
            let done2 = if stored then done ++ (P.backend.info b).name ∷ [] else done in
            rw (here, store_all)
              (ImprovesAt-trans c n t l l2 (store_all l2 c.chunk_id d targets done2).1
                (store_on-ImprovesAt L l name b c d n t named asked here good)
                (store_all-ImprovesAt targets l2 c d done2 n t named asked good))
      ]

  store_all_gone :
      (l : Lilio P) (id : Text) (d : Bytes) (name : Text) (targets done : List Text)
      → lookup name l.registry ≡ none
      → store_all l id d targets done ≡ store_all l id d (name ∷ targets) done
  unfolding store_all
  store_all_gone l id d name targets done gone = rw (gone, store_all)

  store_all_here :
      (l : Lilio P) (id : Text) (d : Bytes) (name : Text) (targets done : List Text)
      (b : P.backend.State)
      → lookup name l.registry ≡ some b
      → store_all
          (store_on l name b id d).1
          id
          d
          targets
          (if (store_on l name b id d).0 then done ++ (P.backend.info b).name ∷ [] else done)
        ≡ store_all l id d (name ∷ targets) done
  unfolding store_all
  store_all_here l id d name targets done b here = rw (here, store_all)

  Reached : List Text → ChunkInfo → ℕ → List Text × Lilio P → Type 0
  Reached targets c before (successful, l') =
      length successful ≤ before + length (select (is_intact l' c) targets)

  Reached-more :
      (name : Text) (targets : List Text) (c : ChunkInfo) (before : ℕ) (out : List Text × Lilio P)
      → Reached targets c before out
      → Reached (name ∷ targets) c before out
  unfolding Reached
  Reached-more name targets c before out h = ground arith

  Reached-one :
      (name : Text) (targets : List Text) (c : ChunkInfo) (before : ℕ) (out : List Text × Lilio P)
      → is_intact out.1 c name ≡ true
      → Reached targets c (suc before) out
      → Reached (name ∷ targets) c before out
  unfolding Reached
  Reached-one name targets c before out intact h = ground arith

  -- Each name in the list of successes stands for a target that has an intact copy at the end.
  store_all-Reached :
      (targets : List Text) (l : Lilio P) (c : ChunkInfo) (d : Bytes) (done : List Text)
      → ids c.chunk_id ≡ true
      → checksum_of P d ≡ c.checksum
      → Reached targets c (length done) (store_all l c.chunk_id d targets done)
  store_all-Reached [] l c d done named good = unfold store_all Reached in omega arith
  store_all-Reached (name ∷ targets) l c d done named good =
      elim (Option-cases (lookup name l.registry)) [
        | inl gone ↦
            subst (Reached (name ∷ targets) c (length done))
              (store_all_gone l c.chunk_id d name targets done gone)
              (Reached-more name targets c (length done) (store_all l c.chunk_id d targets done)
                (store_all-Reached targets l c d done named good))
        | inr (b, here) ↦
            let (stored, l2) = store_on l name b c.chunk_id d in
            let done2 = if stored then done ++ (P.backend.info b).name ∷ [] else done in
            let out = store_all l2 c.chunk_id d targets done2 in
            let rest = store_all-Reached targets l2 c d done2 named good in
            subst (Reached (name ∷ targets) c (length done))
              (store_all_here l c.chunk_id d name targets done b here)
              (elim (Bool-cases stored) [
                | inl accepted ↦
                    let intact2 : is_intact l2 c name ≡ true = ground (
                      arith,
                      reads-store_on L l name b c.chunk_id d name c.chunk_id named named here,
                    ) in
                    Reached-one name targets c (length done) out
                      (intact_stays l2 out.1 c name
                        (store_all-ImprovesAt targets l2 c d done2 name c.chunk_id named named good)
                        intact2)
                      (subst (λ k. Reached targets c k out)
                        (ground (arith, length-append done ((P.backend.info b).name ∷ []))) rest)
                | inr refused ↦
                    Reached-more name targets c (length done) out
                      (subst (λ k. Reached targets c k out) (ground arith) rest)
              ])
      ]

  pub registry-record_stored :
      (names : List Text) (size : ℕ) (l : Lilio P)
      → (record_stored names size l).registry ≡ l.registry
  unfolding record_stored
  registry-record_stored [] size l = refl
  registry-record_stored (name ∷ names) size l =
      registry-record_stored names size (record_metric (chunk_stored name size) l)

  same_intact :
      (l l' : Lilio P) (c : ChunkInfo) (names : List Text)
      → l'.registry ≡ l.registry
      → select (is_intact l' c) names ≡ select (is_intact l c) names
  same_intact l l' c [] e = refl
  same_intact l l' c (n ∷ names) e = ground (arith, same_intact l l' c names e)

  -- When PutObject accepts a chunk, at least W of the nodes that it was sent to have a copy that
  -- matches the checksum recorded for it, and what is recorded is the chunk's own ID, index, size
  -- and checksum, and all the nodes it belongs on. For backends that keep IsLawful, and a chunk ID that passes its
  -- test.
  pub write_chunk-quorum :
      (l : Lilio P) (id : Text) (i size : ℕ) (d : Bytes) (intended targets : List Text)
      (info : ChunkInfo)
      → ids id ≡ true
      → (write_chunk l id i size d intended targets).0 ≡ ok info
      → (info ≡ info_of P id i size d intended)
        × (l.quorum.w
            ≤ length
                (select (is_intact (write_chunk l id i size d intended targets).1 info) targets))
  unfolding write_chunk Reached
  write_chunk-quorum l id i size d intended targets info named accepted =
      let c0 = info_of P id i size d intended in
      let (successful, l1) = store_all l id d targets [] in
      let count : length successful ≤ length (select (is_intact l1 c0) targets) =
        omega (arith, store_all-Reached targets l c0 d [] named refl) in
      let l2 = record_metric (quorum_write true (length targets) (length successful)) l1 in
      let l3 = record_stored (sort_strings successful) size l2 in
      let same : select (is_intact l3 c0) targets ≡ select (is_intact l1 c0) targets =
        same_intact l1 l3 c0 targets (registry-record_stored (sort_strings successful) size l2) in
      let e : info ≡ c0 = ground arith in (e, rw e (ground (arith, ap (length {A = Text}) same)))

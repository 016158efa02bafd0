-- ===== src/Coordinator/Objects/Racing.antt =====
-- Two PutObject calls on one key of pkg/storage/lilio.go that run at the same time.
use lilio.Prelude.{
  Bool, true, All, Result-cases, ap, List, Text, arith, err, max_int64, ok, pos, refl, ℕ, ℤ, ◌+◌,
  ◌<◌, ◌∙◌, ◌≡◌, ◌≢◌, ◌⊎◌, inl, inr,
}
use lilio.Storage.{IsLawful}
use lilio.Metadata.{ChunkInfo, ObjectMetadata, object_not_found}
use lilio.Metadata.Versioned.{StoreIsVersioned}
use lilio.Coordinator.{Lilio, Platform, concurrent_write}
use lilio.Coordinator.Replicas.{delete_chunks}
use lilio.Coordinator.Objects.{commit, head_object}
use lilio.Coordinator.Objects.Rest.{delete_chunks-SameRest}
use lilio.Coordinator.Objects.Holding.{SameReads, delete_chunks-SameReads}
use lilio.Coordinator.Objects.Turns.{Turns, Turns-revision, commit_metadata}

module _ {P : Platform} (S : StoreIsVersioned P.store) where
  -- PutObject found the key at this revision, which is 0 if it found no object.
  abbrev pub Finds : Lilio P → Text → Text → ℕ → Type 0
  Finds l b k n =
      ((m : ObjectMetadata) × (head_object l b k ≡ ok m) × (m.revision ≡ pos n))
      ⊎ ((head_object l b k ≡ err object_not_found) × (n ≡ 0))

  Finds-revision :
      (l : Lilio P) (b k : Text) (n : ℕ) → Finds l b k n → S.revision l.metadata b k ≡ pos n
  unfolding head_object
  Finds-revision l b k n (inl (m, found, e)) = S.revision-found l.metadata b k m found ∙ e
  Finds-revision l b k n (inr (missing, e)) = S.revision-missing l.metadata b k missing ∙ rw e refl

  -- A commit on the condition of another revision than the key has now.
  refused :
      (l : Lilio P) (meta : ObjectMetadata) (n : ℕ) (superseded : List ChunkInfo)
      → S.revision l.metadata meta.bucket meta.key ≢ pos n
      → commit l meta (pos n) superseded ≡ (err concurrent_write, delete_chunks l meta.chunks)
  unfolding commit
  refused l meta n superseded other =
      let both = S.stale l.metadata meta n other in
      rw (ap (λ x. x.0) both, ap (λ x. x.1) both, commit) refl

  -- The commit that succeeded has moved the key to a higher revision.
  won :
      (l : Lilio P) (meta stored : ObjectMetadata) (e : ℤ) (superseded : List ChunkInfo) (n : ℕ)
      → (commit l meta e superseded).0 ≡ ok stored
      → S.revision l.metadata meta.bucket meta.key ≡ pos n
      → n < max_int64
      → S.revision (commit l meta e superseded).1.metadata meta.bucket meta.key ≡ pos (n + 1)
  unfolding commit
  won l meta stored e superseded n done now small =
      elim (Result-cases (P.store.compare_and_save l.metadata meta e).0) [
        | inl (x, refusal) ↦ absurd (ground arith)
        | inr (saved, h) ↦
            rw (commit_metadata S meta.bucket meta.key l meta e superseded)
              (S.revision-saved l.metadata meta saved e n h now small)
      ]

  -- No lost update between two PutObject calls on one key. The loser looked the key up before the
  -- winner's commit succeeded; between that and its own commit there are any of the steps that
  -- Turn has, rounds of the two loops, scrubs and changes of the backends included, and deletes and
  -- changes of buckets that leave the revision of the key as it is. Then the loser's commit answers
  -- ErrConcurrentWrite and changes no metadata, and it removes no chunk but its own: what the
  -- backends hold under any other chunk ID is as it was. For a store that keeps StoreIsVersioned,
  -- backends that keep IsLawful, chunk IDs that pass its test, and revisions that do not come near
  -- the largest int64.
  pub lost_race :
      {ids : Text → Bool} (L : IsLawful P.backend ids) (l0 l1 l2 : Lilio P)
      (winner loser stored : ObjectMetadata) (e : ℤ) (ws ls : List ChunkInfo) (n c d : ℕ)
      (id : Text)
      → Finds l0 loser.bucket loser.key n
      → Turns S loser.bucket loser.key l0 c l1
      → winner.bucket ≡ loser.bucket
      → winner.key ≡ loser.key
      → (commit l1 winner e ws).0 ≡ ok stored
      → Turns S loser.bucket loser.key (commit l1 winner e ws).1 d l2
      → n + c + d + 1 < max_int64
      → ids id ≡ true
      → All (λ c. (ids c.chunk_id ≡ true) × (id ≢ c.chunk_id)) loser.chunks
      → let (r, l3) = commit l2 loser (pos n) ls in
        (r ≡ err concurrent_write) × (l3.metadata ≡ l2.metadata) × SameReads l2 l3 id
  lost_race L l0 l1 l2 winner loser stored e ws ls n c d id finds before same_b same_k done after
        small asked others =
      let (n1, at_1, from, to) =
        Turns-revision S loser.bucket loser.key n c before
          (Finds-revision l0 loser.bucket loser.key n finds) (omega arith) in
      let at_won : S.revision (commit l1 winner e ws).1.metadata loser.bucket loser.key
          ≡ pos (n1 + 1) =
        rw (← same_b, ← same_k)
          (won l1 winner stored e ws n1 done (rw (same_b, same_k) at_1) (omega arith)) in
      let (n2, at_2, from2, to2) =
        Turns-revision S loser.bucket loser.key (n1 + 1) d after at_won (omega arith) in
      let gone : S.revision l2.metadata loser.bucket loser.key ≢ pos n =
        λ h. absurd (ground arith) in
      rw (refused l2 loser n ls gone) (
        refl,
        (delete_chunks-SameRest loser.chunks l2).0,
        delete_chunks-SameReads L loser.chunks l2 id asked others,
      )

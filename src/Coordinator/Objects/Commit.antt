-- ===== src/Coordinator/Objects/Commit.antt =====
-- The commit point of PutObject and DeleteObject of pkg/storage/lilio.go.
use lilio.Prelude.{
  Bool, Bool-cases, List, Option, Option-cases, Result, Result-cases, Text, [], arith, err, false,
  inl, inr, is_ok, none, ok, refl, some, true, ℕ, ℤ, ◌∙◌, ◌≡◌,
}
use lilio.Storage.{Bytes}
use lilio.Coordinator.{Lilio, LilioError, Platform}
use lilio.Coordinator.Objects.{
  PutRequest, commit, delete_object, finish_put, head_object, input_bytes, is_encrypted,
  new_metadata, previous, put_chunks, put_object, put_with,
}
use lilio.Crypto.{Encryptor}
use lilio.Metadata.{ChunkInfo, ObjectMetadata, StoreIsLawful, object_not_found}
use lilio.Coordinator.Backends.{get_encryptor}
use lilio.Chunking.{NextChunk, end_of_input}
use lilio.Coordinator.Objects.Rest.{delete_chunks-SameRest, put_chunks-SameRest}

module _ {P : Platform} (S : StoreIsLawful P.store) where
  -- What a result and the state beside it say of the metadata.
  Commits : Lilio P → Text → Text → Result LilioError ObjectMetadata × Lilio P → Type 0
  Commits l bucket key (ok stored, l') = P.store.get_object l'.metadata bucket key ≡ ok stored
  Commits l bucket key (err x, l') = l'.metadata ≡ l.metadata

  commit-Commits :
      (l : Lilio P) (meta : ObjectMetadata) (expected : ℤ) (superseded : List ChunkInfo)
      → Commits l meta.bucket meta.key (commit l meta expected superseded)
  unfolding commit Commits
  commit-Commits l meta expected superseded =
      let (saved, m) = P.store.compare_and_save l.metadata meta expected in
      let l2 : Lilio P = record l { metadata = m } in
      elim (Result-cases saved) [
        | inl (x, refused) ↦ ground (
          arith,
          S.save-failed l.metadata meta expected x refused,
          (delete_chunks-SameRest meta.chunks l2).0,
        )
        | inr (stored, done) ↦ ground (
          arith,
          S.get-save l.metadata meta expected stored done,
          (delete_chunks-SameRest superseded l2).0,
        )
      ]

  Commits-trans :
      (l l2 : Lilio P) (b k : Text) (out : Result LilioError ObjectMetadata × Lilio P)
      → l2.metadata ≡ l.metadata
      → Commits l2 b k out
      → Commits l b k out
  unfolding Commits
  Commits-trans l l2 b k (ok stored, l3) same h = h
  Commits-trans l l2 b k (err x, l3) same h = h ∙ same

  finish_put-Commits :
      (l : Lilio P) (rq : PutRequest) (encrypted : Bool) (expected : ℤ)
      (superseded : List ChunkInfo) (whole : Bytes) (stored : Result LilioError (List ChunkInfo))
      (ending : NextChunk)
      → Commits l rq.bucket rq.key
          (finish_put l rq encrypted expected superseded whole stored ending)
  unfolding finish_put new_metadata
  finish_put-Commits l rq enc expected superseded whole (err x) ending = unfold Commits in refl
  finish_put-Commits l rq enc expected superseded whole (ok infos) end_of_input =
      commit-Commits l (new_metadata l rq enc whole infos) expected superseded
  finish_put-Commits l rq enc expected superseded whole (ok infos) _ = unfold Commits in refl

  put_with-Commits :
      (l : Lilio P) (rq : PutRequest) (encrypted : Bool) (e : Option Encryptor) (expected : ℤ)
      (superseded : List ChunkInfo) (input : List (Bytes × ℕ) × NextChunk)
      → Commits l rq.bucket rq.key (put_with l rq encrypted e expected superseded input)
  unfolding put_with
  put_with-Commits l rq encrypted e expected superseded (chunks, ending) =
      let (stored, l2) = put_chunks l rq e chunks [] in
      Commits-trans l l2 rq.bucket rq.key
        (finish_put l2 rq encrypted expected superseded (input_bytes chunks) stored ending)
        (put_chunks-SameRest chunks l rq e []).0
        (finish_put-Commits l2 rq encrypted expected superseded (input_bytes chunks) stored ending)

  put_object-Commits :
      (l : Lilio P) (rq : PutRequest) (input : List (Bytes × ℕ) × NextChunk)
      → Commits l rq.bucket rq.key (put_object l rq input)
  unfolding put_object
  put_object-Commits l rq input =
      let (expected, superseded) = previous (P.store.get_object l.metadata rq.bucket rq.key) in
      elim (Bool-cases (P.store.bucket_exists l.metadata rq.bucket)) [
        | inr absent ↦ rw (absent, put_object) (unfold Commits in refl)
        | inl there ↦ elim (Bool-cases (is_encrypted l rq.bucket)) [
          | inr plain ↦
              rw (there, plain, put_object)
                (put_with-Commits l rq false none expected superseded input)
          | inl secret ↦ elim (Option-cases (get_encryptor l rq.bucket)) [
            | inl locked ↦ rw (there, secret, locked, put_object) (unfold Commits in refl)
            | inr (e, unlocked) ↦
                rw (there, secret, unlocked, put_object)
                  (put_with-Commits l rq true (some e) expected superseded input)
          ]
        ]
      ]

  Commits-told :
      (l l' : Lilio P) (b k : Text) (r : Result LilioError ObjectMetadata)
      → Commits l b k (r, l')
      → (is_ok r ≡ false → l'.metadata ≡ l.metadata)
        × ((stored : ObjectMetadata)
            → r ≡ ok stored
            → P.store.get_object l'.metadata b k ≡ ok stored)
  unfolding Commits
  Commits-told l l' b k (ok m) h = (λ no_ok. cc, λ stored e. cc)
  Commits-told l l' b k (err x) h = (λ _. h, λ stored e. cc)

  -- The metadata write is the commit point of a PUT, on a metadata store that keeps StoreIsLawful:
  -- if PutObject fails, for whatever reason, the whole metadata is what it was; if it succeeds,
  -- the metadata it returns is what the key now refers to.
  pub put_object_commits :
      (l l' : Lilio P) (rq : PutRequest) (input : List (Bytes × ℕ) × NextChunk)
      (r : Result LilioError ObjectMetadata)
      → put_object l rq input ≡ (r, l')
      → (is_ok r ≡ false → l'.metadata ≡ l.metadata)
        × ((stored : ObjectMetadata) → r ≡ ok stored → head_object l' rq.bucket rq.key ≡ ok stored)
  unfolding head_object
  put_object_commits l l' rq input r h =
      Commits-told l l' rq.bucket rq.key r (rw h at (put_object-Commits l rq input))

  gone_after_delete :
      (l l' : Lilio P) (bucket key : Text)
      → delete_object l bucket key ≡ (ok tt, l')
      → P.store.get_object l'.metadata bucket key ≡ err object_not_found
  unfolding delete_object
  gone_after_delete l l' bucket key h =
      let (deleted, m) = P.store.delete_object l.metadata bucket key in
      let l2 : Lilio P = record l { metadata = m } in
      elim (Result-cases (P.store.get_object l.metadata bucket key)) [
        | inl (x, unread) ↦ ground (arith)
        | inr (meta, found) ↦ ground (
          arith,
          S.get-delete l.metadata bucket key,
          S.get-delete_missing l.metadata bucket key,
          (delete_chunks-SameRest meta.chunks l2).0,
        )
      ]

  -- DELETE is idempotent, on a metadata store that keeps StoreIsLawful: when DeleteObject has
  -- succeeded, doing it again succeeds and changes nothing at all, and the key has no object.
  pub delete_object_idempotent :
      (l l' : Lilio P) (bucket key : Text)
      → delete_object l bucket key ≡ (ok tt, l')
      → (delete_object l' bucket key ≡ (ok tt, l'))
        × (head_object l' bucket key ≡ err object_not_found)
  unfolding delete_object head_object
  delete_object_idempotent l l' bucket key h =
      let gone = gone_after_delete l l' bucket key h in (rw (gone, delete_object), gone)

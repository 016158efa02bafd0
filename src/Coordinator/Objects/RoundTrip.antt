-- ===== src/Coordinator/Objects/RoundTrip.antt =====
-- GetObject of pkg/storage/lilio.go after PutObject.
use mathlib.Core.Path.{subst}
use lilio.Prelude.{
  All, Bool, Bool-cases, List, Option, Option-cases, Result, Result-cases, Text, [], ap, arith, err,
  false, inl, inr, int_eq, is_ok, nat_eq, none, ok, refl, some, text_eq, true, ℕ, ℤ, ◌<◌, ◌∙◌, ◌≡◌,
  ◌≢◌, ◌⊎◌,
}
use lilio.Prelude.Dict.{Dict, lookup}
use lilio.Prelude.Sorting.{sort_slice}
use lilio.Prelude.Ordered.{sort_slice_in_place}
use lilio.Storage.{Bytes, IsLawful}
use lilio.Metadata.{ChunkInfo, ObjectMetadata, StoreIsLawful}
use lilio.Crypto.{Encryptor}
use lilio.Chunking.Reading.{number}
use lilio.Coordinator.{Lilio, LilioError, Platform}
use lilio.Coordinator.Replicas.{delete_chunks}
use lilio.Coordinator.Objects.{
  PutRequest, by_index, chunk_id_of, commit, finish_put, get_object, get_with, head_object,
  input_bytes, is_encrypted, new_metadata, previous, put_chunks, put_object, put_with,
}
use lilio.Coordinator.Objects.Holding.{delete_chunks-SameReads}
use lilio.Coordinator.Objects.Chunks.{
  AllStored, AllStored-Ordered, AllStored-stable, Fresh, stream_lem,
}
use lilio.Crypto.RoundTrip.{CipherIsLawful}
use lilio.Coordinator.Objects.Puts.{Loads, Sized, put_chunks-Loads}
use lilio.Coordinator.Objects.Rest.{delete_chunks-SameRest, put_chunks-SameRest}
use lilio.Chunking.{NextChunk, end_of_input}
use lilio.Coordinator.Backends.{get_encryptor}
use lilio.Coordinator.Objects.Commit.{put_object_commits}

-- None of the chunks has an ID of the object, and all have one that passes the test.
abbrev pub NoneOf : (Text → Bool) → Text → List ChunkInfo → Type 0
NoneOf ids oid chunks =
    (i : ℕ) → All (λ c. (ids c.chunk_id ≡ true) × (chunk_id_of oid i ≢ c.chunk_id)) chunks

-- The key that an object of the bucket is stored under.
abbrev Matches : Bool → Option Encryptor → Text → Dict Text Encryptor → Type 0
Matches encrypted e bucket keys =
    (encrypted ≡ false) × (e ≡ none)
    ⊎ (encrypted ≡ true) × ((k : Encryptor) × (lookup bucket keys ≡ some k) × (e ≡ some k))

module _ {P : Platform} where
  -- What PutObject leaves behind when it succeeds.
  Leaves :
      Dict Text Encryptor
      → Text
      → Option Encryptor
      → Bool
      → List Bytes
      → Result LilioError ObjectMetadata × Lilio P
      → Type 0
  Leaves keys oid e encrypted ds (err x, l') = Unit
  Leaves keys oid e encrypted ds (ok stored, l') =
      AllStored l' oid e 0 (number 0 ds) stored.chunks
      × (stored.encrypted ≡ encrypted)
      × (l'.encryptors ≡ keys)

  Leaves-refused :
      (keys : Dict Text Encryptor) (oid : Text) (e : Option Encryptor) (encrypted : Bool)
      (ds : List Bytes) (out : Result LilioError ObjectMetadata × Lilio P)
      → is_ok out.0 ≡ false
      → Leaves keys oid e encrypted ds out
  unfolding Leaves
  Leaves-refused keys oid e encrypted ds (err x, l') h = tt
  Leaves-refused keys oid e encrypted ds (ok stored, l') h = ground arith

  -- What a client gets that reads the object.
  abbrev pub Gets : Lilio P → Text → Text → Bytes → Type 0
  Gets l bucket key d =
      (alive : ℕ → ℕ → Bool) (accepts : ℕ → Bool)
      → ((j i : ℕ) → alive j i ≡ true)
      → ((j : ℕ) → accepts j ≡ true)
      → ((get_object l alive accepts bucket key).0 ≡ ok tt)
        × ((get_object l alive accepts bucket key).1 ≡ d)

  put_object-put_with :
      (l l' : Lilio P) (rq : PutRequest) (input : List (Bytes × ℕ) × NextChunk)
      (stored : ObjectMetadata)
      → put_object l rq input ≡ (ok stored, l')
      → (encrypted : Bool) × ((e : Option Encryptor) × (put_with l rq encrypted e
              (previous (P.store.get_object l.metadata rq.bucket rq.key)).0
              (previous (P.store.get_object l.metadata rq.bucket rq.key)).1
              input
            ≡ (ok stored, l'))
          × Matches encrypted e rq.bucket l.encryptors)
  unfolding put_object get_encryptor
  put_object-put_with l l' rq input stored h =
      elim (Bool-cases (P.store.bucket_exists l.metadata rq.bucket)) [
        | inr absent ↦ ground arith
        | inl there ↦ elim (Bool-cases (is_encrypted l rq.bucket)) [
          | inr plain ↦ (false, (none, ground arith, inl (refl, refl)))
          | inl secret ↦ elim (Option-cases (lookup rq.bucket l.encryptors)) [
            | inl locked ↦ ground arith
            | inr (k, unlocked) ↦ (true, (some k, ground arith, inr (refl, (k, unlocked, refl))))
          ]
        ]
      ]

  module _ {ids : Text → Bool} (L : IsLawful P.backend ids) (S : StoreIsLawful P.store) where
    commit-Leaves :
        (l : Lilio P) (oid : Text) (e : Option Encryptor) (ds : List Bytes) (meta : ObjectMetadata)
        (expected : ℤ) (superseded : List ChunkInfo)
        → ((i : ℕ) → ids (chunk_id_of oid i) ≡ true)
        → NoneOf ids oid superseded
        → AllStored l oid e 0 (number 0 ds) meta.chunks
        → Leaves l.encryptors oid e meta.encrypted ds (commit l meta expected superseded)
    unfolding commit Leaves
    commit-Leaves l oid e ds meta expected superseded named other held =
        let (saved, m) = P.store.compare_and_save l.metadata meta expected in
        let l2 : Lilio P = record l { metadata = m } in
        let l3 = delete_chunks l2 superseded in
        let held3 : AllStored l3 oid e 0 (number 0 ds) meta.chunks =
          AllStored-stable l l3 oid e 0 (number 0 ds) meta.chunks
            (λ i le n.
              delete_chunks-SameReads L superseded l2 (chunk_id_of oid i) (named i) (other i) n)
            held in
        elim (Result-cases saved) [
          | inl (x, refused) ↦
              Leaves-refused l.encryptors oid e meta.encrypted ds
                (commit l meta expected superseded) (ground arith)
          | inr (stored, done) ↦
              let same = S.save-stored l.metadata meta expected stored done in
              let chunks_eq : stored.chunks ≡ meta.chunks = ap (λ o. o.chunks) same in
              rw (done, commit)
                (
                  rw chunks_eq held3,
                  ap (λ o. o.encrypted) same,
                  (delete_chunks-SameRest superseded l2).1,
                )
        ]

    put_with-Leaves :
        (C : CipherIsLawful P.cipher) (l : Lilio P) (rq : PutRequest) (encrypted : Bool)
        (e : Option Encryptor) (expected : ℤ) (superseded : List ChunkInfo) (ds : List Bytes)
        → ((i : ℕ) → ids (chunk_id_of rq.object_id i) ≡ true)
        → NoneOf ids rq.object_id superseded
        → Sized rq.nonces
        → 0 < l.quorum.w
        → Fresh l rq.object_id 0
        → Leaves l.encryptors rq.object_id e encrypted ds
            (put_with l rq encrypted e expected superseded (number 0 ds, end_of_input))
    unfolding put_with
    put_with-Leaves C l rq encrypted e expected superseded ds named other sized w fresh =
        let (_, keys, _) = put_chunks-SameRest (number 0 ds) l rq e [] in
        finish (put_chunks l rq e (number 0 ds) []) keys
          (put_chunks-Loads L C ds l rq e 0 [] named sized w fresh)
      where
        finish :
            (out : Result LilioError (List ChunkInfo) × Lilio P)
            → out.1.encryptors ≡ l.encryptors
            → Loads l rq.object_id e 0 (number 0 ds) [] out
            → Leaves l.encryptors rq.object_id e encrypted ds (
                finish_put out.1 rq encrypted expected superseded
                  (input_bytes (number 0 ds))
                  out.0
                  end_of_input)
        finish (err x, l2) keys loads = unfold Leaves finish_put in tt
        finish (ok infos, l2) keys (new, eq, stored, kept) =
            let meta = new_metadata l2 rq encrypted (input_bytes (number 0 ds)) infos in
            subst
              (λ ks. Leaves ks rq.object_id e encrypted ds (
                finish_put l2 rq encrypted expected superseded (input_bytes (number 0 ds))
                  (ok infos) end_of_input))
              keys
              (unfold finish_put new_metadata in
                commit-Leaves l2 rq.object_id e ds meta expected superseded named other
                  (rw eq stored))

    get_with_lem :
        (l : Lilio P) (alive : ℕ → ℕ → Bool) (accepts : ℕ → Bool) (oid bucket : Text)
        (e : Option Encryptor) (ds : List Bytes) (meta : ObjectMetadata)
        → ((i : ℕ) → ids (chunk_id_of oid i) ≡ true)
        → ((j i : ℕ) → alive j i ≡ true)
        → ((j : ℕ) → accepts j ≡ true)
        → AllStored l oid e 0 (number 0 ds) meta.chunks
        → ((get_with l alive accepts e bucket meta).0 ≡ ok tt)
          × ((get_with l alive accepts e bucket meta).1 ≡ input_bytes (number 0 ds))
    unfolding get_with
    get_with_lem l alive accepts oid bucket e ds meta named live takes held =
        let (above, ordered) = AllStored-Ordered l oid e 0 (number 0 ds) meta.chunks held in
        let in_place : sort_slice by_index meta.chunks ≡ meta.chunks =
          sort_slice_in_place (λ c. c.chunk_index) meta.chunks ordered in
        rw in_place (
          stream_lem L (number 0 ds) l alive accepts oid e 0 0 meta.chunks [] named live takes held)

    Leaves-Gets :
        (l : Lilio P) (oid bucket key : Text) (keys : Dict Text Encryptor) (e : Option Encryptor)
        (encrypted : Bool) (ds : List Bytes) (stored : ObjectMetadata)
        → ((i : ℕ) → ids (chunk_id_of oid i) ≡ true)
        → P.store.get_object l.metadata bucket key ≡ ok stored
        → Leaves keys oid e encrypted ds (ok stored, l)
        → Matches encrypted e bucket keys
        → Gets l bucket key (input_bytes (number 0 ds))
    unfolding Leaves get_object get_encryptor
    Leaves-Gets l oid bucket key keys e encrypted ds stored named found (held, enc, same)
          (inl (plain, no_key)) alive accepts live takes =
        let is_plain : stored.encrypted ≡ false = enc ∙ plain in
        rw (found, get_object, is_plain)
          (get_with_lem l alive accepts oid bucket none ds stored named live takes
            (rw no_key at held))
    Leaves-Gets l oid bucket key keys e encrypted ds stored named found (held, enc, same)
          (inr (secret, (k, unlocked, is_key))) alive accepts live takes =
        let is_secret : stored.encrypted ≡ true = enc ∙ secret in
        let key_found : lookup bucket l.encryptors ≡ some k = rw same unlocked in
        rw (found, get_object, is_secret, key_found)
          (get_with_lem l alive accepts oid bucket (some k) ds stored named live takes
            (rw is_key at held))

    -- A client reads back what it wrote. If PutObject succeeds on the chunks of an input, numbered
    -- from 0, then GetObject of that key, with a context that is not cancelled and a writer that
    -- accepts all writes, succeeds and writes exactly the input, encrypted buckets included. For
    -- lawful backends, metadata store and cipher, a write quorum of at least 1, nonces of the
    -- nonce size, an object ID under whose chunk IDs no backend has anything yet, and a replaced
    -- object that has none of these chunk IDs; all of the chunk IDs pass the test of IsLawful.
    pub get_object-put_object :
        (C : CipherIsLawful P.cipher) (l l' : Lilio P) (rq : PutRequest) (ds : List Bytes)
        (stored : ObjectMetadata) (alive : ℕ → ℕ → Bool) (accepts : ℕ → Bool)
        → ((i : ℕ) → ids (chunk_id_of rq.object_id i) ≡ true)
        → NoneOf ids rq.object_id (previous (P.store.get_object l.metadata rq.bucket rq.key)).1
        → Sized rq.nonces
        → 0 < l.quorum.w
        → Fresh l rq.object_id 0
        → put_object l rq (number 0 ds, end_of_input) ≡ (ok stored, l')
        → ((j i : ℕ) → alive j i ≡ true)
        → ((j : ℕ) → accepts j ≡ true)
        → ((get_object l' alive accepts rq.bucket rq.key).0 ≡ ok tt)
          × ((get_object l' alive accepts rq.bucket rq.key).1 ≡ input_bytes (number 0 ds))
    unfolding head_object
    get_object-put_object C l l' rq ds stored alive accepts named other sized w fresh h live takes =
        let (expected, superseded) = previous (P.store.get_object l.metadata rq.bucket rq.key) in
        let found : head_object l' rq.bucket rq.key ≡ ok stored =
          (put_object_commits S l l' rq (number 0 ds, end_of_input) (ok stored) h).1 stored refl in
        let (encrypted, (e, done, matches)) =
          put_object-put_with l l' rq (number 0 ds, end_of_input) stored h in
        Leaves-Gets l' rq.object_id rq.bucket rq.key l.encryptors e encrypted ds stored named found
          (rw done at
            (put_with-Leaves C l rq encrypted e expected superseded ds named other sized w fresh))
          matches alive accepts live takes

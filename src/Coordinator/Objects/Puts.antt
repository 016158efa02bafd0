-- ===== src/Coordinator/Objects/Puts.antt =====
-- What PutObject's loop of pkg/storage/lilio.go leaves on the backends.
use mathlib.Core.List.{append_assoc, append-nil}
use lilio.Prelude.{
  Bool, List, Option, Option-cases, Result, Result-cases, Text, [], any, ap, arith, err, inl, inr,
  length, none, ok, refl, some, sym, true, ℕ, ◌++◌, ◌+◌, ◌<◌, ◌∙◌, ◌∷◌, ◌≡◌, ◌≢◌,
}
use lilio.Prelude.Sorting.{any-sort_strings, sort_strings}
use lilio.Storage.{Bytes, IsLawful}
use lilio.Metadata.{ChunkInfo}
use lilio.Crypto.{Cipher, Encryptor, encrypt, nonce_size}
use lilio.Chunking.Reading.{number}
use lilio.Coordinator.{Lilio, LilioError, Platform, quorum_write, record_metric}
use lilio.Coordinator.Replicas.Reading.{is_intact, reads}
use lilio.Coordinator.Objects.{
  PutRequest, choose_targets, chunk_id_of, info_of, open_chunk, place_chunk, put_chunk, put_chunks,
  seal_chunk, send_chunk, store_all, write_chunk,
}
use lilio.Coordinator.Objects.Holding.{
  Held-stable, OnlyAs, SameReads, any-online_backends, any_of_select, chunk_id_of_injective,
  store_all-OnlyAs,
}
use lilio.Coordinator.Objects.Writing.{
  registry-record_stored, store_all-ImprovesAt, write_chunk-quorum,
}
use lilio.Coordinator.Backends.{online_backends}
use lilio.Coordinator.Objects.Chunks.{AllStored, Fresh, Stored}
use lilio.Crypto.RoundTrip.{CipherIsLawful, decrypt-encrypt}
use lilio.Ring.{get_nodes}
use lilio.Coordinator.Objects.Rest.{put_chunk-SameRest}

-- Nonces have the size that Decrypt expects.
abbrev pub Sized : (ℕ → Option Bytes) → Type 0
Sized nonces = (i : ℕ) (n : Bytes) → nonces i ≡ some n → length n ≡ nonce_size

open-seal :
    (c : Cipher) (C : CipherIsLawful c) (e : Option Encryptor) (salt : Option Bytes) (d s : Bytes)
    → ((n : Bytes) → salt ≡ some n → length n ≡ nonce_size)
    → seal_chunk c e salt d ≡ some s
    → open_chunk c e s ≡ some d
unfolding seal_chunk open_chunk
open-seal c C none salt d s sized h = sym h
open-seal c C (some e) none d s sized h = unfold encrypt in ground arith
open-seal c C (some e) (some n) d s sized h = (decrypt-encrypt c C e n d s (sized n refl) h).0

module _ {P : Platform} where
  -- What one round of PutObject's loop gives.
  Puts :
      Lilio P → Text → Option Encryptor → ℕ → Bytes → Result LilioError ChunkInfo × Lilio P → Type 0
  Puts l oid e k d (err x, l') = Unit
  Puts l oid e k d (ok info, l') =
      Stored l' oid e k d info × ((i : ℕ) → k ≢ i → SameReads l l' (chunk_id_of oid i))

  -- What PutObject's loop gives.
  abbrev pub Loads :
      Lilio P
      → Text
      → Option Encryptor
      → ℕ
      → List (Bytes × ℕ)
      → List ChunkInfo
      → Result LilioError (List ChunkInfo) × Lilio P
      → Type 0
  Loads l oid e k chunks before (err x, l') = Unit
  Loads l oid e k chunks before (ok infos, l') =
      (new : List ChunkInfo) × (infos ≡ before ++ new)
      × AllStored l' oid e k chunks new
      × ((i : ℕ) → i < k → SameReads l l' (chunk_id_of oid i))

  Puts-SameReads :
      (l l2 : Lilio P) (oid : Text) (e : Option Encryptor) (k i : ℕ) (d : Bytes) (info : ChunkInfo)
      → Puts l oid e k d (ok info, l2)
      → k ≢ i
      → SameReads l l2 (chunk_id_of oid i)
  unfolding Puts
  Puts-SameReads l l2 oid e k i d info put ne = put.1 i ne

  Loads-cons :
      (l l2 : Lilio P) (oid : Text) (e : Option Encryptor) (k : ℕ) (d : Bytes)
      (chunks : List (Bytes × ℕ)) (before : List ChunkInfo) (info : ChunkInfo)
      (out : Result LilioError (List ChunkInfo) × Lilio P)
      → Puts l oid e k d (ok info, l2)
      → Loads l2 oid e (k + 1) chunks (before ++ info ∷ []) out
      → Loads l oid e k ((d, k) ∷ chunks) before out
  unfolding Puts
  Loads-cons l l2 oid e k d chunks before info (err x, l') put rest = tt
  Loads-cons l l2 oid e k d chunks before info (ok infos, l') ((id, idx, (s, opens, held)), same)
        (new, eq, stored, kept) =
      (
        info ∷ new,
        eq ∙ append_assoc before (info ∷ []) new,
        (
          (id, idx, (s, opens, Held-stable l2 l' info s (rw id (kept k (omega arith))) held)),
          stored,
        ),
        λ i lt n. kept i (omega arith) n ∙ same i (λ e. absurd (omega (arith, e))) n,
      )

module _ {P : Platform} {ids : Text → Bool} (L : IsLawful P.backend ids) where
  write_chunk-OnlyAs :
      (l : Lilio P) (id : Text) (i size : ℕ) (d : Bytes) (intended targets : List Text)
      → ids id ≡ true
      → ((n : Text) → reads l n id ≡ none)
      → OnlyAs (write_chunk l id i size d intended targets).1 id d
  unfolding write_chunk
  write_chunk-OnlyAs l id i size d intended targets named fresh n =
      let (successful, l1) = store_all l id d targets [] in
      let l2 = record_metric (quorum_write true (length targets) (length successful)) l1 in
      ground (
        arith,
        store_all-OnlyAs L targets l id d [] named (λ m. inl (fresh m)) n,
        registry-record_stored L (sort_strings successful) size l2,
      )

  write_chunk-SameReads :
      (l : Lilio P) (id : Text) (i size : ℕ) (d : Bytes) (intended targets : List Text) (t : Text)
      → ids id ≡ true
      → ids t ≡ true
      → t ≢ id
      → SameReads l (write_chunk l id i size d intended targets).1 t
  unfolding write_chunk
  write_chunk-SameReads l id i size d intended targets t named asked ne n =
      let (successful, l1) = store_all l id d targets [] in
      let l2 = record_metric (quorum_write true (length targets) (length successful)) l1 in
      let c = info_of P id i size d intended in
      ground (
        arith,
        store_all-ImprovesAt L targets l c d [] n t named asked refl,
        registry-record_stored L (sort_strings successful) size l2,
      )

  write_chunk-Puts :
      (l : Lilio P) (oid : Text) (e : Option Encryptor) (k size : ℕ) (d s : Bytes)
      (intended targets : List Text) (r : Result LilioError ChunkInfo × Lilio P)
      → ((i : ℕ) → ids (chunk_id_of oid i) ≡ true)
      → write_chunk l (chunk_id_of oid k) k size s intended targets ≡ r
      → open_chunk P.cipher e s ≡ some d
      → 0 < l.quorum.w
      → ((n : Text) → reads l n (chunk_id_of oid k) ≡ none)
      → ((p : Text → Bool) → any p targets ≡ true → any p intended ≡ true)
      → Puts l oid e k d r
  unfolding Puts
  write_chunk-Puts l oid e k size d s intended targets (err x, l') named r opens w fresh subset = tt
  write_chunk-Puts l oid e k size d s intended targets (ok info, l') named r opens w fresh subset =
      let id = chunk_id_of oid k in
      let (same, enough) =
        write_chunk-quorum L l id k size s intended targets info (named k) (ap (λ o. o.0) r) in
      let l'_eq : (write_chunk l id k size s intended targets).1 ≡ l' = ap (λ o. o.1) r in
      let intact : any (is_intact l' info) intended ≡ true =
        subset (is_intact l' info)
          (any_of_select (is_intact l' info) targets (ground (arith, enough))) in
      let only : OnlyAs l' id s =
        rw (← l'_eq) (write_chunk-OnlyAs l id k size s intended targets (named k) fresh) in
      (
        (
          ap (λ c. c.chunk_id) same,
          ap (λ c. c.chunk_index) same,
          (
            s,
            opens,
            (
              rw same only,
              ap (λ c. any (is_intact l' info) c.storage_nodes) same
                  ∙ any-sort_strings (is_intact l' info) intended
                  ∙ intact,
            ),
          ),
        ),
        λ i ne. rw (← l'_eq) (
            write_chunk-SameReads l id k size s intended targets (chunk_id_of oid i) (named k)
              (named i) (λ eq. ne (chunk_id_of_injective oid k i (sym eq)))),
      )

  choose_targets-Puts :
      (l : Lilio P) (oid : Text) (e : Option Encryptor) (k size : ℕ) (d s : Bytes)
      (nodes : Option (List Text))
      → ((i : ℕ) → ids (chunk_id_of oid i) ≡ true)
      → open_chunk P.cipher e s ≡ some d
      → 0 < l.quorum.w
      → ((n : Text) → reads l n (chunk_id_of oid k) ≡ none)
      → Puts l oid e k d (choose_targets l (chunk_id_of oid k) k size s nodes)
  unfolding send_chunk choose_targets
  choose_targets-Puts l oid e k size d s none named opens w fresh = unfold Puts in tt
  choose_targets-Puts l oid e k size d s (some []) named opens w fresh = unfold Puts in tt
  choose_targets-Puts l oid e k size d s (some (node ∷ nodes)) named opens w fresh =
      send (online_backends l (node ∷ nodes)) (λ p h. any-online_backends l p (node ∷ nodes) h)
    where
      send :
          (targets : List Text)
          → ((p : Text → Bool) → any p targets ≡ true → any p (node ∷ nodes) ≡ true)
          → Puts l oid e k d (send_chunk l (chunk_id_of oid k) k size s (node ∷ nodes) targets)
      send [] subset = unfold Puts in tt
      send (target ∷ targets) subset =
          write_chunk-Puts l oid e k size d s (node ∷ nodes) (target ∷ targets)
            (write_chunk l (chunk_id_of oid k) k size s (node ∷ nodes) (target ∷ targets)) named
            refl opens w fresh subset

  module _ (C : CipherIsLawful P.cipher) where
    put_chunk-Puts :
        (l : Lilio P) (rq : PutRequest) (e : Option Encryptor) (d : Bytes) (k : ℕ)
        → ((i : ℕ) → ids (chunk_id_of rq.object_id i) ≡ true)
        → Sized rq.nonces
        → 0 < l.quorum.w
        → ((n : Text) → reads l n (chunk_id_of rq.object_id k) ≡ none)
        → Puts l rq.object_id e k d (put_chunk l rq e d k)
    unfolding put_chunk place_chunk
    put_chunk-Puts l rq e d k named sized w fresh =
        elim (Option-cases (seal_chunk P.cipher e (rq.nonces k) d)) [
          | inl no_nonce ↦ rw (no_nonce, put_chunk) (unfold Puts in tt)
          | inr (s, done) ↦
              rw (done, put_chunk)
                (choose_targets-Puts l rq.object_id e k (length d) d s
                  (get_nodes P.sha256 l.hash_ring (chunk_id_of rq.object_id k) l.replication_factor)
                  named (open-seal P.cipher C e (rq.nonces k) d s (sized k) done) w fresh)
        ]

    pub put_chunks-Loads :
        (ds : List Bytes) (l : Lilio P) (rq : PutRequest) (e : Option Encryptor) (k : ℕ)
        (before : List ChunkInfo)
        → ((i : ℕ) → ids (chunk_id_of rq.object_id i) ≡ true)
        → Sized rq.nonces
        → 0 < l.quorum.w
        → Fresh l rq.object_id k
        → Loads l rq.object_id e k (number k ds) before (put_chunks l rq e (number k ds) before)
    unfolding put_chunks
    put_chunks-Loads [] l rq e k before named sized w fresh =
        ([], sym (append-nil before), tt, λ i lt n. refl)
    put_chunks-Loads (d ∷ ds) l rq e k before named sized w fresh =
        let (stored, l2) = put_chunk l rq e d k in
        let put : Puts l rq.object_id e k d (stored, l2) =
          put_chunk-Puts l rq e d k named sized w (λ n. fresh n k (omega arith)) in
        let w2 : 0 < l2.quorum.w = rw (put_chunk-SameRest l rq e d k).2 w in
        elim (Result-cases stored) [
          | inl (x, refused) ↦ rw (refused, put_chunks) tt
          | inr (info, done) ↦
              let put2 : Puts l rq.object_id e k d (ok info, l2) = rw done at put in
              let fresh2 : Fresh l2 rq.object_id (k + 1) = λ n i le.
                Puts-SameReads l l2 rq.object_id e k i d info put2 (λ e. absurd (omega (arith, e)))
                  n
                ∙ fresh n i (omega arith) in
              rw (done, put_chunks)
                (Loads-cons l l2 rq.object_id e k d (number (k + 1) ds) before info
                  (put_chunks l2 rq e (number (k + 1) ds) (before ++ info ∷ [])) put2
                  (put_chunks-Loads ds l2 rq e (k + 1) (before ++ info ∷ []) named sized w2 fresh2))
        ]

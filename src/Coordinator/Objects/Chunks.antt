-- ===== src/Coordinator/Objects/Chunks.antt =====
-- The chunks of one object of pkg/storage/lilio.go on the backends, and GetObject's loop over them.
use mathlib.Core.List.{append_assoc, append-nil}
use lilio.Prelude.{
  All, Bool, List, Option, Text, [], arith, none, ok, refl, some, sym, true, ℕ, ◌++◌, ◌+◌, ◌∙◌, ◌∷◌,
  ◌≡◌, ◌≤◌,
}
use lilio.Prelude.Ordered.{Ordered}
use lilio.Storage.{Bytes, IsLawful}
use lilio.Metadata.{ChunkInfo}
use lilio.Crypto.{Encryptor}
use lilio.Coordinator.{Lilio, Platform}
use lilio.Coordinator.Replicas.{retrieve_chunk}
use lilio.Coordinator.Replicas.Reading.{reads}
use lilio.Coordinator.Objects.{chunk_id_of, input_bytes, open_chunk, stream}
use lilio.Coordinator.Objects.Holding.{
  Held, Held-stable, SameReads, chunk_id_of_injective, retrieve_chunk-Held,
  retrieve_chunk-SameReads,
}

module _ {P : Platform} where
  -- Chunk number k is recorded and held, and opens as what the client sent.
  abbrev pub Stored : Lilio P → Text → Option Encryptor → ℕ → Bytes → ChunkInfo → Type 0
  Stored l oid e k d c =
      (c.chunk_id ≡ chunk_id_of oid k)
      × (c.chunk_index ≡ k)
      × ((s : Bytes) × (open_chunk P.cipher e s ≡ some d) × Held l c s)

  -- So for a list of chunks, numbered from k on.
  abbrev pub AllStored :
      Lilio P → Text → Option Encryptor → ℕ → List (Bytes × ℕ) → List ChunkInfo → Type 0
  AllStored l oid e k [] [] = Unit
  AllStored l oid e k ((d, i) ∷ chunks) (c ∷ cs) =
      Stored l oid e k d c × AllStored l oid e (k + 1) chunks cs
  AllStored l oid e k _ _ = ⊥

  -- Nothing is stored yet under the IDs from chunk k on.
  abbrev pub Fresh : Lilio P → Text → ℕ → Type 0
  Fresh l oid k = (n : Text) (i : ℕ) → k ≤ i → reads l n (chunk_id_of oid i) ≡ none

  pub AllStored-stable :
      (l l' : Lilio P) (oid : Text) (e : Option Encryptor) (k : ℕ) (chunks : List (Bytes × ℕ))
      (cs : List ChunkInfo)
      → ((i : ℕ) → k ≤ i → SameReads l l' (chunk_id_of oid i))
      → AllStored l oid e k chunks cs
      → AllStored l' oid e k chunks cs
  AllStored-stable l l' oid e k [] [] same h = tt
  AllStored-stable l l' oid e k [] (c ∷ cs) same h = h
  AllStored-stable l l' oid e k ((d, i) ∷ chunks) [] same h = h
  AllStored-stable l l' oid e k ((d, i) ∷ chunks) (c ∷ cs) same
        ((id, idx, (s, opens, held)), rest) =
      let same_c : SameReads l l' c.chunk_id = rw id (same k (omega arith)) in
      (
        (id, idx, (s, opens, Held-stable l l' c s same_c held)),
        AllStored-stable l l' oid e (k + 1) chunks cs (λ j le. same j (omega arith)) rest,
      )

  pub AllStored-Ordered :
      (l : Lilio P) (oid : Text) (e : Option Encryptor) (k : ℕ) (chunks : List (Bytes × ℕ))
      (cs : List ChunkInfo)
      → AllStored l oid e k chunks cs
      → All (λ c. k ≤ c.chunk_index) cs × Ordered (λ (c : ChunkInfo). c.chunk_index) cs
  AllStored-Ordered l oid e k [] [] h = (tt, tt)
  AllStored-Ordered l oid e k [] (c ∷ cs) h = absurd h
  AllStored-Ordered l oid e k ((d, i) ∷ chunks) [] h = absurd h
  AllStored-Ordered l oid e k ((d, i) ∷ chunks) (c ∷ cs) ((id, idx, s), rest) =
      let (above, ordered) = AllStored-Ordered l oid e (k + 1) chunks cs rest in
      (
        (omega (arith, idx), at_least k (k + 1) cs (omega arith) above),
        (at_least c.chunk_index (k + 1) cs (omega (arith, idx)) above, ordered),
      )
    where
      at_least :
          (j k : ℕ) (cs : List ChunkInfo)
          → j ≤ k
          → All (λ c. k ≤ c.chunk_index) cs
          → All (λ c. j ≤ c.chunk_index) cs
      at_least j k [] le all = tt
      at_least j k (c ∷ cs) le (here, all) = (omega arith, at_least j k cs le all)

  module _ {ids : Text → Bool} (L : IsLawful P.backend ids) where
    -- GetObject's loop writes what the client sent.
    pub stream_lem :
        (chunks : List (Bytes × ℕ)) (l : Lilio P) (alive : ℕ → ℕ → Bool) (accepts : ℕ → Bool)
        (oid : Text) (e : Option Encryptor) (k j : ℕ) (cs : List ChunkInfo) (out : Bytes)
        → ((i : ℕ) → ids (chunk_id_of oid i) ≡ true)
        → ((j i : ℕ) → alive j i ≡ true)
        → ((j : ℕ) → accepts j ≡ true)
        → AllStored l oid e k chunks cs
        → ((stream l alive accepts e cs j out).0 ≡ ok tt)
          × ((stream l alive accepts e cs j out).1 ≡ out ++ input_bytes chunks)
    unfolding stream
    stream_lem [] l alive accepts oid e k j [] out named live takes h = (refl, sym (append-nil out))
    stream_lem [] l alive accepts oid e k j (c ∷ cs) out named live takes h = absurd h
    stream_lem ((d, i) ∷ chunks) l alive accepts oid e k j [] out named live takes h = absurd h
    stream_lem ((d, i) ∷ chunks) l alive accepts oid e k j (c ∷ cs) out named live takes
          ((id, idx, (s, opens, held)), rest) =
        let (fetched, l2) = retrieve_chunk l (alive j) c in
        let got : fetched ≡ ok s = retrieve_chunk-Held l (alive j) c s (live j) held in
        let kept : (i : ℕ) → k + 1 ≤ i → SameReads l l2 (chunk_id_of oid i) = λ i le.
          retrieve_chunk-SameReads L l (alive j) c (chunk_id_of oid i) (rw id (named k)) (named i)
            λ same. absurd (omega (arith, chunk_id_of_injective oid i k (same ∙ id))) in
        let later = AllStored-stable l l2 oid e (k + 1) chunks cs kept rest in
        let (r, written) =
          stream_lem chunks l2 alive accepts oid e (k + 1) (j + 1) cs (out ++ d) named live takes
            later in
        rw (got, stream, opens, takes j) (r, written ∙ append_assoc out d (input_bytes chunks))

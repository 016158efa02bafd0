-- ===== src/Chunking/Pieces.antt =====
-- The pieces that ChunkData of pkg/storage/lilio.go cuts an object into.
use mathlib.Core.List.{flatten}
use native.Mathlib.Decide.{dec_lt}
use lilio.Prelude.{
  All, [], arith, drop, length, length-drop, length-take, refl, suc, take, take-append-drop, zero,
  ℕ, ◌*◌, ◌+◌, ◌-◌, ◌<◌, ◌∷◌, ◌≡◌, ◌≤◌,
}
use lilio.Storage.{Bytes}
use lilio.Chunking.{chunk_data, chunk_data_from}

chunk_data_from-nil : (k size : ℕ) → chunk_data_from k size [] ≡ []
unfolding chunk_data_from
chunk_data_from-nil zero size = refl
chunk_data_from-nil (suc k) size = ground arith

chunk_data_from-cons :
    (k size b : ℕ) (d : Bytes)
    → chunk_data_from (suc k) size (b ∷ d)
      ≡ take size (b ∷ d) ∷ chunk_data_from k size (drop size (b ∷ d))
unfolding chunk_data_from
chunk_data_from-cons k size b d = ground arith

drop_shorter : (k size b : ℕ) (d : Bytes) → 0 < size → length d ≤ k → length (drop size (b ∷ d)) ≤ k
drop_shorter k size b d sized small = rw length-drop (omega arith)

flatten-chunk_data_from :
    (k size : ℕ) (d : Bytes) → 0 < size → length d ≤ k → flatten (chunk_data_from k size d) ≡ d
unfolding flatten
flatten-chunk_data_from k size [] sized small = rw chunk_data_from-nil
flatten-chunk_data_from zero size (b ∷ d) sized small = absurd (omega arith)
flatten-chunk_data_from (suc k) size (b ∷ d) sized small =
    let shorter = drop_shorter k size b d sized (omega arith) in
    rw (chunk_data_from-cons, flatten-chunk_data_from k size (drop size (b ∷ d)) sized shorter)
      (take-append-drop size (b ∷ d))

abbrev pub IsPiece : ℕ → Bytes → Type 0
IsPiece size c = (0 < length c) × (length c ≤ size)

take-IsPiece : (size b : ℕ) (d : Bytes) → 0 < size → IsPiece size (take size (b ∷ d))
take-IsPiece size b d sized = rw length-take (omega arith, omega arith)

All-chunk_data_from :
    (k size : ℕ) (d : Bytes) → 0 < size → All (IsPiece size) (chunk_data_from k size d)
All-chunk_data_from k size [] sized = rw chunk_data_from-nil tt
All-chunk_data_from zero size (b ∷ d) sized = unfold chunk_data_from in tt
All-chunk_data_from (suc k) size (b ∷ d) sized =
    rw chunk_data_from-cons
      (take-IsPiece size b d sized, All-chunk_data_from k size (drop size (b ∷ d)) sized)

none_of_lt : (n size : ℕ) → n * size < size → n ≡ 0
none_of_lt zero size h = refl
none_of_lt (suc n) size h = absurd (omega arith)

below_of_lt :
    (size n left total : ℕ)
    → n * size < left + size
    → left ≡ suc total - size
    → suc n * size < suc total + size
below_of_lt size n left total tight e = elim (dec_lt total size) [
  | yes little ↦ rw (none_of_lt n size (omega arith)) (omega arith)
  | no plenty ↦ omega arith
]

count-chunk_data_from :
    (k size : ℕ) (d : Bytes)
    → 0 < size
    → length d ≤ k
    → (length d ≤ length (chunk_data_from k size d) * size)
      × (length (chunk_data_from k size d) * size < length d + size)
count-chunk_data_from k size [] sized small = rw chunk_data_from-nil (omega arith, omega arith)
count-chunk_data_from zero size (b ∷ d) sized small = absurd (omega arith)
count-chunk_data_from (suc k) size (b ∷ d) sized small =
    let shorter = drop_shorter k size b d sized (omega arith) in
    let (enough, tight) = count-chunk_data_from k size (drop size (b ∷ d)) sized shorter in
    rw chunk_data_from-cons (
      omega (arith, length-drop size (b ∷ d)),
      below_of_lt size _ _ _ tight (length-drop size (b ∷ d)),
    )

-- For a chunk size that is not 0, an object is the concatenation of its chunks; no chunk is empty
-- or longer than the chunk size; and there are no more chunks than the size of the object needs.
pub chunk_data_lem :
    (size : ℕ) (d : Bytes)
    → 0 < size
    → (flatten (chunk_data size d) ≡ d)
      × All (IsPiece size) (chunk_data size d)
      × (length d ≤ length (chunk_data size d) * size)
      × (length (chunk_data size d) * size < length d + size)
unfolding chunk_data
chunk_data_lem size d sized =
    let (enough, tight) = count-chunk_data_from (length d) size d sized (omega arith) in
    (
      flatten-chunk_data_from (length d) size d sized (omega arith),
      All-chunk_data_from (length d) size d sized,
      enough,
      tight,
    )

-- ===== src/Chunking/Reading.antt =====
-- What pkg/utils/chunkReader.go cuts its input into, against ChunkData of pkg/storage/lilio.go.
use mathlib.Core.List.{append_assoc, append-nil}
use lilio.Prelude.{
  Bool-cases, List, [], ap, arith, drop, false, if◌then◌else◌, inl, inr, length, length-append,
  length-drop, ltb, ltb→lt, refl, suc, sym, take, true, zero, ℕ, ◌++◌, ◌+◌, ◌-◌, ◌<◌, ◌∙◌, ◌∷◌, ◌≡◌,
  ◌≢◌, ◌≤◌, ◌⊎◌,
}
use lilio.Storage.{Bytes}
use lilio.Chunking.{
  ChunkReader, Filled, NextChunk, ReadStatus, Reader, after_fill, chunk, chunk_data,
  chunk_data_from, end_of_input, eof, failed, fill, fill_failed, fill_unfinished, filled, more,
  new_chunk_reader, next_chunk, read_chunks, read_error, unfinished,
}

-- What `io.Reader` documents: the bytes still to come are `pending`, an answer fits the buffer and
-- takes its bytes from their front, io.EOF comes with the last of them, and no more than `steps`
-- answers come before it. A reader that fails has no `pending`.
pub record ReaderIsLawful (R : Reader) (pending : R.State → Bytes) (steps : R.State → ℕ)
    : Type 0 where
  pub fits : (s : R.State) (n : ℕ) → 0 < n → length (R.read s n).0 ≤ n
  pub never_fails : (s : R.State) (n : ℕ) → 0 < n → (R.read s n).1 ≢ failed
  pub at_more :
      (s : R.State) (n : ℕ)
      → 0 < n
      → (R.read s n).1 ≡ more
      → ((R.read s n).0 ++ pending (R.read s n).2 ≡ pending s) × (steps (R.read s n).2 < steps s)
  pub at_eof : (s : R.State) (n : ℕ) → 0 < n → (R.read s n).1 ≡ eof → (R.read s n).0 ≡ pending s

-- `for range` with an index
abbrev pub number : ℕ → List Bytes → List (Bytes × ℕ)
number i [] = []
number i (d ∷ ds) = (d, i) ∷ number (i + 1) ds

split_at :
    (n : ℕ) (xs ys total : Bytes)
    → xs ++ ys ≡ total
    → length xs ≤ n
    → (length xs ≡ n) ⊎ (ys ≡ [])
    → (take n total ≡ xs) × (drop n total ≡ ys)
split_at n xs ys total e short full = rw (← e) (go n xs ys short full)
  where
    go :
        (n : ℕ) (xs ys : Bytes)
        → length xs ≤ n
        → (length xs ≡ n) ⊎ (ys ≡ [])
        → (take n (xs ++ ys) ≡ xs) × (drop n (xs ++ ys) ≡ ys)
    go zero [] ys short full = (refl, refl)
    go zero (x ∷ xs) ys short full = absurd (omega arith)
    go (suc n) [] ys short full = ground arith
    go (suc n) (x ∷ xs) ys short full = ground (arith, go n xs ys)

module _ (R : Reader) (pending : R.State → Bytes) (steps : R.State → ℕ)
    (L : ReaderIsLawful R pending steps) where
  -- A filled buffer holds the front of what was to come, and stops short only at the end.
  abbrev FillsFrom : Bytes → ℕ → ℕ → Filled R → Type 0
  FillsFrom total size bound (filled got true r) = (length got ≤ size) × (got ≡ total)
  FillsFrom total size bound (filled got false r) =
      (length got ≡ size) × (got ++ pending r ≡ total) × (steps r ≤ bound)
  FillsFrom total size bound (fill_failed r) = ⊥
  FillsFrom total size bound fill_unfinished = ⊥

  weaken :
      (total : Bytes) (size b c : ℕ) (f : Filled R)
      → b ≤ c
      → FillsFrom total size b f
      → FillsFrom total size c f
  weaken total size b c (filled got true r) le h = h
  weaken total size b c (filled got false r) le h = (h.0, h.1, omega arith)
  weaken total size b c (fill_failed r) le h = h
  weaken total size b c fill_unfinished le h = h

  status_cases : (x : ReadStatus) → (x ≡ more) ⊎ (x ≡ eof) ⊎ (x ≡ failed)
  status_cases more = inl refl
  status_cases eof = inr (inl refl)
  status_cases failed = inr (inr refl)

  fill_lem :
      (fuel : ℕ) (r : R.State) (size : ℕ) (got : Bytes)
      → length got ≤ size
      → steps r < fuel
      → FillsFrom (got ++ pending r) size (steps r) (fill R fuel r size got)
  unfolding fill
  fill_lem zero r size got short enough = elim enough [ ]
  fill_lem (suc fuel) r size got short enough = elim (Bool-cases (ltb (length got) size)) [
    | inr full ↦ rw full (ground arith, refl, omega arith)
    | inl room ↦
        let n = size - length got in
        let pos : 0 < n = omega (arith, ltb→lt _ _ room) in
        let (d, status, r') = R.read r n in
        let fits : length (got ++ d) ≤ size = omega (arith, length-append got d, L.fits r n pos) in
        rw room (elim (status_cases status) [
          | inl is_more ↦
              let (bytes_eq, fewer) = L.at_more r n pos is_more in
              let total : (got ++ d) ++ pending r' ≡ got ++ pending r =
                append_assoc got d (pending r') ∙ ap (◌++◌ got) bytes_eq in
              rw is_more (
                weaken _ size _ _ _ (omega arith)
                  (rw total at (fill_lem fuel r' size (got ++ d) fits (omega arith))))
          | inr (inl is_eof) ↦ rw is_eof (fits, ap (◌++◌ got) (L.at_eof r n pos is_eof))
          | inr (inr is_failed) ↦ absurd (L.never_fails r n pos is_failed)
        ])
  ]

  -- What a chunk reader has still to give.
  remaining : ChunkReader R → Bytes
  remaining cr = if cr.done then [] else pending cr.reader

  steps_left : ChunkReader R → ℕ
  steps_left cr = if cr.done then 0 else steps cr.reader

  -- One call of NextChunk takes the next chunk off the front of what remains.
  Advances : Bytes → ℕ → ChunkReader R → NextChunk × ChunkReader R → Type 0
  Advances total bound cr (chunk d i, cr') =
      (d ≡ take cr.chunk_size total)
      × (remaining cr' ≡ drop cr.chunk_size total)
      × (i ≡ cr.chunk_num)
      × (cr'.chunk_num ≡ cr.chunk_num + 1)
      × (cr'.chunk_size ≡ cr.chunk_size)
      × (steps_left cr' ≤ bound)
      × (0 < length total)
  Advances total bound cr (end_of_input, cr') = total ≡ []
  Advances total bound cr (read_error, cr') = ⊥
  Advances total bound cr (unfinished, cr') = ⊥

  nil_of_length : (d : Bytes) → length d ≡ 0 → d ≡ []
  nil_of_length [] h = refl
  nil_of_length (b ∷ d) h = absurd (omega arith)

  after_fill_lem :
      (total : Bytes) (bound : ℕ) (cr : ChunkReader R) (f : Filled R)
      → 0 < cr.chunk_size
      → FillsFrom total cr.chunk_size bound f
      → Advances total bound cr (after_fill R cr f)
  unfolding after_fill Advances remaining steps_left
  after_fill_lem total bound cr (fill_failed r) sized h = absurd h
  after_fill_lem total bound cr fill_unfinished sized h = absurd h
  after_fill_lem total bound cr (filled got true r) sized (short, whole) =
      let (front, rest) =
        split_at cr.chunk_size got [] total (append-nil got ∙ whole) short (inr refl) in
      ground (arith, nil_of_length got, ap length whole)
  after_fill_lem total bound cr (filled got false r) sized (exact, whole, fewer) =
      let (front, rest) =
        split_at cr.chunk_size got (pending r) total whole (omega arith) (inl exact) in
      let size : length got + length (pending r) ≡ length total =
        sym (length-append got (pending r)) ∙ ap length whole in
      ground arith

  module _ (fuel : ℕ) (cr : ChunkReader R) where
    while_open :
        cr.done ≡ false
        → (remaining cr ≡ pending cr.reader)
          × (steps_left cr ≡ steps cr.reader)
          × (next_chunk R fuel cr ≡ after_fill R cr (fill R fuel cr.reader cr.chunk_size []))
    unfolding remaining steps_left next_chunk
    while_open going = (rw (remaining, going), rw (steps_left, going), rw (next_chunk, going))

    once_done : cr.done ≡ true → Advances (remaining cr) (steps_left cr) cr (next_chunk R fuel cr)
    unfolding remaining next_chunk Advances
    once_done over = rw over

    next_chunk_lem :
        0 < cr.chunk_size
        → steps_left cr < fuel
        → Advances (remaining cr) (steps_left cr) cr (next_chunk R fuel cr)
    next_chunk_lem sized enough = elim (Bool-cases cr.done) [
      | inl over ↦ once_done over
      | inr going ↦
          let (whole, left, step) = while_open going in
          rw (whole, left, step)
            (after_fill_lem _ _ cr _ sized
              (fill_lem fuel cr.reader cr.chunk_size [] (omega arith) (omega arith)))
    ]

  Delivers : ChunkReader R → ℕ → List (Bytes × ℕ) × NextChunk → Type 0
  Delivers cr k out =
      out ≡ (number cr.chunk_num (chunk_data_from k cr.chunk_size (remaining cr)), end_of_input)

  deliver_zero :
      (rounds fuel : ℕ) (cr : ChunkReader R) (answer : NextChunk × ChunkReader R)
      → next_chunk R fuel cr ≡ answer
      → Advances (remaining cr) (steps_left cr) cr answer
      → length (remaining cr) ≤ 0
      → Delivers cr 0 (read_chunks R (suc rounds) fuel cr)
  unfolding Delivers read_chunks Advances chunk_data_from
  deliver_zero rounds fuel cr (chunk d i, cr') e adv small = absurd (omega arith)
  deliver_zero rounds fuel cr (end_of_input, cr') e adv small = ground arith
  deliver_zero rounds fuel cr (read_error, cr') e adv small = absurd adv
  deliver_zero rounds fuel cr (unfinished, cr') e adv small = absurd adv

  deliver_suc :
      (rounds fuel k : ℕ) (cr : ChunkReader R) (answer : NextChunk × ChunkReader R)
      → next_chunk R fuel cr ≡ answer
      → Advances (remaining cr) (steps_left cr) cr answer
      → 0 < cr.chunk_size
      → steps_left cr < fuel
      → length (remaining cr) ≤ suc k
      → ((cr' : ChunkReader R)
          → 0 < cr'.chunk_size
          → steps_left cr' < fuel
          → length (remaining cr') ≤ k
          → Delivers cr' k (read_chunks R rounds fuel cr'))
      → Delivers cr (suc k) (read_chunks R (suc rounds) fuel cr)
  unfolding Delivers read_chunks Advances chunk_data_from
  deliver_suc rounds fuel k cr (chunk d i, cr') e adv sized enough small ih =
      let later : length (remaining cr') ≤ k = rw (adv.1, length-drop) (omega arith) in
      ground (arith, ih cr' (rw (adv.4) sized) (omega arith) later)
  deliver_suc rounds fuel k cr (end_of_input, cr') e adv sized enough small ih = ground arith
  deliver_suc rounds fuel k cr (read_error, cr') e adv sized enough small ih = absurd adv
  deliver_suc rounds fuel k cr (unfinished, cr') e adv sized enough small ih = absurd adv

  read_chunks_lem :
      (rounds fuel k : ℕ) (cr : ChunkReader R)
      → 0 < cr.chunk_size
      → steps_left cr < fuel
      → length (remaining cr) ≤ k
      → k < rounds
      → Delivers cr k (read_chunks R rounds fuel cr)
  read_chunks_lem zero fuel k cr sized enough small room = absurd (omega arith)
  read_chunks_lem (suc rounds) fuel zero cr sized enough small room =
      deliver_zero rounds fuel cr (next_chunk R fuel cr) refl (next_chunk_lem fuel cr sized enough)
        small
  read_chunks_lem (suc rounds) fuel (suc k) cr sized enough small room =
      deliver_suc rounds fuel k cr (next_chunk R fuel cr) refl (next_chunk_lem fuel cr sized enough)
        sized enough small
        λ cr' sized' enough' small'.
          read_chunks_lem rounds fuel k cr' sized' enough' small' (omega arith)

  -- Reading through a ChunkReader cuts the input exactly as ChunkData cuts it in memory, however a
  -- reader that keeps ReaderIsLawful portions its answers: the same chunks in the same order,
  -- numbered from 0, and then io.EOF. For a chunk size that is not 0, more rounds than there are
  -- bytes, and more fuel than the reader has answers left.
  pub read_chunks-eq-chunk_data :
      (r : R.State) (size rounds fuel : ℕ)
      → 0 < size
      → steps r < fuel
      → length (pending r) < rounds
      → read_chunks R rounds fuel (new_chunk_reader R r size)
        ≡ (number 0 (chunk_data size (pending r)), end_of_input)
  unfolding new_chunk_reader chunk_data Delivers remaining steps_left
  read_chunks-eq-chunk_data r size rounds fuel sized enough room =
      read_chunks_lem rounds fuel (length (pending r)) (new_chunk_reader R r size) sized enough
        (omega arith) room

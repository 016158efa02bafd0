-- ===== src/Chunking.antt =====
-- pkg/utils/chunkReader.go, and ChunkData of pkg/storage/lilio.go.
pub mod Reading
pub mod Pieces
use lilio.Prelude.{
  Bool, List, [], drop, false, if◌then◌else◌, int_eq, length, ltb, nat_eq, suc, take, text_eq, true,
  zero, ℕ, ◌++◌, ◌+◌, ◌-◌, ◌==◌, ◌∷◌,
}
use lilio.Storage.{Bytes}

-- The answer of one `Read`: bytes, and whether the error is nil, io.EOF or another.
pub data ReadStatus : Type 0 where
  more eof failed : ReadStatus

-- An `io.Reader`: given the room in the buffer it answers and moves on.
pub record Reader : Type 1 where
  pub State : Type 0
  pub read : State → ℕ → Bytes × ReadStatus × State

-- A NextChunk call returns a chunk and its index, io.EOF, or another error; `unfinished` says that
-- the fuel of its loop ran out.
pub data NextChunk : Type 0 where
  chunk : Bytes → ℕ → NextChunk
  end_of_input read_error unfinished : NextChunk

module _ (R : Reader) where
  pub record ChunkReader : Type 0 where
    pub reader : R.State
    pub chunk_size : ℕ
    pub chunk_num : ℕ
    pub done : Bool

  -- The outcome of the inner loop: the bytes read, whether it met the end, and the reader.
  pub data Filled : Type 0 where
    filled : Bytes → Bool → R.State → Filled
    fill_failed : R.State → Filled
    fill_unfinished : Filled

  -- NewChunkReader
  unfoldable pub new_chunk_reader : R.State → ℕ → ChunkReader
  new_chunk_reader r size = record { reader = r; chunk_size = size; chunk_num = 0; done = false }

  -- The inner loop of NextChunk, on fuel; `got` is what it has read so far.
  unfoldable pub fill : ℕ → R.State → ℕ → Bytes → Filled
  fill zero r size got = if ltb (length got) size then fill_unfinished else filled got false r
  fill (suc fuel) r size got =
      let (d, status, r') = R.read r (size - length got) in
      let again = fill fuel r' size (got ++ d) in
      if ltb (length got) size
      then elim status [ more ↦ again | eof ↦ filled (got ++ d) true r' | failed ↦ fill_failed r' ]
      else filled got false r

  -- NextChunk behind its inner loop
  unfoldable pub after_fill : ChunkReader → Filled → NextChunk × ChunkReader
  after_fill cr fill_unfinished = (unfinished, cr)
  after_fill cr (fill_failed r) = (read_error, record cr { reader = r })
  after_fill cr (filled got at_end r) =
      let cr' : ChunkReader = record cr { reader = r; done = at_end } in
      if length got == 0
      then (end_of_input, cr')
      else (chunk got cr.chunk_num, record cr' { chunk_num = cr.chunk_num + 1 })

  -- NextChunk
  unfoldable pub next_chunk : ℕ → ChunkReader → NextChunk × ChunkReader
  unfolding fill after_fill
  next_chunk fuel cr =
      if cr.done then (end_of_input, cr) else after_fill cr (fill fuel cr.reader cr.chunk_size [])

  -- What a loop over NextChunk meets before the first call that returns no chunk: the chunks with
  -- their indices, and that call.
  unfoldable pub read_chunks : ℕ → ℕ → ChunkReader → List (Bytes × ℕ) × NextChunk
  read_chunks zero fuel cr = ([], unfinished)
  read_chunks (suc rounds) fuel cr =
      let (answer, cr') = next_chunk fuel cr in
      let rest = read_chunks rounds fuel cr' in
      elim answer [
        | chunk d i ↦ ((d, i) ∷ rest.0, rest.1)
        | end_of_input ↦ ([], end_of_input)
        | read_error ↦ ([], read_error)
        | unfinished ↦ ([], unfinished)
      ]

  -- ChunkCount
  unfoldable pub chunk_count : ChunkReader → ℕ
  chunk_count cr = cr.chunk_num

  -- Reset, on a reader that can seek to its start, which `rewind` does.
  unfoldable pub reset : (R.State → R.State) → ChunkReader → ChunkReader
  reset rewind cr = record cr { reader = rewind cr.reader; chunk_num = 0; done = false }

-- The loop of ChunkData from one index on, on fuel: the length of the data is enough.
unfoldable pub chunk_data_from : ℕ → ℕ → Bytes → List Bytes
chunk_data_from zero size d = []
chunk_data_from (suc fuel) size d =
    let rest = chunk_data_from fuel size (drop size d) in
    if length d == 0 then [] else take size d ∷ rest

-- ChunkData
unfoldable pub chunk_data : ℕ → Bytes → List Bytes
unfolding chunk_data_from
chunk_data size d = chunk_data_from (length d) size d

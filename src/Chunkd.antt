-- ===== src/Chunkd.antt =====
-- pkg/chunkd/server.go: the chunk server, which answers requests on chunks from a local backend.
-- Requests have the methods and paths that the remote backend sends, with the chunk ID already
-- unescaped.
pub mod Remote
use lilio.Prelude.{
  [], bytes, true, not, Bool, ◌||◌, List, Text, if◌then◌else◌, int_eq, length, ltb, nat_eq, negsuc,
  none, pos, some, text_eq, ℕ, ℤ, ◌==◌,
}
use lilio.Storage.{BackendStats, Bytes}
use lilio.Files.{
  FileSystem, LocalBackendPod, has_chunk, health, list_chunks, retrieve_chunk, stats, store_chunk,
}

-- const DefaultMaxChunkSize
abbrev pub default_max_chunk_size : ℕ
default_max_chunk_size = 67108864

pub data ChunkRequest : Type 0 where
  get_health get_stats get_chunks : ChunkRequest
  put_chunk : Text → Bytes → ChunkRequest
  get_chunk head_chunk delete_chunk : Text → ChunkRequest

pub data Payload : Type 0 where
  nothing : Payload
  error_text : Payload
  node_ok : Text → Payload
  chunk_bytes : Bytes → Payload
  chunk_list : List Text → Payload
  stats_of : BackendStats → Payload

pub record ChunkReply : Type 0 where
  pub status : ℕ
  pub payload : Payload

abbrev pub reply : ℕ → Payload → ChunkReply
reply status payload = record { status = status; payload = payload }

-- The pattern `/chunks/{id}` takes a path segment, which is not empty; for the segments `.` and
-- `..` the ServeMux redirects to a path without them, which no pattern takes.
abbrev pub is_segment : Text → Bool
is_segment id = not (id == [] || id == bytes "." || id == bytes "..")

abbrev pub is_routed : ChunkRequest → Bool
is_routed get_health = true
is_routed get_stats = true
is_routed get_chunks = true
is_routed (put_chunk id d) = is_segment id
is_routed (get_chunk id) = is_segment id
is_routed (head_chunk id) = is_segment id
is_routed (delete_chunk id) = is_segment id

module _ (F : FileSystem) where
  pub record Server : Type 0 where
    pub backend : LocalBackendPod F
    pub name : Text
    pub max_chunk : ℕ

  -- New
  unfoldable pub new_server : LocalBackendPod F → Text → ℤ → Server
  new_server b name limit = record {
    backend = b;
    name = name;
    max_chunk = elim limit [
      | negsuc n ↦ default_max_chunk_size
      | pos n ↦ if n == 0 then default_max_chunk_size else n
    ];
  }

  -- health
  unfoldable pub serve_health : Server → ChunkReply × Server
  unfolding health
  serve_health s =
      let (healthy, b) = health F s.backend in
      let s' : Server = record s { backend = b } in
      if healthy then (reply 200 (node_ok s.name), s') else (reply 503 error_text, s')

  -- listChunks
  unfoldable pub serve_list : Server → ChunkReply
  unfolding list_chunks
  serve_list s = elim (list_chunks F s.backend) [
    | none ↦ reply 500 error_text
    | some chunks ↦ reply 200 (chunk_list chunks)
  ]

  -- putChunk; `http.MaxBytesReader` fails on a body that is longer than the limit.
  unfoldable pub serve_put : Server → Text → Bytes → ChunkReply × Server
  unfolding store_chunk
  serve_put s id d =
      let (stored, b) = store_chunk F s.backend id d in
      let s' : Server = record s { backend = b } in
      if ltb s.max_chunk (length d)
      then (reply 413 error_text, s)
      else if stored
      then (reply 201 nothing, s')
      else (reply 500 error_text, s')

  -- getChunk
  unfoldable pub serve_get : Server → Text → ChunkReply
  unfolding retrieve_chunk
  serve_get s id = elim (retrieve_chunk F s.backend id) [
    | none ↦ reply 404 error_text
    | some d ↦ reply 200 (chunk_bytes d)
  ]

  -- headChunk
  unfoldable pub serve_head : Server → Text → ChunkReply
  unfolding has_chunk
  serve_head s id = if has_chunk F s.backend id then reply 200 nothing else reply 404 nothing

  -- deleteChunk
  unfoldable pub serve_delete : Server → Text → ChunkReply × Server
  unfolding lilio.Files.delete_chunk
  serve_delete s id =
      let (deleted, b) = lilio.Files.delete_chunk F s.backend id in
      let s' : Server = record s { backend = b } in
      if deleted then (reply 204 nothing, s') else (reply 500 error_text, s')

  -- The handler that Routes names for a request
  unfoldable pub handle : Server → ChunkRequest → ChunkReply × Server
  unfolding serve_health stats serve_list serve_put serve_get serve_head serve_delete
  handle s get_health = serve_health s
  handle s get_stats = (reply 200 (stats_of (stats F s.backend)), s)
  handle s get_chunks = (serve_list s, s)
  handle s (put_chunk id d) = serve_put s id d
  handle s (get_chunk id) = (serve_get s id, s)
  handle s (head_chunk id) = (serve_head s id, s)
  handle s (delete_chunk id) = serve_delete s id

  -- Routes: the ServeMux answers 404 where no pattern takes the path.
  unfoldable pub routes : Server → ChunkRequest → ChunkReply × Server
  unfolding handle
  routes s request =
      let (answer, s') = handle s request in
      if is_routed request then (answer, s') else (reply 404 error_text, s)

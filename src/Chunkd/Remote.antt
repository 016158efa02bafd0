-- ===== src/Chunkd/Remote.antt =====
-- pkg/storage/storage-models/remote.go: the backend that keeps its chunks on a chunk server. The
-- network in between is a parameter, which may lose a request, lose a reply or cut it short.
pub mod Faults
use lilio.Prelude.{
  Bool, List, Option, Text, [], bytes, false, if◌then◌else◌, int_eq, nat_eq, none, not, some,
  text_eq, true, ℕ, ◌&&◌, ◌==◌, ◌||◌, ◌∷◌,
}
use lilio.Storage.{BackendStats, BackendInfo, Bytes, offline, online, remote}
use lilio.Files.{FileSystem}
use lilio.Chunkd.{
  ChunkReply, ChunkRequest, Server, chunk_bytes, chunk_list, delete_chunk, get_chunk, get_chunks,
  get_health, get_stats, head_chunk, put_chunk, routes, stats_of,
}

-- What becomes of a request: it does not arrive; it is served, but the reply does not arrive or
-- comes too late; the body of the reply cannot be read to its end; or all goes well.
pub data Delivery : Type 0 where
  unreachable reply_lost cut_short delivered : Delivery

-- A network decides it request by request.
pub record Network : Type 1 where
  pub State : Type 0
  pub next : State → Delivery × State

-- `net/url.Parse`: the scheme and the host
pub record ParsedUrl : Type 0 where
  pub scheme : Text
  pub host : Text

-- const DefaultRemoteTimeout, in seconds
abbrev pub default_remote_timeout : ℕ
default_remote_timeout = 10

-- `strings.TrimRight(url, "/")`
unfoldable pub trim_slashes : Text → Text
trim_slashes [] = []
trim_slashes (c ∷ t) = let rest = trim_slashes t in if c == b'/' && rest == [] then [] else c ∷ rest

module _ (F : FileSystem) (N : Network) where
  -- The backend, with the server that it talks to and the network between them.
  pub record RemoteBackend : Type 0 where
    pub name : Text
    pub base_url : Text
    pub priority : ℕ
    pub timeout : ℕ
    pub healthy : Bool
    pub node : Server F
    pub network : N.State

  -- NewRemoteBackend, given what the URL parses to
  unfoldable pub new_remote_backend :
      Text → Text → Option ParsedUrl → ℕ → ℕ → Server F → N.State → Option RemoteBackend
  unfolding trim_slashes
  new_remote_backend name url none priority timeout node network = none
  new_remote_backend name url (some parsed) priority timeout node network =
      if not (parsed.scheme == bytes "http") && not (parsed.scheme == bytes "https")
      then none
      else if parsed.host == []
      then none
      else some (record {
        name = name;
        base_url = trim_slashes url;
        priority = priority;
        timeout = if timeout == 0 then default_remote_timeout else timeout;
        healthy = true;
        node = node;
        network = network;
      })

  -- do: the reply, if one arrives, and whether its body can be read.
  unfoldable pub exchange :
      RemoteBackend → ChunkRequest → Option (ChunkReply × Bool) × RemoteBackend
  unfolding routes
  exchange r request =
      let (delivery, network) = N.next r.network in
      let (answer, node) = routes F r.node request in
      elim delivery [
        | unreachable ↦ (none, record r { healthy = false; network = network })
        | reply_lost ↦ (none, record r { healthy = false; network = network; node = node })
        | cut_short ↦
            (some (answer, false), record r { healthy = true; network = network; node = node })
        | delivered ↦
            (some (answer, true), record r { healthy = true; network = network; node = node })
      ]

  -- Info
  unfoldable pub remote_info : RemoteBackend → BackendInfo
  remote_info r = record {
    name = r.name;
    backend_type = remote;
    status = if r.healthy then online else offline;
    priority = r.priority;
  }

  -- The test on the status of a reply, where there is one
  abbrev pub answered : Option (ChunkReply × Bool) → (ℕ → Bool) → Bool
  answered none accepted = false
  answered (some (answer, readable)) accepted = accepted answer.status

  -- Health
  unfoldable pub remote_health : RemoteBackend → Bool × RemoteBackend
  unfolding exchange
  remote_health r = let (got, r') = exchange r get_health in (answered got (λ c. c == 200), r')

  -- StoreChunk
  unfoldable pub remote_store : RemoteBackend → Text → Bytes → Bool × RemoteBackend
  unfolding exchange
  remote_store r id d =
      let (got, r') = exchange r (put_chunk id d) in (answered got (λ c. c == 201 || c == 200), r')

  -- The end of RetrieveChunk
  unfoldable pub bytes_in : Option (ChunkReply × Bool) → Option Bytes
  bytes_in none = none
  bytes_in (some (answer, false)) = none
  bytes_in (some (answer, true)) =
      if answer.status == 200
      then elim (answer.payload) [ chunk_bytes d ↦ some d | _ ↦ some [] ]
      else none

  -- RetrieveChunk
  unfoldable pub remote_retrieve : RemoteBackend → Text → Option Bytes × RemoteBackend
  unfolding exchange bytes_in
  remote_retrieve r id = let (got, r') = exchange r (get_chunk id) in (bytes_in got, r')

  -- DeleteChunk
  unfoldable pub remote_delete : RemoteBackend → Text → Bool × RemoteBackend
  unfolding exchange
  remote_delete r id =
      let (got, r') = exchange r (delete_chunk id) in
      (answered got (λ c. c == 204 || c == 200 || c == 404), r')

  -- HasChunk
  unfoldable pub remote_has : RemoteBackend → Text → Bool × RemoteBackend
  unfolding exchange
  remote_has r id = let (got, r') = exchange r (head_chunk id) in (answered got (λ c. c == 200), r')

  -- The end of ListChunks
  unfoldable pub names_in : Option (ChunkReply × Bool) → Option (List Text)
  names_in none = none
  names_in (some (answer, false)) = none
  names_in (some (answer, true)) =
      if answer.status == 200
      then elim (answer.payload) [ chunk_list names ↦ some names | _ ↦ none ]
      else none

  -- ListChunks
  unfoldable pub remote_list : RemoteBackend → Option (List Text) × RemoteBackend
  unfolding exchange names_in
  remote_list r = let (got, r') = exchange r get_chunks in (names_in got, r')

  -- The end of Stats
  unfoldable pub stats_in : Option (ChunkReply × Bool) → Option (BackendStats)
  stats_in none = none
  stats_in (some (answer, false)) = none
  stats_in (some (answer, true)) =
      if answer.status == 200
      then elim (answer.payload) [ stats_of x ↦ some x | _ ↦ none ]
      else none

  -- Stats
  unfoldable pub remote_stats : RemoteBackend → Option (BackendStats) × RemoteBackend
  unfolding exchange stats_in
  remote_stats r = let (got, r') = exchange r get_stats in (stats_in got, r')

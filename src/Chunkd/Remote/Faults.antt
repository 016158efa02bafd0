-- ===== src/Chunkd/Remote/Faults.antt =====
-- The remote backend of pkg/storage/storage-models/remote.go over a network with faults.
use lilio.Prelude.{Bool, Text, arith, false, length, some, true, ◌≡◌, ◌≤◌}
use lilio.Storage.{Bytes, is_online}
use lilio.Files.{FileSystem, retrieve_chunk, store_chunk}
use lilio.Chunkd.{handle, is_segment, routes, serve_delete, serve_get, serve_put}
use lilio.Chunkd.Remote.{
  Delivery, Network, RemoteBackend, bytes_in, cut_short, delivered, exchange, remote_delete,
  remote_info, remote_retrieve, remote_store, reply_lost, unreachable,
}

-- A reply arrived.
abbrev pub has_reply : Delivery → Bool
has_reply unreachable = false
has_reply reply_lost = false
has_reply cut_short = true
has_reply delivered = true

module _ (F : FileSystem) (N : Network) where
  store_told :
      (r : RemoteBackend F N) (id : Text) (d : Bytes)
      → is_segment id ≡ true
      → let (stored, r') = remote_store F N r id d in
        (stored ≡ true
          → (length d ≤ r.node.max_chunk)
            × (store_chunk F r.node.backend id d ≡ (true, r'.node.backend)))
        × ((N.next r.network).0 ≡ delivered
            → length d ≤ r.node.max_chunk
            → stored ≡ (store_chunk F r.node.backend id d).0)
        × (r'.healthy ≡ has_reply (N.next r.network).0)
        × ((N.next r.network).0 ≡ unreachable → r'.node ≡ r.node)
  unfolding remote_store routes handle exchange serve_put
  store_told r id d routed = ground arith

  retrieve_told :
      (r : RemoteBackend F N) (id : Text)
      → is_segment id ≡ true
      → let (got, r') = remote_retrieve F N r id in
        ((d : Bytes) → got ≡ some d → retrieve_chunk F r.node.backend id ≡ some d)
        × ((N.next r.network).0 ≡ delivered → got ≡ retrieve_chunk F r.node.backend id)
        × (r'.node ≡ r.node)
  unfolding remote_retrieve routes handle exchange serve_get bytes_in
  retrieve_told r id routed = ground arith

  delete_told :
      (r : RemoteBackend F N) (id : Text)
      → is_segment id ≡ true
      → let (deleted, r') = remote_delete F N r id in
        (deleted ≡ true → lilio.Files.delete_chunk F r.node.backend id ≡ (true, r'.node.backend))
        × ((N.next r.network).0 ≡ delivered
            → deleted ≡ (lilio.Files.delete_chunk F r.node.backend id).0)
  unfolding remote_delete routes handle exchange serve_delete
  delete_told r id routed = ground arith

  -- What a remote backend tells is true of the node, whatever the network does to the request. A
  -- store or a delete that it reports as done was done by the node's local backend, and a store
  -- only within the size limit; the bytes it gives are those that the local backend gives. When the
  -- reply is delivered, it tells what the local backend told, for a store within the limit. And it
  -- counts as online after a store exactly if a reply arrived. For chunk IDs that the node's routes
  -- take, which are all but the empty one, `.` and `..`.
  pub remote_lem :
      (r : RemoteBackend F N) (id : Text) (d : Bytes)
      → is_segment id ≡ true
      → let (stored, r1) = remote_store F N r id d in
        let (got, r2) = remote_retrieve F N r id in
        let (deleted, r3) = remote_delete F N r id in
        let pod = r.node.backend in
        (stored ≡ true
          → (length d ≤ r.node.max_chunk) × (store_chunk F pod id d ≡ (true, r1.node.backend)))
        × ((x : Bytes) → got ≡ some x → retrieve_chunk F pod id ≡ some x)
        × (deleted ≡ true → lilio.Files.delete_chunk F pod id ≡ (true, r3.node.backend))
        × ((N.next r.network).0 ≡ delivered
            → (length d ≤ r.node.max_chunk → stored ≡ (store_chunk F pod id d).0)
              × (got ≡ retrieve_chunk F pod id)
              × (deleted ≡ (lilio.Files.delete_chunk F pod id).0))
        × (is_online (remote_info F N r1) ≡ has_reply (N.next r.network).0)
  unfolding remote_info
  remote_lem r id d routed =
      let (store_done, store_same, alive, _) = store_told r id d routed in
      let (retrieved, retrieve_same, _) = retrieve_told r id routed in
      let (delete_done, delete_same) = delete_told r id routed in
      (
        store_done,
        retrieved,
        delete_done,
        λ sent. (store_same sent, retrieve_same sent, delete_same sent),
        ground (arith, alive),
      )

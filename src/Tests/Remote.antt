-- ===== src/Tests/Remote.antt =====
-- A test of the remote backend on a network that loses every second reply.
use lilio.Prelude.{
  Bool, false, [], bytes, if◌then◌else◌, int_eq, length, nat_eq, not, pos, refl, some, text_eq,
  true, ◌∷◌, ◌≡◌, ◌≤◌,
}
use lilio.Prelude.Dict.{lookup}
use lilio.Storage.{Bytes, is_online}
use lilio.Files.{retrieve_chunk, store_chunk}
use lilio.Chunkd.{Server, is_segment}
use lilio.Chunkd.Remote.{
  Network, RemoteBackend, delivered, remote_delete, remote_info, remote_retrieve, remote_store,
  reply_lost,
}
use lilio.Chunkd.Remote.Faults.{has_reply, remote_lem}
use lilio.Tests.Files.{folders}

abbrev flaky : Network
flaky = record { State = Bool; next = λ good. (if good then delivered else reply_lost, not good) }

abbrev node : Server folders
node = record {
  backend = record {
    pod_name = bytes "n1";
    directory = (bytes "c1", bytes "abc") ∷ [];
    pod_priority = 0;
    chunks_stored = pos 1;
    bytes_stored = pos 3;
  };
  name = bytes "n1";
  max_chunk = 8;
}

abbrev far : RemoteBackend folders flaky
far = record {
  name = bytes "r1";
  base_url = bytes "http://n1";
  priority = 0;
  timeout = 10;
  healthy = true;
  node = node;
  network = true;
}

reads_far : (remote_retrieve folders flaky far (bytes "c1")).0 ≡ some (bytes "abc")
unfolding remote_retrieve nat_eq lookup text_eq
reads_far = refl

c2_routed : is_segment (bytes "c2") ≡ true
unfolding nat_eq text_eq
c2_routed = refl

-- A node is not asked for a name that its routes do not take.
not_asked : remote_delete folders flaky far (bytes "..") ≡ (true, record far { network = false })
unfolding remote_delete nat_eq text_eq
not_asked = refl

remote_lem_example :
    let (stored, r1) = remote_store folders flaky far (bytes "c2") (bytes "x") in
    let (got, r2) = remote_retrieve folders flaky far (bytes "c2") in
    let (deleted, r3) = remote_delete folders flaky far (bytes "c2") in
    let pod = far.node.backend in
    (stored ≡ true
      → (length (bytes "x") ≤ far.node.max_chunk)
        × (store_chunk folders pod (bytes "c2") (bytes "x") ≡ (true, r1.node.backend)))
    × ((x : Bytes) → got ≡ some x → retrieve_chunk folders pod (bytes "c2") ≡ some x)
    × (deleted ≡ true → lilio.Files.delete_chunk folders pod (bytes "c2") ≡ (true, r3.node.backend))
    × ((flaky.next far.network).0 ≡ delivered
        → (length (bytes "x") ≤ far.node.max_chunk
            → stored ≡ (store_chunk folders pod (bytes "c2") (bytes "x")).0)
          × (got ≡ retrieve_chunk folders pod (bytes "c2"))
          × (deleted ≡ (lilio.Files.delete_chunk folders pod (bytes "c2")).0))
    × (is_online (remote_info folders flaky r1) ≡ has_reply (flaky.next far.network).0)
remote_lem_example = remote_lem folders flaky far (bytes "c2") (bytes "x") c2_routed

-- ===== src/Tests/Api.antt =====
-- A test of pkg/api/server.go.
use lilio.Prelude.{[], bytes, false, is_ok, nat_eq, none, refl, true, ◌↔◌, ◌≡◌, ◌≢◌}
use lilio.Chunking.{end_of_input}
use lilio.Coordinator.Objects.{get_object}
use lilio.Api.{Request, TextFormat, data_of, error_message, get, parse_path}
use lilio.Api.Handlers.{handle_object}
use lilio.Api.Replies.{handle_object_get}
use lilio.Tests.Platforms.{small}
use lilio.Tests.Objects.{outcome}

abbrev format : TextFormat
format = record { atoi = λ t. none; http_time = λ n. [] }

abbrev fetch : Request
fetch = record {
  method = get;
  path = bytes "/a/new";
  query = λ name. [];
  content_type = [];
  input = ([], end_of_input);
  object_id = [];
  now = 6;
  salt = none;
  nonces = λ i. none;
  alive = λ j i. true;
  accepts = λ j. true;
  scrub_alive = λ i. true;
}

splits : parse_path (bytes "/a/new/b") ≡ (bytes "a", bytes "new/b")
unfolding parse_path nat_eq
splits = refl

handle_object_get_example :
    let reply = (handle_object {P = small} format 3 outcome.1 fetch (bytes "a") (bytes "new")).0 in
    let (got, out, _) = get_object outcome.1 fetch.alive fetch.accepts (bytes "a") (bytes "new") in
    (((reply.status ≡ 200) × (reply.aborted ≡ false)) ↔ (is_ok got ≡ true))
    × (reply.status ≡ 200 → reply.body ≡ data_of out)
    × (reply.status ≢ 200 → (reply.body ≡ error_message) × (out ≡ []))
handle_object_get_example =
    handle_object_get {P = small} format 3 outcome.1 fetch (bytes "a") (bytes "new") refl

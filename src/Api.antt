-- ===== src/Api.antt =====
-- pkg/api/server.go: the HTTP API around the coordinator. Requests and replies are records; the
-- texts of error messages are left out, and so are logging and the page of pkg/web.
pub mod Handlers
pub mod Replies
use lilio.Prelude.{
  Bool, List, Option, Result, Text, [], bytes, err, false, if◌then◌else◌, int_eq, itoa, nat_eq,
  negsuc, none, not, ok, pos, some, text_eq, trim_prefix, true, ℕ, ℤ, ◌&&◌, ◌++◌, ◌/◌, ◌==◌, ◌∷◌,
}
use lilio.Prelude.Dict.{Dict, erase, has_key, insert}
use lilio.Storage.{BackendInfo, Bytes, is_online}
use lilio.Paging.{ListResult}
use lilio.Metadata.{ObjectMetadata, bucket_not_found, object_not_found, revision_mismatch}
use lilio.Chunking.{NextChunk}
use lilio.Coordinator.{FailedBackend, LilioError, concurrent_write, from_store, writer_failed}
use lilio.Coordinator.Backends.Stats.{NodeStats}
use lilio.Coordinator.Scrub.{ScrubReport}
use lilio.Coordinator.Scrub.Pass.{Outcome, stopped}

pub data Method : Type 0 where
  get put post head delete other : Method

-- A request, with what Go's library answers while it is served: the query's parameters, where one
-- that is missing is empty, the input's chunks, the time, random bytes, and the context.
pub record Request : Type 0 where
  pub method : Method
  pub path : Text
  pub query : Text → Text
  pub content_type : Text
  pub input : List (Bytes × ℕ) × NextChunk
  pub object_id : Text
  pub now : ℕ
  pub salt : Option Bytes
  pub nonces : ℕ → Option Bytes
  pub alive : ℕ → ℕ → Bool
  pub accepts : ℕ → Bool
  pub scrub_alive : ℕ → Bool

-- BucketInfo in handleListBucketsDetailed
pub record BucketInfo : Type 0 where
  pub name : Text
  pub encrypted : Bool
  pub created_at : Option ℕ

-- An entry of the reply to /admin/health.
pub record HealthEntry : Type 0 where
  pub name : Text
  pub is_up : Bool
  pub healthy : Bool
  pub priority : ℤ

pub data Body : Type 0 where
  empty : Body
  data_of : Bytes → Body
  error_message : Body
  buckets : List Text → Body
  bucket_infos : List BucketInfo → Body
  object_page : Text → ListResult → Body
  object_stored : Text → ℕ → Text → ℕ → Body
  message : Text → Body
  storage_stats : Dict Text NodeStats → Body
  health : Dict Text HealthEntry → Body
  scrub_report : ScrubReport → Body

-- A reply; `aborted` says that the connection was broken after it.
pub record Reply : Type 0 where
  pub status : ℕ
  pub headers : Dict Text Text
  pub body : Body
  pub aborted : Bool

-- What the handlers use of Go's library: `strconv.Atoi`, and a time in the format of HTTP.
pub record TextFormat : Type 0 where
  pub atoi : Text → Option ℤ
  pub http_time : ℕ → Text

-- jsonResponse, with the headers staged before
unfoldable pub json_response : Dict Text Text → ℕ → Body → Reply
json_response staged status body = record {
  status = status;
  headers = insert (bytes "Content-Type") (bytes "application/json") staged;
  body = body;
  aborted = false;
}

-- errorResponse
unfoldable pub error_response : Dict Text Text → ℕ → Reply
unfolding json_response
error_response staged status = json_response staged status error_message

-- The status in writeObjectError. The error of a PUT that lost a race wraps ErrRevisionMismatch,
-- and that of a PUT to a bucket that does not exist wraps no error of the metadata store.
unfoldable pub status_of : LilioError → ℕ
status_of (from_store object_not_found) = 404
status_of (from_store bucket_not_found) = 404
status_of (from_store revision_mismatch) = 409
status_of concurrent_write = 409
status_of _ = 500

-- writeObjectError
unfoldable pub write_object_error : Dict Text Text → LilioError → Reply
unfolding error_response status_of
write_object_error staged e =
    error_response
      (erase (bytes "Last-Modified") (erase (bytes "ETag") (erase (bytes "Content-Length") staged)))
      (status_of e)

-- `if contentType == "" { contentType = "application/octet-stream" }`
abbrev pub content_type_or_default : Text → Text
content_type_or_default t = if t == [] then bytes "application/octet-stream" else t

-- setObjectHeaders, on no headers
unfoldable pub object_headers : TextFormat → ObjectMetadata → Dict Text Text
unfolding itoa
object_headers f meta =
    (bytes "Content-Type", content_type_or_default meta.content_type)
    ∷ (bytes "Content-Length", itoa meta.size)
    ∷ (bytes "ETag", b'"' ∷ meta.checksum ++ b'"' ∷ [])
    ∷ (bytes "Last-Modified", f.http_time meta.created_at)
    ∷ []

-- `strings.SplitN(path, "/", 2)`, where the second part may be missing
unfoldable pub split_path : Text → Text × Text
split_path [] = ([], [])
split_path (c ∷ path) =
    let (bucket, key) = split_path path in if c == b'/' then ([], path) else (c ∷ bucket, key)

-- parsePath
unfoldable pub parse_path : Text → Text × Text
unfolding split_path trim_prefix
parse_path path = split_path (trim_prefix path (bytes "/"))

-- The deferredWriter at the end of GetObject: the status line has gone out if there was a Write.
-- The last Write may have failed; stored chunks are not empty, so the others gave bytes.
unfoldable pub has_written : Result LilioError (Unit {0}) → Bytes → Bool
has_written (err writer_failed) out = true
has_written _ out = not (out == [])

-- The limit that the GET case of handleBucket takes from the query; none if it is refused.
unfoldable pub limit_of : TextFormat → Text → Option ℤ
limit_of f raw =
    if raw == []
    then some (pos 0)
    else elim (f.atoi raw) [ none ↦ none | some (negsuc n) ↦ none | some (pos n) ↦ some (pos n) ]

-- The end of the GET case of handleObject, with the headers staged: what GetObject returned and
-- what it wrote.
unfoldable pub finish_get : Dict Text Text → Result LilioError (Unit {0}) → Bytes → Reply
unfolding has_written write_object_error
finish_get staged (ok _) out = record {
  status = 200;
  headers = staged;
  body = data_of out;
  aborted = false;
}
finish_get staged (err e) out =
    if has_written (err e) out
    then record { status = 200; headers = staged; body = data_of out; aborted = true }
    else write_object_error staged e

abbrev pub is_post : Method → Bool
is_post post = true
is_post _ = false

-- The reply to a scrub pass. If the fuel runs out, where the source goes on, the reply has the
-- report so far.
unfoldable pub scrub_reply : Option (Outcome × ScrubReport) → Reply
unfolding json_response error_response
scrub_reply none = error_response [] 500
scrub_reply (some (stopped, report)) = error_response [] 500
scrub_reply (some (_, report)) = json_response [] 200 (scrub_report report)

-- The entry of a backend in the reply to /admin/health, given the names with an error.
abbrev pub health_entry : Dict Text Bool → BackendInfo → HealthEntry
health_entry failing i = record {
  name = i.name;
  is_up = is_online i && not (has_key i.name failing);
  healthy = not (has_key i.name failing);
  priority = pos i.priority;
}

abbrev pub failed_entry : FailedBackend → HealthEntry
failed_entry b = record { name = b.name; is_up = false; healthy = false; priority = b.priority }

-- The two loops that fill the reply to /admin/health.
unfoldable pub add_backends :
    Dict Text Bool → List BackendInfo → Dict Text HealthEntry → Dict Text HealthEntry
add_backends failing [] d = d
add_backends failing (i ∷ infos) d =
    add_backends failing infos (insert i.name (health_entry failing i) d)

unfoldable pub add_failed : Dict Text FailedBackend → Dict Text HealthEntry → Dict Text HealthEntry
add_failed [] d = d
add_failed ((name, b) ∷ bs) d = add_failed bs (insert name (failed_entry b) d)

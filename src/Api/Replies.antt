-- ===== src/Api/Replies.antt =====
-- What the client of pkg/api/server.go learns of a failed read.
use lilio.Prelude.{
  Bool, Bool-cases, Result, Result-cases, Text, [], arith, err, false, inl, inr, is_ok, ok, refl,
  true, ℕ, ◌↔◌, ◌≡◌, ◌≢◌, ◌⊎◌,
}
use lilio.Prelude.Dict.{Dict}
use lilio.Metadata.{MetaError, bucket_not_found, object_not_found, revision_mismatch}
use lilio.Coordinator.{Lilio, LilioError, Platform, concurrent_write, from_store, writer_failed}
use lilio.Api.{
  Reply, Request, TextFormat, data_of, error_message, finish_get, get, has_written, object_headers,
  status_of, write_object_error,
}
use lilio.Storage.{Bytes}
use lilio.Api.Handlers.{get_object_reply, handle_object}
use lilio.Coordinator.Objects.{get_object, head_object}

-- No error has the status of a success.
status_of_error :
    (e : LilioError) → (status_of e ≡ 404) ⊎ ((status_of e ≡ 409) ⊎ (status_of e ≡ 500))
unfolding status_of
status_of_error (from_store object_not_found) = inl refl
status_of_error (from_store bucket_not_found) = inl refl
status_of_error (from_store revision_mismatch) = inr (inl refl)
status_of_error concurrent_write = inr (inl refl)
status_of_error _ = inr (inr refl)

-- The reply at the end of a GET, against what GetObject returned and wrote.
Tells : Result LilioError (Unit {0}) → Bytes → Reply → Type 0
Tells got out reply =
    (((reply.status ≡ 200) × (reply.aborted ≡ false)) ↔ (is_ok got ≡ true))
    × (reply.status ≡ 200 → reply.body ≡ data_of out)
    × (reply.status ≢ 200 → (reply.body ≡ error_message) × (out ≡ []))

write_object_error-Tells :
    (staged : Dict Text Text) (e x : LilioError) → Tells (err x) [] (write_object_error staged e)
unfolding Tells write_object_error
write_object_error-Tells staged e x = ground (arith, status_of_error e)

unwritten : (e : LilioError) (out : Bytes) → has_written (err e) out ≡ false → out ≡ []
unfolding has_written
unwritten writer_failed out h = ground arith
unwritten _ out h = ground arith

finish_get-Tells :
    (staged : Dict Text Text) (got : Result LilioError (Unit {0})) (out : Bytes)
    → Tells got out (finish_get staged got out)
unfolding Tells finish_get
finish_get-Tells staged (ok tt) out = ground arith
finish_get-Tells staged (err e) out = elim (Bool-cases (has_written (err e) out)) [
  | inl wrote ↦ rw wrote (ground arith)
  | inr silent ↦
      rw (silent, unwritten e out silent) (unfold Tells in write_object_error-Tells staged e e)
]

module _ {P : Platform} (f : TextFormat) (scrub_fuel : ℕ) where
  get_object_missing :
      (l : Lilio P) (alive : ℕ → ℕ → Bool) (accepts : ℕ → Bool) (bucket key : Text) (e : MetaError)
      → P.store.get_object l.metadata bucket key ≡ err e
      → get_object l alive accepts bucket key ≡ (err (from_store e), [], l)
  unfolding get_object
  get_object_missing l alive accepts bucket key e h = rw (h, get_object) refl

  -- A GET over HTTP never passes a failed read off as a whole object. Of the reply to a GET for an
  -- object: its status is 200 and the connection is not aborted exactly if GetObject succeeds; with
  -- status 200 the body is what GetObject wrote; and with any other status the body is an error
  -- message, and GetObject has written nothing.
  pub handle_object_get :
      (l : Lilio P) (r : Request) (bucket key : Text)
      → r.method ≡ get
      → let reply = (handle_object f scrub_fuel l r bucket key).0 in
        let (got, out, _) = get_object l r.alive r.accepts bucket key in
        (((reply.status ≡ 200) × (reply.aborted ≡ false)) ↔ (is_ok got ≡ true))
        × (reply.status ≡ 200 → reply.body ≡ data_of out)
        × (reply.status ≢ 200 → (reply.body ≡ error_message) × (out ≡ []))
  unfolding handle_object get_object_reply head_object Tells
  handle_object_get l r bucket key is_get =
      elim (Result-cases (P.store.get_object l.metadata bucket key)) [
        | inl (e, missing) ↦
            rw
              (
                is_get,
                handle_object,
                get_object_reply,
                missing,
                get_object_missing l r.alive r.accepts bucket key e missing,
              )
              (write_object_error-Tells [] (from_store e) (from_store e))
        | inr (meta, found) ↦
            let (got, out, l') = get_object l r.alive r.accepts bucket key in
            rw (is_get, handle_object, get_object_reply, found)
              (finish_get-Tells (object_headers f meta) got out)
      ]

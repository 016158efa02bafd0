-- ===== src/Api/Handlers.antt =====
-- pkg/api/server.go: the handlers, each from the coordinator's state and a request to a reply and
-- the state it leaves.
use lilio.Prelude.{
  Text, [], bytes, err, false, if◌then◌else◌, int_eq, map, nat_eq, none, not, ok, some, text_eq, ℕ,
  ◌&&◌, ◌==◌,
}
use lilio.Coordinator.{Lilio, Platform, from_store}
use lilio.Coordinator.Backends.{
  create_bucket, create_bucket_with_encryption, get_failed_backends, health_check, list_backends,
  list_buckets, list_objects, unlock_bucket,
}
use lilio.Coordinator.Backends.Stats.{get_storage_stats}
use lilio.Coordinator.Objects.{delete_object, get_object, head_object, put_object}
use lilio.Coordinator.Scrub.{ScrubOptions}
use lilio.Coordinator.Scrub.Pass.{scrub}
use lilio.Api.{
  BucketInfo, Reply, Request, TextFormat, add_backends, add_failed, bucket_infos, buckets,
  content_type_or_default, delete, empty, error_response, finish_get, get, head, health, is_post,
  json_response, limit_of, message, object_headers, object_page, object_stored, other, parse_path,
  post, put, scrub_reply, storage_stats, write_object_error,
}

abbrev pub not_allowed : Reply
not_allowed = error_response [] 405

module _ {P : Platform} (f : TextFormat) (scrub_fuel : ℕ) where
  -- The bucket's entry in handleListBucketsDetailed
  abbrev pub bucket_info : Lilio P → Text → BucketInfo
  bucket_info l name = elim (P.store.get_bucket l.metadata name) [
    | err e ↦ record { name = name; encrypted = false; created_at = none }
    | ok b ↦ record {
      name = name;
      encrypted = b.encryption.enabled;
      created_at = some b.created_at;
    }
  ]

  -- handleListBucketsDetailed
  unfoldable pub handle_list_buckets_detailed : Lilio P → Reply
  unfolding json_response error_response
  handle_list_buckets_detailed l = elim (list_buckets l) [
    | err e ↦ error_response [] 500
    | ok names ↦ json_response [] 200 (bucket_infos (map (bucket_info l) names))
  ]

  -- The PUT case of handleBucket
  unfoldable pub put_bucket : Lilio P → Request → Text → Reply × Lilio P
  unfolding create_bucket create_bucket_with_encryption json_response error_response
  put_bucket l r bucket =
      let password = r.query (bytes "password") in
      if r.query (bytes "encryption") == bytes "aes256" && not (password == [])
      then (let (created, l') = create_bucket_with_encryption l r.now r.salt bucket password in
          elim created [
            | some (ok _) ↦ (json_response [] 201 (message bucket), l')
            | _ ↦ (error_response [] 409, l')
          ])
      else (let (created, l') = create_bucket l r.now bucket in
          elim created [
            | ok _ ↦ (json_response [] 201 (message bucket), l')
            | err e ↦ (error_response [] 409, l')
          ])

  -- The GET case of handleBucket
  unfoldable pub list_bucket : Lilio P → Request → Text → Reply
  unfolding limit_of list_objects json_response error_response write_object_error
  list_bucket l r bucket = elim (limit_of f (r.query (bytes "limit"))) [
    | none ↦ error_response [] 400
    | some limit ↦
        let listed = list_objects l bucket (record {
          prefix = r.query (bytes "prefix");
          after = r.query (bytes "after");
          limit = limit;
        }) in
        elim listed [
          | err e ↦ write_object_error [] (from_store e)
          | ok page ↦ json_response [] 200 (object_page bucket page)
        ]
  ]

  -- The DELETE case of handleBucket
  unfoldable pub remove_bucket : Lilio P → Text → Reply × Lilio P
  unfolding json_response error_response
  remove_bucket l bucket =
      let (deleted, m) = P.store.delete_bucket l.metadata bucket in
      let l' : Lilio P = record l { metadata = m } in
      elim deleted [
        | ok _ ↦ (json_response [] 200 (message bucket), l')
        | err e ↦ (error_response [] 400, l')
      ]

  -- handleBucket
  unfoldable pub handle_bucket : Lilio P → Request → Text → Reply × Lilio P
  unfolding put_bucket list_bucket remove_bucket
  handle_bucket l r bucket = elim (r.method) [
    | put ↦ put_bucket l r bucket
    | get ↦ (list_bucket l r bucket, l)
    | delete ↦ remove_bucket l bucket
    | post ↦ (not_allowed, l)
    | head ↦ (not_allowed, l)
    | other ↦ (not_allowed, l)
  ]

  -- The PUT case of handleObject
  unfoldable pub put_object_reply : Lilio P → Request → Text → Text → Reply × Lilio P
  unfolding put_object json_response write_object_error
  put_object_reply l r bucket key =
      let (stored, l') =
        put_object l
          (record {
            bucket = bucket;
            key = key;
            content_type = content_type_or_default r.content_type;
            object_id = r.object_id;
            now = r.now;
            nonces = r.nonces;
          })
          r.input in
      elim stored [
        | err e ↦ (write_object_error [] e, l')
        | ok meta ↦
            (json_response [] 201 (object_stored key meta.size meta.checksum meta.total_chunks), l')
      ]

  -- The GET case of handleObject
  unfoldable pub get_object_reply : Lilio P → Request → Text → Text → Reply × Lilio P
  unfolding head_object get_object finish_get object_headers write_object_error
  get_object_reply l r bucket key = elim (head_object l bucket key) [
    | err e ↦ (write_object_error [] (from_store e), l)
    | ok meta ↦
        let (got, out, l') = get_object l r.alive r.accepts bucket key in
        (finish_get (object_headers f meta) got out, l')
  ]

  -- The HEAD case of handleObject
  unfoldable pub head_object_reply : Lilio P → Text → Text → Reply
  unfolding head_object object_headers write_object_error
  head_object_reply l bucket key = elim (head_object l bucket key) [
    | err e ↦ write_object_error [] (from_store e)
    | ok meta ↦ record {
      status = 200;
      headers = object_headers f meta;
      body = empty;
      aborted = false;
    }
  ]

  -- The DELETE case of handleObject
  unfoldable pub delete_object_reply : Lilio P → Text → Text → Reply × Lilio P
  unfolding delete_object write_object_error
  delete_object_reply l bucket key =
      let (deleted, l') = delete_object l bucket key in
      elim deleted [
        | err e ↦ (write_object_error [] e, l')
        | ok _ ↦ (record { status = 204; headers = []; body = empty; aborted = false }, l')
      ]

  -- handleObject
  unfoldable pub handle_object : Lilio P → Request → Text → Text → Reply × Lilio P
  unfolding put_object_reply get_object_reply head_object_reply delete_object_reply
  handle_object l r bucket key = elim (r.method) [
    | put ↦ put_object_reply l r bucket key
    | get ↦ get_object_reply l r bucket key
    | head ↦ (head_object_reply l bucket key, l)
    | delete ↦ delete_object_reply l bucket key
    | post ↦ (not_allowed, l)
    | other ↦ (not_allowed, l)
  ]

  -- handleScrub
  unfoldable pub handle_scrub : Lilio P → Request → Reply × Lilio P
  unfolding scrub scrub_reply
  handle_scrub l r =
      let opts : ScrubOptions = record {
        deep = r.query (bytes "deep") == bytes "true";
        dry_run = r.query (bytes "dry_run") == bytes "true";
      } in
      let (report, l') = scrub scrub_fuel r.scrub_alive l opts in
      if is_post r.method then (scrub_reply report, l') else (not_allowed, l)

  -- handleUnlock
  unfoldable pub handle_unlock : Lilio P → Request → Text → Reply × Lilio P
  unfolding unlock_bucket json_response error_response
  handle_unlock l r bucket =
      let password = r.query (bytes "password") in
      let (unlocked, l') = unlock_bucket l bucket password in
      if password == [] then (error_response [] 400, l) else elim unlocked [
        | err e ↦ (error_response [] 401, l')
        | ok _ ↦ (json_response [] 200 (message bucket), l')
      ]

  -- The reply to /admin/health
  unfoldable pub health_reply : Lilio P → Reply × Lilio P
  unfolding health_check list_backends get_failed_backends add_backends add_failed json_response
  health_reply l =
      let (failing, l') = health_check l in
      (
        json_response [] 200 (
            health
              (add_failed (get_failed_backends l') (add_backends failing (list_backends l') []))),
        l',
      )

  -- handleBucketsOrObjects
  unfoldable pub handle_buckets_or_objects : Lilio P → Request → Reply × Lilio P
  unfolding parse_path health_reply get_storage_stats handle_scrub handle_unlock handle_bucket
      handle_object json_response
  handle_buckets_or_objects l r =
      let (bucket, key) = parse_path r.path in
      if bucket == bytes "admin" && key == bytes "stats"
      then (json_response [] 200 (storage_stats (get_storage_stats P l)), l)
      else if bucket == bytes "admin" && key == bytes "health"
      then health_reply l
      else if bucket == bytes "admin" && key == bytes "scrub"
      then handle_scrub l r
      else if key == bytes "unlock" && is_post r.method
      then handle_unlock l r bucket
      else if key == []
      then handle_bucket l r bucket
      else handle_object l r bucket key

  -- handleRoot
  unfoldable pub handle_root : Lilio P → Request → Reply × Lilio P
  unfolding handle_buckets_or_objects handle_list_buckets_detailed json_response error_response
  handle_root l r =
      let listed : Reply = elim (list_buckets l) [
        | err e ↦ error_response [] 500
        | ok names ↦ json_response [] 200 (buckets names)
      ] in
      if not (r.path == bytes "/") then handle_buckets_or_objects l r else elim (r.method) [
        | get ↦ (
          if r.query (bytes "details") == bytes "true"
              then handle_list_buckets_detailed l
              else listed,
          l,
        )
        | put ↦ (not_allowed, l)
        | post ↦ (not_allowed, l)
        | head ↦ (not_allowed, l)
        | delete ↦ (not_allowed, l)
        | other ↦ (not_allowed, l)
      ]

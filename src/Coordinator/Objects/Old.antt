-- ===== src/Coordinator/Objects/Old.antt =====
-- GetObjectOld of pkg/storage/lilio.go, which nothing in the program calls.
use lilio.Prelude.{
  List, Option, Option-cases, Result, Text, [], ap, arith, err, false, hex, if◌then◌else◌, inl, inr,
  int_eq, is_ok, length, nat_eq, none, ok, refl, some, text_eq, ◌*◌, ◌++◌, ◌==◌, ◌∷◌, ◌≡◌, ◌≢◌,
}
use lilio.Prelude.Dict.{lookup}
use lilio.Prelude.Sorting.{sort_slice}
use lilio.Storage.{Bytes}
use lilio.Metadata.{ChunkInfo, ObjectMetadata}
use lilio.Coordinator.{
  Lilio, LilioError, Platform, checksum_failed, checksum_of, from_store, no_intact_replica,
  object_got, record_metric,
}
use lilio.Coordinator.Objects.{by_index}

module _ {P : Platform} where
  -- The inner loop: the first replica whose copy matches.
  unfoldable pub first_match : Lilio P → ChunkInfo → List Text → Option Bytes
  unfolding checksum_of
  first_match l c [] = none
  first_match l c (name ∷ names) =
      let rest = first_match l c names in
      elim (lookup name l.registry) [
        | none ↦ rest
        | some b ↦ elim (P.backend.retrieve_chunk b c.chunk_id) [
          | none ↦ rest
          | some d ↦ if checksum_of P d == c.checksum then some d else rest
        ]
      ]

  -- The outer loop and `bytes.Join`.
  unfoldable pub join_chunks : Lilio P → List ChunkInfo → Option Bytes
  unfolding first_match
  join_chunks l [] = some []
  join_chunks l (c ∷ cs) =
      let rest = join_chunks l cs in
      elim (first_match l c c.storage_nodes) [
        | none ↦ none
        | some d ↦ elim rest [ none ↦ none | some ds ↦ some (d ++ ds) ]
      ]

  -- GetObjectOld
  unfoldable pub get_object_old : Lilio P → Text → Text → Result LilioError Bytes × Lilio P
  unfolding join_chunks sort_slice checksum_of
  get_object_old l bucket key = elim (P.store.get_object l.metadata bucket key) [
    | err e ↦ (err (from_store e), l)
    | ok meta ↦ elim (join_chunks l (sort_slice by_index meta.chunks)) [
      | none ↦ (err no_intact_replica, l)
      | some whole ↦
          if checksum_of P whole == meta.checksum
          then (ok whole, record_metric (object_got bucket meta.size) l)
          else (err checksum_failed, l)
    ]
  ]

length-hex : (d : Bytes) → length (hex d) ≡ length d * 2
unfolding hex
length-hex [] = omega arith
length-hex (b ∷ d) = omega (arith, length-hex d)

module _ (P : Platform) (md5_size : (d : Bytes) → length (P.md5 d) ≡ 16)
    (sha256_size : (t : Text) → length (P.sha256 t) ≡ 32) where
  sizes_differ : (whole sent : Bytes) → checksum_of P whole ≢ hex (P.sha256 sent)
  unfolding checksum_of
  sizes_differ whole sent e =
      let sizes : length (hex (P.md5 whole)) ≡ length (hex (P.sha256 sent)) = ap length e in
      omega (
        arith,
        sizes,
        length-hex (P.md5 whole),
        length-hex (P.sha256 sent),
        md5_size whole,
        sha256_size sent,
      )

  -- Where the checksum in an object's metadata is a SHA-256 of any bytes, as PutObject writes it,
  -- GetObjectOld fails: it compares an MD5 with it. For hashes of 16 and 32 bytes.
  pub get_object_old_fails :
      (l : Lilio P) (bucket key : Text) (meta : ObjectMetadata) (sent : Bytes)
      → P.store.get_object l.metadata bucket key ≡ ok meta
      → meta.checksum ≡ hex (P.sha256 sent)
      → is_ok (get_object_old l bucket key).0 ≡ false
  unfolding get_object_old
  get_object_old_fails l bucket key meta sent found sum =
      elim (Option-cases (join_chunks l (sort_slice by_index meta.chunks))) [
        | inl missing ↦ rw (found, missing, get_object_old) refl
        | inr (whole, joined) ↦ ground (arith, sizes_differ whole sent)
      ]

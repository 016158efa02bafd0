-- ===== src/Tests/Stores.antt =====
-- Tests of the metadata store, the ChunkReader and the encryption.
use mathlib.Core.List.{flatten}
use lilio.Prelude.{
  Text, [], arith, bytes, err, false, ok, pos, refl, ℕ, ◌∷◌, ◌≡◌, inc64, if◌then◌else◌, ◌==◌,
  text_eq, true, All, ◌++◌, ◌*◌, ◌+◌, ◌<◌, ◌≤◌, length, some,
}
use lilio.Storage.{Bytes}
use lilio.Metadata.{
  EncryptionConfig, ObjectMetadata, bucket_exists, revision_mismatch, bucket_not_empty,
  bucket_not_found,
}
use lilio.Metadata.Memory.{
  MemoryStore, compare_and_save, create_bucket, create_bucket_with_encryption, current_revision,
  delete_bucket, delete_object, full_key, get_bucket, get_object, has_bucket, new_memory_store,
}
use lilio.Metadata.Memory.Revisions.{
  compare_and_save-mismatch, get_object-compare_and_save, recreated_write_accepted, run_saves,
  stale_write_refused,
}
use lilio.Metadata.Memory.Buckets.{
  create_bucket_lem, delete_bucket-eq-ok, delete_bucket-not-empty, get_object_alias,
}
use lilio.Chunking.{chunk_data, end_of_input, new_chunk_reader, read_chunks}
use lilio.Chunking.Reading.{number, read_chunks-eq-chunk_data}
use lilio.Chunking.Pieces.{IsPiece, chunk_data_lem}
use lilio.Crypto.{
  decrypt, decrypt_with_password, encrypt, encrypt_with_password, encryption_overhead,
}
use lilio.Crypto.RoundTrip.{decrypt-encrypt, decrypt_with_password-encrypt_with_password}
use lilio.Tests.Platforms.{all_of, in_memory, in_memory-IsLawful, tagging, tagging-IsLawful, zeros}

abbrev pub config : EncryptionConfig
config = record { enabled = false; algorithm = []; salt = []; key_hash = [] }

abbrev pub object : Text → Text → ℕ → ObjectMetadata
object bucket key size = record {
  revision = pos 0;
  object_id = bytes "id";
  bucket = bucket;
  key = key;
  size = size;
  checksum = [];
  chunk_size = 4;
  total_chunks = 0;
  chunks = [];
  created_at = 1;
  content_type = [];
  encrypted = false;
}

unfoldable pub a_bucket : MemoryStore
unfolding create_bucket new_memory_store
a_bucket = (create_bucket new_memory_store 1 (bytes "a")).1

-- A store with the bucket `a`, which has an object at revision 1 under the key `k`.
unfoldable pub one_object : MemoryStore
unfolding compare_and_save
one_object = (compare_and_save a_bucket (object (bytes "a") (bytes "k") 5) (pos 0)).1

first_revision : current_revision one_object (bytes "a") (bytes "k") ≡ pos 1
unfolding current_revision lilio.Prelude.Dict.lookup one_object lilio.Prelude.int_eq a_bucket
    lilio.Prelude.Dict.has_key lilio.Prelude.Dict.insert text_eq full_key inc64
first_revision = refl

second_writer_refused :
    let t =
      run_saves
        (compare_and_save one_object (object (bytes "a") (bytes "k") 6) (pos 1)).1
        ((object (bytes "a") (bytes "j") 2, pos 0) ∷ []) in
    compare_and_save t (object (bytes "a") (bytes "k") 7) (pos 1) ≡ (err revision_mismatch, t)
second_writer_refused =
    stale_write_refused one_object (object (bytes "a") (bytes "k") 6)
      (object (bytes "a") (bytes "k") 7) ((object (bytes "a") (bytes "j") 2, pos 0) ∷ []) 1
      first_revision refl refl (omega arith)

recreated_write_accepted_example :
    let deleted = (delete_object one_object (bytes "a") (bytes "k")).1 in
    let recreated = compare_and_save deleted (object (bytes "a") (bytes "k") 6) (pos 0) in
    (recreated.0 ≡ ok (record (object (bytes "a") (bytes "k") 6) { revision = pos 1 }))
    × ((compare_and_save recreated.1 (object (bytes "a") (bytes "k") 7) (pos 1)).0
        ≡ ok (record (object (bytes "a") (bytes "k") 7) { revision = pos 2 }))
recreated_write_accepted_example =
    recreated_write_accepted one_object (object (bytes "a") (bytes "k") 6)
      (object (bytes "a") (bytes "k") 7) first_revision refl refl

compare_and_save-mismatch_example :
    compare_and_save one_object (object (bytes "a") (bytes "k") 6) (pos 4)
    ≡ (err revision_mismatch, one_object)
compare_and_save-mismatch_example =
    compare_and_save-mismatch one_object (object (bytes "a") (bytes "k") 6) (pos 4) (ground arith)
      (ground (arith, first_revision))

bucket_created :
    let (r, s') = create_bucket_with_encryption one_object 2 (bytes "a") config in
    if has_bucket one_object (bytes "a")
    then (r ≡ err bucket_exists) × (s' ≡ one_object)
    else (r ≡ ok tt)
      × (get_bucket s' (bytes "b") ≡ (
          if bytes "b" == bytes "a"
          then ok (record { name = bytes "a"; created_at = 2; encryption = config })
          else get_bucket one_object (bytes "b")))
bucket_created = create_bucket_lem one_object 2 (bytes "a") (bytes "b") config

object_there :
    get_object one_object (bytes "a") (bytes "k")
    ≡ ok (record (object (bytes "a") (bytes "k") 5) { revision = pos 1 })
unfolding get_object full_key lilio.Prelude.Dict.lookup one_object lilio.Prelude.int_eq a_bucket
    lilio.Prelude.Dict.has_key lilio.Prelude.Dict.insert text_eq inc64
object_there = refl

delete_bucket-not-empty_example :
    delete_bucket one_object (bytes "a") ≡ (err bucket_not_empty, one_object)
delete_bucket-not-empty_example =
    delete_bucket-not-empty one_object (bytes "a") (bytes "k")
      (record (object (bytes "a") (bytes "k") 5) { revision = pos 1 }) object_there

bucket_deleted :
    (new_memory_store.objects ≡ a_bucket.objects)
    × (has_bucket a_bucket (bytes "a") ≡ true)
    × ((b : Text)
        → get_bucket new_memory_store b
          ≡ (if b == bytes "a" then err bucket_not_found else get_bucket a_bucket b))
unfolding delete_bucket new_memory_store a_bucket lilio.Prelude.Dict.has_key
    lilio.Prelude.Dict.insert text_eq lilio.Prelude.Dict.erase
bucket_deleted = delete_bucket-eq-ok a_bucket (bytes "a") refl

get_object_alias_example :
    get_object one_object (full_key (bytes "a") (bytes "b")) (bytes "k")
    ≡ get_object one_object (bytes "a") (full_key (bytes "b") (bytes "k"))
get_object_alias_example = get_object_alias one_object (bytes "a") (bytes "b") (bytes "k")

saved_object : get_object one_object (bytes "a") (bytes "k") ≡ (
    if full_key (bytes "a") (bytes "k") == full_key (bytes "a") (bytes "k")
    then ok (record (object (bytes "a") (bytes "k") 5) {
      revision = inc64 (current_revision a_bucket (bytes "a") (bytes "k"));
    })
    else get_object a_bucket (bytes "a") (bytes "k"))
unfolding compare_and_save lilio.Prelude.int_eq lilio.Prelude.Dict.lookup a_bucket
    lilio.Prelude.Dict.has_key one_object
saved_object =
    get_object-compare_and_save a_bucket (object (bytes "a") (bytes "k") 5) (pos 0) refl (bytes "a")
      (bytes "k")

read_chunks-eq-chunk_data_example :
    read_chunks in_memory 9 9 (new_chunk_reader in_memory (bytes "seven77") 3)
    ≡ (number 0 (chunk_data 3 (bytes "seven77")), end_of_input)
read_chunks-eq-chunk_data_example =
    read_chunks-eq-chunk_data in_memory all_of length in_memory-IsLawful (bytes "seven77") 3 9 9
      (omega arith) (omega arith) (omega arith)

three_chunks : chunk_data 3 (bytes "seven77") ≡ bytes "sev" ∷ bytes "en7" ∷ bytes "7" ∷ []
unfolding chunk_data lilio.Prelude.nat_eq
three_chunks = refl

chunk_data_lem_example :
    (flatten (chunk_data 3 (bytes "seven77")) ≡ bytes "seven77")
    × All (IsPiece 3) (chunk_data 3 (bytes "seven77"))
    × (7 ≤ length (chunk_data 3 (bytes "seven77")) * 3)
    × (length (chunk_data 3 (bytes "seven77")) * 3 < 10)
chunk_data_lem_example = chunk_data_lem 3 (bytes "seven77") (omega arith)

decrypts_back :
    (decrypt tagging (record { key = zeros 32 }) (zeros 12 ++ zeros 16 ++ bytes "text")
      ≡ some (bytes "text"))
    × (32 ≡ 4 + encryption_overhead)
unfolding encrypt
decrypts_back =
    decrypt-encrypt tagging tagging-IsLawful (record { key = zeros 32 }) (zeros 12) (bytes "text")
      (zeros 12 ++ zeros 16 ++ bytes "text") refl refl

decrypt_with_password-encrypt_with_password_example :
    (ciphertext : Bytes) × (encrypt_with_password tagging
        (some (zeros 16))
        (some (zeros 12))
        (bytes "text")
        (bytes "pass")
      ≡ some ciphertext)
    × (decrypt_with_password tagging ciphertext (bytes "pass") ≡ some (bytes "text"))
decrypt_with_password-encrypt_with_password_example =
    decrypt_with_password-encrypt_with_password tagging tagging-IsLawful (bytes "pass") (zeros 16)
      (zeros 12) (bytes "text") refl refl

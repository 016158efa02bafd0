-- ===== src/Metadata/Codec.antt =====
-- `encoding/json` as the metadata stores use it, which is not part of the program.
use lilio.Prelude.{Option, some, ◌≡◌}
use lilio.Storage.{Bytes}
use lilio.Metadata.{BucketMetadata, ObjectMetadata}

-- `json.Marshal` and `json.Unmarshal` on the two kinds of metadata; none where they fail.
pub record Codec : Type 0 where
  pub encode_bucket : BucketMetadata → Option Bytes
  pub decode_bucket : Bytes → Option BucketMetadata
  pub encode_object : ObjectMetadata → Option Bytes
  pub decode_object : Bytes → Option ObjectMetadata

-- What the stores rely on: metadata whose texts are valid UTF-8, which is what `IsValid` and
-- `IsValidBucket` stand for, is read back as it was written.
pub record CodecIsLawful (J : Codec) (IsValid : ObjectMetadata → Type 0)
    (IsValidBucket : BucketMetadata → Type 0) : Type 0 where
  pub decode-encode :
      (m : ObjectMetadata) (d : Bytes)
      → IsValid m
      → J.encode_object m ≡ some d
      → J.decode_object d ≡ some m
  pub decode-encode_bucket :
      (b : BucketMetadata) (d : Bytes)
      → IsValidBucket b
      → J.encode_bucket b ≡ some d
      → J.decode_bucket d ≡ some b

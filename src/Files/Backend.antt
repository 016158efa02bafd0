-- ===== src/Files/Backend.antt =====
-- LocalBackendPod of pkg/storage/storage-models/local.go as a backend of the coordinator.
use lilio.Prelude.{
  Bool, [], ◌++◌, ◌∷◌, ℕ, itoa, contains, contains-append_byte, contains-itoa, has_prefix, Text,
  arith, bytes, false, if◌then◌else◌, int_eq, nat_eq, not, refl, some, sym, text_eq, true, ◌&&◌,
  ◌==◌, ◌∙◌, ◌≡◌, ◌≢◌,
}
use lilio.Storage.{Bytes, IsLawful, StorageBackend}
use lilio.Files.{
  FileSystem, LocalBackendPod, delete_chunk, has_chunk, health, info, is_temp, list_chunks,
  retrieve_chunk, stats, store_chunk,
}
use lilio.Files.Pods.{retrieve-delete_ne, retrieve-store}
use lilio.Files.Replacing.{FilesAreLawful, is_plain}
use lilio.Coordinator.Objects.{chunk_id_of}

-- `*LocalBackendPod` as a StorageBackend. Info and Health give their answers only: the file that
-- they write and remove is not a chunk.
unfoldable pub local_backend : FileSystem → StorageBackend
unfolding store_chunk retrieve_chunk delete_chunk has_chunk list_chunks stats health info
local_backend F = record {
  State = LocalBackendPod F;
  info = λ p. (info F p).0;
  health = λ p. (health F p).0;
  store_chunk = store_chunk F;
  retrieve_chunk = retrieve_chunk F;
  delete_chunk = delete_chunk F;
  has_chunk = has_chunk F;
  list_chunks = list_chunks F;
  stats = λ p. some (stats F p);
}

-- The chunk ID is the name of a file in the directory that is neither temporary nor the one that
-- Health writes.
abbrev pub chunk_file : FileSystem → Text → Bool
chunk_file F c = F.join c == c && not (is_temp c) && not (c == F.join (bytes ".health_check"))

-- The ID has no separator and does not begin with a dot, as a UUID.
abbrev pub is_object_id : Text → Bool
is_object_id [] = false
is_object_id (b ∷ t) = not (b == b'.') && not (contains (b ∷ t) b'/')

chunk_id_parts : (oid : Text) (i : ℕ) → chunk_id_of oid i ≡ oid ++ bytes "_chunk_" ++ itoa i
unfolding chunk_id_of
chunk_id_parts oid i = refl

chunk_id_plain :
    (oid : Text) (i : ℕ) → is_object_id oid ≡ true → contains (chunk_id_of oid i) b'/' ≡ false
chunk_id_plain [] i h = absurd (ground arith)
chunk_id_plain (b ∷ t) i h =
    let digits = contains-itoa i b'/' (omega arith) in
    let start = contains-append_byte (b ∷ t) (bytes "_chunk_") b'/' in
    let whole = contains-append_byte ((b ∷ t) ++ bytes "_chunk_") (itoa i) b'/' in
    rw (chunk_id_parts (b ∷ t) i) (whole ∙ ground arith)

starts_plain :
    (oid : Text) (i : ℕ)
    → is_object_id oid ≡ true
    → has_prefix (chunk_id_of oid i) (bytes ".") ≡ false
unfolding chunk_id_of has_prefix
starts_plain [] i h = ground arith
starts_plain (b ∷ t) i h = ground arith

not_dotted :
    (c : Text)
    → has_prefix c (bytes ".") ≡ false
    → contains c b'/' ≡ false
    → c ≢ []
    → is_plain c ≡ true
unfolding has_prefix
not_dotted [] h g e = absurd (e refl)
not_dotted (b ∷ t) h g e = ground arith

not_temp : (c : Text) → has_prefix c (bytes ".") ≡ false → is_temp c ≡ false
unfolding has_prefix is_temp
not_temp [] h = refl
not_temp (b ∷ t) h = ground arith

not_check : (c : Text) → has_prefix c (bytes ".") ≡ false → (c == bytes ".health_check") ≡ false
unfolding has_prefix
not_check [] h = ground arith
not_check (b ∷ t) h = ground arith

not_empty : (oid : Text) (i : ℕ) → is_object_id oid ≡ true → chunk_id_of oid i ≢ []
unfolding chunk_id_of
not_empty [] i h e = ground arith
not_empty (b ∷ t) i h e = ground arith

check_plain : is_plain (bytes ".health_check") ≡ true
unfolding nat_eq text_eq
check_plain = refl

module _ (F : FileSystem) (L : FilesAreLawful F) where
  retrieve-store_chunk :
      (p : LocalBackendPod F) (c c' : Text) (d : Bytes)
      → chunk_file F c ≡ true
      → chunk_file F c' ≡ true
      → let (stored, p') = store_chunk F p c d in
        retrieve_chunk F p' c' ≡ (if stored && c' == c then some d else retrieve_chunk F p c')
  retrieve-store_chunk p c c' d named named' =
      let here : F.join c ≡ c = ground arith in
      let there : F.join c' ≡ c' = ground arith in
      let law = retrieve-store F L p c c' d (rw here (ground arith)) (rw there (ground arith)) in
      ground arith

  retrieve-delete_chunk :
      (p : LocalBackendPod F) (c c' : Text)
      → chunk_file F c ≡ true
      → chunk_file F c' ≡ true
      → c' ≢ c
      → retrieve_chunk F (delete_chunk F p c).1 c' ≡ retrieve_chunk F p c'
  retrieve-delete_chunk p c c' named named' other =
      let here : F.join c ≡ c = ground arith in
      let there : F.join c' ≡ c' = ground arith in retrieve-delete_ne F L p c c' (ground arith)

  retrieve-health :
      (p : LocalBackendPod F) (c : Text)
      → chunk_file F c ≡ true
      → retrieve_chunk F (health F p).1 c ≡ retrieve_chunk F p c
  unfolding health retrieve_chunk
  retrieve-health p c named =
      let probe = F.join (bytes ".health_check") in
      let written = (F.write_file p.directory probe (bytes "ok")).1 in
      let there : F.join c ≡ c = ground arith in
      let other : F.join c ≢ probe = λ e. ground arith in
      ground (
        arith,
        L.read-write_file_ne p.directory probe (F.join c) (bytes "ok") other,
        L.read-remove_ne written probe (F.join c) other,
      )

  name-store_chunk :
      (p : LocalBackendPod F) (c : Text) (d : Bytes) → (store_chunk F p c d).1.pod_name ≡ p.pod_name
  unfolding store_chunk
  name-store_chunk p c d = ground arith

  name-info : (p : LocalBackendPod F) → (info F p).0.name ≡ p.pod_name
  unfolding info
  name-info p = refl

  local_laws : IsLawful (local_backend F) (chunk_file F)
  unfolding local_backend
  local_laws = record {
    retrieve-store = λ s c d h done. ground (arith, retrieve-store_chunk s c c d h h);
    retrieve-store_failed = λ s c d h failed. ground (arith, retrieve-store_chunk s c c d h h);
    retrieve-store_ne = λ s c c' d h h' other. ground (arith, retrieve-store_chunk s c c' d h h');
    retrieve-delete_ne = retrieve-delete_chunk;
    name-store =
        λ s c d. name-info (store_chunk F s c d).1 ∙ name-store_chunk s c d ∙ sym (name-info s);
  }

  chunk_id_named :
      (oid : Text) (i : ℕ) → is_object_id oid ≡ true → chunk_file F (chunk_id_of oid i) ≡ true
  chunk_id_named oid i h =
      let c = chunk_id_of oid i in
      let dotless = starts_plain oid i h in
      let named =
        L.join-plain c (not_dotted c dotless (chunk_id_plain oid i h) (not_empty oid i h)) in
      let probe = L.join-plain (bytes ".health_check") check_plain in
      rw (named, probe, not_temp c dotless, not_check c dotless) (ground arith)

  -- The local backend keeps the laws of IsLawful, that the theorems on writing, reading, repairing
  -- and scrubbing chunks ask of a backend, for the chunk IDs that name a file in its directory,
  -- temporary files and the one that Health writes left out. Every chunk ID that PutObject makes
  -- of an object ID without separators or a leading dot is such a name, and RetrieveChunk gives
  -- after Info, which writes and removes that file, what it gave before. For a file system that
  -- keeps FilesAreLawful.
  pub local_backend-IsLawful :
      (p : LocalBackendPod F) (oid : Text) (i : ℕ)
      → is_object_id oid ≡ true
      → IsLawful (local_backend F) (chunk_file F)
        × (chunk_file F (chunk_id_of oid i) ≡ true)
        × (retrieve_chunk F (info F p).1 (chunk_id_of oid i)
            ≡ retrieve_chunk F p (chunk_id_of oid i))
  unfolding info
  local_backend-IsLawful p oid i h =
      let named = chunk_id_named oid i h in
      (local_laws, named, retrieve-health p (chunk_id_of oid i) named)

-- ===== src/Files/Pods.antt =====
-- What LocalBackendPod of pkg/storage/storage-models/local.go promises of its chunks.
use lilio.Prelude.{
  List, [], ◌∷◌, ◌∙◌, Bool, Option, Text, arith, false, if◌then◌else◌, int_eq, nat_eq, refl, some,
  text_eq, ◌&&◌, ◌==◌, ◌≡◌,
}
use lilio.Storage.{Bytes}
use lilio.Files.{FileSystem, LocalBackendPod, delete_chunk, is_temp, retrieve_chunk, store_chunk}
use lilio.Files.Replacing.{FilesAreLawful, replace_lem}

-- A call that changes a pod.
pub data PodCall : Type 0 where
  storing : Text → Bytes → PodCall
  deleting : Text → PodCall

-- The calls are on chunk IDs that name other files, and store in none that has the prefix of
-- temporary files.
abbrev pub Elsewhere : FileSystem → Text → List PodCall → Type 0
Elsewhere F c [] = Unit
Elsewhere F c (storing c' d ∷ calls) =
    (is_temp (F.join c') ≡ false) × ((F.join c == F.join c') ≡ false) × Elsewhere F c calls
Elsewhere F c (deleting c' ∷ calls) = ((F.join c == F.join c') ≡ false) × Elsewhere F c calls

-- One call after another, whether they succeed or not
abbrev pub call_all : (F : FileSystem) → LocalBackendPod F → List PodCall → LocalBackendPod F
call_all F p [] = p
call_all F p (storing c d ∷ calls) = call_all F (store_chunk F p c d).1 calls
call_all F p (deleting c ∷ calls) = call_all F (delete_chunk F p c).1 calls

not_this :
    (stored : Bool) (c c' : Text) (new old : Option Bytes)
    → (c == c') ≡ false
    → (if stored && c == c' then new else old) ≡ old
not_this stored c c' new old other = ground arith

just_this :
    (stored : Bool) (c : Text) (new old : Option Bytes)
    → (if stored && c == c then new else old) ≡ (if stored then new else old)
just_this stored c new old = ground arith

module _ (F : FileSystem) (L : FilesAreLawful F) where
  -- StoreChunk puts the chunk there or changes no chunk.
  pub retrieve-store :
      (p : LocalBackendPod F) (c c' : Text) (d : Bytes)
      → is_temp (F.join c) ≡ false
      → is_temp (F.join c') ≡ false
      → let (stored, p') = store_chunk F p c d in
        retrieve_chunk F p' c'
        ≡ (if stored && F.join c' == F.join c then some d else retrieve_chunk F p c')
  unfolding store_chunk retrieve_chunk
  retrieve-store p c c' d plain plain' =
      ground (arith, replace_lem F L p.directory (F.join c) (F.join c') d false plain plain')

  pub retrieve-delete_ne :
      (p : LocalBackendPod F) (c c' : Text)
      → (F.join c' == F.join c) ≡ false
      → retrieve_chunk F (delete_chunk F p c).1 c' ≡ retrieve_chunk F p c'
  unfolding delete_chunk retrieve_chunk
  retrieve-delete_ne p c c' other =
      ground (arith, L.read-remove_ne p.directory (F.join c) (F.join c'))

  retrieve-call_all :
      (p : LocalBackendPod F) (c : Text) (calls : List PodCall)
      → is_temp (F.join c) ≡ false
      → Elsewhere F c calls
      → retrieve_chunk F (call_all F p calls) c ≡ retrieve_chunk F p c
  retrieve-call_all p c [] plain there = refl
  retrieve-call_all p c (storing c' d ∷ calls) plain (plain', other, there) =
      retrieve-call_all (store_chunk F p c' d).1 c calls plain there
      ∙ retrieve-store p c' c d plain' plain
      ∙ not_this (store_chunk F p c' d).0 (F.join c) (F.join c') (some d) (retrieve_chunk F p c)
          other
  retrieve-call_all p c (deleting c' ∷ calls) plain (other, there) =
      retrieve-call_all (delete_chunk F p c').1 c calls plain there
      ∙ retrieve-delete_ne p c' c other

  -- A chunk that StoreChunk has stored in a directory can be read until something is done to its
  -- file: after any calls of StoreChunk and DeleteChunk on chunk IDs that name other files,
  -- whether they succeed or not, RetrieveChunk gives its bytes. If StoreChunk fails, RetrieveChunk
  -- gives what it gave before. For chunk IDs whose files do not have the prefix of temporary
  -- files, on a file system that keeps FilesAreLawful.
  pub stored_chunk_stays :
      (p : LocalBackendPod F) (c : Text) (d : Bytes) (calls : List PodCall)
      → is_temp (F.join c) ≡ false
      → Elsewhere F c calls
      → let (stored, p') = store_chunk F p c d in
        retrieve_chunk F (call_all F p' calls) c ≡ (if stored then some d else retrieve_chunk F p c)
  stored_chunk_stays p c d calls plain there =
      retrieve-call_all (store_chunk F p c d).1 c calls plain there
      ∙ retrieve-store p c c d plain plain
      ∙ just_this (store_chunk F p c d).0 (F.join c) (some d) (retrieve_chunk F p c)

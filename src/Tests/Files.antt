-- ===== src/Tests/Files.antt =====
-- Tests of internal/fsatomic/fsatomic.go on a directory that is a map.
use lilio.Prelude.{
  List, pos, Option-cases, Text, [], arith, bytes, false, if◌then◌else◌, inl, inr, int_eq, map,
  nat_eq, none, refl, some, text_eq, true, ◌==◌, ◌∷◌, ◌≡◌, ◌≢◌, ◌⊎◌,
}
use lilio.Prelude.Dict.{Dict, erase, has_key, insert, keys, lookup, lookup-erase, lookup-insert}
use lilio.Storage.{Bytes, IsLawful}
use lilio.Files.{
  FileRead, FileSystem, LocalBackendPod, retrieve_chunk, store_chunk, contents, info, is_temp,
  not_exist, removed, replace, was_absent,
}
use lilio.Files.Pods.{PodCall, Elsewhere, call_all, deleting, stored_chunk_stays, storing}
use lilio.Files.Replacing.{FilesAreLawful, replace_lem}
use lilio.Files.Backend.{chunk_file, is_object_id, local_backend, local_backend-IsLawful}
use lilio.Coordinator.Objects.{chunk_id_of}

abbrev pub Folder : Type 0
Folder = Dict Text Bytes

abbrev pub read : Folder → Text → FileRead
read s p = elim (lookup p s) [ none ↦ not_exist | some d ↦ contents d ]

abbrev temp_name : Text
temp_name = bytes ".tmp-1"

abbrev pub folders : FileSystem
folders = record {
  State = Folder;
  join = λ name. name;
  read_file = read;
  file_exists = λ s p. has_key p s;
  create_temp = λ s. some (temp_name, insert temp_name [] s);
  write_to = λ s t d. (true, insert t d s);
  chmod = λ s t. (true, s);
  sync_file = λ s t. (true, s);
  close_file = λ s t. (true, s);
  rename =
      λ s t p. elim (lookup t s) [ none ↦ (false, s) | some d ↦ (true, insert p d (erase t s)) ];
  remove_file = λ s t. if has_key t s then (removed, erase t s) else (was_absent, s);
  sync_dir = λ s. true;
  write_file = λ s p d. (true, insert p d s);
  free_bytes = λ s. none;
  read_dir = λ s. some (map (λ k. (k, false)) (keys s));
}

read_renamed :
    (s : Folder) (t p q : Text)
    → (folders.rename s t p).0 ≡ true
    → q ≢ t
    → read (folders.rename s t p).1 q ≡ (if q == p then read s t else read s q)
read_renamed s t p q h other = elim (Option-cases (lookup t s)) [
  | inl gone ↦ ground (arith)
  | inr (d, here) ↦ ground (arith, lookup-insert q p d (erase t s), lookup-erase q t s)
]

temp_name_plain : is_temp temp_name ≡ true
unfolding is_temp nat_eq
temp_name_plain = refl

pub folders-FilesAreLawful : FilesAreLawful folders
folders-FilesAreLawful = record {
  temp_named = λ s s' temp h. ground (arith, temp_name_plain);
  read-create_temp = λ s s' temp p h other. ground (arith, lookup-insert p temp_name [] s);
  read-write = λ s s0 temp d h ok. ground (arith, lookup-insert temp temp d s);
  read-write_ne = λ s t p d other. ground (arith, lookup-insert p t d s);
  read-chmod = λ s t p. refl;
  read-sync = λ s t p. refl;
  read-close = λ s t p. refl;
  read-write_file_ne = λ s t p d other. ground (arith, lookup-insert p t d s);
  join-plain = λ name h. refl;
  read-rename = read_renamed;
  read-rename_failed = λ s t p q h. ground (arith);
  read-remove_ne = λ s t p other. ground (arith, lookup-erase p t s);
}

abbrev folder : Folder
folder = (bytes "a", bytes "old") ∷ (bytes "b", bytes "kept") ∷ []

replaces :
    (replace folders folder (bytes "a") (bytes "new") false).1
    ≡ (bytes "a", bytes "new") ∷ (bytes "b", bytes "kept") ∷ []
unfolding replace has_key lookup insert text_eq erase
replaces = refl

plain_names : (is_temp (bytes "a") ≡ false) × (is_temp (bytes "b") ≡ false)
unfolding is_temp nat_eq
plain_names = (refl, refl)

replace_lem_example :
    let (done, s') = replace folders folder (bytes "a") (bytes "new") false in
    (bytes "b" ≢ bytes "a" → read s' (bytes "b") ≡ read folder (bytes "b"))
    × (done ≡ true → read s' (bytes "a") ≡ contents (bytes "new"))
    × (false ≡ false → done ≡ false → read s' (bytes "a") ≡ read folder (bytes "a"))
    × ((read s' (bytes "a") ≡ contents (bytes "new"))
        ⊎ (read s' (bytes "a") ≡ read folder (bytes "a")))
replace_lem_example =
    replace_lem folders folders-FilesAreLawful folder (bytes "a") (bytes "b") (bytes "new") false
      plain_names.0 plain_names.1

abbrev pod : LocalBackendPod folders
pod = record {
  pod_name = bytes "d1";
  directory = folder;
  pod_priority = 0;
  chunks_stored = pos 2;
  bytes_stored = pos 0;
}

abbrev calls : List PodCall
calls = storing (bytes "b") (bytes "other") ∷ deleting (bytes "b") ∷ []

calls-Elsewhere : Elsewhere folders (bytes "a") calls
unfolding is_temp nat_eq text_eq
calls-Elsewhere = (refl, refl, (refl, tt))

stored_chunk_stays_example :
    let (stored, p') = store_chunk folders pod (bytes "a") (bytes "new") in
    retrieve_chunk folders (call_all folders p' calls) (bytes "a")
    ≡ (if stored then some (bytes "new") else retrieve_chunk folders pod (bytes "a"))
stored_chunk_stays_example =
    stored_chunk_stays folders folders-FilesAreLawful pod (bytes "a") (bytes "new") calls
      plain_names.0 calls-Elsewhere

id_without_dots : is_object_id (bytes "id") ≡ true
unfolding nat_eq
id_without_dots = refl

local_backend-IsLawful_example :
    IsLawful (local_backend folders) (chunk_file folders)
    × (chunk_file folders (chunk_id_of (bytes "id") 0) ≡ true)
    × (retrieve_chunk folders (info folders pod).1 (chunk_id_of (bytes "id") 0)
        ≡ retrieve_chunk folders pod (chunk_id_of (bytes "id") 0))
local_backend-IsLawful_example =
    local_backend-IsLawful folders folders-FilesAreLawful pod (bytes "id") 0 id_without_dots

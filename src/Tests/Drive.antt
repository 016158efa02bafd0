-- ===== src/Tests/Drive.antt =====
-- A test of pkg/storage/storage-models/gdrive.go on a Drive that numbers its files.
use lilio.Prelude.{
  Text, [], arith, bytes, if◌then◌else◌, int_eq, nat_eq, none, pos, refl, some, suc, text_eq, true,
  false, ℕ, ◌∷◌, ◌≡◌,
}
use lilio.Prelude.Dict.{Dict, erase, insert, lookup, lookup-insert}
use lilio.Storage.{Bytes}
use lilio.Drive.{DriveClient, GdriveBackend, drive_has, drive_retrieve, drive_store}
use lilio.Drive.Cached.{DriveIsLawful, drive_store_lem}

-- A file's ID counts the files that were created before it.
abbrev numbered : DriveClient
numbered = record {
  State = ℕ × Dict Text Bytes;
  folders_named = λ s name. some [];
  create_folder = λ s name. (some (bytes "folder"), s);
  files_in = λ s folder. [];
  create_file = λ s folder name d. (some (s.0 ∷ []), (suc s.0, insert (s.0 ∷ []) d s.1));
  download = λ s id. lookup id s.1;
  delete_file = λ s id. (true, (s.0, erase id s.1));
  user_known = λ s. true;
  quota = λ s. none;
}

downloads :
    (s : ℕ × Dict Text Bytes) (id : Text) (d : Bytes)
    → some (s.0 ∷ []) ≡ some id
    → lookup id (insert (s.0 ∷ []) d s.1) ≡ some d
downloads s id d h = ground (arith, lookup-insert id (s.0 ∷ []) d s.1)

numbered-IsLawful : DriveIsLawful numbered
numbered-IsLawful = record { download-create = λ s folder name id d h. downloads s id d h }

abbrev drive : GdriveBackend numbered
drive = record {
  name = bytes "g1";
  priority = 1;
  folder_id = bytes "folder";
  service = (1, (0 ∷ [], bytes "damaged") ∷ []);
  chunk_cache = (bytes "c1", 0 ∷ []) ∷ [];
  chunks_stored = pos 1;
  bytes_stored = pos 7;
}

drive_store_lem_example :
    (drive_has numbered drive (bytes "c1") ≡ true
      → ((drive_store numbered drive (bytes "c1") (bytes "intact")).0 ≡ true)
        × ((drive_store numbered drive (bytes "c1") (bytes "intact")).1 ≡ drive))
    × (drive_has numbered drive (bytes "c1") ≡ false
        → (drive_has numbered
              (drive_store numbered drive (bytes "c1") (bytes "intact")).1
              (bytes "c1")
            ≡ (drive_store numbered drive (bytes "c1") (bytes "intact")).0)
          × (drive_retrieve numbered
                (drive_store numbered drive (bytes "c1") (bytes "intact")).1
                (bytes "c1")
              ≡ (if (drive_store numbered drive (bytes "c1") (bytes "intact")).0
                  then some (bytes "intact")
                  else none)))
drive_store_lem_example =
    drive_store_lem numbered numbered-IsLawful drive (bytes "c1") (bytes "intact")

keeps_damaged :
    drive_retrieve numbered
      (drive_store numbered drive (bytes "c1") (bytes "intact")).1
      (bytes "c1")
    ≡ some (bytes "damaged")
unfolding drive_retrieve lookup drive_store lilio.Prelude.Dict.has_key text_eq
keeps_damaged = refl

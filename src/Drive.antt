-- ===== src/Drive.antt =====
-- pkg/storage/storage-models/gdrive.go: the backend on Google Drive, once it is authorized. The
-- calls of the Drive client are a parameter.
pub mod Cached
use lilio.Prelude.{
  Bool, List, Option, Text, [], add64, dec64, false, inc64, leb, suc, ◌-◌, if◌then◌else◌, int_eq,
  length, nat_eq, negsuc, none, pos, some, text_eq, bytes, true, ℕ, ℤ, ◌∷◌, ◌==◌,
}
use lilio.Prelude.Dict.{Dict, erase, has_key, insert, keys, lookup}
use lilio.Storage.{BackendInfo, BackendStats, Bytes, gdrive, online}

-- A file that a listing tells of.
pub record DriveFile : Type 0 where
  pub file_id : Text
  pub file_name : Text
  pub file_size : ℕ

-- The calls of the client: the folders of a name; the files in a folder, on the pages that were
-- read before the end or an error; and the limit and the usage, if the account tells of them.
pub record DriveClient : Type 1 where
  pub State : Type 0
  pub folders_named : State → Text → Option (List Text)
  pub create_folder : State → Text → Option Text × State
  pub files_in : State → Text → List DriveFile
  pub create_file : State → Text → Text → Bytes → Option Text × State
  pub download : State → Text → Option Bytes
  pub delete_file : State → Text → Bool × State
  pub user_known : State → Bool
  pub quota : State → Option (ℕ × ℕ)

-- `limit - usage`
abbrev pub difference : ℕ → ℕ → ℤ
difference limit usage = if leb usage limit then pos (limit - usage) else negsuc (usage - suc limit)

module _ (D : DriveClient) where
  -- GDriveBackend, without the paths of the credentials and the token
  pub record GdriveBackend : Type 0 where
    pub name : Text
    pub priority : ℕ
    pub folder_id : Text
    pub service : D.State
    pub chunk_cache : Dict Text Text
    pub chunks_stored : ℤ
    pub bytes_stored : ℤ

  -- createOrGetFolder
  unfoldable pub create_or_get_folder : D.State → Text → Option Text × D.State
  create_or_get_folder s name = elim (D.folders_named s name) [
    | none ↦ (none, s)
    | some [] ↦ D.create_folder s name
    | some (folder ∷ _) ↦ (some folder, s)
  ]

  -- The loop of loadChunkCache over the files of the pages
  unfoldable pub cache_files : GdriveBackend → List DriveFile → GdriveBackend
  cache_files g [] = g
  cache_files g (file ∷ files) =
      cache_files
        (record g {
          chunk_cache = insert file.file_name file.file_id g.chunk_cache;
          chunks_stored = inc64 g.chunks_stored;
          bytes_stored = add64 file.file_size g.bytes_stored;
        })
        files

  -- loadChunkCache
  unfoldable pub load_chunk_cache : GdriveBackend → GdriveBackend
  unfolding cache_files
  load_chunk_cache g = cache_files g (D.files_in g.service g.folder_id)

  -- NewGDriveBackend, with the service that the credentials and the token gave
  unfoldable pub new_gdrive_backend : Text → Text → ℕ → D.State → Option GdriveBackend
  unfolding create_or_get_folder load_chunk_cache
  new_gdrive_backend name folder_id priority s =
      let made : GdriveBackend = record {
        name = name;
        priority = priority;
        folder_id = folder_id;
        service = s;
        chunk_cache = [];
        chunks_stored = pos 0;
        bytes_stored = pos 0;
      } in
      let (folder, s') = create_or_get_folder s (bytes "lilio-storage") in
      if folder_id == []
      then elim folder [
        | none ↦ none
        | some id ↦ some (load_chunk_cache (record made { folder_id = id; service = s' }))
      ]
      else some (load_chunk_cache made)

  -- Info
  unfoldable pub drive_info : GdriveBackend → BackendInfo
  drive_info g = record {
    name = g.name;
    backend_type = gdrive;
    status = online;
    priority = g.priority;
  }

  -- Health
  unfoldable pub drive_health : GdriveBackend → Bool
  drive_health g = D.user_known g.service

  -- StoreChunk
  unfoldable pub drive_store : GdriveBackend → Text → Bytes → Bool × GdriveBackend
  drive_store g chunk_id d =
      let (uploaded, s) = D.create_file g.service g.folder_id chunk_id d in
      if has_key chunk_id g.chunk_cache then (true, g) else elim uploaded [
        | none ↦ (false, record g { service = s })
        | some id ↦ (
          true,
          record g {
            service = s;
            chunk_cache = insert chunk_id id g.chunk_cache;
            chunks_stored = inc64 g.chunks_stored;
            bytes_stored = add64 (length d) g.bytes_stored;
          },
        )
      ]

  -- RetrieveChunk
  unfoldable pub drive_retrieve : GdriveBackend → Text → Option Bytes
  drive_retrieve g chunk_id = elim (lookup chunk_id g.chunk_cache) [
    | none ↦ none
    | some id ↦ D.download g.service id
  ]

  -- DeleteChunk: a chunk that is not in the cache counts as deleted.
  unfoldable pub drive_delete : GdriveBackend → Text → Bool × GdriveBackend
  drive_delete g chunk_id = elim (lookup chunk_id g.chunk_cache) [
    | none ↦ (true, g)
    | some id ↦
        let (deleted, s) = D.delete_file g.service id in
        if deleted
        then (
          true,
          record g {
            service = s;
            chunk_cache = erase chunk_id g.chunk_cache;
            chunks_stored = dec64 g.chunks_stored;
          },
        )
        else (false, record g { service = s })
  ]

  -- HasChunk
  unfoldable pub drive_has : GdriveBackend → Text → Bool
  drive_has g chunk_id = has_key chunk_id g.chunk_cache

  -- ListChunks
  unfoldable pub drive_list : GdriveBackend → List Text
  drive_list g = keys g.chunk_cache

  -- Stats
  unfoldable pub drive_stats : GdriveBackend → BackendStats
  drive_stats g = record {
    bytes_used = g.bytes_stored;
    bytes_free = elim (D.quota g.service) [
      | none ↦ negsuc 0
      | some (limit, usage) ↦ if limit == 0 then negsuc 0 else difference limit usage
    ];
    chunks_stored = g.chunks_stored;
  }

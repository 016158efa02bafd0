-- ===== src/Drive/Cached.antt =====
-- What StoreChunk of pkg/storage/storage-models/gdrive.go makes of a chunk that the cache knows.
use lilio.Prelude.{
  Bool-cases, Option-cases, Text, arith, false, if◌then◌else◌, inl, inr, none, refl, some, text_eq,
  true, ◌≡◌,
}
use lilio.Prelude.Dict.{has_key, has_key-eq-lookup, insert, lookup, lookup-insert}
use lilio.Storage.{Bytes}
use lilio.Drive.{DriveClient, GdriveBackend, drive_has, drive_retrieve, drive_store}

-- A file that was created can be downloaded.
pub record DriveIsLawful (D : DriveClient) : Type 0 where
  pub download-create :
      (s : D.State) (folder name id : Text) (d : Bytes)
      → (D.create_file s folder name d).0 ≡ some id
      → D.download (D.create_file s folder name d).1 id ≡ some d

module _ (D : DriveClient) (L : DriveIsLawful D) where
  -- StoreChunk never replaces a chunk that the backend knows: it reports success and leaves the
  -- whole backend as it was, whatever the new bytes are, so a damaged chunk stays. A chunk that the
  -- backend does not know is known and read back as it was stored if StoreChunk succeeds, and is
  -- still unknown and unreadable if it fails. For a Drive from which a created file can be downloaded.
  pub drive_store_lem :
      (g : GdriveBackend D) (chunk_id : Text) (d : Bytes)
      → let (stored, g') = drive_store D g chunk_id d in
        (drive_has D g chunk_id ≡ true → (stored ≡ true) × (g' ≡ g))
        × (drive_has D g chunk_id ≡ false
            → (drive_has D g' chunk_id ≡ stored)
              × (drive_retrieve D g' chunk_id ≡ (if stored then some d else none)))
  unfolding drive_store drive_retrieve drive_has
  drive_store_lem g chunk_id d = elim (Bool-cases (has_key chunk_id g.chunk_cache)) [
    | inl known ↦ rw known ((λ _. (refl, refl)), (λ h. absurd (ground arith)))
    | inr unknown ↦
        let missing : lookup chunk_id g.chunk_cache ≡ none =
          ground (arith, has_key-eq-lookup chunk_id g.chunk_cache) in
        elim (Option-cases (D.create_file g.service g.folder_id chunk_id d).0) [
          | inl failed ↦
              rw (unknown, failed)
                ((λ h. absurd (ground arith)), λ _. (unknown, rw (missing, drive_retrieve) refl))
          | inr (id, uploaded) ↦
              let there = L.download-create g.service g.folder_id chunk_id id d uploaded in
              let cached : lookup chunk_id (insert chunk_id id g.chunk_cache) ≡ some id =
                ground (arith, lookup-insert chunk_id chunk_id id g.chunk_cache) in
              rw (unknown, uploaded)
                (
                  (λ h. absurd (ground arith)),
                  λ _. (
                    ground (arith, has_key-eq-lookup chunk_id (insert chunk_id id g.chunk_cache)),
                    rw (cached, drive_retrieve) there,
                  ),
                )
        ]
  ]

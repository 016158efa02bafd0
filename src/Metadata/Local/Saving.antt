-- ===== src/Metadata/Local/Saving.antt =====
-- What a conditional write of pkg/metadata/local.go leaves in the files.
use lilio.Prelude.{
  Bool, Option-cases, Result, Result-cases, Text, [], arith, bytes, err, false, has_prefix, hex,
  if◌then◌else◌, inc64, inl, inr, int_eq, is_ok, nat_eq, ok, pos, refl, some, text_eq, true, ℤ,
  ◌++◌, ◌==◌, ◌∷◌, ◌≡◌, ◌≢◌, ◌⊎◌,
}
use lilio.Storage.{Bytes}
use lilio.Files.{contents, is_temp, replace}
use lilio.Files.Replacing.{FilesAreLawful, replace_lem}
use lilio.Metadata.Codec.{Codec, CodecIsLawful}
use lilio.Metadata.Local.{FileTree, LocalStore, object_file_name, objects_dir, read_in, write_in}
use lilio.Metadata.{BucketMetadata, MetaError, ObjectMetadata, object_not_found}
use lilio.Metadata.Local.Objects.{
  compare_and_save, get_object, read_object_file, save_at, save_locked, write_object,
}
use lilio.Metadata.Memory.{any_revision}

-- A change inside a directory is seen there and nowhere else.
pub record TreeIsLawful (T : FileTree) : Type 0 where
  pub open-set :
      (t : T.State) (p q : Text) (f f' : T.folder.State)
      → T.open_dir t p ≡ some f
      → T.open_dir (T.set_dir t p f') q ≡ (if q == p then some f' else T.open_dir t q)

hex_plain : (d : Bytes) → is_temp (hex d ++ bytes ".json") ≡ false
unfolding hex is_temp has_prefix nat_eq
hex_plain [] = refl
hex_plain (b ∷ d) = ground arith

-- The name of an object's file never has the prefix of temporary files.
object_file_name_plain :
    (sha256 : Text → Bytes) (key : Text) → is_temp (object_file_name sha256 key) ≡ false
unfolding object_file_name
object_file_name_plain sha256 key = hex_plain (sha256 key)

-- The revision that a conditional write is compared with.
abbrev pub revision_of : Result MetaError ObjectMetadata → ℤ
revision_of (ok m) = m.revision
revision_of (err x) = pos 0

module _ (T : FileTree) (J : Codec) (sha256 : Text → Bytes) where
  -- Another file than that of the object.
  abbrev pub Elsewhere : LocalStore T J sha256 → ObjectMetadata → Text → Text → Type 0
  Elsewhere s meta b k =
      (objects_dir T J sha256 s b ≢ objects_dir T J sha256 s meta.bucket)
      ⊎ (object_file_name sha256 k ≢ object_file_name sha256 meta.key)

module _ (T : FileTree) (J : Codec) (sha256 : Text → Bytes) (L : TreeIsLawful T)
    (F : FilesAreLawful T.folder) where
  -- What a reader of a file sees when another, or the same, is written.
  Written :
      LocalStore T J sha256
      → Text
      → Text
      → Bytes
      → Text
      → Text
      → Bool × LocalStore T J sha256
      → Type 0
  Written s dir name d dir' name' (done, s') =
      (s'.base_path ≡ s.base_path)
      × ((dir' ≢ dir) ⊎ (name' ≢ name)
          → read_in T J sha256 s' dir' name' ≡ read_in T J sha256 s dir' name')
      × (done ≡ true → read_in T J sha256 s' dir name ≡ contents d)
      × ((read_in T J sha256 s' dir name ≡ contents d)
          ⊎ (read_in T J sha256 s' dir name ≡ read_in T J sha256 s dir name))

  write_in-Written :
      (s : LocalStore T J sha256) (dir name : Text) (d : Bytes) (dir' name' : Text)
      → is_temp name ≡ false
      → is_temp name' ≡ false
      → Written s dir name d dir' name' (write_in T J sha256 s dir name d)
  unfolding write_in read_in Written
  write_in-Written s dir name d dir' name' plain plain' =
      elim (Option-cases (T.open_dir s.tree dir)) [
        | inl gone ↦ ground arith
        | inr (f, here) ↦
            let (done, f') = replace T.folder f name d true in
            let (others, new, _, either) =
              replace_lem T.folder F f name name' d true plain plain' in
            ground (
              arith,
              L.open-set s.tree dir dir' f f' here,
              L.open-set s.tree dir dir f f' here,
              others,
              new,
              either,
            )
      ]

  Keeps :
      LocalStore T J sha256
      → ObjectMetadata
      → ObjectMetadata
      → Text
      → Text
      → Result MetaError ObjectMetadata × LocalStore T J sha256
      → Type 0
  Keeps s meta stored b k (r, s') =
      (Elsewhere T J sha256 s meta b k → get_object T J sha256 s' b k ≡ get_object T J sha256 s b k)
      × (is_ok r ≡ true → (r ≡ ok stored) × (get_object T J sha256 s' meta.bucket meta.key ≡ r))
      × ((get_object T J sha256 s' meta.bucket meta.key ≡ ok stored)
          ⊎ (get_object T J sha256 s' meta.bucket meta.key
              ≡ get_object T J sha256 s meta.bucket meta.key))

  module _ (IsValid : ObjectMetadata → Type 0) (IsValidBucket : BucketMetadata → Type 0)
      (V : CodecIsLawful J IsValid IsValidBucket) where
    write_object-Keeps :
        (s : LocalStore T J sha256) (meta : ObjectMetadata) (r : ℤ) (b k : Text)
        → IsValid (record meta { revision = r })
        → Keeps s meta
            (record meta { revision = r })
            b
            k
            (write_object T J sha256 s (record meta { revision = r }))
    unfolding write_object Written Keeps get_object read_object_file
    write_object-Keeps s meta r b k valid =
        let stored : ObjectMetadata = record meta { revision = r } in
        elim (Option-cases (J.encode_object stored)) [
          | inl unencoded ↦ ground arith
          | inr (d, encoded) ↦
              let dir = objects_dir T J sha256 s meta.bucket in
              let name = object_file_name sha256 meta.key in
              ground (
                arith,
                V.decode-encode stored d valid encoded,
                write_in-Written s dir name d (objects_dir T J sha256 s b)
                    (object_file_name sha256 k) (object_file_name_plain sha256 meta.key)
                    (object_file_name_plain sha256 k),
              )
        ]

    -- What saveLocked guarantees, given the revision that it found.
    Saves :
        LocalStore T J sha256
        → ObjectMetadata
        → ℤ
        → ℤ
        → Text
        → Text
        → Result MetaError ObjectMetadata × LocalStore T J sha256
        → Type 0
    Saves s meta e current b k (r, s') =
        let stored : ObjectMetadata = record meta { revision = inc64 current } in
        (is_ok r ≡ true
          → ((e ≡ any_revision) ⊎ (current ≡ e))
            × (r ≡ ok stored)
            × (get_object T J sha256 s' meta.bucket meta.key ≡ ok stored))
        × ((get_object T J sha256 s' meta.bucket meta.key ≡ ok stored)
            ⊎ (get_object T J sha256 s' meta.bucket meta.key
                ≡ get_object T J sha256 s meta.bucket meta.key))
        × (Elsewhere T J sha256 s meta b k
            → get_object T J sha256 s' b k ≡ get_object T J sha256 s b k)

    save_at-Saves :
        (s : LocalStore T J sha256) (meta : ObjectMetadata) (e current : ℤ) (b k : Text)
        → ((r : ℤ) → IsValid (record meta { revision = r }))
        → Saves s meta e current b k (save_at T J sha256 s meta e current)
    unfolding save_at Keeps Saves
    save_at-Saves s meta e current b k valid =
        ground (arith, write_object-Keeps s meta (inc64 current) b k (valid (inc64 current)))

    save_locked-Saves :
        (s : LocalStore T J sha256) (meta : ObjectMetadata) (e : ℤ) (b k : Text)
        → ((r : ℤ) → IsValid (record meta { revision = r }))
        → Saves s meta e
            (revision_of (get_object T J sha256 s meta.bucket meta.key))
            b
            k
            (save_locked T J sha256 s meta e)
    unfolding save_locked get_object
    save_locked-Saves s meta e b k valid =
        let dir = objects_dir T J sha256 s meta.bucket in
        let name = object_file_name sha256 meta.key in
        elim (Result-cases (read_object_file T J sha256 s dir name)) [
          | inr (m, found) ↦ rw (found, save_locked) (save_at-Saves s meta e m.revision b k valid)
          | inl (object_not_found, gone) ↦
              rw (gone, save_locked) (save_at-Saves s meta e (pos 0) b k valid)
          | inl (_, failed) ↦ rw (failed, save_locked) (unfold Saves in ground arith)
        ]

    -- A conditional write to the local store, whose tree, files and codec are lawful. It succeeds
    -- only if the expected revision is the object's, 0 where there is none, or is `anyRevision`;
    -- then a read gives what it returned, which is the metadata with the next revision. If it
    -- fails, a read gives that or what was stored before, never a mixture. Objects in other files
    -- are as they were. For metadata that the codec can represent.
    pub compare_and_save_lem :
        (s : LocalStore T J sha256) (meta : ObjectMetadata) (e : ℤ) (b k : Text)
        → ((r : ℤ) → IsValid (record meta { revision = r }))
        → let (r, s') = compare_and_save T J sha256 s meta e in
          let current = revision_of (get_object T J sha256 s meta.bucket meta.key) in
          let stored : ObjectMetadata = record meta { revision = inc64 current } in
          (is_ok r ≡ true
            → ((e ≡ any_revision) ⊎ (current ≡ e))
              × (r ≡ ok stored)
              × (get_object T J sha256 s' meta.bucket meta.key ≡ ok stored))
          × ((get_object T J sha256 s' meta.bucket meta.key ≡ ok stored)
              ⊎ (get_object T J sha256 s' meta.bucket meta.key
                  ≡ get_object T J sha256 s meta.bucket meta.key))
          × (Elsewhere T J sha256 s meta b k
              → get_object T J sha256 s' b k ≡ get_object T J sha256 s b k)
    unfolding compare_and_save Saves
    compare_and_save_lem s meta e b k valid = save_locked-Saves s meta e b k valid

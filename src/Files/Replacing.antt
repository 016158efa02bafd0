-- ===== src/Files/Replacing.antt =====
-- What internal/fsatomic/fsatomic.go promises of a file that it replaces.
use lilio.Prelude.{
  [], bytes, contains, not, ◌&&◌, Bool, Bool-cases, arith, inl, inr, ◌∙◌, Option-cases, none, refl,
  ap, sym, ◌⊎◌, Option, Text, false, if◌then◌else◌, int_eq, nat_eq, some, text_eq, true, ◌==◌, ◌≡◌,
  ◌≢◌,
}
use lilio.Storage.{Bytes}
use lilio.Files.{
  FileSystem, contents, fill_temp, is_temp, close_temp, sync_temp, write_temp, commit_temp, replace,
}

-- A name of a file in a directory.
abbrev pub is_plain : Text → Bool
is_plain name =
    not (contains name b'/')
    && not (name == [])
    && not (name == bytes ".")
    && not (name == bytes "..")

-- What Go documents of these calls, for a file system in which nothing else writes to the
-- directory meanwhile. A temporary file has a name with the prefix and is empty at first; a call
-- on one file leaves the others alone; what was written is read back; a rename that succeeds
-- moves the contents, and one that fails changes nothing. The path of a name without separators
-- that is not empty, `.` or `..` is that name.
pub record FilesAreLawful (F : FileSystem) : Type 0 where
  pub temp_named :
      (s s' : F.State) (temp : Text) → F.create_temp s ≡ some (temp, s') → is_temp temp ≡ true
  pub read-create_temp :
      (s s' : F.State) (temp p : Text)
      → F.create_temp s ≡ some (temp, s')
      → p ≢ temp
      → F.read_file s' p ≡ F.read_file s p
  pub read-write :
      (s s0 : F.State) (temp : Text) (d : Bytes)
      → F.create_temp s0 ≡ some (temp, s)
      → (F.write_to s temp d).0 ≡ true
      → F.read_file (F.write_to s temp d).1 temp ≡ contents d
  pub read-write_ne :
      (s : F.State) (t p : Text) (d : Bytes)
      → p ≢ t
      → F.read_file (F.write_to s t d).1 p ≡ F.read_file s p
  pub read-chmod : (s : F.State) (t p : Text) → F.read_file (F.chmod s t).1 p ≡ F.read_file s p
  pub read-sync : (s : F.State) (t p : Text) → F.read_file (F.sync_file s t).1 p ≡ F.read_file s p
  pub read-close : (s : F.State) (t p : Text) → F.read_file (F.close_file s t).1 p ≡ F.read_file s p
  pub read-rename :
      (s : F.State) (t p q : Text)
      → (F.rename s t p).0 ≡ true
      → q ≢ t
      → F.read_file (F.rename s t p).1 q ≡ (if q == p then F.read_file s t else F.read_file s q)
  pub read-rename_failed :
      (s : F.State) (t p q : Text)
      → (F.rename s t p).0 ≡ false
      → F.read_file (F.rename s t p).1 q ≡ F.read_file s q
  pub read-write_file_ne :
      (s : F.State) (t p : Text) (d : Bytes)
      → p ≢ t
      → F.read_file (F.write_file s t d).1 p ≡ F.read_file s p
  pub join-plain : (name : Text) → is_plain name ≡ true → F.join name ≡ name
  pub read-remove_ne :
      (s : F.State) (t p : Text) → p ≢ t → F.read_file (F.remove_file s t).1 p ≡ F.read_file s p

module _ (F : FileSystem) (L : FilesAreLawful F) where
  -- What writeTemp leaves: the other files as they were, and the data in the file it names.
  Prepared : F.State → Bytes → Text → Text → Option Text × F.State → Type 0
  Prepared s d temp q (made, s') =
      (F.read_file s' q ≡ F.read_file s q)
      × ((t : Text) → made ≡ some t → (t ≡ temp) × (F.read_file s' temp ≡ contents d))

  -- The same of the steps that follow once the data is in the temporary file.
  Filled : F.State → Bytes → Text → Text → F.State → Type 0
  Filled s d temp q s' = (F.read_file s' q ≡ F.read_file s q) × (F.read_file s' temp ≡ contents d)

  close_temp-Prepared :
      (s s1 : F.State) (temp q : Text) (d : Bytes)
      → q ≢ temp
      → Filled s d temp q s1
      → Prepared s d temp q (close_temp F s1 temp)
  unfolding Prepared Filled close_temp
  close_temp-Prepared s s1 temp q d other (kept, holds) =
      let s2 = (F.close_file s1 temp).1 in
      ground
        (arith, L.read-close s1 temp q, L.read-close s1 temp temp, L.read-remove_ne s2 temp q other)

  sync_temp-Prepared :
      (s s1 : F.State) (temp q : Text) (d : Bytes) (sync : Bool)
      → q ≢ temp
      → Filled s d temp q s1
      → Prepared s d temp q (sync_temp F s1 temp sync)
  unfolding Prepared Filled sync_temp
  sync_temp-Prepared s s1 temp q d false other filled =
      close_temp-Prepared s s1 temp q d other filled
  sync_temp-Prepared s s1 temp q d true other (kept, holds) =
      let s2 = (F.sync_file s1 temp).1 in
      let s3 = (F.close_file s2 temp).1 in
      let filled : Filled s d temp q s2 =
        (L.read-sync s1 temp q ∙ kept, L.read-sync s1 temp temp ∙ holds) in
      ground (
        arith,
        close_temp-Prepared s s2 temp q d other filled,
        L.read-sync s1 temp q,
        L.read-close s2 temp q,
        L.read-remove_ne s3 temp q other,
      )

  fill_temp-Prepared :
      (s s0 : F.State) (temp q : Text) (d : Bytes) (sync : Bool)
      → F.create_temp s0 ≡ some (temp, s)
      → q ≢ temp
      → Prepared s d temp q (fill_temp F s temp d sync)
  unfolding Prepared Filled fill_temp
  fill_temp-Prepared s s0 temp q d sync made other =
      let (written, s1) = F.write_to s temp d in
      let (changed, s2) = F.chmod s1 temp in
      let same : F.read_file s1 q ≡ F.read_file s q = L.read-write_ne s temp q d other in
      elim (Bool-cases written) [
        | inr unwritten ↦
            let s3 = (F.close_file s1 temp).1 in
            rw (unwritten, fill_temp)
              (
                L.read-remove_ne s3 temp q other ∙ L.read-close s1 temp q ∙ same,
                λ t e. absurd (ground arith),
              )
        | inl wrote ↦
            let kept : Filled s d temp q s2 = (
              L.read-chmod s1 temp q ∙ same,
              L.read-chmod s1 temp temp ∙ L.read-write s s0 temp d made wrote,
            ) in
            elim (Bool-cases changed) [
              | inr unchanged ↦
                  let s3 = (F.close_file s2 temp).1 in
                  rw (wrote, unchanged, fill_temp)
                    (
                      L.read-remove_ne s3 temp q other
                          ∙ L.read-close s2 temp q
                          ∙ L.read-chmod s1 temp q
                          ∙ same,
                      λ t e. absurd (ground arith),
                    )
              | inl set ↦
                  rw (wrote, set, fill_temp) (sync_temp-Prepared s s2 temp q d sync other kept)
            ]
      ]

  not_temp : (temp q : Text) → is_temp temp ≡ true → is_temp q ≡ false → q ≢ temp
  not_temp temp q h g e = ground (arith)

  -- What the caller sees of the file at `q` when the contents `d` are put at `path`.
  Replaced : F.State → Text → Bytes → Bool → Text → Bool × F.State → Type 0
  Replaced s path d durable q (done, s') =
      (q ≢ path → F.read_file s' q ≡ F.read_file s q)
      × (done ≡ true → F.read_file s' path ≡ contents d)
      × (durable ≡ false → done ≡ false → F.read_file s' path ≡ F.read_file s path)
      × ((F.read_file s' path ≡ contents d) ⊎ (F.read_file s' path ≡ F.read_file s path))

  commit_temp-Replaced :
      (s s1 : F.State) (temp path q : Text) (d : Bytes) (durable : Bool)
      → path ≢ temp
      → q ≢ temp
      → F.read_file s1 temp ≡ contents d
      → F.read_file s1 path ≡ F.read_file s path
      → F.read_file s1 q ≡ F.read_file s q
      → Replaced s path d durable q (commit_temp F s1 temp path durable)
  unfolding Replaced commit_temp
  commit_temp-Replaced s s1 temp path q d durable other other' holds same same' =
      let (renamed, s2) = F.rename s1 temp path in
      ground (
        arith,
        L.read-rename s1 temp path path,
        L.read-rename s1 temp path q,
        L.read-rename_failed s1 temp path path,
        L.read-rename_failed s1 temp path q,
        L.read-remove_ne s2 temp path other,
        L.read-remove_ne s2 temp q other',
      )

  write_temp_refused :
      (s : F.State) (d : Bytes) (sync : Bool)
      → F.create_temp s ≡ none
      → write_temp F s d sync ≡ (none, s)
  unfolding write_temp
  write_temp_refused s d sync refused = rw (refused, write_temp) refl

  write_temp_made :
      (s s0 : F.State) (temp : Text) (d : Bytes) (sync : Bool)
      → F.create_temp s ≡ some (temp, s0)
      → write_temp F s d sync ≡ fill_temp F s0 temp d sync
  unfolding write_temp
  write_temp_made s s0 temp d sync made = rw (made, write_temp) refl

  replace-Replaced :
      (s : F.State) (path q : Text) (d : Bytes) (durable : Bool)
      → is_temp path ≡ false
      → is_temp q ≡ false
      → Replaced s path d durable q (replace F s path d durable)
  unfolding Replaced Prepared replace
  replace-Replaced s path q d durable plain plain' = elim (Option-cases (F.create_temp s)) [
    | inl refused ↦
        let none_made = write_temp_refused s d durable refused in
        let old : (p : Text) → F.read_file (write_temp F s d durable).1 p ≡ F.read_file s p =
          λ p. ap (λ r. F.read_file r.1 p) none_made in
        rw (replace, none_made)
          ((λ _. old q), (λ e. absurd (ground arith)), (λ _ _. old path), inr (old path))
    | inr ((temp, s0), made) ↦
        let named = L.temp_named s s0 temp made in
        let other = not_temp temp path named plain in
        let other' = not_temp temp q named plain' in
        let (kept, full) = fill_temp-Prepared s0 s temp path d durable made other in
        let (kept', _) = fill_temp-Prepared s0 s temp q d durable made other' in
        let same_write = write_temp_made s s0 temp d durable made in
        let s1 = (write_temp F s d durable).1 in
        let reads_same : (p : Text)
            → F.read_file s1 p ≡ F.read_file (fill_temp F s0 temp d durable).1 p =
          λ p. ap (λ r. F.read_file r.1 p) same_write in
        let old : F.read_file s1 path ≡ F.read_file s path =
          reads_same path ∙ kept ∙ L.read-create_temp s s0 temp path made other in
        let old' : F.read_file s1 q ≡ F.read_file s q =
          reads_same q ∙ kept' ∙ L.read-create_temp s s0 temp q made other' in
        elim (Option-cases (write_temp F s d durable).0) [
          | inl unfilled ↦
              rw (replace, unfilled)
                ((λ _. old'), (λ e. absurd (ground arith)), (λ _ _. old), inr old)
          | inr (t, filled) ↦
              let (same, holds) = full t (sym (ap (λ r. r.0) same_write) ∙ filled) in
              rw (replace, filled, same)
                (commit_temp-Replaced s s1 temp path q d durable other other'
                  (reads_same temp ∙ holds) old old')
        ]
  ]

  -- A file is replaced as a whole, by Replace and by WriteFile (where `durable` is true), on a
  -- file system that keeps FilesAreLawful. When the call returns, the file at `path` holds the new
  -- contents or what it held before; it holds the new contents if the call succeeds, and for
  -- Replace what it held before if it fails; and no other file changes. For paths without the
  -- prefix of temporary files.
  pub replace_lem :
      (s : F.State) (path q : Text) (d : Bytes) (durable : Bool)
      → is_temp path ≡ false
      → is_temp q ≡ false
      → let (done, s') = replace F s path d durable in
        (q ≢ path → F.read_file s' q ≡ F.read_file s q)
        × (done ≡ true → F.read_file s' path ≡ contents d)
        × (durable ≡ false → done ≡ false → F.read_file s' path ≡ F.read_file s path)
        × ((F.read_file s' path ≡ contents d) ⊎ (F.read_file s' path ≡ F.read_file s path))
  unfolding Replaced
  replace_lem s path q d durable plain plain' = replace-Replaced s path q d durable plain plain'

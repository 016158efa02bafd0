-- ===== src/Tests/Local.antt =====
-- A test of pkg/metadata/local.go.
use lilio.Prelude.{
  List, Text, [], bytes, if◌then◌else◌, inc64, int_eq, is_ok, nat_eq, ok, pos, refl, text_eq, true,
  ◌++◌, ◌∷◌, ◌≡◌, ◌⊎◌,
}
use lilio.Prelude.Dict.{Dict, erase, has_key, insert, lookup, lookup-insert}
use lilio.Metadata.{ObjectMetadata}
use lilio.Metadata.Memory.{any_revision}
use lilio.Metadata.Local.{FileTree, LocalStore}
use lilio.Metadata.Local.Objects.{compare_and_save, get_object}
use lilio.Metadata.Local.Saving.{Elsewhere, TreeIsLawful, compare_and_save_lem, revision_of}
use lilio.Tests.Platforms.{quick_hash}
use lilio.Tests.Files.{Folder, folders, folders-FilesAreLawful}
use lilio.Tests.Codecs.{Representable, codec, codec-IsLawful, revised}

abbrev Folders : Type 0
Folders = Dict Text Folder

abbrev join : List Text → Text
join [] = []
join (p ∷ []) = p
join (p ∷ q ∷ ps) = let rest = join (q ∷ ps) in p ++ b'/' ∷ rest

abbrev tree : FileTree
tree = record {
  folder = folders;
  State = Folders;
  open_dir = λ t p. lookup p t;
  set_dir = λ t p f. insert p f t;
  mkdir_all = λ t p. (true, if has_key p t then t else insert p [] t);
  remove_all = λ t p. erase p t;
  exists = λ t p. has_key p t;
  join = join;
}

tree-IsLawful : TreeIsLawful tree
tree-IsLawful = record { open-set = λ t p q f f' h. lookup-insert q p f' t }

abbrev files : LocalStore tree codec quick_hash
files = record { base_path = bytes "m"; tree = (bytes "m/objects/a", []) ∷ [] }

abbrev meta : ObjectMetadata
meta = revised (pos 0)

saves_first : (compare_and_save tree codec quick_hash files meta (pos 0)).0 ≡ ok (revised (pos 1))
unfolding compare_and_save lookup text_eq int_eq inc64 insert
saves_first = refl

compare_and_save_lem_example :
    let (r, s') = compare_and_save tree codec quick_hash files meta (pos 0) in
    let current = revision_of (get_object tree codec quick_hash files (bytes "a") (bytes "k")) in
    let stored : ObjectMetadata = record meta { revision = inc64 current } in
    (is_ok r ≡ true
      → ((pos 0 ≡ any_revision) ⊎ (current ≡ pos 0))
        × (r ≡ ok stored)
        × (get_object tree codec quick_hash s' (bytes "a") (bytes "k") ≡ ok stored))
    × ((get_object tree codec quick_hash s' (bytes "a") (bytes "k") ≡ ok stored)
        ⊎ (get_object tree codec quick_hash s' (bytes "a") (bytes "k")
            ≡ get_object tree codec quick_hash files (bytes "a") (bytes "k")))
    × (Elsewhere tree codec quick_hash files meta (bytes "a") (bytes "j")
        → get_object tree codec quick_hash s' (bytes "a") (bytes "j")
          ≡ get_object tree codec quick_hash files (bytes "a") (bytes "j"))
compare_and_save_lem_example =
    compare_and_save_lem tree codec quick_hash tree-IsLawful folders-FilesAreLawful Representable
      (λ b. Unit) codec-IsLawful files meta (pos 0) (bytes "a") (bytes "j") (λ r. refl)

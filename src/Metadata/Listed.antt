-- ===== src/Metadata/Listed.antt =====
-- What a walk over a store of pkg/metadata/interface.go relies on: its buckets and their keys.
use lilio.Prelude.{
  List, Text, [], contains, false, is_ok, length, ok, text_eq, true, ℕ, ◌+◌, ◌∷◌, ◌≡◌,
}
use lilio.Prelude.Distinct.{Distinct}
use lilio.Paging.{ListOptions, list_page}
use lilio.Metadata.{MetadataStore}

-- In this state the store lists these buckets, and pages through these keys of each, which are
-- distinct and not empty; it has an object under each of them.
pub record IsListed (M : MetadataStore) (s : M.State) (buckets : List Text)
    (keys_in : Text → List Text) : Type 0 where
  pub list_buckets-eq : M.list_buckets s ≡ ok buckets
  pub list_objects-eq :
      (b : Text) (o : ListOptions)
      → contains buckets b ≡ true
      → M.list_objects s b o ≡ ok (list_page o (keys_in b))
  pub distinct : (b : Text) → Distinct (keys_in b)
  pub named : (b : Text) → contains buckets b ≡ true → contains (keys_in b) [] ≡ false
  pub found : (b k : Text) → contains (keys_in b) k ≡ true → is_ok (M.get_object s b k) ≡ true

-- How many keys the buckets have together.
abbrev pub objects_in : (Text → List Text) → List Text → ℕ
objects_in keys_in [] = 0
objects_in keys_in (b ∷ bs) = length (keys_in b) + objects_in keys_in bs

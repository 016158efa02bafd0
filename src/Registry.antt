-- ===== src/Registry.antt =====
-- pkg/storage/registry.go: the backends of a coordinator by name.
pub mod Names
use lilio.Prelude.{
  Bool, List, Option, Text, [], false, if◌then◌else◌, int_eq, length, ltb, nat_eq, not, select,
  text_eq, true, ℕ, ◌==◌, ◌∷◌,
}
use lilio.Prelude.Dict.{Dict, erase, has_key, insert, keys, lookup, values}
use lilio.Prelude.Sorting.{sort_slice, sort_strings}
use lilio.Storage.{StorageBackend, BackendType, is_online, type_eq}

module _ (B : StorageBackend) where
  abbrev pub Registry : Type 0
  Registry = Dict Text B.State

  -- Add: false and no change if the name is taken.
  unfoldable pub add : Registry → B.State → Bool × Registry
  add r b =
      let name = (B.info b).name in if has_key name r then (false, r) else (true, insert name b r)

  -- Remove
  unfoldable pub remove : Registry → Text → Bool × Registry
  remove r name = if has_key name r then (true, erase name r) else (false, r)

  -- Get
  unfoldable pub get : Registry → Text → Option B.State
  get r name = lookup name r

  -- The order of List and ListOnline: a lower priority first.
  abbrev pub before : B.State → B.State → Bool
  before a b = ltb (B.info a).priority (B.info b).priority

  -- List
  unfoldable pub list : Registry → List B.State
  unfolding sort_slice
  list r = sort_slice before (values r)

  -- ListByType
  unfoldable pub list_by_type : Registry → BackendType → List B.State
  list_by_type r t = select (λ b. (B.info b).backend_type == t) (values r)

  -- ListOnline
  unfoldable pub list_online : Registry → List B.State
  unfolding sort_slice
  list_online r = sort_slice before (select (λ b. is_online (B.info b)) (values r))

  -- Count
  unfoldable pub count : Registry → ℕ
  count r = length r

  -- GetNames
  unfoldable pub get_names : Registry → List Text
  unfolding sort_strings
  get_names r = sort_strings (keys r)

  -- HealthCheck: the map from names to errors. Of the error that Health answers an entry has what
  -- Health has here, whether it is nil.
  unfoldable pub health_check : Registry → Dict Text Bool
  health_check [] = []
  health_check ((name, b) ∷ r) =
      let no_error = B.health b in
      let rest = health_check r in if not no_error then (name, no_error) ∷ rest else rest

-- ===== src/Config/Storages.antt =====
-- pkg/config/config.go: the methods on the list of storages.
use lilio.Prelude.{
  Bool, List, Option, Text, [], false, if◌then◌else◌, int_eq, nat_eq, none, some, text_eq, true,
  ◌++◌, ◌==◌, ◌∷◌,
}
use lilio.Config.{Config, StorageSetting}

-- The loop of AddStorage and GetStorage: the first storage of that name.
unfoldable pub find_storage : Text → List StorageSetting → Option StorageSetting
find_storage name [] = none
find_storage name (s ∷ storages) = if s.name == name then some s else find_storage name storages

-- GetStorage
unfoldable pub get_storage : Config → Text → Option StorageSetting
unfolding find_storage
get_storage c name = find_storage name c.storages

-- AddStorage
unfoldable pub add_storage : Config → StorageSetting → Bool × Config
unfolding find_storage
add_storage c s = elim (find_storage s.name c.storages) [
  | some _ ↦ (false, c)
  | none ↦ (true, record c { storages = c.storages ++ s ∷ [] })
]

-- The loop of RemoveStorage: the list without the first storage of that name.
unfoldable pub drop_storage : Text → List StorageSetting → Option (List StorageSetting)
drop_storage name [] = none
drop_storage name (s ∷ storages) =
    let rest = drop_storage name storages in
    if s.name == name
    then some storages
    else elim rest [ none ↦ none | some left ↦ some (s ∷ left) ]

-- RemoveStorage
unfoldable pub remove_storage : Config → Text → Bool × Config
unfolding drop_storage
remove_storage c name = elim (drop_storage name c.storages) [
  | none ↦ (false, c)
  | some left ↦ (true, record c { storages = left })
]

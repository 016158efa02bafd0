-- ===== src/Registry/Names.antt =====
-- The names of the backends in pkg/storage/registry.go.
use lilio.Registry
use lilio.Prelude.{
  Bool, Bool-cases, Text, any, arith, if◌then◌else◌, inl, inr, int_eq, length, nat_eq, none, not,
  refl, some, text_eq, true, ◌&&◌, ◌==◌, ◌∙◌, ◌≡◌,
}
use lilio.Prelude.Dict.{
  NodupKeys, erase-NodupKeys, has_key, has_key-eq-lookup, insert-NodupKeys, length-values,
  lookup-erase, lookup-insert, values,
}
use lilio.Prelude.Sorting.{any-sort_slice, length-sort_slice}
use lilio.Prelude.Ordered.{Ordered, sort_slice-Ordered}
use lilio.Storage.{StorageBackend}

module _ (B : StorageBackend) where
  -- Add refuses a name that is taken and changes nothing; otherwise Get finds the new backend
  -- under its own name, and under every other name what it found before. No name is registered
  -- twice afterwards if none was before.
  pub add_lem :
      (r : Registry.Registry B) (b : B.State) (n : Text)
      → NodupKeys r
      → let taken = has_key (B.info b).name r in
        let (added, r') = Registry.add B r b in
        (added ≡ not taken)
        × (Registry.get B r' n
            ≡ (if not taken && n == (B.info b).name then some b else Registry.get B r n))
        × (taken ≡ true → r' ≡ r)
        × NodupKeys r'
  unfolding Registry.add Registry.get
  add_lem r b n u = elim (Bool-cases (has_key (B.info b).name r)) [
    | inl taken ↦ rw (taken) (refl, refl, (λ _. refl), u)
    | inr free ↦ rw (free) (
      refl,
      lookup-insert n (B.info b).name b r,
      (λ e. absurd (ground arith)),
      insert-NodupKeys (B.info b).name b r u,
    )
  ]

  -- Remove succeeds exactly for a registered name. Afterwards Get finds nothing under that name,
  -- and under every other name what it found before; no name is registered twice if none was
  -- before.
  pub remove_lem :
      (r : Registry.Registry B) (name n : Text)
      → NodupKeys r
      → let (removed, r') = Registry.remove B r name in
        (removed ≡ has_key name r)
        × (Registry.get B r' n ≡ (if n == name then none else Registry.get B r n))
        × NodupKeys r'
  unfolding Registry.remove Registry.get
  remove_lem r name n u =
      ground (arith, lookup-erase n name r, erase-NodupKeys name r u, has_key-eq-lookup name r)

  -- List returns the registered backends in the order of their priorities, as many as Count says,
  -- and of any kind of backend it has one exactly when the registry has one.
  pub list_lem :
      (r : Registry.Registry B) (p : B.State → Bool)
      → Ordered (λ b. (B.info b).priority) (Registry.list B r)
        × (length (Registry.list B r) ≡ Registry.count B r)
        × (any p (Registry.list B r) ≡ any p (values r))
  unfolding Registry.list Registry.count
  list_lem r p = (
    sort_slice-Ordered (λ b. (B.info b).priority) (values r),
    length-sort_slice (Registry.before B) (values r) ∙ length-values r,
    any-sort_slice (Registry.before B) p (values r),
  )

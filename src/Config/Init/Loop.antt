-- ===== src/Config/Init/Loop.antt =====
-- The loop of initFromConfig (cmd/lilio/server.go) over the storages of a configuration.
use lilio.Prelude.{
  Bool, List, Option, Option-cases, Text, [], arith, contains, false, if◌then◌else◌, inl, inr,
  int_eq, is_some, nat_eq, none, refl, some, text_eq, true, ◌==◌, ◌∙◌, ◌∷◌, ◌≡◌, ap,
}
use lilio.Prelude.Dict.{lookup, lookup-insert}
use lilio.Prelude.Distinct.{Distinct}
use lilio.Coordinator.{FailedBackend, Lilio, Platform}
use lilio.Coordinator.Backends.{track_failed_backend}
use lilio.Coordinator.Backends.Agreeing.{RingAgrees, add_backend_new, add_node-nodes}
use lilio.Config.{StorageSetting, TextTools}
use lilio.Config.Storages.{find_storage}
use lilio.Config.Accepted.{names_of}
use lilio.Config.Init.{Host, opened, start_storage, start_storages}

-- What is to be known of a storage: the backend that was opened, or that it failed.
abbrev pub outcome {ℓ} : {A : Type ℓ} → Option A → Option A × Bool
outcome none = (none, true)
outcome (some b) = (some b, false)

find_storage_missing :
    (name : Text) (storages : List StorageSetting)
    → contains (names_of storages) name ≡ false
    → find_storage name storages ≡ none
unfolding find_storage
find_storage_missing name [] h = refl
find_storage_missing name (s ∷ storages) h = ground (arith, find_storage_missing name storages)

module _ {P : Platform} where
  -- What a coordinator knows of a name: the backend that is registered, and whether one failed.
  abbrev pub known : Lilio P → Text → Option P.backend.State × Bool
  known l name = (lookup name l.registry, is_some (lookup name l.failed_backends))

module _ {P : Platform} (T : TextTools) (H : Host P)
    (named : (s : StorageSetting) (b : P.backend.State)
      → opened T H s ≡ some b
      → (P.backend.info b).name ≡ s.name) where
  start_storage_lem :
      (l : Lilio P) (s : StorageSetting)
      → RingAgrees l
      → known l s.name ≡ (none, false)
      → RingAgrees (start_storage T H l s)
        × ((name : Text)
            → known (start_storage T H l s) name
              ≡ (if name == s.name then outcome (opened T H s) else known l name))
  unfolding start_storage track_failed_backend
  start_storage_lem l s agrees new = elim (Option-cases (opened T H s)) [
    | inl failed ↦
        let failure : FailedBackend = record {
          name = s.name;
          kind = s.kind;
          priority = s.priority;
          message = H.error_text s;
        } in
        rw (start_storage, failed)
          (agrees, λ name. ground (arith, lookup-insert name s.name failure l.failed_backends))
    | inr (b, made) ↦
        let same = named s b made in
        let node = (P.backend.info b).name in
        let free : lookup node l.registry ≡ none = rw same (ap (λ k. k.0) new) in
        rw (start_storage, made, add_backend_new l b free)
          (
            (λ name. ground (
              arith,
              agrees name,
              add_node-nodes P.sha256 l.hash_ring node name,
              lookup-insert name node b l.registry,
            )),
            (λ name. ground (arith, lookup-insert name node b l.registry)),
          )
  ]

  abbrev pub Fresh : Lilio P → List StorageSetting → Type 0
  Fresh l storages =
      (name : Text) → contains (names_of storages) name ≡ true → known l name ≡ (none, false)

  pub start_storages_lem :
      (l : Lilio P) (storages : List StorageSetting)
      → RingAgrees l
      → Distinct (names_of storages)
      → Fresh l storages
      → RingAgrees (start_storages T H l storages)
        × ((name : Text)
            → known (start_storages T H l storages) name ≡ (elim (find_storage name storages) [
              | none ↦ known l name
              | some s ↦ outcome (opened T H s)
            ]))
  unfolding start_storages find_storage
  start_storages_lem l [] agrees distinct fresh = (agrees, λ name. refl)
  start_storages_lem l (s ∷ storages) agrees (once, distinct) fresh =
      let (agrees', step) = start_storage_lem l s agrees (fresh s.name (ground arith)) in
      let fresh' : Fresh (start_storage T H l s) storages =
        λ name h. step name ∙ ground (arith, fresh name) in
      let (agrees'', rest) =
        start_storages_lem (start_storage T H l s) storages agrees' distinct fresh' in
      (
        agrees'',
        λ name. rest name ∙ ground (arith, step name, find_storage_missing s.name storages once),
      )

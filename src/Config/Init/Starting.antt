-- ===== src/Config/Init/Starting.antt =====
-- What runs after initFromConfig of cmd/lilio/server.go.
use lilio.Prelude.{
  Bool-cases, List, Option, Option-cases, Text, [], arith, false, inl, inr, int_eq, is_some, nat_eq,
  none, refl, some, sym, text_eq, true, ℕ, ℤ, ◌==◌, ◌∙◌, ◌∷◌, ◌≡◌, ◌≢◌, ◌+◌, length,
}
use lilio.Prelude.Dict.{Dict, lookup}
use lilio.Registry
use lilio.Coordinator.{Lilio, Platform, QuorumConfig, choose_quorum, new_lilio}
use lilio.Config.{
  Config, MetricsSetting, ScrubSetting, StorageSetting, TextTools, metrics_valid, parse_chunk_size,
  scrub_valid, validate,
}
use lilio.Config.Start.{StoreChoice, metadata_config, quorum_config, to_nat}
use lilio.Config.Storages.{find_storage, get_storage}
use lilio.Config.Accepted.{validate_lem}
use lilio.Config.Init.{
  Host, check_started, init_from_config, init_with, new_collector, opened, start_storages,
}
use lilio.Coordinator.Backends.Agreeing.{RingAgrees}
use lilio.Config.Init.Loop.{known, outcome, start_storages_lem}

collector_accepted : (m : Option MetricsSetting) → metrics_valid m ≡ true → new_collector m ≡ true
unfolding metrics_valid new_collector
collector_accepted none valid = refl
collector_accepted (some m) valid = ground arith

lookup_empty : {V : Type 0} (k : Text) (d : Dict Text V) → length d ≡ 0 → lookup k d ≡ none
unfolding lookup
lookup_empty k [] h = refl
lookup_empty k (_ ∷ d) h = absurd (ground arith)

first_storage :
    (storages : List StorageSetting)
    → storages ≢ []
    → (s : StorageSetting) × (find_storage s.name storages ≡ some s)
unfolding find_storage
first_storage [] h = absurd (h refl)
first_storage (s ∷ storages) h = (s, ground arith)

outcome_known : {A : Type 0} (o : Option A) → outcome o ≢ (none, false)
outcome_known none = λ e. ground arith
outcome_known (some b) = λ e. ground arith

module _ {P : Platform} where
  new_lilio-known :
      (m : P.store.State) (q : Option QuorumConfig) (size rf : ℕ)
      → is_some (choose_quorum q rf) ≡ true
      → (l : Lilio P) × (new_lilio m q size rf ≡ some l)
        × RingAgrees l
        × ((name : Text) → known l name ≡ (none, false))
  unfolding new_lilio lookup
  new_lilio-known m q size rf h = elim (Option-cases (choose_quorum q rf)) [
    | inl refused ↦ absurd (ground arith)
    | inr (c, chosen) ↦ rw (chosen, new_lilio) (_, refl, (λ name. refl), λ name. refl)
  ]

  check_started-some :
      (T : TextTools) (scrub : Option ScrubSetting) (l : Lilio P) (name : Text)
      → scrub_valid T scrub ≡ true
      → known l name ≢ (none, false)
      → check_started T scrub l ≡ some l
  unfolding check_started scrub_valid
  check_started-some T scrub l name valid there =
      let total = Registry.count P.backend l.registry + length l.failed_backends in
      let some_backend : (total == 0) ≡ false = elim (Bool-cases (total == 0)) [
        | inr h ↦ h
        | inl zero_in_all ↦
            let no_backend : length l.registry ≡ 0 = ground arith in
            let no_failure : length l.failed_backends ≡ 0 = ground arith in
            absurd (
              there (
                rw
                  (
                    lookup_empty name l.registry no_backend,
                    lookup_empty name l.failed_backends no_failure,
                  )
                  refl))
      ] in
      rw (check_started, some_backend) (ground arith)

  module _ (T : TextTools) (H : Host P)
      (named : (s : StorageSetting) (b : P.backend.State)
        → opened T H s ≡ some b
        → (P.backend.info b).name ≡ s.name) where
    -- The server starts from every configuration that Validate accepts, if its chunk size is one,
    -- its metadata store opens and it names a storage, whatever happens to the storages. Under
    -- the name of each storage there is then the backend that was opened for it, or a failed
    -- backend, and never both; under other names there is neither; and the nodes of the hash ring
    -- are the registered backends. For constructors that give a backend the storage's name.
    pub init_from_config_lem :
        (c : Config) (size : ℤ) (choice : StoreChoice) (m : P.store.State)
        → validate T c ≡ true
        → parse_chunk_size T c.chunk_size ≡ some size
        → metadata_config T c ≡ some choice
        → H.open_store choice ≡ some m
        → c.storages ≢ []
        → (l : Lilio P) × (init_from_config T H c ≡ some l)
          × RingAgrees l
          × ((name : Text)
              → known l name ≡ (elim (get_storage c name) [
                | none ↦ (none, false)
                | some s ↦ outcome (opened T H s)
              ]))
    unfolding init_from_config get_storage init_with validate
    init_from_config_lem c size choice m valid sized chosen found there =
        let (quorum, _, distinct, _) = validate_lem T c valid in
        let (l0, made, agrees, empty) =
          new_lilio-known m (quorum_config c) (to_nat size) (to_nat c.replication_factor) quorum in
        let (agrees', all) =
          start_storages_lem T H named l0 c.storages agrees distinct λ name h. empty name in
        let l = start_storages T H l0 c.storages in
        let known_all : (name : Text)
            → known l name ≡ (elim (find_storage name c.storages) [
              | none ↦ (none, false)
              | some s ↦ outcome (opened T H s)
            ]) =
          λ name. ground (arith, all name, empty name) in
        let (s, first) = first_storage c.storages there in
        let collected = collector_accepted c.metrics (ground arith) in
        let checked : check_started T c.scrub l ≡ some l =
          check_started-some T c.scrub l s.name (ground arith)
            (λ e. outcome_known (opened T H s) (sym (known_all s.name ∙ rw first refl) ∙ e)) in
        (
          l,
          rw (init_from_config, valid, sized, chosen, found, init_with, made, collected, checked)
              refl,
          agrees',
          known_all,
        )

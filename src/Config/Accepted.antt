-- ===== src/Config/Accepted.antt =====
-- What Validate of pkg/config/config.go rules out.
use lilio.Prelude.{
  List, Option-cases, Text, [], arith, contains, false, inl, inr, int_eq, is_some, nat_eq, negsuc,
  pos, refl, some, text_eq, true, ℤ, ◌==◌, ◌∷◌, ◌≡◌,
}
use lilio.Prelude.Distinct.{Distinct}
use lilio.Coordinator.{choose_quorum}
use lilio.Config.{
  Config, StorageSetting, TextTools, dial_timeout_duration, effective_n, less_int, metadata_valid,
  quorum_valid, storages_valid, validate,
}
use lilio.Config.Start.{etcd_choice, metadata_config, quorum_config, to_nat}

setting_accepted :
    (factor n w : ℤ)
    → less_int factor (pos 1) ≡ false
    → quorum_valid factor (some (record { n = n; w = w })) ≡ true
    → is_some (
        choose_quorum
          (some
            (record { n = to_nat (effective_n (record { n = n; w = w }) factor); w = to_nat w }))
          (to_nat factor))
      ≡ true
unfolding quorum_valid choose_quorum
setting_accepted (negsuc f) n w positive valid = ground arith
setting_accepted (pos f) n (negsuc w) positive valid = ground arith
setting_accepted (pos f) (pos n) (pos w) positive valid = ground arith
setting_accepted (pos f) (negsuc n) (pos w) positive valid = ground arith

quorum_accepted :
    (c : Config)
    → less_int c.replication_factor (pos 1) ≡ false
    → quorum_valid c.replication_factor c.quorum ≡ true
    → is_some (choose_quorum (quorum_config c) (to_nat c.replication_factor)) ≡ true
unfolding quorum_config
quorum_accepted c positive valid = elim (Option-cases c.quorum) [
  | inl missing ↦ rw (missing, quorum_config) (unfold choose_quorum in refl)
  | inr (q, given) ↦
      rw (given, quorum_config)
        (setting_accepted c.replication_factor q.n q.w positive (rw given at valid))
]

metadata_accepted :
    (T : TextTools) (c : Config)
    → metadata_valid T c.metadata ≡ true
    → is_some (metadata_config T c) ≡ true
unfolding metadata_valid metadata_config dial_timeout_duration etcd_choice
metadata_accepted T c valid = ground arith

-- The names of the storages.
abbrev pub names_of : List StorageSetting → List Text
names_of [] = []
names_of (s ∷ storages) = s.name ∷ names_of storages

no_empty :
    (x : Text) (xs : List Text)
    → (x == []) ≡ false
    → contains xs [] ≡ false
    → contains (x ∷ xs) [] ≡ false
no_empty [] xs h rest = ground arith
no_empty (c ∷ x) xs h rest = ground arith

storages_named :
    (T : TextTools) (seen : List Text) (storages : List StorageSetting)
    → storages_valid T seen storages ≡ true
    → Distinct (names_of storages)
      × (contains (names_of storages) [] ≡ false)
      × ((x : Text) → contains seen x ≡ true → contains (names_of storages) x ≡ false)
unfolding storages_valid
storages_named T seen [] valid = (tt, refl, λ x h. refl)
storages_named T seen (s ∷ storages) valid =
    let (distinct, named, fresh) = storages_named T (s.name ∷ seen) storages (ground arith) in
    (
      (fresh s.name (ground arith), distinct),
      no_empty s.name (names_of storages) (ground arith) named,
      λ x h. ground (arith, fresh x),
    )

-- What Validate checks agrees with what the other packages take: where it accepts a configuration,
-- NewLilioInstance accepts the quorum, metadataConfig makes a store's configuration of the metadata
-- section, and the names of the storages are distinct and not empty.
pub validate_lem :
    (T : TextTools) (c : Config)
    → validate T c ≡ true
    → (is_some (choose_quorum (quorum_config c) (to_nat c.replication_factor)) ≡ true)
      × (is_some (metadata_config T c) ≡ true)
      × Distinct (names_of c.storages)
      × (contains (names_of c.storages) [] ≡ false)
unfolding validate
validate_lem T c valid =
    let (distinct, named, _) = storages_named T [] c.storages (ground arith) in
    (
      quorum_accepted c (ground arith) (ground arith),
      metadata_accepted T c (ground arith),
      distinct,
      named,
    )

-- ===== src/Coordinator/Backends/Health.antt =====
-- HealthCheck of pkg/storage/registry.go and pkg/storage/lilio.go.
use lilio.Registry
use lilio.Prelude.{
  Bool, Text, [], any, any-append, arith, false, int_eq, nat_eq, none, not, refl, some, text_eq,
  ◌||◌, ◌∷◌, ◌≡◌,
}
use lilio.Prelude.Dict.{Dict, NodupKeys, has_key, lookup}
use lilio.Coordinator.{Lilio, Metric, Platform, backend_health, record_metric}
use lilio.Storage.{StorageBackend}
use lilio.Coordinator.Backends.{health_check, record_health}

-- A record of a healthy backend.
abbrev pub tells_healthy : Metric → Bool
tells_healthy (backend_health name healthy) = healthy
tells_healthy _ = false

has_key_fresh :
    (B : StorageBackend) (r : Registry.Registry B) (name : Text)
    → lookup name r ≡ none
    → has_key name (Registry.health_check B r) ≡ false
unfolding Registry.health_check lookup has_key
has_key_fresh B [] name h = refl
has_key_fresh B ((n, b) ∷ r) name h = ground (arith, has_key_fresh B r name)

has_key-health_check :
    (B : StorageBackend) (r : Registry.Registry B) (name : Text)
    → NodupKeys r
    → has_key name (Registry.health_check B r)
      ≡ (elim (lookup name r) [ none ↦ false | some b ↦ not (B.health b) ])
unfolding Registry.health_check lookup has_key
has_key-health_check B [] name u = refl
has_key-health_check B ((n, b) ∷ r) name (fresh, u) =
    ground (arith, has_key-health_check B r name u, has_key_fresh B r name)

-- What the registry reports are errors.
no_healthy_entry :
    (B : StorageBackend) (r : Registry.Registry B)
    → any (λ e. e.1) (Registry.health_check B r) ≡ false
unfolding Registry.health_check
no_healthy_entry B [] = refl
no_healthy_entry B ((n, b) ∷ r) = ground (arith, no_healthy_entry B r)

module _ {P : Platform} where
  record_health_flags :
      (entries : Dict Text Bool) (l : Lilio P)
      → any tells_healthy (record_health entries l).metrics
        ≡ (any tells_healthy l.metrics || any (λ e. e.1) entries)
  unfolding record_health
  record_health_flags [] l = ground arith
  record_health_flags ((name, healthy) ∷ entries) l = ground (
    arith,
    record_health_flags entries (record_metric (backend_health name healthy) l),
    any-append tells_healthy l.metrics (backend_health name healthy ∷ []),
  )

  -- HealthCheck reports a name exactly when the backend of that name fails its check, where no
  -- two backends have the same name. What it records never tells of a healthy backend: there is
  -- such a record after it only if there was one before.
  pub health_check_lem :
      (l : Lilio P) (name : Text)
      → NodupKeys l.registry
      → (has_key name (health_check l).0
          ≡ (elim (lookup name l.registry) [ none ↦ false | some b ↦ not (P.backend.health b) ]))
        × (any tells_healthy (health_check l).1.metrics ≡ any tells_healthy l.metrics)
  unfolding health_check
  health_check_lem l name u =
      let status = Registry.health_check P.backend l.registry in
      (
        has_key-health_check P.backend l.registry name u,
        ground (arith, record_health_flags status l, no_healthy_entry P.backend l.registry),
      )

-- ===== src/Coordinator/Quorum.antt =====
-- The quorum of a coordinator that NewLilioInstance of pkg/storage/lilio.go makes.
use lilio.Prelude.{
  Option, Option-cases, arith, inl, inr, none, some, ℕ, ◌*◌, ◌/◌, ◌+◌, ◌<◌, ◌≡◌, ◌≤◌,
}
use lilio.Coordinator.{Lilio, Platform, QuorumConfig, choose_quorum, default_quorum, new_lilio}

choose_quorum_lem :
    (q : Option QuorumConfig) (rf : ℕ) (c : QuorumConfig)
    → 0 < rf
    → choose_quorum q rf ≡ some c
    → (0 < c.w) × (c.w ≤ c.n) × (q ≡ none → c.n < c.w * 2)
unfolding choose_quorum default_quorum
choose_quorum_lem none rf c some_replicas h =
    let w_eq : c.w ≡ rf / 2 + 1 = ground arith in
    let n_eq : c.n ≡ rf = ground arith in (omega arith, omega arith, λ _. omega arith)
choose_quorum_lem (some q) rf c some_replicas h = ground arith

-- A coordinator that NewLilioInstance makes with a replication factor that is not 0 demands at
-- least one write and never more than its N; with the default quorum it demands a majority of N.
pub new_lilio-quorum :
    {P : Platform} (m : P.store.State) (q : Option QuorumConfig) (chunk_size rf : ℕ) (l : Lilio P)
    → 0 < rf
    → new_lilio m q chunk_size rf ≡ some l
    → (0 < l.quorum.w) × (l.quorum.w ≤ l.quorum.n) × (q ≡ none → l.quorum.n < l.quorum.w * 2)
unfolding new_lilio
new_lilio-quorum m q chunk_size rf l some_replicas h = elim (Option-cases (choose_quorum q rf)) [
  | inl refused ↦ absurd (ground arith)
  | inr (c, chosen) ↦
      let same : l.quorum ≡ c = ground arith in
      rw same (choose_quorum_lem q rf c some_replicas chosen)
]

-- ===== src/Coordinator/Scrub/Periodic.antt =====
-- RunPeriodicScrub of pkg/storage/scrub.go.
use lilio.Prelude.{Bool, List, Option, Text, [], true, ℕ, ◌∷◌, ◌≡◌}
use lilio.Storage.{IsLawful}
use lilio.Coordinator.{Lilio, Platform}
use lilio.Coordinator.Replicas.Reading.{reads}
use lilio.Coordinator.Scrub.{ScrubOptions, ScrubReport}
use lilio.Coordinator.Scrub.Pass.{Outcome, scrub}
use lilio.Coordinator.Scrub.Keeps.{Named, is_held, scrub-KeepsData}

-- What `select` receives: the ticker's tick, with the answers that the context gives during the
-- pass and the fuel of its pages, or the end of the context.
pub data Wakeup : Type 0 where
  ticked : ℕ → (ℕ → Bool) → Wakeup
  cancelled : Wakeup

module _ {P : Platform} where
  -- The loop of RunPeriodicScrub, with what each pass returns; where no more is received it waits.
  unfoldable pub run_periodic_scrub :
      Lilio P → ScrubOptions → List Wakeup → List (Option (Outcome × ScrubReport)) × Lilio P
  unfolding scrub
  run_periodic_scrub l o [] = ([], l)
  run_periodic_scrub l o (cancelled ∷ ws) = ([], l)
  run_periodic_scrub l o (ticked fuel alive ∷ ws) =
      let (r, l') = scrub fuel alive l o in
      let (rs, l2) = run_periodic_scrub l' o ws in (r ∷ rs, l2)

module _ {P : Platform} {ids : Text → Bool} (L : IsLawful P.backend ids) where
  -- Periodic scrubbing never removes data, with any options, however often it runs and however
  -- its passes end, on backends that keep IsLawful: each replica that answered with some bytes
  -- for a chunk ID still answers with some. For a chunk ID that passes the test of IsLawful, as
  -- all chunk IDs that the metadata records do.
  pub run_periodic_scrub_keeps_data :
      (l : Lilio P) (o : ScrubOptions) (ws : List Wakeup) (n c : Text)
      → Named ids l
      → ids c ≡ true
      → is_held (reads l n c) ≡ true
      → is_held (reads (run_periodic_scrub l o ws).1 n c) ≡ true
  unfolding run_periodic_scrub
  run_periodic_scrub_keeps_data l o [] n c named asked held = held
  run_periodic_scrub_keeps_data l o (cancelled ∷ ws) n c named asked held = held
  run_periodic_scrub_keeps_data l o (ticked fuel alive ∷ ws) n c named asked held =
      let (named', kept) = scrub-KeepsData L fuel alive l o named in
      run_periodic_scrub_keeps_data (scrub fuel alive l o).1 o ws n c named' asked
        (kept n c asked held)

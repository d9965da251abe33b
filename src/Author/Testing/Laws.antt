-- ===== src/Author/Testing/Laws.antt =====
-- What a passed test of a challenge has seen, and what it leaves of the cluster.
use kubedrill.Shared.{ℕ, String, Bool, true, false, none, some, ◌≡◌}
use kubedrill.Shared.Results.{ok, err}
use kubedrill.Json.{Float64}
use kubedrill.Store.Files.{World, Os}
use kubedrill.Store.{Codec}
use kubedrill.Verify.Score.{Scorecard}
use kubedrill.Author.Harness.{negative_phase}
use kubedrill.Engine.Verify.{Ports, verify}
use kubedrill.Engine.Reveal.{evaluate_session}
use kubedrill.Engine.Start.{Wiring, StartResult, start}
use kubedrill.Author.Testing.{Bench, Tested}

module _ (fl : Float64) {W : Type 0} (wiring : Wiring fl.Float W) (ports : Ports fl.Float W)
    (rounds : ℕ) (os : Os) (codec : Codec) (bench : Bench W) (dir id : String) where
  -- A verify in the world `x` gives a scorecard with all objectives passed.
  abbrev pub VerifiedAll : W × World → Type 0
  VerifiedAll x =
      (card : Scorecard) × (late : Bool) × ((verify fl ports rounds os codec id x).0
        ≡ some (ok (card, late)))
      × (card.all_passed ≡ true)

  -- Two verifies, the second in the world that the first one left.
  abbrev pub VerifiedTwice : Type 0
  VerifiedTwice =
      (x : W × World) × VerifiedAll x × VerifiedAll (verify fl ports rounds os codec id x).1

  abbrev pub DirectlyFails : StartResult → Type 0
  DirectlyFails res =
      (neg : Scorecard) × (x : W × World) × ((evaluate_session fl ports os codec id x).0 ≡ ok neg)
      × ((negative_phase bench.show res.challenge neg).passed ≡ true)

  abbrev pub Solved : StartResult → Type 0
  Solved res =
      (w : W) × ((bench.run_solution dir res.challenge.solution.script res.kubeconfig_path w).0
        ≡ none)

  abbrev pub Begins : StartResult → Type 0
  Begins res = (x : W × World) × ((start fl wiring os codec dir id x).0 ≡ some (ok res))

  -- What is behind a report that says passed.
  abbrev pub Passing : Tested → Type 0
  Passing none = Unit
  Passing (some (err e)) = Unit
  Passing (some (ok report)) =
      report.passed ≡ true
      → (res : StartResult) × Begins res × DirectlyFails res × Solved res × VerifiedTwice

  -- The run was torn down: the last calls to the cluster destroy it and remove the workspace.
  abbrev pub TornDown : Bool → W → Type 0
  TornDown true w = Unit
  TornDown false w = (u : W) × (w ≡ (bench.remove_workspace (wiring.provider.destroy id u).1).1)

-- ===== src/Author/Testing.antt =====
-- `Test` of internal/author/harness.go: the phases on a throwaway cluster and a private session store,
-- whose files are a part of the state. What is printed is left out.
pub mod Laws
use kubedrill.Shared.{
  String, Bool, true, false, Option, none, some, List, [], if◌then◌else◌, ◌⧺◌, ◌&&◌,
}
use kubedrill.Shared.Int.{Int64}
use kubedrill.Shared.State.{M, pure, ◌>>=◌}
use kubedrill.Shared.Results.{Result, ok, err}
use kubedrill.Json.{Float64}
use kubedrill.Challenge.{Challenge}
use kubedrill.Store.Files.{World, Os}
use kubedrill.Store.{Codec}
use kubedrill.Verify.Score.{Scorecard}
use kubedrill.Author.Harness.{PhaseReport, negative_phase, phase_from_card}
use kubedrill.Engine.Verify.{Ports, Verified, on_cluster, verify}
use kubedrill.Engine.Reveal.{evaluate_session}
use kubedrill.Engine.Start.{Wiring, StartResult, Begun, start}
use Prim.Native.Nat.{ℕ}

pub record TestReport : Type 0 where
  pub dir : String
  pub challenge : String
  pub passed : Bool
  pub negative : PhaseReport
  pub positive : PhaseReport
  pub idempotency : PhaseReport

-- The zero value of a phase.
abbrev pub no_phase : PhaseReport
no_phase = record {
  name = "";
  passed = false;
  skipped = false;
  detail = "";
  violations = [];
  objectives = [];
}

abbrev pub skipped_phase : String → String → PhaseReport
skipped_phase name detail = record no_phase { name = name; skipped = true; detail = detail }

abbrev pub failed_phase : String → String → PhaseReport
failed_phase name detail = record no_phase { name = name; detail = detail }

-- What `Test` calls beside the engine: a workspace is made and removed, the solution is run (the error
-- and the output, if it fails), `%d` and `strings.TrimSpace`.
pub record Bench (W : Type 0) : Type 0 where
  pub make_workspace : M W (Option String)
  pub remove_workspace : M W (Option String)
  pub run_solution : String → String → String → M W (Option (String × String))
  pub show : Int64 → String
  pub trim_space : String → String

-- What `Test` returns, none where a wait is out of rounds.
abbrev pub Tested : Type 0
Tested = Option (Result TestReport)

module _ (fl : Float64) {W : Type 0} (wiring : Wiring fl.Float W) (ports : Ports fl.Float W)
    (rounds : ℕ) (os : Os) (codec : Codec) (bench : Bench W) (dir id : String) where
  abbrev pub report_of :
      Challenge → Bool → PhaseReport → PhaseReport → PhaseReport → M (W × World) Tested
  report_of ch passed negative positive idempotency = pure (
      some (
        ok (record {
          dir = dir;
          challenge = ch.metadata.name;
          passed = passed;
          negative = negative;
          positive = positive;
          idempotency = idempotency;
        })))

  abbrev pub idempotency_report :
      Challenge → PhaseReport → PhaseReport → Verified → M (W × World) Tested
  idempotency_report ch negative positive none = pure none
  idempotency_report ch negative positive (some (err e)) =
      pure (some (err ("idempotency phase verify: " ⧺ e)))
  idempotency_report ch negative positive (some (ok (card, late))) =
      let again = phase_from_card bench.show "idempotency" card in
      report_of ch (negative.passed && (positive.passed && again.passed)) negative positive again

  abbrev pub after_positive : Challenge → PhaseReport → PhaseReport → M (W × World) Tested
  after_positive ch negative positive = do
    r ← verify fl ports rounds os codec id
    idempotency_report ch negative positive r

  abbrev pub positive_report : Challenge → PhaseReport → Verified → M (W × World) Tested
  positive_report ch negative none = pure none
  positive_report ch negative (some (err e)) = pure (some (err ("positive phase verify: " ⧺ e)))
  positive_report ch negative (some (ok (card, late))) =
      let positive = phase_from_card bench.show "positive" card in
      if positive.passed
      then after_positive ch negative positive
      else report_of ch false negative positive
          (skipped_phase "idempotency" "skipped: positive phase failed")

  abbrev pub after_solution :
      Challenge → PhaseReport → Option (String × String) → M (W × World) Tested
  after_solution ch negative (some (e, out)) =
      report_of ch false negative
        (failed_phase "positive" ("solve.sh failed: " ⧺ e ⧺ "\n" ⧺ bench.trim_space out))
        (skipped_phase "idempotency" "skipped: positive phase failed")
  after_solution ch negative none = do
    r ← verify fl ports rounds os codec id
    positive_report ch negative r

  abbrev pub after_negative : StartResult → PhaseReport → M (W × World) Tested
  after_negative res negative =
      if negative.passed
      then (do
        r ← on_cluster (bench.run_solution dir res.challenge.solution.script res.kubeconfig_path)
        after_solution res.challenge negative r)
      else report_of res.challenge false negative
          (skipped_phase "positive" "skipped: negative phase failed")
          (skipped_phase "idempotency" "skipped: negative phase failed")

  abbrev pub after_direct : StartResult → Result Scorecard → M (W × World) Tested
  after_direct res (err e) = pure (some (err ("negative phase evaluation: " ⧺ e)))
  after_direct res (ok neg) = after_negative res (negative_phase bench.show res.challenge neg)

  abbrev pub after_start : Begun → M (W × World) Tested
  after_start none = pure none
  after_start (some (err e)) = pure (some (err ("provision fresh environment: " ⧺ e)))
  after_start (some (ok res)) = do neg ← evaluate_session fl ports os codec id; after_direct res neg

  -- The phases of `Test`
  unfoldable pub run_phases : M (W × World) Tested
  unfolding start evaluate_session verify negative_phase phase_from_card
  run_phases = do r ← start fl wiring os codec dir id; after_start r

  -- The deferred function of `Test`
  abbrev pub tear_down : Bool → Tested → M (W × World) Tested
  tear_down true r = pure r
  tear_down false r = do
    _ ← on_cluster (wiring.provider.destroy id)
    _ ← on_cluster bench.remove_workspace
    pure r

  abbrev pub in_workspace : Bool → Option String → M (W × World) Tested
  in_workspace keep_env (some e) = pure (some (err ("create temp workspace: " ⧺ e)))
  in_workspace keep_env none = do r ← run_phases; tear_down keep_env r

  -- `Test`, with its option `KeepEnv`
  unfoldable pub test : Bool → M (W × World) Tested
  unfolding run_phases
  test keep_env = do e ← on_cluster bench.make_workspace; in_workspace keep_env e

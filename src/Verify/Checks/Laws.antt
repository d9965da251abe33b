-- ===== src/Verify/Checks/Laws.antt =====
-- How a check's outcome comes from its leaves, and an objective's from its checks.
use kubedrill.Shared.{◌≡◌, refl, String, Option, none, List, [], ◌∷◌, any, if◌then◌else◌}
use kubedrill.Json.{Float64}
use kubedrill.Challenge.{Check, check, Checks, nil, cons, Poll, Target, Targets}
use kubedrill.Cluster.{Api}
use kubedrill.Verify.Outcome.{Outcome, pass, fail, errored, CheckResult, is_pass, result}
use kubedrill.Verify.Probe.{Texts}
use kubedrill.Verify.Checks.{eval_check, eval_any_of}

module _ (fl : Float64) {W : Type 0} (api : Api fl.Float W) (texts : Texts) (dir : String) where
  -- The outcomes of all leaves, each evaluated in the world that the one before it left.
  abbrev pub outcomes : Checks → W → List Outcome
  outcomes nil w = []
  outcomes (cons leaf leaves) w =
      let (r, w') = eval_check fl api texts dir leaf w in r.outcome ∷ outcomes leaves w'

  -- What is left of `evalAnyOf` when a leaf has come to an outcome.
  abbrev after : Checks → String → CheckResult × W → Outcome → CheckResult × W
  after leaves last ran o = elim o [
    | pass ↦ (result pass "", ran.1)
    | fail ↦ eval_any_of fl api texts dir leaves ran.0.reason ran.1
    | errored ↦ eval_any_of fl api texts dir leaves last ran.1
  ]

  eval_any_of_outcome :
      (leaves : Checks) (last : String) (w : W)
      → (eval_any_of fl api texts dir leaves last w).0.outcome
        ≡ (if any is_pass (outcomes leaves w) then pass else fail)
  unfolding eval_any_of
  eval_any_of_outcome nil last w = refl
  eval_any_of_outcome (cons leaf leaves) last w =
      let ran = eval_check fl api texts dir leaf w in
      elim ran.0.outcome
        as (λ o.
          (after leaves last ran o).0.outcome
          ≡ (if any is_pass (o ∷ outcomes leaves ran.1) then pass else fail)) [
            | pass ↦ refl
            | fail ↦ eval_any_of_outcome leaves ran.0.reason ran.1
            | errored ↦ eval_any_of_outcome leaves last ran.1
          ]

  -- A check that has nothing but an `anyOf` list with a leaf in it passes if some leaf passes, all
  -- evaluated in order, and fails in all other cases: it never reports an error, not even if every
  -- leaf does.
  pub any_of_outcome :
      (leaf : Check) (leaves : Checks) (poll : Option Poll) (t : Option Target)
      (ts : Option Targets) (w : W)
      → (eval_check fl api texts dir (check none "" none (cons leaf leaves) poll t ts) w).0.outcome
        ≡ (if any is_pass (outcomes (cons leaf leaves) w) then pass else fail)
  unfolding eval_check
  any_of_outcome leaf leaves poll t ts w = eval_any_of_outcome (cons leaf leaves) "" w

-- ===== src/Verify/Score.antt =====
-- internal/verify/score.go: the scorecard of a challenge.
pub mod Laws
pub mod Passed
pub mod Conjunction
pub mod Polling
pub mod Net
use kubedrill.Shared.{
  ℕ, zero, suc, ◌+◌, ◌/◌, ◌*◌, String, Bool, true, false, not, ◌&&◌, ◌||◌, Option, none, some, List,
  [], ◌∷◌, ◌++◌, ◌==◌, ltb, nat_eq, is_some, is_empty, if◌then◌else◌,
}
use kubedrill.Shared.Int.{Int64, add, sub, is_neg, int_lt}
use kubedrill.Shared.State.{M, pure, ◌>>=◌}
use kubedrill.Json.{Float64}
use kubedrill.Challenge.{Challenge, Objective, Check, Poll, probe_of, poll_of}
use kubedrill.Cluster.{Api}
use kubedrill.Rules.Grade.{Violation, contains}
use kubedrill.Verify.Outcome.{CheckResult, Outcome, pass, fail, errored, is_fail}
use kubedrill.Verify.Probe.{Texts, second}
use kubedrill.Verify.Checks.{eval_check}

pub record ObjectiveResult : Type 0 where
  pub id : String
  pub title : String
  pub points : Int64
  pub passed : Bool
  pub errored : Bool
  pub reason : String

pub record Scorecard : Type 0 where
  pub objectives : List ObjectiveResult
  pub score : Int64
  pub max_score : Int64
  pub hint_penalty : Int64
  pub all_passed : Bool
  pub rule_violations : List Violation
  pub rule_penalty : Int64
  pub failed : Bool
  pub advisory : Bool

abbrev pub empty_card : Scorecard
empty_card = record {
  objectives = [];
  score = 0;
  max_score = 0;
  hint_penalty = 0;
  all_passed = false;
  rule_violations = [];
  rule_penalty = 0;
  failed = false;
  advisory = false;
}

unfoldable pub net_score : Scorecard → Int64
net_score c =
    if c.failed && not c.advisory
    then 0
    else let n = sub c.score c.hint_penalty in
      let n' = if not c.advisory then sub n c.rule_penalty else n in if is_neg n' then 0 else n'

-- `passed` holds the ids whose entry in the map is true.
unfoldable pub dependencies_met : List String → List String → Bool
dependencies_met [] passed = true
dependencies_met (dep ∷ deps) passed =
    let rest = dependencies_met deps passed in if not (contains passed dep) then false else rest

abbrev pub default_poll_window : ℕ
default_poll_window = 15 * second

abbrev pub poll_interval : ℕ
poll_interval = 2 * second

abbrev parsed_window : Option Int64 → ℕ
parsed_window none = default_poll_window
parsed_window (some d) = if int_lt 0 d then d else default_poll_window

-- The window of `pollCheck`: what the check's poll timeout parses to, if that is positive.
abbrev pub poll_window : (String → Option Int64) → Option Poll → ℕ
poll_window parse_duration none = default_poll_window
poll_window parse_duration (some p) =
    if p.timeout == "" then default_poll_window else parsed_window (parse_duration p.timeout)

-- Rounds of the interval that fit into a window, and two more.
abbrev pub poll_rounds : ℕ → ℕ
poll_rounds window = window / poll_interval + 2

module _ {F W : Type 0} (api : Api F W) where
  -- The loop in `pollCheck`, on fuel; `again` is `e.Check(ctx, ch)`.
  unfoldable pub poll_loop : ℕ → M W CheckResult → ℕ → CheckResult → M W CheckResult
  poll_loop zero again deadline r w = (r, w)
  poll_loop (suc n) again deadline r w =
      let (t, w₁) = api.now w in
      elim (ltb t deadline) [
        | false ↦ (r, w₁)
        | true ↦
            let (cancelled, w₂) = api.wait poll_interval w₁ in
            elim cancelled [
              | true ↦ (r, w₂)
              | false ↦
                  let (r', w₃) = again w₂ in
                  elim (is_fail r'.outcome) [
                    | false ↦ (r', w₃)
                    | true ↦ poll_loop n again deadline r' w₃
                  ]
            ]
      ]

  abbrev pub poll_after : M W CheckResult → Option Poll → CheckResult → M W CheckResult
  poll_after again poll r = do
    let window = poll_window api.parse_duration poll
    t ← api.now
    poll_loop (poll_rounds window) again (t + window) r

module _ (fl : Float64) {W : Type 0} (api : Api fl.Float W) (texts : Texts) (dir : String) where
  unfoldable pub poll_check : Check → M W CheckResult
  unfolding poll_loop
  poll_check ch w =
      let (r, w') = eval_check fl api texts dir ch w in
      if not (is_fail r.outcome) || is_some (probe_of ch)
      then (r, w')
      else poll_after api (eval_check fl api texts dir ch) (poll_of ch) r w'

-- `passed, errored, reason` of one objective
pub record Verdict : Type 0 where
  pub passed : Bool
  pub errored : Bool
  pub reason : String

abbrev pub verdict : Bool → Bool → String → Verdict
verdict p e s = record { passed = p; errored = e; reason = s }

-- The loop of `evalObjective` and of `evalObjectiveDirect`: they differ in how a check is evaluated.
module _ {W : Type 0} (eval : Check → M W CheckResult) where
  unfoldable pub eval_all : List Check → M W Verdict
  eval_all [] w = (verdict true false "", w)
  eval_all (ch ∷ chs) w =
      let (r, w') = eval ch w in
      elim r.outcome [
        | errored ↦ (verdict false true r.reason, w')
        | fail ↦ (verdict false false r.reason, w')
        | pass ↦ eval_all chs w'
      ]

abbrev pub result_of : Objective → Verdict → ObjectiveResult
result_of o v = record {
  id = o.id;
  title = o.title;
  points = o.points;
  passed = v.passed;
  errored = v.errored;
  reason = v.reason;
}

abbrev pub blocked : Verdict
blocked = verdict false false "blocked: a prerequisite objective is not yet passed"

-- A round of the loops: `MaxScore` grows, `Score` grows if the objective passed, the result is appended.
abbrev pub tally : Scorecard → Objective → Verdict → Scorecard
tally card o v = record card {
  objectives = card.objectives ++ result_of o v ∷ [];
  score = if v.passed then add card.score o.points else card.score;
  max_score = add card.max_score o.points;
}

abbrev pub mark : List String → Objective → Verdict → List String
mark passed o v = if v.passed then o.id ∷ passed else passed

abbrev pub settle : Scorecard → Scorecard
settle card = record card {
  all_passed = nat_eq card.score card.max_score && int_lt 0 card.max_score;
}

module _ {W : Type 0} (eval : Check → M W CheckResult) where
  -- An objective whose dependencies have not passed is left unevaluated.
  unfoldable pub eval_gated : Objective → List String → M W Verdict
  eval_gated o passed w = elim (dependencies_met o.depends_on passed) [
    | false ↦ (blocked, w)
    | true ↦ eval_all eval o.checks w
  ]

  -- The loop of `Evaluate`
  unfoldable pub evaluate_from : List Objective → List String → Scorecard → M W Scorecard
  unfolding eval_gated
  evaluate_from [] passed card w = (card, w)
  evaluate_from (o ∷ os) passed card w =
      let (v, w') = eval_gated o passed w in evaluate_from os (mark passed o v) (tally card o v) w'

  -- The loop of `EvaluateDirect`
  unfoldable pub direct_from : List Objective → Scorecard → M W Scorecard
  unfolding eval_all
  direct_from [] card w = (card, w)
  direct_from (o ∷ os) card w =
      let (v, w') = eval_all eval o.checks w in direct_from os (tally card o v) w'

module _ (fl : Float64) {W : Type 0} (api : Api fl.Float W) (texts : Texts) (dir : String) where
  unfoldable pub evaluate : Challenge → M W Scorecard
  unfolding evaluate_from poll_check
  evaluate ch = do
    card ← evaluate_from (poll_check fl api texts dir) ch.objectives [] empty_card
    pure (settle card)

  unfoldable pub evaluate_direct : Challenge → M W Scorecard
  unfolding direct_from
  evaluate_direct ch = do
    card ← direct_from (eval_check fl api texts dir) ch.objectives empty_card
    pure (settle card)

-- ===== src/Author/Harness.antt =====
-- internal/author/harness.go: the verdicts of the phases of a challenge's test.
pub mod Laws
use kubedrill.Shared.{
  String, Bool, true, false, not, List, [], ◌∷◌, ◌++◌, map, ◌==◌, length, is_empty, ℕ,
  if◌then◌else◌, ◌⧺◌, join,
}
use kubedrill.Shared.Int.{Int64}
use kubedrill.Challenge.{Challenge, Objective}
use kubedrill.Verify.Score.{ObjectiveResult, Scorecard}

pub record VacuityViolation : Type 0 where
  pub objective_id : String
  pub title : String
  pub reason : String

pub record ObjectiveOutcome : Type 0 where
  pub id : String
  pub title : String
  pub points : Int64
  pub passed : Bool
  pub errored : Bool
  pub reason : String

pub record PhaseReport : Type 0 where
  pub name : String
  pub passed : Bool
  pub skipped : Bool
  pub detail : String
  pub violations : List VacuityViolation
  pub objectives : List ObjectiveOutcome

-- The zero value that a map gives for a missing key.
abbrev pub no_result : ObjectiveResult
no_result = record { id = ""; title = ""; points = 0; passed = false; errored = false; reason = "" }

-- `byID[id]`, after `found` was stored last: a later result takes the place of an earlier one.
abbrev pub by_id_from : ObjectiveResult → String → List ObjectiveResult → ObjectiveResult
by_id_from found id [] = found
by_id_from found id (r ∷ rs) = by_id_from (if r.id == id then r else found) id rs

abbrev pub by_id : Scorecard → String → ObjectiveResult
by_id card id = by_id_from no_result id card.objectives

abbrev vacuity : Objective → String → VacuityViolation
vacuity o reason = record { objective_id = o.id; title = o.title; reason = reason }

abbrev not_passing : String → String
not_passing reason =
    "marked expectInitiallyPassing but did not pass on the fresh environment"
    ⧺ (if not (reason == "") then ": " ⧺ reason else "")

-- One round of the loop in `negativePhase`
unfoldable pub vacuity_of : Objective → ObjectiveResult → List VacuityViolation
vacuity_of o r =
    if o.expect_initially_passing
    then if not r.passed then vacuity o (not_passing r.reason) ∷ [] else []
    else if r.passed
    then vacuity o "passed on the fresh, unsolved environment (vacuous or under-constrained check)"
      ∷ []
    else []

unfoldable pub vacuities : Scorecard → List Objective → List VacuityViolation
unfolding vacuity_of
vacuities card [] = []
vacuities card (o ∷ os) = vacuity_of o (by_id card o.id) ++ vacuities card os

-- `show` is `%d`.
abbrev pub negative_detail : (Int64 → String) → ℕ → List VacuityViolation → String
negative_detail show n violations =
    if is_empty violations
    then "all " ⧺ show n ⧺ " objective(s) behaved correctly on the fresh environment"
    else show (length violations)
      ⧺ " of "
      ⧺ show n
      ⧺ " objective(s) violated the negative-phase contract"

unfoldable pub negative_phase : (Int64 → String) → Challenge → Scorecard → PhaseReport
unfolding vacuities
negative_phase show ch card =
    let violations = vacuities card ch.objectives in
    record {
      name = "negative";
      passed = is_empty violations;
      skipped = false;
      detail = negative_detail show (length ch.objectives) violations;
      violations = violations;
      objectives = [];
    }

abbrev outcome_of : ObjectiveResult → ObjectiveOutcome
outcome_of o = record {
  id = o.id;
  title = o.title;
  points = o.points;
  passed = o.passed;
  errored = o.errored;
  reason = o.reason;
}

-- The two lists of the second loop in `phaseFromCard`
abbrev pub errored_ids : List ObjectiveResult → List String
errored_ids [] = []
errored_ids (o ∷ os) = (if o.errored then o.id ∷ [] else []) ++ errored_ids os

abbrev pub failed_ids : List ObjectiveResult → List String
failed_ids [] = []
failed_ids (o ∷ os) =
    (if o.errored then [] else if not o.passed then o.id ∷ [] else []) ++ failed_ids os

abbrev part : String → List String → List String
part name ids = if is_empty ids then [] else (name ⧺ join ", " ids) ∷ []

unfoldable pub phase_detail : (Int64 → String) → Scorecard → String
unfolding join
phase_detail show card =
    if card.all_passed
    then "100% — "
      ⧺ show card.score
      ⧺ "/"
      ⧺ show card.max_score
      ⧺ " points across "
      ⧺ show (length card.objectives)
      ⧺ " objective(s)"
    else show card.score
      ⧺ "/"
      ⧺ show card.max_score
      ⧺ " points; "
      ⧺ join "; " (
          part "errored: " (errored_ids card.objectives)
          ++ part "failed: " (failed_ids card.objectives))

unfoldable pub phase_from_card : (Int64 → String) → String → Scorecard → PhaseReport
unfolding phase_detail
phase_from_card show name card = record {
  name = name;
  passed = card.all_passed;
  skipped = false;
  detail = phase_detail show card;
  violations = [];
  objectives = map outcome_of card.objectives;
}

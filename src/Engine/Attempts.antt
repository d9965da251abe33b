-- ===== src/Engine/Attempts.antt =====
-- internal/engine: `Verify` of engine.go from the scorecard on, `gradeRules` of grade.go after the
-- audit log was read, and `checkEnforcementTamper` of enforce.go.
pub mod Laws
pub mod Tampering
use kubedrill.Shared.{
  ℕ, ◌+◌, String, Bool, true, false, not, ◌&&◌, Option, none, some, List, [], ◌∷◌, ◌++◌, map,
  length, is_empty, ltb, if◌then◌else◌, ◌⧺◌, quote,
}
use kubedrill.Shared.Int.{Int64, add, int_lt}
use kubedrill.Shared.Results.{Result, ok, err}
use kubedrill.Shared.State.{M, pure, ◌>>=◌}
use kubedrill.Cluster.{Api, ResourceInterface, Got, not_found, found, failed, resource_for}
use kubedrill.Rules.Grade.{Violation}
use kubedrill.Session.{Session, Attempt, phase_verified}
use kubedrill.Verify.Score.{ObjectiveResult, Scorecard, net_score}

-- The loop of `gradeRules`
unfoldable pub charge_violations : List Violation → Scorecard → Scorecard
charge_violations [] card = card
charge_violations (v ∷ vs) card = charge_violations vs (record card {
  failed = if v.fail then true else card.failed;
  rule_penalty = add card.rule_penalty v.points;
})

unfoldable pub grade_card : List Violation → Scorecard → Scorecard
unfolding charge_violations
grade_card violations card =
    charge_violations violations (record card { rule_violations = violations })

abbrev pub removed_policy : String → Violation
removed_policy name = record {
  rule_id = "integrity";
  type = "tamper";
  message = "removed the live enforcement policy " ⧺ quote name ⧺ " — integrity breach";
  fail = true;
  points = 0;
  evidence = [];
}

module _ {F W : Type 0} (api : Api F W) where
  abbrev pub charge_removed : String → Got F → Scorecard → Scorecard
  charge_removed name not_found card = record card {
    failed = true;
    rule_violations = card.rule_violations ++ removed_policy name ∷ [];
  }
  charge_removed name _ card = card

  -- The loop of `checkEnforcementTamper`
  unfoldable pub tamper_from : ResourceInterface → List String → Scorecard → M W Scorecard
  tamper_from ri [] card w = (card, w)
  tamper_from ri (name ∷ names) card w =
      let (got, w') = api.get ri name w in tamper_from ri names (charge_removed name got card) w'

  abbrev tamper_checked : List String → Scorecard → Result ResourceInterface → M W Scorecard
  tamper_checked enforced card (err e) = pure card
  tamper_checked enforced card (ok ri) = tamper_from ri enforced card

  unfoldable pub check_enforcement_tamper : List String → Scorecard → M W Scorecard
  unfolding tamper_from
  check_enforcement_tamper enforced card = if is_empty enforced then pure card else do
    ri ← resource_for api "admissionregistration.k8s.io/v1" "ValidatingAdmissionPolicy" ""
    tamper_checked enforced card ri

abbrev is_late : Option ℕ → ℕ → Bool
is_late none now = false
is_late (some deadline) now = ltb deadline now

abbrev outcome_of : ObjectiveResult → String × Bool
outcome_of o = (o.id, o.passed)

-- `late` of `Verify`
abbrev pub late_at : Session → ℕ → Bool
late_at s now = is_late s.deadline now

-- The mutation in `Verify`: `late` was found before, and `now` is the time of the attempt.
unfoldable pub record_attempt : Scorecard → Bool → ℕ → Session → Session
record_attempt card late now s =
    let net = net_score card in
    let attempt : Attempt = record {
      n = add (length s.attempts) 1;
      at = now;
      score = net;
      late = late;
      objectives = map outcome_of card.objectives;
    } in
    record s {
      attempts = s.attempts ++ attempt ∷ [];
      best_score = if not late && int_lt s.best_score net then net else s.best_score;
      phase = if card.all_passed then phase_verified else s.phase;
    }

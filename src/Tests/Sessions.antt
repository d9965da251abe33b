-- ===== src/Tests/Sessions.antt =====
-- The author's checks and a session's commands at concrete inputs.
use kubedrill.Shared.{
  none, ◌≡◌, ◌≢◌, ◌↔◌, ◌≤◌, refl, inl, true, false, some, List, [], ◌∷◌, All, is_empty, arith,
}
use kubedrill.Session.{Session}
use kubedrill.Rules.Grade.{Violation, rule_violation}
use kubedrill.Verify.Score.{Scorecard, empty_card}
use kubedrill.Challenge.{check, cons, nil}
use kubedrill.Validation.{validate}
use kubedrill.Validation.Laws.{IsUnion, validate_iff}
use kubedrill.Author.Lint.{lint}
use kubedrill.Author.Lint.Laws.{IsMeaningful, IsSafe, lint_clean_iff}
use kubedrill.Author.Harness.{negative_phase}
use kubedrill.Author.Harness.Laws.{Behaves, negative_phase_iff}
use kubedrill.Shared.Results.{ok}
use kubedrill.Cluster.{ResourceInterface, resource_for}
use kubedrill.Engine.Attempts.Tampering.{ChargedFor, missing, check_enforcement_tamper-ChargedFor}
use kubedrill.Engine.Hints.{reveal_hint}
use kubedrill.Engine.Attempts.{check_enforcement_tamper, record_attempt}
use kubedrill.Engine.Attempts.Laws.{IsBest, record_attempt-IsBest}
use kubedrill.Tests.Setting.{
  api, scaled, never, plain_texts, shop, session, deny_delete, require_three,
}

validate_iff_example :
    (validate plain_texts.show_int
        (check none "" none (cons scaled (cons never nil)) none none none)
      ≡ none)
    ↔ IsUnion (check none "" none (cons scaled (cons never nil)) none none none)
validate_iff_example =
    validate_iff plain_texts.show_int
      (check none "" none (cons scaled (cons never nil)) none none none)

lint_clean_iff_example : (is_empty (lint plain_texts shop) ≡ true) ↔ (
    (shop.hints ≢ [])
    × (All (λ o. All (IsMeaningful plain_texts) o.checks) shop.objectives × All IsSafe shop.rules))
lint_clean_iff_example = lint_clean_iff plain_texts shop

-- The card of a run in which the first objective passed.
abbrev card : Scorecard
card = record empty_card {
  objectives =
      record { id = "scale"; title = ""; points = 10; passed = true; errored = false; reason = "" }
      ∷ [];
  score = 10;
  max_score = 30;
}

negative_phase_iff_example :
    ((negative_phase plain_texts.show_int shop card).passed ≡ true)
    ↔ All (Behaves card) shop.objectives
negative_phase_iff_example = negative_phase_iff plain_texts.show_int shop card

fresh_session : IsBest session
fresh_session = record { nonneg = omega arith; above = λ a m e. elim m [ ]; reached = inl refl }

record_attempt-IsBest_example :
    IsBest (record_attempt card false 50 session)
    × (session.best_score ≤ (record_attempt card false 50 session).best_score)
record_attempt-IsBest_example = record_attempt-IsBest card false 50 session fresh_session

abbrev violations : List Violation
violations =
    rule_violation deny_delete "deny" "" [] ∷ rule_violation require_three "require" "" [] ∷ []

abbrev after_hint : Session
after_hint = record session { hints_used = "h1" ∷ "h2" ∷ [] }

second_hint :
    reveal_hint shop session
    ≡ some (record { id = "h2"; penalty = 3; text = "scale to three" }, after_hint)
unfolding reveal_hint
second_hint = refl

abbrev policies : ResourceInterface
policies = record { resource = "deployments"; namespace = some "default" }

policies_resolved :
    resource_for api "admissionregistration.k8s.io/v1" "ValidatingAdmissionPolicy" "" 0
    ≡ (ok policies, 0)
unfolding resource_for
policies_resolved = refl

check_enforcement_tamper-ChargedFor_example :
    ChargedFor api
      (missing api policies ("kubedrill-enforce-scale" ∷ "web" ∷ []) 0)
      card
      (check_enforcement_tamper api ("kubedrill-enforce-scale" ∷ "web" ∷ []) card 0).0
check_enforcement_tamper-ChargedFor_example =
    check_enforcement_tamper-ChargedFor api "kubedrill-enforce-scale" ("web" ∷ []) card 0 0 policies
      policies_resolved

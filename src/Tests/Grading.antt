-- ===== src/Tests/Grading.antt =====
-- Matching, grading and attribution at concrete inputs.
use mathlib.Core.Bool.{false≢true}
use kubedrill.Shared.{ℕ, ◌≡◌, ◌↔◌, ◌⊎◌, refl, inr, true, false, List, [], ◌∷◌, Memᴰ}
use kubedrill.Json.{Json, arr, cons, nil}
use kubedrill.Matching.{matches, try_from, scalar_equal}
use kubedrill.Matching.Relation.{Matches}
use kubedrill.Matching.Laws.{matches_iff}
use kubedrill.Challenge.{Rule}
use kubedrill.Rules.Audit.{AuditEvent}
use kubedrill.Rules.Attribution.{attribute, is_exempt}
use kubedrill.Rules.Resource.{kind_to_resource}
use kubedrill.Rules.Grade.{
  Violation, grade, grade_rules, grade_rule, grade_specs, match_spec, target_matches,
  rule_violation, evidences,
}
use kubedrill.Rules.Grade.Breach.{Broken, Tampers, Charged, Selects}
use kubedrill.Rules.Grade.Single.{Carries, Reported}
use kubedrill.Rules.Grade.Laws.{grade_sound, grade_complete, grade_clean_iff}
use kubedrill.Tests.Setting.{floats, unmarshal, replicas, deletion, deny_delete, spec}

abbrev pairs : ℕ → ℕ → Json ℕ
pairs a b = arr (cons (replicas a) (cons (replicas b) nil))

in_any_order : matches floats (pairs 2 3) (pairs 3 2) ≡ true
unfolding matches try_from scalar_equal
in_any_order = refl

one_each : matches floats (pairs 3 3) (pairs 3 2) ≡ false
unfolding matches try_from scalar_equal
one_each = refl

matches_iff_example :
    (matches floats (pairs 2 3) (pairs 3 2) ≡ true) ↔ Matches floats (pairs 2 3) (pairs 3 2)
matches_iff_example = matches_iff floats (pairs 2 3) (pairs 3 2)

abbrev rules : List Rule
rules = deny_delete ∷ []

abbrev events : List AuditEvent
events = deletion ∷ []

abbrev forbidden : Violation
forbidden =
    rule_violation deny_delete "deny" "performed a denied action on Deployment shop/web" events

deletion_forbidden : Memᴰ forbidden (grade floats unmarshal rules events)
unfolding grade grade_rules grade_rule grade_specs match_spec target_matches kind_to_resource
    attribute is_exempt evidences
deletion_forbidden = Memᴰ.head refl

grade_sound_example :
    ((forbidden.type ≡ "tamper")
      × (forbidden.fail ≡ true)
      × ((e : AuditEvent) × Memᴰ e events × Tampers e))
    ⊎ ((r : Rule) × Memᴰ r rules × Broken floats unmarshal events r × Carries forbidden r)
grade_sound_example = grade_sound floats unmarshal rules events forbidden deletion_forbidden

deletion_selected : Selects (spec ("delete" ∷ []) "").target deletion
unfolding kind_to_resource
deletion_selected = record {
  resource = refl;
  group = inr (inr refl);
  name = inr refl;
  namespace = inr refl;
}

deletion-Charged : Charged deletion
unfolding is_exempt
deletion-Charged = Charged.as_self refl (λ e. absurd (false≢true e))

deny-Broken : Broken floats unmarshal events deny_delete
deny-Broken =
    Broken.denied (spec ("delete" ∷ []) "") deletion refl (Memᴰ.head refl) deletion-Charged
      deletion_selected (inr (Memᴰ.head refl))

grade_complete_example :
    Reported floats unmarshal events deny_delete (grade floats unmarshal rules events)
grade_complete_example =
    grade_complete floats unmarshal rules events deny_delete (Memᴰ.head refl) deny-Broken

grade_clean_iff_example : (grade floats unmarshal rules events ≡ []) ↔ (
    ((e : AuditEvent) → Memᴰ e events → ¬ Tampers e)
    × ((r : Rule) → Memᴰ r rules → ¬ Broken floats unmarshal events r))
grade_clean_iff_example = grade_clean_iff floats unmarshal rules events

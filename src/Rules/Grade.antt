-- ===== src/Rules/Grade.antt =====
-- internal/rules/grade.go: grading the rules from the audit events.
pub mod Breach
mod Reading
pub mod Single
pub mod Laws
use kubedrill.Shared.{
  String, Bool, true, false, not, ◌&&◌, ◌||◌, Option, none, some, List, [], ◌∷◌, ◌++◌, map, ◌==◌,
  filter, any, is_empty, if◌then◌else◌, ◌⧺◌,
}
use kubedrill.Shared.Int.{Int64}
use kubedrill.Json.{Decoded, decoded, Float64}
use kubedrill.Challenge.{Rule, RuleSpec, RuleMatch}
use kubedrill.Matching.{matches}
use kubedrill.Rules.Audit.{AuditEvent, engine_identity}
use kubedrill.Rules.Attribution.{is_player, is_tamper, attribute}
use kubedrill.Rules.Resource.{kind_to_resource}

pub record Evidence : Type 0 where
  pub audit_id : String
  pub verb : String
  pub user : String
  pub resource : String
  pub namespace : String
  pub name : String

pub record Violation : Type 0 where
  pub rule_id : String
  pub type : String
  pub message : String
  pub fail : Bool
  pub points : Int64
  pub evidence : List Evidence

abbrev pub contains : List String → String → Bool
contains ss s = any (λ x. x == s) ss

abbrev evidence_of : AuditEvent → Evidence
evidence_of e = record {
  audit_id = e.audit_id;
  verb = e.verb;
  user = e.user.username;
  resource = e.object_ref.resource;
  namespace = e.object_ref.namespace;
  name = e.object_ref.name;
}

unfoldable pub evidences : List AuditEvent → List Evidence
evidences events = map evidence_of events

unfoldable pub target_matches : RuleMatch → AuditEvent → Bool
target_matches m e =
    let gr = kind_to_resource m.kind in
    let ref = e.object_ref in
    if not (ref.resource == gr.resource)
    then false
    else if not (gr.group == "") && not (ref.api_group == "") && not (ref.api_group == gr.group)
    then false
    else if not (m.name == "") && not (ref.name == m.name)
    then false
    else not (not (m.namespace == "") && not (ref.namespace == m.namespace))

unfoldable pub match_spec : RuleMatch → List String → List AuditEvent → List AuditEvent
match_spec m ops events =
    filter (λ e. target_matches m e && (is_empty ops || contains ops e.verb)) events

abbrev pub target_desc : RuleMatch → String
target_desc m =
    m.kind
    ⧺ (if not (m.namespace == "") && not (m.name == "")
        then " " ⧺ m.namespace ⧺ "/" ⧺ m.name
        else if not (m.namespace == "")
        then " in namespace " ⧺ m.namespace
        else if not (m.name == "")
        then " " ⧺ m.name
        else "")

abbrev pub rule_violation : Rule → String → String → List AuditEvent → Violation
rule_violation r typ msg hits = record {
  rule_id = r.id;
  type = typ;
  message = msg;
  fail = r.penalty.fail;
  points = r.penalty.points;
  evidence = evidences hits;
}

-- `out = append(out, v)` unless `skip`
abbrev pub report_unless : Bool → Violation → List Violation
report_unless true v = []
report_unless false v = v ∷ []

abbrev pub require_ops : List String → List String
require_ops ops = if is_empty ops then "create" ∷ "update" ∷ "patch" ∷ [] else ops

abbrev pub delete_ops : List String
delete_ops = "delete" ∷ "deletecollection" ∷ []

-- `unmarshal` is `json.Unmarshal` into an `any`.
module _ (fl : Float64) (unmarshal : String → Decoded fl.Float) where
  abbrev pub both_match : Decoded fl.Float → Decoded fl.Float → Bool
  both_match (decoded tree) (decoded body) = matches fl tree body
  both_match _ _ = false

  unfoldable pub fields_present : String → AuditEvent → Bool
  fields_present fields e =
      not (e.request_object == "") && both_match (unmarshal fields) (unmarshal e.request_object)

  unfoldable pub match_require : RuleSpec → List AuditEvent → List AuditEvent
  match_require spec events =
      filter
        (λ e.
          target_matches spec.target e
          && contains (require_ops spec.operations) e.verb
          && (spec.fields == "" || fields_present spec.fields e))
        events

  -- The switch in the loop over the rules.
  unfoldable pub grade_specs :
      Rule → Option RuleSpec → Option RuleSpec → Option RuleSpec → List AuditEvent → List Violation
  grade_specs r (some deny) _ _ charged =
      let hits = match_spec deny.target deny.operations charged in
      report_unless (is_empty hits)
        (rule_violation r "deny" ("performed a denied action on " ⧺ target_desc deny.target) hits)
  grade_specs r none (some protect) _ charged =
      let hits = match_spec protect.target delete_ops charged in
      report_unless (is_empty hits)
        (rule_violation r "protect" ("deleted the protected " ⧺ target_desc protect.target) hits)
  grade_specs r none none (some require) charged =
      report_unless (not (is_empty (match_require require charged))) (
        rule_violation r "require"
          ("required change to " ⧺ target_desc require.target ⧺ " was not made") [])
  grade_specs r none none none charged = []

  unfoldable pub grade_rule : List AuditEvent → Rule → List Violation
  unfolding grade_specs
  grade_rule charged r = grade_specs r r.deny r.protect r.require charged

  abbrev pub tamper_violation : List AuditEvent → Violation
  tamper_violation tamper = record {
    rule_id = "integrity";
    type = "tamper";
    message = "impersonated the engine identity (" ⧺ engine_identity ⧺ ") — integrity breach";
    fail = true;
    points = 0;
    evidence = evidences tamper;
  }

  unfoldable pub grade_rules : List AuditEvent → List Rule → List Violation
  grade_rules charged [] = []
  grade_rules charged (r ∷ rs) = grade_rule charged r ++ grade_rules charged rs

  unfoldable pub grade : List Rule → List AuditEvent → List Violation
  unfolding grade_rules
  grade rs events =
      let charged = filter (λ e. is_player (attribute e)) events in
      let tamper = filter (λ e. is_tamper (attribute e)) events in
      report_unless (is_empty tamper) (tamper_violation tamper) ++ grade_rules charged rs

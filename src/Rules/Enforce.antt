-- ===== src/Rules/Enforce.antt =====
-- internal/rules/enforce.go: the admission policies for the rules that are enforced.
pub mod Operations
pub mod Names
pub mod Exempt
use Prim.Native.Char.{Char, code}
use Prim.Native.String
use kubedrill.Shared.{
  ℕ, String, Bool, true, false, not, ◌&&◌, ◌||◌, Option, none, some, List, [], ◌∷◌, ◌++◌, map, ◌==◌,
  is_empty, leb, nat_eq, if◌then◌else◌, ◌⧺◌, join, map_chars, lower_char, to_lower, quote,
}
use kubedrill.Json.{Json, str, arr, obj, Items, nil, cons, Fields, end, field}
use kubedrill.Challenge.{Challenge, Rule, RuleSpec, RuleMatch}
use kubedrill.Rules.Attribution.{exempt_usernames, exempt_prefixes}
use kubedrill.Rules.Resource.{kind_to_resource}
use kubedrill.Rules.Grade.{contains}

abbrev pub enforce_prefix : String
enforce_prefix = "kubedrill-enforce-"

-- `c >= 'a' && c <= 'z', c >= '0' && c <= '9', c == '-'`
abbrev pub is_safe_code : ℕ → Bool
is_safe_code n = (leb b'a' n && leb n b'z') || ((leb b'0' n && leb n b'9') || nat_eq n b'-')

-- The loop of `sanitize`, at a character that `ToLower` has been applied to.
unfoldable pub safe_char : Char → Char
safe_char c = if is_safe_code (code c) then c else "-"

-- One character before a text whose trailing dashes are gone.
abbrev pub drop_last_dash : Char → String → String
drop_last_dash c String.[] = if nat_eq (code c) b'-' then String.[] else String.◌∷◌ c String.[]
drop_last_dash c (String.◌∷◌ d s) = String.◌∷◌ c (String.◌∷◌ d s)

-- `strings.Trim(s, "-")`, first at the end and then at the beginning
unfoldable pub trim_end : String → String
trim_end String.[] = String.[]
trim_end (String.◌∷◌ c s) = drop_last_dash c (trim_end s)

unfoldable pub trim_start : String → String
trim_start String.[] = String.[]
trim_start (String.◌∷◌ c s) = if nat_eq (code c) b'-' then trim_start s else String.◌∷◌ c s

unfoldable pub sanitize : String → String
unfolding safe_char trim_end trim_start to_lower
sanitize id = trim_start (trim_end (map_chars safe_char (to_lower id)))

unfoldable pub enforced_policy_name : String → String
unfolding sanitize
enforced_policy_name rule_id = enforce_prefix ⧺ sanitize rule_id

abbrev pub all_ops : List String
all_ops = "CREATE" ∷ "UPDATE" ∷ "DELETE" ∷ []

abbrev pub op_of_verb : String → Option String
op_of_verb v =
    if v == "create"
    then some "CREATE"
    else if v == "update" || v == "patch"
    then some "UPDATE"
    else if v == "delete" || v == "deletecollection"
    then some "DELETE"
    else none

-- `add`, unless the verb maps to no operation
abbrev pub add_op : List String → Option String → List String
add_op out none = out
add_op out (some op) = if contains out op then out else out ++ op ∷ []

unfoldable pub collect_ops : List String → List String → List String
collect_ops out [] = out
collect_ops out (v ∷ vs) = collect_ops (add_op out (op_of_verb v)) vs

unfoldable pub admission_ops : List String → List String
unfolding collect_ops
admission_ops verbs =
    if is_empty verbs
    then all_ops
    else let out = collect_ops [] verbs in if is_empty out then all_ops else out

unfoldable pub exempt_cel : String
unfolding join quote
exempt_cel = join " && " (
    ("!(request.userInfo.username in [" ⧺ join ", " (map quote exempt_usernames) ⧺ "])")
    ∷ map (λ p. "!request.userInfo.username.startsWith(" ⧺ quote p ⧺ ")") exempt_prefixes)

abbrev pub enforced_description : Option RuleSpec → Option RuleSpec → String
enforced_description (some deny) _ = deny.description
enforced_description none (some protect) = protect.description
enforced_description none none = ""

unfoldable pub enforce_message : Rule → String
unfolding quote
enforce_message r =
    let desc = enforced_description r.deny r.protect in
    if not (desc == "")
    then "kubedrill: " ⧺ desc
    else "kubedrill: this action is blocked by rule " ⧺ quote r.id

-- The switch of the loop in `EnforcementPolicies`: the spec and the operations that are blocked.
abbrev pub enforced_spec : Option RuleSpec → Option RuleSpec → Option (RuleSpec × List String)
enforced_spec (some deny) _ = some (deny, admission_ops deny.operations)
enforced_spec none (some protect) = some (protect, "DELETE" ∷ [])
enforced_spec none none = none

-- The generated objects, as JSON trees over the floats `F` of the JSON library.
module _ {F : Type 0} where
  abbrev condition : String → String → Json F
  condition name expression =
      obj (field "name" (str name) (field "expression" (str expression) end))

  abbrev texts : List String → Items F
  texts [] = nil
  texts (s ∷ ss) = cons (str s) (texts ss)

  abbrev scope_conditions : RuleMatch → Items F
  scope_conditions m =
      let named =
        if not (m.name == "")
        then cons (condition "target-name" ("request.name == " ⧺ quote m.name)) nil
        else nil in
      if not (m.namespace == "")
      then cons (condition "target-namespace" ("request.namespace == " ⧺ quote m.namespace)) named
      else named

  abbrev managed_metadata : String → Json F
  managed_metadata name = obj (
      field "name" (str name)
        (field "labels" (obj (field "app.kubernetes.io/managed-by" (str "kubedrill") end)) end))

  unfoldable pub validating_admission_policy : String → RuleSpec → List String → String → Json F
  unfolding kind_to_resource exempt_cel quote
  validating_admission_policy name spec ops message =
      let gr = kind_to_resource spec.target.kind in
      let rule : Json F = obj (
        field "apiGroups" (arr (cons (str gr.group) nil)) (
          field "apiVersions" (arr (cons (str "*") nil)) (
            field "operations" (arr (texts ops))
              (field "resources" (arr (cons (str gr.resource) nil)) end)))) in
      let validation : Json F = obj (
        field "expression" (str "false")
          (field "message" (str message) (field "reason" (str "Forbidden") end))) in
      obj (
        field "apiVersion" (str "admissionregistration.k8s.io/v1") (
          field "kind" (str "ValidatingAdmissionPolicy") (
            field "metadata" (managed_metadata name) (
              field "spec"
                (obj (
                  field "failurePolicy" (str "Fail") (
                    field "matchConstraints" (obj (field "resourceRules" (arr (cons rule nil)) end))
                      (field "matchConditions"
                        (arr
                          (cons (condition "not-exempt" exempt_cel) (scope_conditions spec.target)))
                        (field "validations" (arr (cons validation nil)) end)))))
                end))))

  unfoldable pub validating_admission_policy_binding : String → Json F
  validating_admission_policy_binding policy_name = obj (
      field "apiVersion" (str "admissionregistration.k8s.io/v1") (
        field "kind" (str "ValidatingAdmissionPolicyBinding") (
          field "metadata" (managed_metadata (policy_name ⧺ "-binding")) (
            field "spec"
              (obj (
                field "policyName" (str policy_name)
                  (field "validationActions" (arr (cons (str "Deny") nil)) end)))
              end))))

  abbrev pub policy_objects : Rule → Option (RuleSpec × List String) → List (Json F)
  policy_objects r none = []
  policy_objects r (some (spec, ops)) =
      let name = enforced_policy_name r.id in
      validating_admission_policy name spec ops (enforce_message r)
      ∷ validating_admission_policy_binding name
      ∷ []

  unfoldable pub rule_policies : Rule → List (Json F)
  rule_policies r = if r.enforce then policy_objects r (enforced_spec r.deny r.protect) else []

  unfoldable pub policies_from : List Rule → List (Json F)
  policies_from [] = []
  policies_from (r ∷ rs) = rule_policies r ++ policies_from rs

  unfoldable pub enforcement_policies : Challenge → List (Json F)
  unfolding policies_from
  enforcement_policies ch = policies_from ch.rules

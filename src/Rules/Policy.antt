-- ===== src/Rules/Policy.antt =====
-- internal/rules/policy.go: the audit policy that is generated for a challenge.
pub mod Laws
use Prim.Native.Nat.{Ordering}
use Prim.Native.String
use kubedrill.Shared.{
  String, Bool, true, false, not, ◌&&◌, ◌||◌, Option, none, some, List, [], ◌∷◌, ◌++◌, ◌==◌,
  is_empty, any, if◌then◌else◌, ◌⧺◌, equal_fold, quote,
}
use kubedrill.Challenge.{Challenge, Rule, RuleSpec}
use kubedrill.Rules.Resource.{GroupResource, kind_to_resource}

abbrev pub audit_log_path : String
audit_log_path = "/var/log/kubernetes/audit/audit.log"

-- `s < t` on texts. Byte order and the order of code points are one.
abbrev pub text_lt : String → String → Bool
text_lt s t = elim (String.compare s t) [ Ordering.lt ↦ true | _ ↦ false ]

abbrev pub gr_eq : GroupResource → GroupResource → Bool
gr_eq a b = a.group == b.group && a.resource == b.resource

-- The order of `sort.Slice`
abbrev pub gr_lt : GroupResource → GroupResource → Bool
gr_lt a b =
    if not (a.group == b.group) then text_lt a.group b.group else text_lt a.resource b.resource

-- What the loop over the rules marks as seen: the resource of a field-level require rule on
-- something that is no secret.
abbrev pub wanted_resource : Option RuleSpec → Option GroupResource
wanted_resource none = none
wanted_resource (some require) =
    let gr = kind_to_resource require.target.kind in
    if require.fields == "" || equal_fold require.target.kind "Secret" || gr.resource == "secrets"
    then none
    else some gr

-- `seen[gr] = true`, the keys of the set in the order in which they are marked
unfoldable pub see : Option GroupResource → List GroupResource → List GroupResource
see none seen = seen
see (some g) seen = if any (gr_eq g) seen then seen else g ∷ seen

unfoldable pub seen_of : List Rule → List GroupResource → List GroupResource
unfolding see
seen_of [] seen = seen
seen_of (r ∷ rs) seen = seen_of rs (see (wanted_resource r.require) seen)

-- `sort.Slice`. The keys are distinct and the order is total, so every way to sort gives this.
unfoldable pub place : GroupResource → List GroupResource → List GroupResource
place g [] = g ∷ []
place g (h ∷ hs) = let rest = place g hs in if gr_lt h g then h ∷ rest else g ∷ h ∷ hs

unfoldable pub sort : List GroupResource → List GroupResource
unfolding place
sort [] = []
sort (g ∷ gs) = place g (sort gs)

unfoldable pub field_require_resources : Challenge → List GroupResource
unfolding seen_of sort
field_require_resources ch = sort (seen_of ch.rules [])

unfoldable pub resource_lines : List GroupResource → String
unfolding quote
resource_lines [] = ""
resource_lines (r ∷ rs) =
    "      - group: "
    ⧺ quote r.group
    ⧺ "\n        resources: ["
    ⧺ quote r.resource
    ⧺ "]\n"
    ⧺ resource_lines rs

abbrev pub request_level : List GroupResource → String
request_level [] = ""
request_level (g ∷ gs) =
    "  # Request level for kinds a field-level `require` inspects.\n"
    ⧺ "  - level: Request\n"
    ⧺ "    verbs: [\"create\", \"update\", \"patch\"]\n"
    ⧺ "    resources:\n"
    ⧺ resource_lines (g ∷ gs)

unfoldable pub audit_policy : Challenge → String
unfolding field_require_resources resource_lines
audit_policy ch =
    if is_empty ch.rules
    then ""
    else "apiVersion: audit.k8s.io/v1\n"
      ⧺ "kind: Policy\n"
      ⧺ "# Generated by kubedrill from the challenge's rules. Do not edit.\n"
      ⧺ "omitStages:\n  - RequestReceived\n"
      ⧺ "rules:\n"
      ⧺ "  # Secrets are always Metadata-only — contents are never captured.\n"
      ⧺ "  - level: Metadata\n"
      ⧺ "    resources:\n"
      ⧺ "      - group: \"\"\n"
      ⧺ "        resources: [\"secrets\"]\n"
      ⧺ request_level (field_require_resources ch)
      ⧺ "  # Baseline: every mutating action, at Metadata level.\n"
      ⧺ "  - level: Metadata\n"
      ⧺ "    verbs: [\"create\", \"update\", \"patch\", \"delete\", \"deletecollection\"]\n"

-- ===== src/Validation/Document.antt =====
-- `Validate` of apis/challenge/v1alpha1/validation.go: the errors of a whole challenge.
pub mod Valid
mod Conditions
pub mod Laws
use kubedrill.Shared.{
  ℕ, ◌+◌, String, Bool, true, false, not, ◌&&◌, ◌||◌, Option, none, some, List, [], ◌∷◌, ◌++◌, ◌==◌,
  is_some, is_empty, nat_eq, if◌then◌else◌, ◌⧺◌, quote, join,
}
use kubedrill.Shared.Int.{Int64}
use kubedrill.Challenge.{
  Challenge, Objective, Check, Fault, Rule, api_version, kind, easy, medium, hard, expert,
}
use kubedrill.Rules.Grade.{contains}
use kubedrill.Validation.{b2i, validate}
use kubedrill.Validation.Cycle.{depends_on_cycle}

-- `if b { add(text) }`
abbrev pub add_if : Bool → String → List String
add_if b text = if b then text ∷ [] else []

abbrev pub known_difficulty : String → Bool
known_difficulty d = contains (easy ∷ medium ∷ hard ∷ expert ∷ []) d

unfoldable pub difficulty_errors : String → List String
unfolding quote
difficulty_errors d =
    if known_difficulty d
    then []
    else (if d == ""
        then "metadata.difficulty: required"
        else "metadata.difficulty: " ⧺ quote d ⧺ " is not one of easy|medium|hard|expert")
      ∷ []

unfoldable pub header_errors : Challenge → List String
unfolding quote difficulty_errors
header_errors c =
    add_if (not (c.api_version == api_version))
      ("apiVersion: got " ⧺ quote c.api_version ⧺ ", want " ⧺ quote api_version)
    ++ (add_if (not (c.kind == kind)) ("kind: got " ⧺ quote c.kind ⧺ ", want " ⧺ quote kind)
        ++ (add_if (c.metadata.name == "") "metadata.name: required"
            ++ (add_if (c.metadata.version == "") "metadata.version: required"
                ++ difficulty_errors c.metadata.difficulty)))

abbrev pub error_list : Option String → (String → String) → List String
error_list none locate = []
error_list (some e) locate = locate e ∷ []

-- The keys of the map `ids` after the loop over the objectives.
abbrev pub ids_of : List Objective → List String
ids_of [] = []
ids_of (o ∷ os) = let rest = ids_of os in if o.id == "" then rest else o.id ∷ rest

-- The loop over the dependencies of one objective.
unfoldable pub dependency_errors : List String → String → List String → List String
unfolding quote
dependency_errors ids id [] = []
dependency_errors ids id (dep ∷ deps) =
    add_if (not (contains ids dep))
      ("objective " ⧺ quote id ⧺ ": dependsOn references unknown objective " ⧺ quote dep)
    ++ dependency_errors ids id deps

unfoldable pub all_dependency_errors : List String → List Objective → List String
unfolding dependency_errors
all_dependency_errors ids [] = []
all_dependency_errors ids (o ∷ os) =
    dependency_errors ids o.id o.depends_on ++ all_dependency_errors ids os

unfoldable pub cycle_errors : Option String → List String
cycle_errors none = []
cycle_errors (some cycle) =
    add_if (not (cycle == "")) ("objectives: dependsOn cycle detected: " ⧺ cycle)

abbrev pub failure : List String → Option String
failure [] = none
failure (e ∷ es) = some ("challenge validation failed:\n  - " ⧺ join "\n  - " (e ∷ es))

-- `show` is `%d`.
module _ (show : Int64 → String) where
  unfoldable pub check_errors : String → ℕ → List Check → List String
  unfolding quote
  check_errors id j [] = []
  check_errors id j (ch ∷ chs) =
      error_list (validate show ch) (λ e. "objective " ⧺ quote id ⧺ " checks[" ⧺ show j ⧺ "]: " ⧺ e)
      ++ check_errors id (j + 1) chs

  -- The body of the loop over the objectives, behind the `continue`.
  unfoldable pub objective_errors : ℕ → List String → Objective → List String
  unfolding quote check_errors
  objective_errors i seen o =
      add_if (contains seen o.id) ("objectives[" ⧺ show i ⧺ "].id: duplicate id " ⧺ quote o.id)
      ++ (add_if (is_empty o.checks) ("objective " ⧺ quote o.id ⧺ ": at least one check required")
          ++ check_errors o.id 0 o.checks)

  -- The loop over the objectives; `seen` are the keys of `ids` so far.
  unfoldable pub objectives_errors : ℕ → List String → List Objective → List String
  unfolding objective_errors
  objectives_errors i seen [] = []
  objectives_errors i seen (o ∷ os) =
      let skipped = objectives_errors (i + 1) seen os in
      let rest = objectives_errors (i + 1) (o.id ∷ seen) os in
      if o.id == ""
      then ("objectives[" ⧺ show i ⧺ "].id: required") ∷ skipped
      else objective_errors i seen o ++ rest

  abbrev fault_kinds : Fault → ℕ
  fault_kinds f = b2i (is_some f.patch) + b2i (is_some f.exec) + b2i (is_some f.node_exec)

  -- The loop over the faults; `node_access` is that of the metadata.
  unfoldable pub fault_errors : Bool → ℕ → List Fault → List String
  unfolding quote
  fault_errors node_access i [] = []
  fault_errors node_access i (f ∷ fs) =
      let place = "environment.setup.faults[" ⧺ show i ⧺ "] (" ⧺ quote f.name ⧺ "): " in
      add_if (not (nat_eq (fault_kinds f) 1))
        (place ⧺ "exactly one of patch|exec|nodeExec required, got " ⧺ show (fault_kinds f))
      ++ (add_if (is_some f.node_exec && not node_access)
            (place ⧺ "nodeExec requires metadata.nodeAccess: true")
          ++ fault_errors node_access (i + 1) fs)

  abbrev rule_verbs : Rule → ℕ
  rule_verbs r = b2i (is_some r.deny) + b2i (is_some r.protect) + b2i (is_some r.require)

  abbrev pub rule_id_errors : ℕ → List String → String → List String
  rule_id_errors i seen id =
      if id == ""
      then ("rules[" ⧺ show i ⧺ "].id: required") ∷ []
      else add_if (contains seen id) ("rules[" ⧺ show i ⧺ "].id: duplicate id " ⧺ quote id)

  -- The loop over the rules; `seen` are the keys of `rids`.
  unfoldable pub rule_errors : ℕ → List String → List Rule → List String
  unfolding quote
  rule_errors i seen [] = []
  rule_errors i seen (r ∷ rs) =
      rule_id_errors i seen r.id
      ++ (add_if (not (nat_eq (rule_verbs r) 1)) (
            "rule "
            ⧺ quote r.id
            ⧺ ": exactly one of deny|protect|require required, got "
            ⧺ show (rule_verbs r))
          ++ (add_if (r.enforce && is_some r.require) (
                "rule "
                ⧺ quote r.id
                ⧺ ": enforce:true is invalid on a require rule (cannot live-deny an omission)")
              ++ rule_errors (i + 1) (r.id ∷ seen) rs))

  -- `errs` at the end of `Validate`
  unfoldable pub validation_errors : Challenge → List String
  unfolding header_errors objectives_errors all_dependency_errors cycle_errors depends_on_cycle
      fault_errors rule_errors
  validation_errors c =
      header_errors c
      ++ (add_if (is_empty c.objectives) "objectives: at least one required"
          ++ (objectives_errors 0 [] c.objectives
              ++ (all_dependency_errors (ids_of c.objectives) c.objectives
                  ++ (cycle_errors (depends_on_cycle c.objectives)
                      ++ (fault_errors c.metadata.node_access 0 c.environment.setup.faults
                          ++ (rule_errors 0 [] c.rules
                              ++ add_if (c.solution.script == "") "solution.script: required"))))))

  unfoldable pub validate_challenge : Challenge → Option String
  unfolding validation_errors join
  validate_challenge c = failure (validation_errors c)

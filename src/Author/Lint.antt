-- ===== src/Author/Lint.antt =====
-- internal/author/lint.go: the quality rules for a challenge.
pub mod Laws
use kubedrill.Shared.{
  String, Bool, true, false, not, ◌&&◌, ◌||◌, Option, none, some, List, [], ◌∷◌, ◌++◌, ◌==◌, ltb,
  length, ℕ, ◌+◌, is_some, if◌then◌else◌, ◌⧺◌, quote, equal_fold,
}
use kubedrill.Challenge.{
  Challenge, Objective, Rule, RuleSpec, Check, check, Checks, nil, cons, MatchCheck,
}
use kubedrill.Verify.Probe.{Texts}

pub record Finding : Type 0 where
  pub rule : String
  pub message : String

abbrev pub finding : String → String → Finding
finding r m = record { rule = r; message = m }

abbrev pub min_hints : ℕ
min_hints = 1

-- `trim` is `strings.TrimSpace`.
abbrev pub is_const_true : (String → String) → String → Bool
is_const_true trim expr = trim expr == "true"

abbrev pub is_empty_object : (String → String) → String → Bool
is_empty_object trim raw = let s = trim raw in s == "" || s == "null" || s == "{}"

abbrev pub enforce_spec : Option RuleSpec → Option RuleSpec → Option RuleSpec
enforce_spec (some deny) _ = some deny
enforce_spec none protect = protect

abbrev pub vacuous_match : (String → String) → Option MatchCheck → String
vacuous_match trim none = ""
vacuous_match trim (some m) =
    if is_empty_object trim m.object
    then "match object is empty (asserts nothing about the target)"
    else ""

module _ (texts : Texts) where
  unfoldable mutual
    -- `vacuousCheck`: the first of cel, match and anyOf that is set decides.
    pub vacuous_check : Check → String
    vacuous_check (check m cel probe leaves poll t ts) =
        let branches = vacuous_leaves leaves in
        if not (cel == "")
        then if is_const_true texts.trim_space cel
          then "cel expression is constant true (always passes)"
          else ""
        else if is_some m
        then vacuous_match texts.trim_space m
        else branches

    -- the loop over the leaves
    pub vacuous_leaves : Checks → String
    vacuous_leaves nil = ""
    vacuous_leaves (cons leaf leaves) =
        let rest = vacuous_leaves leaves in
        if not (vacuous_check leaf == "")
        then "anyOf has a vacuous branch (always passes)"
        else rest

  -- One round of the loop over an objective's checks
  abbrev report_vacuous : String → ℕ → String → List Finding
  report_vacuous id j reason =
      if not (reason == "")
      then finding "vacuous-check"
          ("objective " ⧺ quote id ⧺ " checks[" ⧺ texts.show_int j ⧺ "]: " ⧺ reason)
        ∷ []
      else []

  unfoldable pub lint_checks : String → ℕ → List Check → List Finding
  lint_checks id j [] = []
  lint_checks id j (ch ∷ chs) = report_vacuous id j (vacuous_check ch) ++ lint_checks id (j + 1) chs

  unfoldable pub lint_objectives : List Objective → List Finding
  lint_objectives [] = []
  lint_objectives (o ∷ os) = lint_checks o.id 0 o.checks ++ lint_objectives os

abbrev pub unscoped : Option RuleSpec → Bool
unscoped none = false
unscoped (some spec) = spec.target.name == "" && spec.target.namespace == ""

abbrev pub requires_secret : Option RuleSpec → Bool
requires_secret none = false
requires_secret (some require) =
    not (require.fields == "") && equal_fold require.target.kind "Secret"

-- One round of the loop over the rules
unfoldable pub lint_rule : Rule → List Finding
lint_rule r =
    (if r.enforce && unscoped (enforce_spec r.deny r.protect)
      then finding "unscoped-enforce" (
          "rule "
          ⧺ quote r.id
          ⧺ ": enforce:true but unscoped (match has no name or namespace); scope it to the challenge's objects")
        ∷ []
      else [])
    ++ (if requires_secret r.require
        then finding "field-require-on-secret" (
            "rule "
            ⧺ quote r.id
            ⧺ ": field-level require on a Secret is not allowed (it would grade secret contents)")
          ∷ []
        else [])

unfoldable pub lint_rules : List Rule → List Finding
lint_rules [] = []
lint_rules (r ∷ rs) = lint_rule r ++ lint_rules rs

unfoldable pub lint : Texts → Challenge → List Finding
unfolding lint_objectives lint_rules
lint texts c =
    (if ltb (length c.hints) min_hints
      then finding "min-hints" (
          "challenge has "
          ⧺ texts.show_int (length c.hints)
          ⧺ " hint(s); at least "
          ⧺ texts.show_int min_hints
          ⧺ " progressive hint is required")
        ∷ []
      else [])
    ++ (lint_objectives texts c.objectives ++ lint_rules c.rules)

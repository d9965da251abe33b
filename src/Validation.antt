-- ===== src/Validation.antt =====
-- `validate` of apis/challenge/v1alpha1/validation.go: whether a check is a well-formed union.
pub mod Laws
pub mod Cycle
pub mod Document
use kubedrill.Shared.{
  ℕ, ◌+◌, String, Bool, true, false, not, Option, none, some, ◌==◌, is_some, nat_eq, if◌then◌else◌,
  ◌⧺◌,
}
use kubedrill.Shared.Int.{Int64}
use kubedrill.Challenge.{Check, check, Checks, nil, cons, any_of, no_leaves}

abbrev pub b2i : Bool → ℕ
b2i true = 1
b2i false = 0

-- `show` is `%d`. The error's text, or none.
module _ (show : Int64 → String) where
  -- One round of the loop over the leaves: the leaf's problem, or those of the later leaves.
  abbrev pub located : ℕ → Option String → Option String → Option String
  located k (some e) later = some ("anyOf[" ⧺ show k ⧺ "]: " ⧺ e)
  located k none later = later

  abbrev count_problem : ℕ → Option String → Option String
  count_problem n rest =
      if not (nat_eq n 1)
      then some ("exactly one of match|cel|probe|anyOf required, got " ⧺ show n)
      else rest

  unfoldable mutual
    pub validate : Check → Option String
    validate (check m cel probe leaves poll t ts) =
        let rest = validate_leaves 0 leaves in
        count_problem
          (b2i (is_some m)
            + b2i (not (cel == ""))
            + b2i (is_some probe)
            + b2i (not (no_leaves leaves)))
          rest

    pub validate_leaves : ℕ → Checks → Option String
    validate_leaves k nil = none
    validate_leaves k (cons leaf leaves) =
        let rest = validate_leaves (k + 1) leaves in
        let problem = validate leaf in
        if not (no_leaves (any_of leaf))
        then some
            ("anyOf[" ⧺ show k ⧺ "]: nesting anyOf inside anyOf is not allowed (one level only)")
        else located k problem rest

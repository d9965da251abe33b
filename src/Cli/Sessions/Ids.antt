-- ===== src/Cli/Sessions/Ids.antt =====
-- Boolean disjunctions, and the places of equal ids.
use mathlib.Core.Bool.{false≢true}
use kubedrill.Shared.{
  String, Bool, true, false, ◌||◌, List, ◌==◌, ◌≡◌, refl, sym, ap, ◌∙◌, eq_iff, Bool-cases, inl,
  inr,
}
use kubedrill.Rules.Grade.{contains}

pub or_false_left : (a b : Bool) → (a || b) ≡ false → a ≡ false
or_false_left true b h = cc
or_false_left false b h = refl

pub or_false_right : (a b : Bool) → (a || b) ≡ false → b ≡ false
or_false_right true b h = cc
or_false_right false b h = h

pub or_true_left : (a b : Bool) → (a || b) ≡ true → b ≡ false → a ≡ true
or_true_left true b h k = refl
or_true_left false b h k = cc

pub or_true_right : (a b : Bool) → (a || b) ≡ true → a ≡ false → b ≡ true
or_true_right true b h k = cc
or_true_right false b h k = h

-- Equal ids have the same place in a list.
pub contains_same :
    (ss : List String) (i j : String) → (i == j) ≡ true → contains ss i ≡ contains ss j
contains_same ss i j e = ap (contains ss) ((eq_iff i j).0 e)

pub ne_of_contains :
    (ss : List String) (i j : String)
    → contains ss i ≡ false
    → contains ss j ≡ true
    → (i == j) ≡ false
ne_of_contains ss i j a b = elim (Bool-cases (i == j)) [
  | inl e ↦ absurd (false≢true (sym a ∙ (contains_same ss i j e ∙ b)))
  | inr e ↦ e
]

pub ne_of_contains_not :
    (ss : List String) (i j : String)
    → contains ss i ≡ true
    → contains ss j ≡ false
    → (i == j) ≡ false
ne_of_contains_not ss i j a b = elim (Bool-cases (i == j)) [
  | inl e ↦ absurd (false≢true (sym b ∙ (sym (contains_same ss i j e) ∙ a)))
  | inr e ↦ e
]

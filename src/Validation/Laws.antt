-- ===== src/Validation/Laws.antt =====
-- Which checks `validate` of apis/challenge/v1alpha1/validation.go accepts.
use mathlib.Core.Option.{none-ne-some}
use mathlib.Core.Bool.{false≢true}
use kubedrill.Shared.{
  ℕ, ◌+◌, String, ◌≡◌, ◌≢◌, ◌↔◌, refl, sym, subst, ◌∙◌, Option-cases, inl, inr, true, Option, none,
  some, ◌==◌, eq_iff, Bool-cases,
}
use kubedrill.Shared.Int.{Int64}
use kubedrill.Challenge.{
  Check, check, Checks, nil, cons, any_of, no_leaves, MatchCheck, Probe, Poll, Target, Targets,
}
use kubedrill.Validation.{validate, validate_leaves}

-- A check with one of match, cel and probe, and nothing else that asserts.
pub data IsSingle : Check → Type 0 where
  by_match :
      (m : MatchCheck) (poll : Option Poll) (t : Option Target) (ts : Option Targets)
      → IsSingle (check (some m) "" none nil poll t ts)
  by_cel :
      (cel : String) (poll : Option Poll) (t : Option Target) (ts : Option Targets)
      → cel ≢ ""
      → IsSingle (check none cel none nil poll t ts)
  by_probe :
      (p : Probe) (poll : Option Poll) (t : Option Target) (ts : Option Targets)
      → IsSingle (check none "" (some p) nil poll t ts)

abbrev pub AllSingle : Checks → Type 0
AllSingle nil = Unit
AllSingle (cons leaf leaves) = IsSingle leaf × AllSingle leaves

-- A well-formed check: a single assertion, or a choice among at least one of them.
pub data IsUnion : Check → Type 0 where
  single : (ch : Check) → IsSingle ch → IsUnion ch
  choice :
      (leaf : Check) (leaves : Checks) (poll : Option Poll) (t : Option Target)
      (ts : Option Targets)
      → AllSingle (cons leaf leaves)
      → IsUnion (check none "" none (cons leaf leaves) poll t ts)

some_none : {A : Type 0} {s : String} → some s ≡ none → A
some_none e = absurd (none-ne-some _ (sym e))

module _ (show : Int64 → String) where
  IsSingle-of :
      (m : Option MatchCheck) (cel : String) (p : Option Probe) (poll : Option Poll)
      (t : Option Target) (ts : Option Targets)
      → validate show (check m cel p nil poll t ts) ≡ none
      → IsSingle (check m cel p nil poll t ts)
  unfolding validate validate_leaves
  IsSingle-of none cel none poll t ts h = elim (Bool-cases (cel == "")) [
    | inl e ↦ some_none (rw (e, validate) at h)
    | inr n ↦
        IsSingle.by_cel cel poll t ts
          (λ blank. absurd (false≢true (sym n ∙ (eq_iff cel "").1 blank)))
  ]
  IsSingle-of (some m) cel none poll t ts h = elim (Bool-cases (cel == "")) [
    | inl e ↦
        subst (λ c. IsSingle (check (some m) c none nil poll t ts)) (sym ((eq_iff cel "").0 e))
          (IsSingle.by_match m poll t ts)
    | inr n ↦ some_none (rw (n, validate) at h)
  ]
  IsSingle-of none cel (some p) poll t ts h = elim (Bool-cases (cel == "")) [
    | inl e ↦
        subst (λ c. IsSingle (check none c (some p) nil poll t ts)) (sym ((eq_iff cel "").0 e))
          (IsSingle.by_probe p poll t ts)
    | inr n ↦ some_none (rw (n, validate) at h)
  ]
  IsSingle-of (some m) cel (some p) poll t ts h = elim (Bool-cases (cel == "")) [
    | inl e ↦ some_none (rw (e, validate) at h)
    | inr n ↦ some_none (rw (n, validate) at h)
  ]

  IsSingle-validates :
      (ch : Check) → IsSingle ch → (validate show ch ≡ none) × (no_leaves (any_of ch) ≡ true)
  unfolding validate validate_leaves
  IsSingle-validates _ (IsSingle.by_match m poll t ts) = (refl, refl)
  IsSingle-validates _ (IsSingle.by_cel cel poll t ts n) = elim (Bool-cases (cel == "")) [
    | inl e ↦ absurd (n ((eq_iff cel "").0 e))
    | inr e ↦ (rw (e, validate) refl, refl)
  ]
  IsSingle-validates _ (IsSingle.by_probe p poll t ts) = (refl, refl)

  all_single : (k : ℕ) (leaves : Checks) → validate_leaves show k leaves ≡ none → AllSingle leaves
  unfolding validate_leaves
  all_single k nil h = tt
  all_single k (cons (check m cel p (cons l ls) poll t ts) leaves) h = some_none h
  all_single k (cons (check m cel p nil poll t ts) leaves) h =
      elim (Option-cases (validate show (check m cel p nil poll t ts))) [
        | inl q ↦ (
          IsSingle-of m cel p poll t ts q,
          all_single (k + 1) leaves (rw (q, validate_leaves) at h),
        )
        | inr (e, q) ↦ some_none (rw (q, validate_leaves) at h)
      ]

  all_validate : (k : ℕ) (leaves : Checks) → AllSingle leaves → validate_leaves show k leaves ≡ none
  unfolding validate_leaves
  all_validate k nil a = refl
  all_validate k (cons leaf leaves) (one, rest) =
      let (fine, flat) = IsSingle-validates leaf one in
      rw (flat, fine, validate_leaves) (all_validate (k + 1) leaves rest)

  IsUnion-of : (ch : Check) → validate show ch ≡ none → IsUnion ch
  unfolding validate
  IsUnion-of (check m cel p nil poll t ts) h = IsUnion.single _ (IsSingle-of m cel p poll t ts h)
  IsUnion-of (check none cel none (cons l ls) poll t ts) h = elim (Bool-cases (cel == "")) [
    | inl e ↦
        subst (λ c. IsUnion (check none c none (cons l ls) poll t ts)) (sym ((eq_iff cel "").0 e))
          (IsUnion.choice l ls poll t ts (all_single 0 (cons l ls) (rw (e, validate) at h)))
    | inr n ↦ some_none (rw (n, validate) at h)
  ]
  IsUnion-of (check (some m) cel none (cons l ls) poll t ts) h = elim (Bool-cases (cel == "")) [
    | inl e ↦ some_none (rw (e, validate) at h)
    | inr n ↦ some_none (rw (n, validate) at h)
  ]
  IsUnion-of (check none cel (some p) (cons l ls) poll t ts) h = elim (Bool-cases (cel == "")) [
    | inl e ↦ some_none (rw (e, validate) at h)
    | inr n ↦ some_none (rw (n, validate) at h)
  ]
  IsUnion-of (check (some m) cel (some p) (cons l ls) poll t ts) h = elim (Bool-cases (cel == "")) [
    | inl e ↦ some_none (rw (e, validate) at h)
    | inr n ↦ some_none (rw (n, validate) at h)
  ]

  IsUnion-validates : (ch : Check) → IsUnion ch → validate show ch ≡ none
  unfolding validate
  IsUnion-validates ch (IsUnion.single _ one) = (IsSingle-validates ch one).0
  IsUnion-validates _ (IsUnion.choice l ls poll t ts all) = all_validate 0 (cons l ls) all

  -- A check is accepted exactly if it is a well-formed union: it has exactly one of match, cel, probe
  -- and anyOf, and every leaf of an anyOf has exactly one of match, cel and probe.
  pub validate_iff : (ch : Check) → (validate show ch ≡ none) ↔ IsUnion ch
  validate_iff ch = (IsUnion-of ch, IsUnion-validates ch)

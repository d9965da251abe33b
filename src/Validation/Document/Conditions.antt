-- ===== src/Validation/Document/Conditions.antt =====
-- What the tests of `Validate` say.
use mathlib.Core.Bool.{false≢true}
use kubedrill.Shared.{
  ◌+◌, String, ◌≡◌, ◌≢◌, refl, sym, ◌∙◌, subst, ◌↔◌, inl, inr, Bool, true, false, not, ◌&&◌, Option,
  none, some, List, [], ◌∷◌, Memᴰ, ◌==◌, eq_iff, arith, Bool-cases, is_some, is_empty, nat_eq,
  mem_of_any, any_of_mem, mem-cons_cases,
}
use kubedrill.Rules.Grade.{contains}
use kubedrill.Validation.{b2i}
use kubedrill.Validation.Document.Valid.{OneOf, Distinct}

abbrev pub Empty : List String → Type 0
Empty errs = is_empty errs ≡ true

-- A test that has to fail.
pub not_iff : (s t : String) → (not (s == t) ≡ false) ↔ (s ≡ t)
not_iff s t = ((λ h. (eq_iff s t).0 (ground arith)), (λ e. rw ((eq_iff s t).1 e) refl))

pub nonempty_iff : {A : Type 0} (xs : List A) → (is_empty xs ≡ false) ↔ (xs ≢ [])
nonempty_iff [] = ((λ h. absurd (false≢true (sym h))), (λ n. absurd (n refl)))
nonempty_iff (x ∷ xs) = ((λ _ e. cc), (λ _. refl))

-- A test `a && not b` and a test `a && b` that have to fail.
pub unless_not_iff : (a b : Bool) → ((a && not b) ≡ false) ↔ (a ≡ true → b ≡ true)
unless_not_iff true true = ((λ _ _. refl), (λ _. refl))
unless_not_iff true false =
    ((λ h. absurd (false≢true (sym h))), (λ h. absurd (false≢true (h refl))))
unless_not_iff false b = ((λ _ h. absurd (false≢true h)), (λ _. refl))

pub OneOf-iff :
    {A B C : Type 0} (a : Option A) (b : Option B) (c : Option C)
    → (not (nat_eq (b2i (is_some a) + b2i (is_some b) + b2i (is_some c)) 1) ≡ false) ↔ OneOf a b c
OneOf-iff (some a) (some b) (some c) = ((λ h. cc), absurd)
OneOf-iff (some a) (some b) none = ((λ h. cc), absurd)
OneOf-iff (some a) none (some c) = ((λ h. cc), absurd)
OneOf-iff (some a) none none = ((λ _. tt), (λ _. refl))
OneOf-iff none (some b) (some c) = ((λ h. cc), absurd)
OneOf-iff none (some b) none = ((λ _. tt), (λ _. refl))
OneOf-iff none none (some c) = ((λ _. tt), (λ _. refl))
OneOf-iff none none none = ((λ h. cc), absurd)

pub contains_iff : (xs : List String) (x : String) → (contains xs x ≡ true) ↔ Memᴰ x xs
contains_iff xs x = (
  (λ h.
      let (y, m, same) = mem_of_any (λ y. y == x) xs h in
      subst (λ z. Memᴰ z xs) ((eq_iff y x).0 same) m),
  (λ m. any_of_mem (λ y. y == x) x xs m ((eq_iff x x).1 refl)),
)

pub fresh_iff : (xs : List String) (x : String) → (contains xs x ≡ false) ↔ (¬ Memᴰ x xs)
fresh_iff xs x = (
  (λ h m. false≢true (sym h ∙ (contains_iff xs x).1 m)),
  (λ n. elim (Bool-cases (contains xs x)) [
    | inl e ↦ absurd (n ((contains_iff xs x).0 e))
    | inr e ↦ e
  ]),
)

pub listed_iff : (xs : List String) (x : String) → (not (contains xs x) ≡ false) ↔ Memᴰ x xs
listed_iff xs x =
    let (to, from) = contains_iff xs x in ((λ h. to (ground arith)), (λ m. rw (from m) refl))

-- No value stands twice or in `seen`.
abbrev pub New : List String → List String → Type 0
New seen [] = Unit
New seen (x ∷ xs) = (¬ Memᴰ x seen) × New (x ∷ seen) xs

pub New-apart :
    (seen xs : List String) → New seen xs → ((x : String) → Memᴰ x xs → ¬ Memᴰ x seen) × Distinct xs
New-apart seen [] n = ((λ x m. elim m [ ]), tt)
New-apart seen (x ∷ xs) (fresh, rest) =
    let (apart, distinct) = New-apart (x ∷ seen) xs rest in
    (
      (λ y m. elim (mem-cons_cases m) [
        | inl e ↦ rw e fresh
        | inr t ↦ λ i. apart y t (Memᴰ.tail i)
      ]),
      ((λ m. apart x m (Memᴰ.head refl)), distinct),
    )

pub apart-New :
    (seen xs : List String) → ((x : String) → Memᴰ x xs → ¬ Memᴰ x seen) → Distinct xs → New seen xs
apart-New seen [] apart d = tt
apart-New seen (x ∷ xs) apart (once, d) = (
  apart x (Memᴰ.head refl),
  apart-New (x ∷ seen) xs
      (λ y m i. elim (mem-cons_cases i) [
        | inl e ↦ once (subst (λ z. Memᴰ z xs) e m)
        | inr t ↦ apart y (Memᴰ.tail m) t
      ])
      d,
)

pub New-Distinct : (xs : List String) → New [] xs ↔ Distinct xs
New-Distinct xs = ((λ n. (New-apart [] xs n).1), apart-New [] xs (λ x m i. elim i [ ]))

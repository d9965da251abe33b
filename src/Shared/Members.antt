-- ===== src/Shared/Members.antt =====
-- Membership in a list, with the place kept, and what the Boolean loops say of it.
use mathlib.Core.Path.{◌≡◌, refl, sym, ap, ◌∙◌, subst}
use mathlib.Core.Logic.{◌⊎◌, inl, inr, ◌≢◌, ◌↔◌}
use mathlib.Core.Bool.{Bool, true, false, not, ◌&&◌, false≢true}
use mathlib.Core.List.{List, [], ◌∷◌, ◌++◌, Memᴰ}
use native.Mathlib.Omega.{arith}
use Prim.Native.String.{String}
use text.Mathlib.Text.{◌==◌}
use text.Mathlib.TextEquality.{eq_iff}
use package.kubedrill.Shared.Tests.{Bool-cases, if◌then◌else◌}
use package.kubedrill.Shared.Lists.{filter, any, is_empty}

module _ {ℓ} {A : Type ℓ} where
  pub mem-append_left : {a : A} {xs : List A} (ys : List A) → Memᴰ a xs → Memᴰ a (xs ++ ys)
  mem-append_left ys (Memᴰ.head e) = Memᴰ.head e
  mem-append_left ys (Memᴰ.tail m) = Memᴰ.tail (mem-append_left ys m)

  pub mem-append_right : {a : A} (xs : List A) {ys : List A} → Memᴰ a ys → Memᴰ a (xs ++ ys)
  mem-append_right [] m = m
  mem-append_right (x ∷ xs) m = Memᴰ.tail (mem-append_right xs m)

  pub mem-append_cases :
      {a : A} (xs : List A) {ys : List A} → Memᴰ a (xs ++ ys) → Memᴰ a xs ⊎ Memᴰ a ys
  mem-append_cases [] m = inr m
  mem-append_cases (x ∷ xs) (Memᴰ.head e) = inl (Memᴰ.head e)
  mem-append_cases (x ∷ xs) (Memᴰ.tail m) = elim (mem-append_cases xs m) [
    | inl l ↦ inl (Memᴰ.tail l)
    | inr r ↦ inr r
  ]

  pub mem-cons_cases : {a x : A} {xs : List A} → Memᴰ a (x ∷ xs) → (a ≡ x) ⊎ Memᴰ a xs
  mem-cons_cases (Memᴰ.head e) = inl e
  mem-cons_cases (Memᴰ.tail m) = inr m

  pub is_empty→nil : (xs : List A) → is_empty xs ≡ true → xs ≡ []
  is_empty→nil [] h = refl
  is_empty→nil (x ∷ xs) h = cc

  pub first_of_nonempty : (xs : List A) → is_empty xs ≡ false → (a : A) × Memᴰ a xs
  first_of_nonempty [] h = cc
  first_of_nonempty (x ∷ xs) h = (x, Memᴰ.head refl)

  pub nil_of_no_mem : (xs : List A) → ((a : A) → ¬ Memᴰ a xs) → xs ≡ []
  nil_of_no_mem [] h = refl
  nil_of_no_mem (x ∷ xs) h = absurd (h x (Memᴰ.head refl))

  pub not_mem_of_nil : {xs : List A} {a : A} → xs ≡ [] → ¬ Memᴰ a xs
  not_mem_of_nil e m = absurd_mem (subst (Memᴰ _) e m)
    where
      absurd_mem : {a : A} → Memᴰ a [] → ⊥
      absurd_mem m = elim m [ ]

  pub nonempty_of_mem : {a : A} (xs : List A) → Memᴰ a xs → is_empty xs ≡ false
  nonempty_of_mem [] m = elim m [ ]
  nonempty_of_mem (x ∷ xs) m = refl

  module _ (p : A → Bool) where
    pub filter_keeps : (a : A) (xs : List A) → Memᴰ a xs → p a ≡ true → Memᴰ a (filter p xs)
    filter_keeps a [] m h = elim m [ ]
    filter_keeps a (x ∷ xs) (Memᴰ.head e) h = rw (ap p (sym e) ∙ h) (Memᴰ.head e)
    filter_keeps a (x ∷ xs) (Memᴰ.tail m) h = elim (Bool-cases (p x)) [
      | inl yes_x ↦ rw yes_x (Memᴰ.tail (filter_keeps a xs m h))
      | inr no_x ↦ rw no_x (filter_keeps a xs m h)
    ]

    pub filter_mem : (a : A) (xs : List A) → Memᴰ a (filter p xs) → Memᴰ a xs × (p a ≡ true)
    filter_mem a [] m = elim m [ ]
    filter_mem a (x ∷ xs) m = elim (Bool-cases (p x)) [
      | inl yes_x ↦ elim (mem-cons_cases (rw yes_x at m)) [
        | inl e ↦ (Memᴰ.head e, rw e yes_x)
        | inr t ↦ let (l, h) = filter_mem a xs t in (Memᴰ.tail l, h)
      ]
      | inr no_x ↦ let (l, h) = filter_mem a xs (rw no_x at m) in (Memᴰ.tail l, h)
    ]

    pub any_of_mem : (a : A) (xs : List A) → Memᴰ a xs → p a ≡ true → any p xs ≡ true
    any_of_mem a [] m h = elim m [ ]
    any_of_mem a (x ∷ xs) (Memᴰ.head e) h = rw (ap p (sym e) ∙ h)
    any_of_mem a (x ∷ xs) (Memᴰ.tail m) h = ground (arith, any_of_mem a xs m h)

    pub mem_of_any : (xs : List A) → any p xs ≡ true → (a : A) × Memᴰ a xs × (p a ≡ true)
    mem_of_any [] h = cc
    mem_of_any (x ∷ xs) h = elim (Bool-cases (p x)) [
      | inl here ↦ (x, Memᴰ.head refl, here)
      | inr no_x ↦ let (a, m, q) = mem_of_any xs (rw no_x at h) in (a, Memᴰ.tail m, q)
    ]

    pub nothing_left :
        (xs : List A) → ((a : A) → Memᴰ a xs → p a ≢ true) → is_empty (filter p xs) ≡ true
    nothing_left xs none_passes = elim (Bool-cases (is_empty (filter p xs))) [
      | inl e ↦ e
      | inr e ↦
          let (a, m) = first_of_nonempty (filter p xs) e in
          let (l, h) = filter_mem a xs m in absurd (none_passes a l h)
    ]

    pub passes_if_left :
        (xs : List A) → is_empty (filter p xs) ≡ false → (a : A) × Memᴰ a xs × (p a ≡ true)
    passes_if_left xs e =
        let (a, m) = first_of_nonempty (filter p xs) e in
        let (l, h) = filter_mem a xs m in (a, l, h)

    pub left_if_passes :
        (a : A) (xs : List A) → Memᴰ a xs → p a ≡ true → is_empty (filter p xs) ≡ false
    left_if_passes a xs m h = nonempty_of_mem (filter p xs) (filter_keeps a xs m h)

-- Two lists that are reported one after the other.
pub both_empty :
    {A P Q : Type 0} (xs ys : List A)
    → (is_empty xs ≡ true) ↔ P
    → (is_empty ys ≡ true) ↔ Q
    → (is_empty (xs ++ ys) ≡ true) ↔ (P × Q)
both_empty [] ys (to, _) (to', from') = ((λ h. (to refl, to' h)), (λ (_, q). from' q))
both_empty (x ∷ xs) ys (_, from) _ =
    ((λ h. absurd (false≢true h)), (λ (p, _). absurd (false≢true (from p))))

-- Nothing is reported if the test for it is false.
pub empty_if :
    {A P : Type 0} (b : Bool) (x : A)
    → (b ≡ false) ↔ P
    → (is_empty (if b then x ∷ [] else []) ≡ true) ↔ P
empty_if true x (_, from) =
    ((λ h. absurd (false≢true h)), (λ p. absurd (false≢true (sym (from p)))))
empty_if false x (to, _) = ((λ _. to refl), (λ _. refl))

pub blank_iff : (s : String) → (not (s == "") ≡ false) ↔ (s ≡ "")
blank_iff s = ((λ h. (eq_iff s "").0 (ground arith)), (λ e. rw e refl))

pub unless_iff : (a b : Bool) → ((a && b) ≡ false) ↔ (a ≡ true → b ≡ false)
unless_iff true b = ((λ h _. h), (λ h. h refl))
unless_iff false b = ((λ _ h. absurd (false≢true h)), (λ _. refl))

pub ne_iff : (s t : String) → ((s == t) ≡ false) ↔ (s ≢ t)
ne_iff s t = (
  (λ h e. false≢true (sym h ∙ (eq_iff s t).1 e)),
  (λ n. elim (Bool-cases (s == t)) [ inl e ↦ absurd (n ((eq_iff s t).0 e)) | inr e ↦ e ]),
)

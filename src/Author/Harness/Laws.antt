-- ===== src/Author/Harness/Laws.antt =====
-- When the negative phase of internal/author/harness.go passes.
use kubedrill.Shared.{
  both_empty, ◌≡◌, ◌≢◌, ◌⊎◌, ◌↔◌, ◌==◌, ◌∙◌, refl, sym, ap, eq_iff, ne_iff, if◌then◌else◌, String,
  true, false, List, [], ◌∷◌, is_empty, inl, inr, Bool-cases, All, arith,
}
use kubedrill.Shared.Int.{Int64}
use kubedrill.Challenge.{Challenge, Objective}
use kubedrill.Verify.Score.{ObjectiveResult, Scorecard}
use kubedrill.Author.Harness.{vacuity_of, vacuities, no_result, by_id_from, by_id, negative_phase}

-- No result of the list is for the id.
abbrev pub NoneFor : String → List ObjectiveResult → Type 0
NoneFor id rs = All (λ (r : ObjectiveResult). r.id ≢ id) rs

-- The last result of the list that is for the id.
abbrev pub LastFor : String → ObjectiveResult → List ObjectiveResult → Type 0
LastFor id r [] = ⊥
LastFor id r (x ∷ xs) = LastFor id r xs ⊎ ((x ≡ r) × (x.id ≡ id) × NoneFor id xs)

-- The contract of one objective: on the fresh environment it passes exactly if it is marked so. An
-- objective without a result did not pass.
abbrev pub Behaves : Scorecard → Objective → Type 0
Behaves card o =
    ((r : ObjectiveResult) × LastFor o.id r card.objectives
      × (r.passed ≡ o.expect_initially_passing))
    ⊎ (NoneFor o.id card.objectives × (o.expect_initially_passing ≡ false))

by_id_from-none :
    (found : ObjectiveResult) (id : String) (rs : List ObjectiveResult)
    → NoneFor id rs
    → by_id_from found id rs ≡ found
by_id_from-none found id [] n = refl
by_id_from-none found id (r ∷ rs) (n, ns) =
    rw ((ne_iff r.id id).1 n) (by_id_from-none found id rs ns)

by_id_from-last :
    (found : ObjectiveResult) (id : String) (r : ObjectiveResult) (rs : List ObjectiveResult)
    → LastFor id r rs
    → by_id_from found id rs ≡ r
by_id_from-last found id r [] l = absurd l
by_id_from-last found id r (x ∷ xs) (inl l) =
    by_id_from-last (if x.id == id then x else found) id r xs l
by_id_from-last found id r (x ∷ xs) (inr (same, e, n)) =
    by_id_from-none (if x.id == id then x else found) id xs n ∙ (rw ((eq_iff x.id id).1 e) same)

-- Either some result is the last one for the id, or none is for it.
last_or_none :
    (id : String) (rs : List ObjectiveResult)
    → ((r : ObjectiveResult) × LastFor id r rs) ⊎ NoneFor id rs
last_or_none id [] = inr tt
last_or_none id (x ∷ xs) = elim (last_or_none id xs) [
  | inl (r, l) ↦ inl (r, inl l)
  | inr n ↦ elim (Bool-cases (x.id == id)) [
    | inl e ↦ inl (x, inr (refl, (eq_iff x.id id).0 e, n))
    | inr e ↦ inr ((ne_iff x.id id).0 e, n)
  ]
]

Behaves-iff :
    (card : Scorecard) (o : Objective)
    → ((by_id card o.id).passed ≡ o.expect_initially_passing) ↔ Behaves card o
Behaves-iff card o = (
  (λ h. elim (last_or_none o.id card.objectives) [
    | inl (r, l) ↦
        inl
          (r, l, ap (λ x. x.passed) (sym (by_id_from-last no_result o.id r card.objectives l)) ∙ h)
    | inr n ↦
        inr
          (n, sym (ap (λ x. x.passed) (sym (by_id_from-none no_result o.id card.objectives n)) ∙ h))
  ]),
  (λ b. elim b [
    | inl (r, l, e) ↦ ap (λ x. x.passed) (by_id_from-last no_result o.id r card.objectives l) ∙ e
    | inr (n, e) ↦ ap (λ x. x.passed) (by_id_from-none no_result o.id card.objectives n) ∙ sym e
  ]),
)

vacuity_of_iff :
    (o : Objective) (r : ObjectiveResult)
    → (is_empty (vacuity_of o r) ≡ true) ↔ (r.passed ≡ o.expect_initially_passing)
unfolding vacuity_of
vacuity_of_iff o r = elim (Bool-cases o.expect_initially_passing) [
  | inl e ↦ elim (Bool-cases r.passed) [
    | inl p ↦ rw (e, p, vacuity_of) ((λ _. refl), (λ _. refl))
    | inr p ↦ rw (e, p, vacuity_of) ((λ h. h), (λ h. h))
  ]
  | inr e ↦ elim (Bool-cases r.passed) [
    | inl p ↦ rw (e, p, vacuity_of) ((λ h. ground arith), (λ h. ground arith))
    | inr p ↦ rw (e, p, vacuity_of) ((λ _. refl), (λ _. refl))
  ]
]

vacuities_iff :
    (card : Scorecard) (os : List Objective)
    → (is_empty (vacuities card os) ≡ true) ↔ All (Behaves card) os
unfolding vacuities
vacuities_iff card [] = ((λ _. tt), (λ _. refl))
vacuities_iff card (o ∷ os) =
    both_empty _ _
      (
        (λ h. (Behaves-iff card o).0 ((vacuity_of_iff o (by_id card o.id)).0 h)),
        (λ h. (vacuity_of_iff o (by_id card o.id)).1 ((Behaves-iff card o).1 h)),
      )
      (vacuities_iff card os)

-- The negative phase passes exactly if every objective of the challenge behaves on the fresh
-- environment: the last result of the card for its id is passed if and only if the objective is marked
-- as initially passing, and an objective without a result is not marked so.
pub negative_phase_iff :
    (show : Int64 → String) (ch : Challenge) (card : Scorecard)
    → ((negative_phase show ch card).passed ≡ true) ↔ All (Behaves card) ch.objectives
unfolding negative_phase
negative_phase_iff show ch card = vacuities_iff card ch.objectives

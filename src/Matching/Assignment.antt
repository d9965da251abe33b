-- ===== src/Matching/Assignment.antt =====
-- The backtracking loop finds an assignment to unused objects whenever there is one.
use mathlib.Core.List.{append_assoc}
use kubedrill.Shared.{
  ◌≡◌, refl, sym, ap, ◌∙◌, inl, inr, Bool, true, false, List, [], ◌∷◌, ◌++◌, arith, Bool-cases, map,
}
use kubedrill.Matching.{try_from}
use kubedrill.Matching.Relation.{Picks}

module _ {A : Type 0} where
  -- The objects that are not used.
  abbrev pub free : List A → List Bool → List A
  free [] used = []
  free (o ∷ os) [] = []
  free (o ∷ os) (true ∷ us) = free os us
  free (o ∷ os) (false ∷ us) = o ∷ free os us

  pub free_of_unused : (os : List A) → free os (map (λ _. false) os) ≡ os
  free_of_unused [] = refl
  free_of_unused (o ∷ os) = ap (◌∷◌ o) (free_of_unused os)

  -- What the loop finds: an unused object that is accepted, and the flags with it marked.
  abbrev pub Found : (A → Bool) → (List Bool → Bool) → List A → List Bool → List Bool → Type 0
  Found accepts next os before used =
      (o : A) × (after : List Bool) × Picks o (free os used) (free os after)
      × (accepts o ≡ true)
      × (next (before ++ after) ≡ true)

  module _ (accepts : A → Bool) (next : List Bool → Bool) where
    Found-cons :
        (x : A) (os : List A) (before : List Bool) (u : Bool) (us : List Bool)
        → Found accepts next os (before ++ u ∷ []) us
        → Found accepts next (x ∷ os) before (u ∷ us)
    Found-cons x os before true us (o, after, p, a, n) =
        (o, true ∷ after, p, a, rw append_assoc at n)
    Found-cons x os before false us (o, after, p, a, n) =
        (o, false ∷ after, inr (free os after, refl, p), a, rw append_assoc at n)

    pub try_from_sound :
        (os : List A) (before used : List Bool)
        → try_from accepts next os before used ≡ true
        → Found accepts next os before used
    unfolding try_from
    try_from_sound [] before used h = cc
    try_from_sound (o ∷ os) before [] h = cc
    try_from_sound (o ∷ os) before (true ∷ us) h =
        Found-cons o os before true us (try_from_sound os (before ++ true ∷ []) us h)
    try_from_sound (o ∷ os) before (false ∷ us) h = elim (Bool-cases (accepts o)) [
      | inr no_match ↦
          Found-cons o os before false us
            (try_from_sound os (before ++ false ∷ []) us (rw no_match at h))
      | inl match ↦ elim (Bool-cases (next (before ++ true ∷ us))) [
        | inl done ↦ (o, true ∷ us, inl (refl, refl), match, done)
        | inr stuck ↦
            Found-cons o os before false us
              (try_from_sound os (before ++ false ∷ []) us (ground arith))
      ]
    ]

    pub try_from_complete :
        (os : List A) (before used : List Bool) (o : A) (rest : List A)
        → Picks o (free os used) rest
        → accepts o ≡ true
        → ((after : List Bool) → free os after ≡ rest → next (before ++ after) ≡ true)
        → try_from accepts next os before used ≡ true
    unfolding try_from
    try_from_complete [] before used o rest p a k = absurd p
    try_from_complete (x ∷ os) before [] o rest p a k = absurd p
    try_from_complete (x ∷ os) before (true ∷ us) o rest p a k =
        try_from_complete os (before ++ true ∷ []) us o rest p a
          (λ after e. rw append_assoc (k (true ∷ after) e))
    try_from_complete (x ∷ os) before (false ∷ us) o rest (inl (same, e)) a k =
        rw (← same, a, k (true ∷ us) (sym e)) refl
    try_from_complete (x ∷ os) before (false ∷ us) o rest (inr (r, e, p)) a k =
        let later =
          try_from_complete os (before ++ false ∷ []) us o r p a
            (λ after f. rw append_assoc (k (false ∷ after) (ap (◌∷◌ x) f ∙ sym e))) in
        ground (arith, later)

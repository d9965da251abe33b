-- ===== src/Verify/Score/Conjunction.antt =====
-- `evalObjective` and `evalObjectiveDirect` of internal/verify/score.go: one objective's verdict.
use kubedrill.Shared.{◌≡◌, refl, inl, inr, ◌⊎◌, List, [], ◌∷◌}
use kubedrill.Shared.State.{M}
use kubedrill.Challenge.{Check}
use kubedrill.Verify.Outcome.{Outcome, pass, fail, errored, CheckResult, is_pass, is_errored}
use kubedrill.Verify.Score.{eval_all}

Outcome-cases : (o : Outcome) → (o ≡ pass) ⊎ ((o ≡ fail) ⊎ (o ≡ errored))
Outcome-cases pass = inl refl
Outcome-cases fail = inr (inl refl)
Outcome-cases errored = inr (inr refl)

abbrev or_later : CheckResult → Outcome → Outcome
or_later r later = elim r.outcome [ pass ↦ later | fail ↦ fail | errored ↦ errored ]

-- The first outcome that is not a pass, or pass.
abbrev pub first_other : List CheckResult → Outcome
first_other [] = pass
first_other (r ∷ rs) = or_later r (first_other rs)

module _ {W : Type 0} (eval : Check → M W CheckResult) where
  -- The results of all checks, each evaluated in the world that the one before it left.
  abbrev pub results : List Check → W → List CheckResult
  results [] w = []
  results (ch ∷ chs) w = let (r, w') = eval ch w in r ∷ results chs w'

  -- The checks of an objective are a conjunction that stops at the first check that does not pass:
  -- the objective passes exactly if all of them pass, and it is errored exactly if the first that
  -- does not pass errors; a failure before an error is a failure.
  pub eval_all_outcome :
      (chs : List Check) (w : W)
      → let v = (eval_all eval chs w).0 in
        (v.passed ≡ is_pass (first_other (results chs w)))
        × (v.errored ≡ is_errored (first_other (results chs w)))
  unfolding eval_all
  eval_all_outcome [] w = (refl, refl)
  eval_all_outcome (ch ∷ chs) w = elim (Outcome-cases (eval ch w).0.outcome) [
    | inl e ↦ rw (e, eval_all) (eval_all_outcome chs (eval ch w).1)
    | inr (inl e) ↦ rw (e, eval_all) (refl, refl)
    | inr (inr e) ↦ rw (e, eval_all) (refl, refl)
  ]

-- ===== src/Verify/Score/Passed.antt =====
-- When `AllPassed` holds.
use kubedrill.Shared.{
  ℕ, ◌%◌, ◌≤◌, ◌<◌, String, ◌≡◌, ◌≢◌, refl, ◌↔◌, true, ◌&&◌, List, [], ◌∷◌, arith, All, nat_eq,
}
use kubedrill.Shared.Int.{int_lt, int_mod, max_int}
use kubedrill.Json.{Float64}
use kubedrill.Challenge.{Challenge, Objective}
use kubedrill.Cluster.{Api}
use kubedrill.Verify.Probe.{Texts}
use kubedrill.Verify.Score.{
  ObjectiveResult, Scorecard, empty_card, settle, evaluate_from, evaluate, poll_check,
}
use kubedrill.Verify.Score.Laws.{
  passed_points, all_points, Answers, IsScored, settle-IsScored, evaluated,
}

-- Every objective has points, and their sum is an int.
pub record HasPoints (os : List Objective) : Type 0 where
  pub positive : All (λ o. 0 < o.points) os
  pub bounded : all_points os ≤ max_int

points_le :
    (os : List Objective) (rs : List ObjectiveResult)
    → Answers os rs
    → passed_points rs ≤ all_points os
points_le [] [] a = omega arith
points_le [] (r ∷ rs) a = absurd a
points_le (o ∷ os) [] a = absurd a
points_le (o ∷ os) (r ∷ rs) (_, _, e, a) = let ih = points_le os rs a in ground arith

every_passed :
    (os : List Objective) (rs : List ObjectiveResult)
    → Answers os rs
    → All (λ o. 0 < o.points) os
    → passed_points rs ≡ all_points os
    → All (λ r. r.passed ≡ true) rs
every_passed [] [] a p e = tt
every_passed [] (r ∷ rs) a p e = absurd a
every_passed (o ∷ os) [] a p e = absurd a
every_passed (o ∷ os) (r ∷ rs) (_, _, same, a) (p, ps) e =
    let below = points_le os rs a in
    let now : r.passed ≡ true = ground arith in
    let later : passed_points rs ≡ all_points os = ground arith in
    (now, every_passed os rs a ps later)

full_sum :
    (os : List Objective) (rs : List ObjectiveResult)
    → Answers os rs
    → All (λ r. r.passed ≡ true) rs
    → passed_points rs ≡ all_points os
full_sum [] [] a h = refl
full_sum [] (r ∷ rs) a h = absurd a
full_sum (o ∷ os) [] a h = absurd a
full_sum (o ∷ os) (r ∷ rs) (_, _, same, a) (h, hs) = let ih = full_sum os rs a hs in ground arith

points_pos : (os : List Objective) → All (λ o. 0 < o.points) os → os ≢ [] → 0 < all_points os
points_pos [] p n = absurd (n refl)
points_pos (o ∷ os) (p, ps) n = omega arith

settled_test :
    (s m p a : ℕ)
    → p ≤ a
    → a ≤ max_int
    → s ≡ p % int_mod
    → m ≡ a % int_mod
    → ((nat_eq s m && int_lt 0 m) ≡ true) ↔ ((p ≡ a) × (0 < a))
settled_test s m p a le bound e f = ((λ h. ground arith), (λ h. ground arith))

no_points : (os : List Objective) → 0 < all_points os → os ≢ []
no_points [] h e = elim h [ ]
no_points (o ∷ os) h e = cc

settled_iff :
    (ch : Challenge) (final : Scorecard)
    → IsScored ch (settle final)
    → HasPoints ch.objectives
    → ((settle final).all_passed ≡ true)
      ↔ ((ch.objectives ≢ []) × All (λ r. r.passed ≡ true) final.objectives)
settled_iff ch final done fine =
    let below = points_le ch.objectives final.objectives done.answers in
    let (to, from) =
      settled_test final.score final.max_score (passed_points final.objectives)
        (all_points ch.objectives) below fine.bounded done.score done.max_score in
    (
      (λ h. (
        no_points ch.objectives (to h).1,
        every_passed ch.objectives final.objectives done.answers fine.positive (to h).0,
      )),
      (λ (n, all). from (
        full_sum ch.objectives final.objectives done.answers all,
        points_pos ch.objectives fine.positive n,
      )),
    )

module _ (fl : Float64) {W : Type 0} (api : Api fl.Float W) (texts : Texts) (dir : String) where
  -- If every objective has points, and their sum is below 2 ^ 63, then `AllPassed` holds exactly when
  -- there is an objective and every objective passed.
  pub evaluate-all_passed_iff :
      (ch : Challenge) (w : W)
      → HasPoints ch.objectives
      → ((evaluate fl api texts dir ch w).0.all_passed ≡ true) ↔ (
          (ch.objectives ≢ [])
          × All (λ r. r.passed ≡ true) (evaluate fl api texts dir ch w).0.objectives)
  unfolding evaluate
  evaluate-all_passed_iff ch w =
      let final = (evaluate_from (poll_check fl api texts dir) ch.objectives [] empty_card w).0 in
      settled_iff ch final (settle-IsScored ch final (evaluated fl api texts dir ch w))

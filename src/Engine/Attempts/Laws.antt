-- ===== src/Engine/Attempts/Laws.antt =====
-- What internal/engine keeps of a session's attempts, and what the violations do to a scorecard.
use kubedrill.Shared.{
  ℕ, ◌+◌, ◌%◌, ◌≤◌, ◌<◌, ◌≡◌, refl, sym, subst, ◌∙◌, ◌⊎◌, inl, inr, Bool, true, false, not, ◌&&◌,
  ◌||◌, List, [], ◌∷◌, ◌++◌, Memᴰ, mem-append_left, mem-append_right, mem-append_cases, any, arith,
  if◌then◌else◌, Bool-cases,
}
use kubedrill.Shared.Int.{add, int_lt, int_mod, IsNonneg}
use kubedrill.Rules.Grade.{Violation}
use kubedrill.Session.{Session, Attempt}
use kubedrill.Verify.Score.{Scorecard, net_score}
use kubedrill.Engine.Attempts.{record_attempt, charge_violations, grade_card}

net_score-IsNonneg : (c : Scorecard) → IsNonneg (net_score c)
unfolding net_score
net_score-IsNonneg c = ground arith

-- `BestScore` is the greatest score of an attempt that was in time, or 0 where there is none.
pub record IsBest (s : Session) : Type 0 where
  pub nonneg : IsNonneg s.best_score
  pub above : (a : Attempt) → Memᴰ a s.attempts → a.late ≡ false → a.score ≤ s.best_score
  pub reached :
      (s.best_score ≡ 0)
      ⊎ ((a : Attempt) × Memᴰ a s.attempts × (a.late ≡ false) × (a.score ≡ s.best_score))

best_grows :
    (late : Bool) (best net : ℕ)
    → IsNonneg best
    → IsNonneg net
    → best ≤ (if not late && int_lt best net then net else best)
best_grows late best net h k = ground arith

best_covers :
    (late : Bool) (best net : ℕ)
    → IsNonneg best
    → IsNonneg net
    → late ≡ false
    → net ≤ (if not late && int_lt best net then net else best)
best_covers late best net h k e = ground arith

best_cases :
    (late : Bool) (best net : ℕ)
    → ((if not late && int_lt best net then net else best) ≡ best)
      ⊎ ((late ≡ false) × (net ≡ (if not late && int_lt best net then net else best)))
best_cases late best net = elim (Bool-cases (not late && int_lt best net)) [
  | inl e ↦ rw e (inr (ground arith, refl))
  | inr e ↦ rw e (inl refl)
]

best-IsNonneg :
    (late : Bool) (best net : ℕ)
    → IsNonneg best
    → IsNonneg net
    → IsNonneg (if not late && int_lt best net then net else best)
best-IsNonneg late best net h k = ground arith

in_append_cases :
    {A : Type 0} {P : A → Type 0} (xs : List A) (y : A)
    → ((a : A) → Memᴰ a xs → P a)
    → P y
    → (a : A) → Memᴰ a (xs ++ y ∷ [])
    → P a
in_append_cases {P = P} xs y h p a m = elim (mem-append_cases xs m) [
  | inl l ↦ h a l
  | inr (Memᴰ.head e) ↦ subst P (sym e) p
  | inr (Memᴰ.tail t) ↦ elim t [ ]
]

-- Recording an attempt keeps `BestScore` the greatest score of an attempt in time, and never lowers it.
pub record_attempt-IsBest :
    (card : Scorecard) (late : Bool) (now : ℕ) (s : Session)
    → IsBest s
    → IsBest (record_attempt card late now s)
      × (s.best_score ≤ (record_attempt card late now s).best_score)
unfolding record_attempt
record_attempt-IsBest card late now s best =
    let net = net_score card in
    let small = net_score-IsNonneg card in
    let grows = best_grows late s.best_score net best.nonneg small in
    (
      record {
        nonneg = best-IsNonneg late s.best_score net best.nonneg small;
        above =
            in_append_cases s.attempts _ (λ a m e. let old = best.above a m e in omega arith)
              (best_covers late s.best_score net best.nonneg small);
        reached = elim (best_cases late s.best_score net) [
          | inl e ↦ elim best.reached [
            | inl z ↦ inl (e ∙ z)
            | inr (a, m, fine, top) ↦ inr (a, mem-append_left _ m, fine, top ∙ sym e)
          ]
          | inr (fine, e) ↦ inr (_, mem-append_right s.attempts (Memᴰ.head refl), fine, e)
        ];
      },
      grows,
    )

-- The points of violations, in unbounded arithmetic.
abbrev pub violation_points : List Violation → ℕ
violation_points [] = 0
violation_points (v ∷ vs) = v.points + violation_points vs

charge_violations-sums :
    (vs : List Violation) (card : Scorecard)
    → card.rule_penalty < int_mod
    → let out = charge_violations vs card in
      (out.failed ≡ (card.failed || any (λ v. v.fail) vs))
      × (out.rule_penalty ≡ (card.rule_penalty + violation_points vs) % int_mod)
      × (out.rule_violations ≡ card.rule_violations)
unfolding charge_violations
charge_violations-sums [] card h = (ground arith, omega arith, refl)
charge_violations-sums (v ∷ vs) card h =
    let next : Scorecard = record card {
      failed = if v.fail then true else card.failed;
      rule_penalty = add card.rule_penalty v.points;
    } in
    let (fails, sum, kept) = charge_violations-sums vs next (omega arith) in
    (ground arith, omega arith, kept)

-- Laying violations into a card without a penalty fails it exactly if it had failed or a violation
-- fails, and makes the penalty the sum of their points, with Go's wrap-around.
pub grade_card-sums :
    (vs : List Violation) (card : Scorecard)
    → card.rule_penalty ≡ 0
    → (((grade_card vs card).failed ≡ (card.failed || any (λ v. v.fail) vs))
        × ((grade_card vs card).rule_penalty ≡ violation_points vs % int_mod)
        × ((grade_card vs card).rule_violations ≡ vs))
unfolding grade_card
grade_card-sums vs card e =
    let (fails, sum, kept) =
      charge_violations-sums vs (record card { rule_violations = vs }) (omega arith) in
    (fails, omega arith, kept)

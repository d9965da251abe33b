-- ===== src/Verify/Score/Laws.antt =====
-- What a scorecard says of the objectives.
use kubedrill.Shared.{
  ℕ, ◌+◌, ◌%◌, ◌<◌, String, ◌≡◌, refl, inl, inr, Bool, true, false, List, [], ◌∷◌, ◌++◌, Memᴰ,
  arith, ◌==◌, eq_iff, Bool-cases, sym, ◌∙◌, mem_of_any, if◌then◌else◌,
}
use mathlib.Core.Bool.{false≢true}
use native.Mathlib.Nat.{zero-add}
use kubedrill.Verify.Outcome.{CheckResult}
use mathlib.Core.List.{append_assoc, append-nil}
use kubedrill.Shared.Int.{add, int_mod}
use kubedrill.Shared.State.{M}
use kubedrill.Json.{Float64}
use kubedrill.Challenge.{Challenge, Objective, Check}
use kubedrill.Cluster.{Api}
use kubedrill.Verify.Probe.{Texts}
use kubedrill.Verify.Score.{
  ObjectiveResult, Scorecard, empty_card, dependencies_met, Verdict, eval_gated, tally, mark,
  result_of, settle, evaluate_from, evaluate, poll_check,
}

-- The sum of the points of the results that passed, in unbounded arithmetic.
abbrev pub passed_points : List ObjectiveResult → ℕ
passed_points [] = 0
passed_points (r ∷ rs) = (if r.passed then r.points else 0) + passed_points rs

abbrev pub all_points : List Objective → ℕ
all_points [] = 0
all_points (o ∷ os) = o.points + all_points os

-- Every result answers for the objective at its place.
abbrev pub Answers : List Objective → List ObjectiveResult → Type 0
Answers [] [] = Unit
Answers (o ∷ os) (r ∷ rs) =
    (r.id ≡ o.id) × (r.title ≡ o.title) × (r.points ≡ o.points) × Answers os rs
Answers _ _ = ⊥

-- The results of the objectives from here on, when those with the ids `passed` have passed: one that
-- passed has all its dependencies among them, and counts for those after it.
abbrev pub Gated : List String → List Objective → List ObjectiveResult → Type 0
Gated passed [] [] = Unit
Gated passed (o ∷ os) (r ∷ rs) =
    (r.passed ≡ true → (dep : String) → Memᴰ dep o.depends_on → Memᴰ dep passed)
    × Gated (if r.passed then r.id ∷ passed else passed) os rs
Gated passed _ _ = ⊥

dependencies_met_sound :
    (deps passed : List String)
    → dependencies_met deps passed ≡ true
    → (dep : String) → Memᴰ dep deps
    → Memᴰ dep passed
unfolding dependencies_met
dependencies_met_sound [] passed h dep m = elim m [ ]
dependencies_met_sound (d ∷ ds) passed h dep (Memᴰ.head e) =
    let (x, m, same) = mem_of_any (λ x. x == d) passed (ground arith) in
    rw (e, ← (eq_iff x d).0 same) m
dependencies_met_sound (d ∷ ds) passed h dep (Memᴰ.tail m) =
    dependencies_met_sound ds passed (ground arith) dep m

-- What the loops add to a card.
pub record Scored (passed : List String) (os : List Objective) (card final : Scorecard)
    : Type 0 where
  pub new : List ObjectiveResult
  pub appended : final.objectives ≡ card.objectives ++ new
  pub answers : Answers os new
  pub gated : Gated passed os new
  pub score : final.score ≡ (card.score + passed_points new) % int_mod
  pub max_score : final.max_score ≡ (card.max_score + all_points os) % int_mod

if_add_lt : (b : Bool) (s p : ℕ) → s < int_mod → (if b then add s p else s) < int_mod
if_add_lt true s p h = omega arith
if_add_lt false s p h = h

if_add_sum :
    (b : Bool) (s p n f : ℕ)
    → f ≡ ((if b then add s p else s) + n) % int_mod
    → f ≡ (s + ((if b then p else 0) + n)) % int_mod
if_add_sum true s p n f h = omega arith
if_add_sum false s p n f h = omega arith

Scored-nil :
    (passed : List String) (card : Scorecard)
    → card.score < int_mod
    → card.max_score < int_mod
    → Scored passed [] card card
Scored-nil passed card s m = record {
  new = [];
  appended = sym (append-nil _);
  answers = tt;
  gated = tt;
  score = omega arith;
  max_score = omega arith;
}

Scored-cons :
    (o : Objective) (os : List Objective) (passed : List String) (card final : Scorecard)
    (v : Verdict)
    → (v.passed ≡ true → (dep : String) → Memᴰ dep o.depends_on → Memᴰ dep passed)
    → Scored (mark passed o v) os (tally card o v) final
    → Scored passed (o ∷ os) card final
Scored-cons o os passed card final v deps ih = record {
  new = result_of o v ∷ ih.new;
  appended = ih.appended ∙ append_assoc card.objectives (result_of o v ∷ []) ih.new;
  answers = (refl, refl, refl, ih.answers);
  gated = (deps, ih.gated);
  score = if_add_sum v.passed card.score o.points (passed_points ih.new) final.score ih.score;
  max_score = if_add_sum true card.max_score o.points (all_points os) final.max_score ih.max_score;
}

module _ {W : Type 0} (eval : Check → M W CheckResult) where
  gated_deps :
      (o : Objective) (passed : List String) (w : W)
      → (eval_gated eval o passed w).0.passed ≡ true
      → (dep : String) → Memᴰ dep o.depends_on
      → Memᴰ dep passed
  unfolding eval_gated
  gated_deps o passed w h = elim (Bool-cases (dependencies_met o.depends_on passed)) [
    | inl met ↦ dependencies_met_sound o.depends_on passed met
    | inr unmet ↦ absurd (false≢true (rw (unmet, eval_gated) at h))
  ]

  evaluate_from-Scored :
      (os : List Objective) (passed : List String) (card : Scorecard) (w : W)
      → card.score < int_mod
      → card.max_score < int_mod
      → Scored passed os card (evaluate_from eval os passed card w).0
  unfolding evaluate_from
  evaluate_from-Scored [] passed card w s m = Scored-nil passed card s m
  evaluate_from-Scored (o ∷ os) passed card w s m =
      let (v, w') = eval_gated eval o passed w in
      Scored-cons o os passed card (evaluate_from eval os (mark passed o v) (tally card o v) w').0 v
        (gated_deps o passed w)
        (evaluate_from-Scored os (mark passed o v) (tally card o v) w'
          (if_add_lt v.passed card.score o.points s) (omega arith))

-- The scorecard of a challenge: one result for each objective, in order; an objective that passed
-- has only dependencies that passed before it; the scores are the sums of the points, with Go's
-- wrap-around.
pub record IsScored (ch : Challenge) (card : Scorecard) : Type 0 where
  pub answers : Answers ch.objectives card.objectives
  pub gated : Gated [] ch.objectives card.objectives
  pub score : card.score ≡ passed_points card.objectives % int_mod
  pub max_score : card.max_score ≡ all_points ch.objectives % int_mod

pub settle-IsScored :
    (ch : Challenge) (final : Scorecard)
    → Scored [] ch.objectives empty_card final
    → IsScored ch (settle final)
settle-IsScored ch final done = record {
  answers = rw done.appended done.answers;
  gated = rw done.appended done.gated;
  score = rw done.appended (rw zero-add at done.score);
  max_score = rw zero-add at done.max_score;
}

module _ (fl : Float64) {W : Type 0} (api : Api fl.Float W) (texts : Texts) (dir : String) where
  pub evaluated :
      (ch : Challenge) (w : W)
      → Scored [] ch.objectives empty_card
          (evaluate_from (poll_check fl api texts dir) ch.objectives [] empty_card w).0
  evaluated ch w =
      evaluate_from-Scored (poll_check fl api texts dir) ch.objectives [] empty_card w (omega arith)
        (omega arith)

  -- `Evaluate` scores every challenge, whatever the cluster answers: one result for each objective,
  -- in order; a passed objective's dependencies passed before it; `Score` and `MaxScore` are the
  -- points of the passed and of all objectives.
  pub evaluate-IsScored : (ch : Challenge) (w : W) → IsScored ch (evaluate fl api texts dir ch w).0
  unfolding evaluate
  evaluate-IsScored ch w = settle-IsScored ch _ (evaluated ch w)

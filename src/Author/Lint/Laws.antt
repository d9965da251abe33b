-- ===== src/Author/Lint/Laws.antt =====
-- When a challenge has no findings in internal/author/lint.go.
use mathlib.Core.List.{cons≢nil}
use mathlib.Core.Bool.{false≢true}
use kubedrill.Shared.{
  unless_iff, blank_iff, both_empty, empty_if, ne_iff, eq_iff, ◌⊎◌, inl, inr, ap, subst, is_some,
  ◌∙◌, Option, none, some, Bool, false, ◌&&◌, ◌==◌, not, Bool-cases, equal_fold, if◌then◌else◌, ◌≡◌,
  ◌≢◌, ◌↔◌, ltb, refl, sym, String, true, false, List, [], ◌∷◌, is_empty, All, arith, ℕ, ◌+◌,
  length,
}
use kubedrill.Challenge.{
  Challenge, Objective, Rule, RuleSpec, Check, check, Checks, nil, cons, MatchCheck, Hint,
}
use kubedrill.Verify.Probe.{Texts}
use kubedrill.Author.Lint.{
  lint, lint_checks, lint_objectives, lint_rule, lint_rules, vacuous_check, enforce_spec, unscoped,
  requires_secret, min_hints, is_const_true, is_empty_object, vacuous_match, vacuous_leaves,
}

some_same : {a b : RuleSpec} → some a ≡ some b → a ≡ b
some_same h = cc

same_match : {a b : MatchCheck} → some a ≡ some b → a ≡ b
same_match h = cc

none-some : {A : Type 0} {s : A} → none ≢ some s
none-some h = absurd (subst (λ (o : Option _). elim o [ none ↦ Unit | some _ ↦ ⊥ ]) h tt)

and_false : (b : Bool) → (b && false) ≡ false
and_false b = ground arith

-- The object is not blank, null or {}.
abbrev pub SaysSomething : Texts → MatchCheck → Type 0
SaysSomething texts m =
    let raw = texts.trim_space m.object in (raw ≢ "") × (raw ≢ "null") × (raw ≢ "{}")

unfoldable mutual
  -- A check says something of the cluster: its CEL expression is not the constant true; if it has
  -- none, its match says something; if it has neither, every leaf of its anyOf does.
  pub IsMeaningful : Texts → Check → Type 0
  IsMeaningful texts (check m cel probe leaves poll t ts) =
      ((cel ≢ "") × (texts.trim_space cel ≢ "true"))
      ⊎ (((cel ≡ "") × ((mc : MatchCheck) × (m ≡ some mc) × SaysSomething texts mc))
          ⊎ ((cel ≡ "") × (m ≡ none) × AllMeaningful texts leaves))

  pub AllMeaningful : Texts → Checks → Type 0
  AllMeaningful texts nil = Unit
  AllMeaningful texts (cons leaf leaves) = IsMeaningful texts leaf × AllMeaningful texts leaves

-- The rule's specification that is enforced: what it denies, else what it protects.
abbrev pub Enforced : Rule → RuleSpec → Type 0
Enforced r spec = (r.deny ≡ some spec) ⊎ ((r.deny ≡ none) × (r.protect ≡ some spec))

-- An enforced rule names an object or a namespace, and no rule requires fields of a Secret.
abbrev pub IsSafe : Rule → Type 0
IsSafe r =
    (r.enforce ≡ true
      → (spec : RuleSpec) → Enforced r spec
      → (spec.target.name ≢ "") ⊎ (spec.target.namespace ≢ ""))
    × ((spec : RuleSpec)
        → r.require ≡ some spec
        → (spec.fields ≡ "") ⊎ (equal_fold spec.target.kind "Secret" ≡ false))

unscoped_iff :
    (o : Option RuleSpec)
    → (unscoped o ≡ false)
      ↔ ((spec : RuleSpec) → o ≡ some spec → (spec.target.name ≢ "") ⊎ (spec.target.namespace ≢ ""))
unscoped_iff none = ((λ _ spec e. cc), (λ _. refl))
unscoped_iff (some s) = (
  (λ h spec e. elim (Bool-cases (s.target.name == "")) [
    | inr n ↦ inl (λ k. (ne_iff s.target.name "").0 n (ap (λ x. x.target.name) (some_same e) ∙ k))
    | inl n ↦
        let m : (s.target.namespace == "") ≡ false = rw n at h in
        inr
          (λ k. (ne_iff s.target.namespace "").0 m (ap (λ x. x.target.namespace) (some_same e) ∙ k))
  ]),
  (λ h. elim (h s refl) [
    | inl n ↦ rw ((ne_iff s.target.name "").1 n) refl
    | inr n ↦ rw ((ne_iff s.target.namespace "").1 n) (and_false (s.target.name == ""))
  ]),
)

enforce_spec_iff :
    (r : Rule) (spec : RuleSpec) → (enforce_spec r.deny r.protect ≡ some spec) ↔ Enforced r spec
enforce_spec_iff r spec = either r.deny
  where
    either :
        (d : Option RuleSpec)
        → (enforce_spec d r.protect ≡ some spec)
          ↔ ((d ≡ some spec) ⊎ ((d ≡ none) × (r.protect ≡ some spec)))
    either none =
        ((λ h. inr (refl, h)), (λ x. elim x [ inl h ↦ absurd (none-some h) | inr (_, h) ↦ h ]))
    either (some d) =
        ((λ h. inl h), (λ x. elim x [ inl h ↦ h | inr (h, _) ↦ absurd (none-some (sym h)) ]))

requires_secret_iff :
    (o : Option RuleSpec)
    → (requires_secret o ≡ false) ↔ (
        (spec : RuleSpec)
        → o ≡ some spec
        → (spec.fields ≡ "") ⊎ (equal_fold spec.target.kind "Secret" ≡ false))
requires_secret_iff none = ((λ _ spec e. cc), (λ _. refl))
requires_secret_iff (some s) = (
  (λ h spec e. elim (Bool-cases (s.fields == "")) [
    | inl n ↦ inl (ap (λ x. x.fields) (sym (some_same e)) ∙ (eq_iff s.fields "").0 n)
    | inr n ↦
        let m : equal_fold s.target.kind "Secret" ≡ false = rw n at h in
        inr (ap (λ x. equal_fold x.target.kind "Secret") (sym (some_same e)) ∙ m)
  ]),
  (λ h. elim (h s refl) [
    | inl n ↦ rw ((eq_iff s.fields "").1 n) refl
    | inr n ↦ rw n (and_false (not (s.fields == "")))
  ]),
)

some_hint_iff : (hs : List Hint) → (ltb (length hs) min_hints ≡ false) ↔ (hs ≢ [])
some_hint_iff [] = ((λ h. absurd (false≢true (sym h))), (λ n. absurd (n refl)))
some_hint_iff (h ∷ hs) = ((λ _. cons≢nil), (λ _. ground arith))

lint_rule_iff : (r : Rule) → (is_empty (lint_rule r) ≡ true) ↔ IsSafe r
unfolding lint_rule
lint_rule_iff r =
    let spec = unscoped_iff (enforce_spec r.deny r.protect) in
    let enforced = unless_iff r.enforce (unscoped (enforce_spec r.deny r.protect)) in
    both_empty _ _
      (empty_if _ _ (
        (λ h on s e. spec.0 (enforced.0 h on) s ((enforce_spec_iff r s).1 e)),
        (λ h. enforced.1 (λ on. spec.1 (λ s e. h on s ((enforce_spec_iff r s).0 e)))),
      ))
      (empty_if _ _ (requires_secret_iff r.require))

lint_rules_iff : (rs : List Rule) → (is_empty (lint_rules rs) ≡ true) ↔ All IsSafe rs
unfolding lint_rules
lint_rules_iff [] = ((λ _. tt), (λ _. refl))
lint_rules_iff (r ∷ rs) = both_empty _ _ (lint_rule_iff r) (lint_rules_iff rs)

module _ (texts : Texts) where
  -- A reason that is given if a test holds is blank exactly if the test fails.
  reason_iff :
      (reason : String) (b : Bool) → reason ≢ "" → ((if b then reason else "") ≡ "") ↔ (b ≡ false)
  reason_iff reason true n = ((λ h. absurd (n h)), (λ h. absurd (false≢true (sym h))))
  reason_iff reason false n = ((λ _. refl), (λ _. refl))

  filled_reason : (reason : String) → (reason == "") ≡ false → reason ≢ ""
  filled_reason reason h = (ne_iff reason "").0 h

  empty_object_iff :
      (m : MatchCheck) → (is_empty_object texts.trim_space m.object ≡ false) ↔ SaysSomething texts m
  empty_object_iff m =
      let raw = texts.trim_space m.object in
      (
        (λ h. elim (Bool-cases (raw == "")) [
          | inl e ↦ absurd (false≢true (sym (rw e at h)))
          | inr e ↦ elim (Bool-cases (raw == "null")) [
            | inl f ↦ absurd (false≢true (sym (rw (e, f) at h)))
            | inr f ↦
                let g : (raw == "{}") ≡ false = rw (e, f) at h in
                ((ne_iff raw "").0 e, (ne_iff raw "null").0 f, (ne_iff raw "{}").0 g)
          ]
        ]),
        (λ (e, f, g).
            rw ((ne_iff raw "").1 e) (rw ((ne_iff raw "null").1 f) ((ne_iff raw "{}").1 g))),
      )

  vacuous_match_iff :
      (m : Option MatchCheck)
      → (is_some m ≡ true)
      → (vacuous_match texts.trim_space m ≡ "")
        ↔ ((mc : MatchCheck) × (m ≡ some mc) × SaysSomething texts mc)
  vacuous_match_iff none h = absurd (false≢true h)
  vacuous_match_iff (some m) h =
      let (to, from) =
        reason_iff "match object is empty (asserts nothing about the target)"
          (is_empty_object texts.trim_space m.object) (filled_reason _ refl) in
      let (says, silent) = empty_object_iff m in
      (
        (λ k. (m, refl, says (to k))),
        (λ (mc, e, k). from (silent (subst (SaysSomething texts) (sym (same_match e)) k))),
      )

  blank_choice :
      (m : Option MatchCheck) (cel branches : String) (Leaves : Type 0)
      → cel ≡ ""
      → (branches ≡ "") ↔ Leaves
      → ((if is_some m then vacuous_match texts.trim_space m else branches) ≡ "") ↔ (
          ((cel ≢ "") × (texts.trim_space cel ≢ "true"))
          ⊎ (((cel ≡ "") × ((mc : MatchCheck) × (m ≡ some mc) × SaysSomething texts mc))
              ⊎ ((cel ≡ "") × (m ≡ none) × Leaves)))
  blank_choice none cel branches Leaves blank (to, from) = (
    (λ h. inr (inr (blank, refl, to h))),
    (λ x. elim x [
      | inl (n, _) ↦ absurd (n blank)
      | inr (inl (_, (mc, k, _))) ↦ absurd (none-some k)
      | inr (inr (_, _, h)) ↦ from h
    ]),
  )
  blank_choice (some m) cel branches Leaves blank (to, from) =
      let (to', from') = vacuous_match_iff (some m) refl in
      (
        (λ h. inr (inl (blank, to' h))),
        (λ x. elim x [
          | inl (n, _) ↦ absurd (n blank)
          | inr (inl (_, found)) ↦ from' found
          | inr (inr (_, k, h)) ↦ absurd (none-some (sym k))
        ]),
      )

  -- The choice of `vacuousCheck`, with what its leaves give.
  choice_iff :
      (m : Option MatchCheck) (cel branches : String) (Leaves : Type 0)
      → (branches ≡ "") ↔ Leaves
      → ((if not (cel == "")
            then if is_const_true texts.trim_space cel
              then "cel expression is constant true (always passes)"
              else ""
            else if is_some m
            then vacuous_match texts.trim_space m
            else branches)
          ≡ "")
        ↔ (((cel ≢ "") × (texts.trim_space cel ≢ "true"))
            ⊎ (((cel ≡ "") × ((mc : MatchCheck) × (m ≡ some mc) × SaysSomething texts mc))
                ⊎ ((cel ≡ "") × (m ≡ none) × Leaves)))
  choice_iff m cel branches Leaves (to, from) = elim (Bool-cases (cel == "")) [
    | inr e ↦
        let (to', from') =
          reason_iff "cel expression is constant true (always passes)"
            (is_const_true texts.trim_space cel) (filled_reason _ refl) in
        rw e (
          (λ h. inl ((ne_iff cel "").0 e, (ne_iff (texts.trim_space cel) "true").0 (to' h))),
          (λ x. elim x [
            | inl (_, n) ↦ from' ((ne_iff (texts.trim_space cel) "true").1 n)
            | inr (inl (k, _)) ↦ absurd ((ne_iff cel "").0 e k)
            | inr (inr (k, _, _)) ↦ absurd ((ne_iff cel "").0 e k)
          ]),
        )
    | inl e ↦ rw e (blank_choice m cel branches Leaves ((eq_iff cel "").0 e) (to, from))
  ]

  mutual
    unfolding vacuous_check IsMeaningful

    vacuous_iff : (ch : Check) → (vacuous_check texts ch ≡ "") ↔ IsMeaningful texts ch
    vacuous_iff (check m cel probe leaves poll t ts) =
        choice_iff m cel (vacuous_leaves texts leaves) (AllMeaningful texts leaves)
          (vacuous_leaves_iff leaves)

    vacuous_leaves_iff : (ls : Checks) → (vacuous_leaves texts ls ≡ "") ↔ AllMeaningful texts ls
    vacuous_leaves_iff nil = ((λ _. tt), (λ _. refl))
    vacuous_leaves_iff (cons leaf leaves) =
        let (one, back) = vacuous_iff leaf in
        let (rest, back') = vacuous_leaves_iff leaves in
        elim (Bool-cases (vacuous_check texts leaf == "")) [
          | inl e ↦
              rw (e, vacuous_leaves)
                (
                  (λ h. (one ((eq_iff (vacuous_check texts leaf) "").0 e), rest h)),
                  (λ (_, h). back' h),
                )
          | inr e ↦
              rw (e, vacuous_leaves)
                (
                  (λ h. absurd (filled_reason "anyOf has a vacuous branch (always passes)" refl h)),
                  (λ (h, _). absurd ((ne_iff (vacuous_check texts leaf) "").0 e (back h))),
                )
        ]

  lint_checks_iff :
      (id : String) (j : ℕ) (chs : List Check)
      → (is_empty (lint_checks texts id j chs) ≡ true) ↔ All (IsMeaningful texts) chs
  unfolding lint_checks
  lint_checks_iff id j [] = ((λ _. tt), (λ _. refl))
  lint_checks_iff id j (ch ∷ chs) =
      both_empty _ _
        (empty_if _ _ (
          (λ h. (vacuous_iff ch).0 ((blank_iff (vacuous_check texts ch)).0 h)),
          (λ h. (blank_iff (vacuous_check texts ch)).1 ((vacuous_iff ch).1 h)),
        ))
        (lint_checks_iff id (j + 1) chs)

  lint_objectives_iff :
      (os : List Objective)
      → (is_empty (lint_objectives texts os) ≡ true)
        ↔ All (λ o. All (IsMeaningful texts) o.checks) os
  unfolding lint_objectives
  lint_objectives_iff [] = ((λ _. tt), (λ _. refl))
  lint_objectives_iff (o ∷ os) =
      both_empty _ _ (lint_checks_iff o.id 0 o.checks) (lint_objectives_iff os)

  -- A challenge has no findings exactly if it has a hint, every check of an objective says something
  -- of the cluster, every enforced rule names an object or a namespace, and no rule requires fields of
  -- a Secret.
  pub lint_clean_iff :
      (c : Challenge)
      → (is_empty (lint texts c) ≡ true) ↔ (
          (c.hints ≢ [])
          × (All (λ o. All (IsMeaningful texts) o.checks) c.objectives × All IsSafe c.rules))
  unfolding lint
  lint_clean_iff c =
      both_empty _ _ (empty_if _ _ (some_hint_iff c.hints))
        (both_empty _ _ (lint_objectives_iff c.objectives) (lint_rules_iff c.rules))

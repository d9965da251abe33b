-- ===== src/Rules/Grade/Single.antt =====
-- One rule: a violation is reported exactly when the rule is broken.
use mathlib.Core.Bool.{and-eq-true_iff}
use kubedrill.Shared.{
  String, ◌≡◌, refl, ◌⊎◌, inl, inr, Bool, true, false, ◌||◌, Option, none, some, List, [], ◌∷◌,
  Memᴰ, arith, is_empty, filter, Bool-cases, filter_keeps, filter_mem, passes_if_left,
  left_if_passes,
}
use kubedrill.Json.{Decoded, Float64}
use kubedrill.Challenge.{Rule, RuleSpec, RuleMatch}
use kubedrill.Rules.Audit.{AuditEvent}
use kubedrill.Rules.Attribution.{attribute, is_player}
use kubedrill.Rules.Grade.{
  Violation, rule_violation, match_spec, match_require, grade_specs, report_unless, delete_ops,
  contains,
}
use kubedrill.Rules.Grade.Breach.{
  Selects, Charged, Allowed, Fulfils, Broken, denied, deleted, omitted,
}
use kubedrill.Rules.Grade.Reading.{
  Charged-sound, Charged-complete, Selects-sound, Selects-complete, contains_sound,
  contains_complete, fulfils, fulfils_sound, fulfils_complete,
}

abbrev pub player : AuditEvent → Bool
player e = is_player (attribute e)

-- Some charged event does what the rule's match and verbs name.
Hit : RuleMatch → List String → List AuditEvent → Type 0
Hit m ops events =
    (e : AuditEvent) × Memᴰ e events × Charged e × Selects m e × ((ops ≡ []) ⊎ Allowed ops e)

Hit-sound :
    (m : RuleMatch) (ops : List String) (events : List AuditEvent)
    → is_empty (match_spec m ops (filter player events)) ≡ false
    → Hit m ops events
unfolding Hit match_spec
Hit-sound m ops events h =
    let (e, c, t) = passes_if_left _ _ h in
    let (at, p) = filter_mem player e events c in
    let (s, v) = (and-eq-true_iff _ _).0 t in
    (e, at, Charged-sound e p, Selects-sound m e s, verb ops e v)
  where
    verb :
        (ops : List String) (e : AuditEvent)
        → (is_empty ops || contains ops e.verb) ≡ true
        → (ops ≡ []) ⊎ Allowed ops e
    verb [] e v = inl refl
    verb (o ∷ os) e v = inr (contains_sound (o ∷ os) e.verb v)

Hit-complete :
    (m : RuleMatch) (ops : List String) (events : List AuditEvent)
    → Hit m ops events
    → is_empty (match_spec m ops (filter player events)) ≡ false
unfolding Hit match_spec
Hit-complete m ops events (e, at, c, s, v) =
    left_if_passes _ e _ (filter_keeps player e events at (Charged-complete c))
      ((and-eq-true_iff _ _).1 (Selects-complete m e s, verb ops e v))
  where
    verb :
        (ops : List String) (e : AuditEvent)
        → (ops ≡ []) ⊎ Allowed ops e
        → (is_empty ops || contains ops e.verb) ≡ true
    verb [] e v = refl
    verb (o ∷ os) e (inl n) = cc
    verb (o ∷ os) e (inr m) = contains_complete (o ∷ os) e.verb m

pub report_sound : (b : Bool) (v w : Violation) → Memᴰ w (report_unless b v) → (b ≡ false) × (w ≡ v)
report_sound true v w m = elim m [ ]
report_sound false v w (Memᴰ.head e) = (refl, e)
report_sound false v w (Memᴰ.tail m) = elim m [ ]

-- The violation carries the rule's id and penalty.
abbrev pub Carries : Violation → Rule → Type 0
Carries v r = (v.rule_id ≡ r.id) × (v.fail ≡ r.penalty.fail) × (v.points ≡ r.penalty.points)

module _ (fl : Float64) (unmarshal : String → Decoded fl.Float) (events : List AuditEvent) where
  abbrev fulfilled : RuleSpec → AuditEvent → Bool
  fulfilled = fulfils fl unmarshal

  fulfilled_if_left :
      (spec : RuleSpec)
      → is_empty (match_require fl unmarshal spec (filter player events)) ≡ false
      → (e : AuditEvent) × Memᴰ e events × Charged e × Fulfils fl unmarshal spec e
  unfolding match_require
  fulfilled_if_left spec h =
      let (e, c, t) = passes_if_left (fulfilled spec) (filter player events) h in
      let (at, p) = filter_mem player e events c in
      (e, at, Charged-sound e p, fulfils_sound fl unmarshal spec e t)

  left_if_fulfilled :
      (spec : RuleSpec) (e : AuditEvent)
      → Memᴰ e events
      → Charged e
      → Fulfils fl unmarshal spec e
      → is_empty (match_require fl unmarshal spec (filter player events)) ≡ false
  unfolding match_require
  left_if_fulfilled spec e at c f =
      left_if_passes (fulfilled spec) e _ (filter_keeps player e events at (Charged-complete c))
        (fulfils_complete fl unmarshal spec e f)

  abbrev pub charged : List AuditEvent
  charged = filter player events

  deleted_ops : (e : AuditEvent) → (delete_ops ≡ []) ⊎ Allowed delete_ops e → Allowed delete_ops e
  deleted_ops e (inl n) = cc
  deleted_ops e (inr m) = m

  pub specs_sound :
      (r : Rule) (d p q : Option RuleSpec) (v : Violation)
      → r.deny ≡ d
      → r.protect ≡ p
      → r.require ≡ q
      → Memᴰ v (grade_specs fl unmarshal r d p q charged)
      → Broken fl unmarshal events r × Carries v r
  unfolding grade_specs Hit
  specs_sound r (some deny) p q v d_eq p_eq q_eq m =
      let (full, e) = report_sound _ _ v m in
      let (e₁, at, c, s, ops) = Hit-sound deny.target deny.operations events full in
      (denied deny e₁ d_eq at c s ops, rw e (refl, refl, refl))
  specs_sound r none (some protect) q v d_eq p_eq q_eq m =
      let (full, e) = report_sound _ _ v m in
      let (e₁, at, c, s, ops) = Hit-sound protect.target delete_ops events full in
      (deleted protect e₁ d_eq p_eq at c s (deleted_ops e₁ ops), rw e (refl, refl, refl))
  specs_sound r none none (some require) v d_eq p_eq q_eq m =
      let (full, e) = report_sound _ _ v m in
      (
        omitted require d_eq p_eq q_eq (λ e₁ at c f.
            let left = left_if_fulfilled require e₁ at c f in absurd (ground (arith, left, full))),
        rw e (refl, refl, refl),
      )
  specs_sound r none none none v d_eq p_eq q_eq m = elim m [ ]

  -- A violation for the rule with its id and penalty is among these.
  abbrev pub Reported : Rule → List Violation → Type 0
  Reported r vs = (v : Violation) × Memᴰ v vs × Carries v r

  reported :
      (r : Rule) (b : Bool) (typ msg : String) (hits : List AuditEvent)
      → b ≡ false
      → Reported r (report_unless b (rule_violation r typ msg hits))
  reported r b typ msg hits h =
      rw h (rule_violation r typ msg hits, Memᴰ.head refl, (refl, refl, refl))

  pub specs_complete :
      (r : Rule)
      → Broken fl unmarshal events r
      → Reported r (grade_specs fl unmarshal r r.deny r.protect r.require charged)
  unfolding grade_specs Hit
  specs_complete r (denied spec e d at c s ops) =
      rw d (reported r _ _ _ _ (Hit-complete spec.target spec.operations events (e, at, c, s, ops)))
  specs_complete r (deleted spec e d p at c s ops) =
      rw (d, p)
        (reported r _ _ _ _ (Hit-complete spec.target delete_ops events (e, at, c, s, inr ops)))
  specs_complete r (omitted spec d p q none_fulfils) =
      rw (d, p, q)
        (reported r _ _ _ _
          (elim (Bool-cases (is_empty (match_require fl unmarshal spec charged))) [
            | inl e ↦ rw e refl
            | inr left ↦
                let (e, at, c, f) = fulfilled_if_left spec left in absurd (none_fulfils e at c f)
          ]))

-- ===== src/Rules/Grade/Reading.antt =====
-- What the tests of `Grade` and its helpers say, by the terms of `Breach`.
use mathlib.Core.Bool.{and-eq-true_iff}
use kubedrill.Shared.{
  String, ◌≡◌, refl, ◌≢◌, ◌⊎◌, inl, inr, Bool, true, ◌&&◌, ◌||◌, List, [], ◌∷◌, Memᴰ, arith, ◌==◌,
  eq_iff, Bool-cases, Option-cases, any_of_mem, mem_of_any,
}
use kubedrill.Json.{Json, Decoded, decoded, malformed, Float64}
use kubedrill.Challenge.{RuleSpec, RuleMatch}
use kubedrill.Matching.Laws.{matches_iff}
use kubedrill.Rules.Audit.{AuditEvent, engine_identity}
use kubedrill.Rules.Attribution.{attribute, is_player, is_tamper}
use kubedrill.Rules.Resource.{kind_to_resource}
use kubedrill.Rules.Grade.{target_matches, contains, fields_present, require_ops}
use kubedrill.Rules.Grade.Breach.{
  Selects, Charged, as_other, as_self, Tampers, Allowed, HasFields, Fulfils,
}

pub Charged-sound : (e : AuditEvent) → is_player (attribute e) ≡ true → Charged e
unfolding attribute
Charged-sound e h = elim (Option-cases e.impersonated_user) [
  | inl self ↦ as_self self (ground arith)
  | inr (a, other) ↦ as_other a other (ground (arith, eq_iff a.username engine_identity))
]

pub Charged-complete : {e : AuditEvent} → Charged e → is_player (attribute e) ≡ true
unfolding attribute
Charged-complete {e} (as_other a i n) = ground (arith, eq_iff a.username engine_identity)
Charged-complete {e} (as_self i n) = ground arith

pub Tampers-sound : (e : AuditEvent) → is_tamper (attribute e) ≡ true → Tampers e
unfolding attribute
Tampers-sound e h = elim (Option-cases e.impersonated_user) [
  | inl self ↦ absurd (ground arith)
  | inr (a, other) ↦ record {
    actor = a;
    impersonated = other;
    engine = ground (arith, eq_iff a.username engine_identity);
  }
]

pub Tampers-complete : (e : AuditEvent) → Tampers e → is_tamper (attribute e) ≡ true
unfolding attribute
Tampers-complete e t = ground (arith, eq_iff t.actor.username engine_identity)

pub Selects-sound : (m : RuleMatch) (e : AuditEvent) → target_matches m e ≡ true → Selects m e
unfolding target_matches
Selects-sound m e h = ground (
  arith,
  eq_iff e.object_ref.resource (kind_to_resource m.kind).resource,
  eq_iff (kind_to_resource m.kind).group "",
  eq_iff e.object_ref.api_group "",
  eq_iff e.object_ref.api_group (kind_to_resource m.kind).group,
  eq_iff m.name "",
  eq_iff e.object_ref.name m.name,
  eq_iff m.namespace "",
  eq_iff e.object_ref.namespace m.namespace,
)

pub Selects-complete : (m : RuleMatch) (e : AuditEvent) → Selects m e → target_matches m e ≡ true
unfolding target_matches
Selects-complete m e s = ground (
  arith,
  eq_iff e.object_ref.resource (kind_to_resource m.kind).resource,
  eq_iff (kind_to_resource m.kind).group "",
  eq_iff e.object_ref.api_group "",
  eq_iff e.object_ref.api_group (kind_to_resource m.kind).group,
  eq_iff m.name "",
  eq_iff e.object_ref.name m.name,
  eq_iff m.namespace "",
  eq_iff e.object_ref.namespace m.namespace,
)

pub contains_sound : (ss : List String) (s : String) → contains ss s ≡ true → Memᴰ s ss
contains_sound ss s h = let (x, m, e) = mem_of_any (λ x. x == s) ss h in rw (← (eq_iff x s).0 e) m

pub contains_complete : (ss : List String) (s : String) → Memᴰ s ss → contains ss s ≡ true
contains_complete ss s m = any_of_mem (λ x. x == s) s ss m ((eq_iff s s).1 refl)

Decoded-cases :
    {F : Type 0} (d : Decoded F)
    → ((v : Json F) × (d ≡ decoded v)) ⊎ ((s : String) × (d ≡ malformed s))
Decoded-cases (decoded v) = inl (v, refl)
Decoded-cases (malformed s) = inr (s, refl)

module _ (fl : Float64) (unmarshal : String → Decoded fl.Float) where
  fields_sound :
      (fields : String) (e : AuditEvent)
      → fields_present fl unmarshal fields e ≡ true
      → HasFields fl unmarshal fields e
  unfolding fields_present
  fields_sound fields e h = elim (Decoded-cases (unmarshal fields)) [
    | inr (_, bad) ↦ absurd (ground arith)
    | inl (tree, t) ↦ elim (Decoded-cases (unmarshal e.request_object)) [
      | inr (_, bad) ↦ absurd (ground arith)
      | inl (body, b) ↦ record {
        captured = ground (arith, eq_iff e.request_object "");
        tree = tree;
        body = body;
        required = t;
        submitted = b;
        contained = (matches_iff fl tree body).0 (ground arith);
      }
    ]
  ]

  fields_complete :
      (fields : String) (e : AuditEvent)
      → HasFields fl unmarshal fields e
      → fields_present fl unmarshal fields e ≡ true
  unfolding fields_present
  fields_complete fields e f =
      let m = (matches_iff fl f.tree f.body).1 f.contained in
      ground (arith, f.required, f.submitted, f.captured, m, eq_iff e.request_object "")

  -- The tests of the loop in `matchRequire`.
  abbrev pub fulfils : RuleSpec → AuditEvent → Bool
  fulfils spec e =
      target_matches spec.target e
      && contains (require_ops spec.operations) e.verb
      && (spec.fields == "" || fields_present fl unmarshal spec.fields e)

  verb_sound :
      (ops : List String) (e : AuditEvent)
      → contains (require_ops ops) e.verb ≡ true
      → ((ops ≡ []) × Allowed ("create" ∷ "update" ∷ "patch" ∷ []) e) ⊎ ((ops ≢ []) × Allowed ops e)
  verb_sound [] e h = inl (refl, contains_sound _ e.verb h)
  verb_sound (o ∷ os) e h = inr (ground arith, contains_sound (o ∷ os) e.verb h)

  verb_complete :
      (ops : List String) (e : AuditEvent)
      → ((ops ≡ []) × Allowed ("create" ∷ "update" ∷ "patch" ∷ []) e) ⊎ ((ops ≢ []) × Allowed ops e)
      → contains (require_ops ops) e.verb ≡ true
  verb_complete [] e (inl (_, m)) = contains_complete _ e.verb m
  verb_complete [] e (inr (n, _)) = absurd (n refl)
  verb_complete (o ∷ os) e (inl (n, _)) = cc
  verb_complete (o ∷ os) e (inr (_, m)) = contains_complete (o ∷ os) e.verb m

  pub fulfils_sound :
      (spec : RuleSpec) (e : AuditEvent) → fulfils spec e ≡ true → Fulfils fl unmarshal spec e
  fulfils_sound spec e h =
      let (tv, f) = (and-eq-true_iff _ _).0 h in
      let (t, v) = (and-eq-true_iff _ _).0 tv in
      record {
        selects = Selects-sound spec.target e t;
        verb = verb_sound spec.operations e v;
        fields = elim (Bool-cases (spec.fields == "")) [
          | inl e₁ ↦ inl ((eq_iff _ _).0 e₁)
          | inr e₁ ↦ inr (fields_sound spec.fields e (rw e₁ at f))
        ];
      }

  pub fulfils_complete :
      (spec : RuleSpec) (e : AuditEvent) → Fulfils fl unmarshal spec e → fulfils spec e ≡ true
  fulfils_complete spec e f = (and-eq-true_iff _ _).1 (
    (and-eq-true_iff _ _).1
        (Selects-complete spec.target e f.selects, verb_complete spec.operations e f.verb),
    fields_part f.fields,
  )
    where
      fields_part :
          (spec.fields ≡ "") ⊎ HasFields fl unmarshal spec.fields e
          → (spec.fields == "" || fields_present fl unmarshal spec.fields e) ≡ true
      fields_part (inl none_asked) = ground (arith, eq_iff spec.fields "")
      fields_part (inr has) = let p = fields_complete spec.fields e has in ground arith

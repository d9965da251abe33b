-- ===== src/Rules/Grade/Laws.antt =====
-- The whole of `Grade`: what it reports, and when it reports nothing.
use kubedrill.Shared.{
  String, ◌≡◌, refl, subst, ◌↔◌, ◌⊎◌, inl, inr, Bool, true, List, [], ◌∷◌, Memᴰ, is_empty, filter,
  passes_if_left, left_if_passes, not_mem_of_nil, nil_of_no_mem, mem-append_left, mem-append_right,
  mem-append_cases,
}
use kubedrill.Json.{Decoded, Float64}
use kubedrill.Challenge.{Rule}
use kubedrill.Rules.Audit.{AuditEvent}
use kubedrill.Rules.Attribution.{attribute, is_tamper}
use kubedrill.Rules.Grade.{
  Violation, grade_rule, grade_rules, tamper_violation, grade, report_unless,
}
use kubedrill.Rules.Grade.Breach.{Tampers, Broken}
use kubedrill.Rules.Grade.Reading.{Tampers-sound, Tampers-complete}
use kubedrill.Rules.Grade.Single.{
  charged, Carries, Reported, specs_sound, specs_complete, report_sound,
}

abbrev tampering : AuditEvent → Bool
tampering e = is_tamper (attribute e)

module _ (fl : Float64) (unmarshal : String → Decoded fl.Float) where
  rules_sound :
      (events : List AuditEvent) (rs : List Rule) (v : Violation)
      → Memᴰ v (grade_rules fl unmarshal (charged fl unmarshal events) rs)
      → (r : Rule) × Memᴰ r rs × Broken fl unmarshal events r × Carries v r
  unfolding grade_rules grade_rule
  rules_sound events [] v m = elim m [ ]
  rules_sound events (r ∷ rs) v m = elim (mem-append_cases _ m) [
    | inl here ↦
        let (b, c) =
          specs_sound fl unmarshal events r r.deny r.protect r.require v refl refl refl here in
        (r, Memᴰ.head refl, b, c)
    | inr later ↦ let (r', m', b, c) = rules_sound events rs v later in (r', Memᴰ.tail m', b, c)
  ]

  rules_complete :
      (events : List AuditEvent) (rs : List Rule) (r : Rule)
      → Memᴰ r rs
      → Broken fl unmarshal events r
      → Reported fl unmarshal events r (grade_rules fl unmarshal (charged fl unmarshal events) rs)
  unfolding grade_rules grade_rule
  rules_complete events [] r m b = elim m [ ]
  rules_complete events (r' ∷ rs) r (Memᴰ.head e) b =
      let (v, m, c) =
        specs_complete fl unmarshal events r' (subst (Broken fl unmarshal events) e b) in
      (v, mem-append_left _ m, rw e c)
  rules_complete events (r' ∷ rs) r (Memᴰ.tail m) b =
      let (v, m', c) = rules_complete events rs r m b in (v, mem-append_right _ m', c)

  -- The tampering events that a grading surfaces.
  abbrev tampers : List AuditEvent → List AuditEvent
  tampers events = filter tampering events

  -- Every violation that is reported is the integrity violation, and some event tampers, or it
  -- carries the id and the penalty of a rule of the challenge that the player broke.
  pub grade_sound :
      (rs : List Rule) (events : List AuditEvent) (v : Violation)
      → Memᴰ v (grade fl unmarshal rs events)
      → ((v.type ≡ "tamper") × (v.fail ≡ true) × ((e : AuditEvent) × Memᴰ e events × Tampers e))
        ⊎ ((r : Rule) × Memᴰ r rs × Broken fl unmarshal events r × Carries v r)
  unfolding grade
  grade_sound rs events v m = elim (mem-append_cases _ m) [
    | inl t ↦
        let (full, e) = report_sound _ _ v t in
        let (e₁, at, h) = passes_if_left tampering events full in
        inl (rw e refl, rw e refl, (e₁, at, Tampers-sound e₁ h))
    | inr later ↦ inr (rules_sound events rs v later)
  ]

  -- Every rule that the player broke is reported, with its id and its penalty.
  pub grade_complete :
      (rs : List Rule) (events : List AuditEvent) (r : Rule)
      → Memᴰ r rs
      → Broken fl unmarshal events r
      → Reported fl unmarshal events r (grade fl unmarshal rs events)
  unfolding grade
  grade_complete rs events r m b =
      let (v, m', c) = rules_complete events rs r m b in (v, mem-append_right _ m', c)

  -- Tampering is reported by a violation that fails the challenge.
  tampering_reported :
      (rs : List Rule) (events : List AuditEvent) (e : AuditEvent)
      → Memᴰ e events
      → Tampers e
      → (v : Violation) × Memᴰ v (grade fl unmarshal rs events) × (v.fail ≡ true)
  unfolding grade
  tampering_reported rs events e m t =
      let left = left_if_passes tampering e events m (Tampers-complete e t) in
      let v = tamper_violation fl unmarshal (tampers events) in
      let first : Memᴰ v (report_unless (is_empty (tampers events)) v) = rw left (Memᴰ.head refl) in
      (v, mem-append_left _ first, refl)

  -- Nothing is reported exactly when no event tampers and no rule is broken.
  pub grade_clean_iff :
      (rs : List Rule) (events : List AuditEvent)
      → (grade fl unmarshal rs events ≡ []) ↔ (
          ((e : AuditEvent) → Memᴰ e events → ¬ Tampers e)
          × ((r : Rule) → Memᴰ r rs → ¬ Broken fl unmarshal events r))
  grade_clean_iff rs events = (
    (λ clean. (
      (λ e m t. not_mem_of_nil clean (tampering_reported rs events e m t).1),
      (λ r m b. not_mem_of_nil clean (grade_complete rs events r m b).1),
    )),
    λ (no_tamper, kept). nil_of_no_mem _ λ v m. elim (grade_sound rs events v m) [
      | inl (_, _, (e, at, t)) ↦ no_tamper e at t
      | inr (r, at, b, _) ↦ kept r at b
    ],
  )

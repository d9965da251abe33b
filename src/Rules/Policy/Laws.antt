-- ===== src/Rules/Policy/Laws.antt =====
-- Which resources the audit policy captures request bodies of.
use kubedrill.Shared.{
  false, String, ◌⧺◌, quote, [], is_empty, is_empty→nil, ◌≡◌, ◌≢◌, refl, ◌↔◌, ◌⊎◌, inl, inr, true,
  Option, none, some, List, [], ◌∷◌, Memᴰ, arith, eq_iff, Bool-cases, Option-cases, mem_of_any,
  mem-cons_cases, equal_fold, any, sym, not_mem_of_nil, ap,
}
use kubedrill.Challenge.{Challenge, Rule, RuleSpec}
use kubedrill.Rules.Resource.{GroupResource, kind_to_resource}
use kubedrill.Rules.Policy.{
  gr_eq, gr_lt, wanted_resource, see, seen_of, place, sort, field_require_resources, resource_lines,
  request_level, audit_policy,
}

-- The rule requires fields of objects of this resource, which are no secrets.
pub record Inspects (r : Rule) (g : GroupResource) : Type 0 where
  pub spec : RuleSpec
  pub require : r.require ≡ some spec
  pub fields : spec.fields ≢ ""
  pub no_secret : equal_fold spec.target.kind "Secret" ≢ true
  pub resource : kind_to_resource spec.target.kind ≡ g
  pub no_secrets : g.resource ≢ "secrets"

gr_eq→eq : (g h : GroupResource) → gr_eq g h ≡ true → g ≡ h
gr_eq→eq g h e = ground (arith, eq_iff g.group h.group, eq_iff g.resource h.resource)

Inspects-sound : (r : Rule) (g : GroupResource) → wanted_resource r.require ≡ some g → Inspects r g
Inspects-sound r g w = elim (Option-cases r.require) [
  | inl e ↦ absurd (ground arith)
  | inr (spec, e) ↦
      let w' : wanted_resource (some spec) ≡ some g = rw e at w in
      record {
        spec = spec;
        require = e;
        fields = ground (arith, eq_iff spec.fields "");
        no_secret = ground arith;
        resource = ground arith;
        no_secrets = ground (arith, eq_iff (kind_to_resource spec.target.kind).resource "secrets");
      }
]

Inspects-complete :
    (r : Rule) (g : GroupResource) → Inspects r g → wanted_resource r.require ≡ some g
Inspects-complete r g i = rw i.require (
    ground (
      arith,
      i.fields,
      i.no_secret,
      i.resource,
      i.no_secrets,
      eq_iff i.spec.fields "",
      eq_iff (kind_to_resource i.spec.target.kind).resource "secrets",
    ))

see_cases :
    (o : Option GroupResource) (seen : List GroupResource) (g : GroupResource)
    → Memᴰ g (see o seen)
    → (o ≡ some g) ⊎ Memᴰ g seen
unfolding see
see_cases none seen g m = inr m
see_cases (some h) seen g m = elim (Bool-cases (any (gr_eq h) seen)) [
  | inl e ↦ inr (rw e at m)
  | inr e ↦ elim (mem-cons_cases (rw e at m)) [
    | inl same ↦ inl (ap some (sym same))
    | inr old ↦ inr old
  ]
]

see_keeps :
    (o : Option GroupResource) (seen : List GroupResource) (g : GroupResource)
    → (o ≡ some g) ⊎ Memᴰ g seen
    → Memᴰ g (see o seen)
unfolding see
see_keeps none seen g (inl e) = cc
see_keeps none seen g (inr m) = m
see_keeps (some h) seen g m = elim (Bool-cases (any (gr_eq h) seen)) [
  | inl e ↦ rw e (elim m [
    | inl same ↦
        let (x, at, q) = mem_of_any (gr_eq h) seen e in
        let h_g : h ≡ g = cc in rw (← h_g, gr_eq→eq h x q) at
    | inr old ↦ old
  ])
  | inr e ↦ rw e (elim m [ inl same ↦ Memᴰ.head (cc) | inr old ↦ Memᴰ.tail old ])
]

seen_sound :
    (rs : List Rule) (seen : List GroupResource) (g : GroupResource)
    → Memᴰ g (seen_of rs seen)
    → ((r : Rule) × Memᴰ r rs × Inspects r g) ⊎ Memᴰ g seen
unfolding seen_of
seen_sound [] seen g m = inr m
seen_sound (r ∷ rs) seen g m = elim (seen_sound rs (see (wanted_resource r.require) seen) g m) [
  | inl (r', at, i) ↦ inl (r', Memᴰ.tail at, i)
  | inr m' ↦ elim (see_cases (wanted_resource r.require) seen g m') [
    | inl e ↦ inl (r, Memᴰ.head refl, Inspects-sound r g e)
    | inr old ↦ inr old
  ]
]

seen_keeps :
    (rs : List Rule) (seen : List GroupResource) (g : GroupResource)
    → Memᴰ g seen
    → Memᴰ g (seen_of rs seen)
unfolding seen_of
seen_keeps [] seen g m = m
seen_keeps (r ∷ rs) seen g m =
    seen_keeps rs (see (wanted_resource r.require) seen) g
      (see_keeps (wanted_resource r.require) seen g (inr m))

seen_complete :
    (rs : List Rule) (seen : List GroupResource) (g : GroupResource) (r : Rule)
    → Memᴰ r rs
    → Inspects r g
    → Memᴰ g (seen_of rs seen)
unfolding seen_of
seen_complete [] seen g r m i = elim m [ ]
seen_complete (s ∷ rs) seen g r (Memᴰ.head e) i =
    seen_keeps rs (see (wanted_resource s.require) seen) g
      (see_keeps (wanted_resource s.require) seen g (inl (rw (← e) (Inspects-complete r g i))))
seen_complete (s ∷ rs) seen g r (Memᴰ.tail m) i =
    seen_complete rs (see (wanted_resource s.require) seen) g r m i

place_cases :
    (h : GroupResource) (gs : List GroupResource) (g : GroupResource)
    → Memᴰ g (place h gs)
    → Memᴰ g (h ∷ gs)
unfolding place
place_cases h [] g m = m
place_cases h (k ∷ gs) g m = elim (Bool-cases (gr_lt k h)) [
  | inr e ↦ rw e at m
  | inl e ↦ elim (mem-cons_cases (rw e at m)) [
    | inl same ↦ Memᴰ.tail (Memᴰ.head same)
    | inr m' ↦ elim (mem-cons_cases (place_cases h gs g m')) [
      | inl same ↦ Memᴰ.head same
      | inr old ↦ Memᴰ.tail (Memᴰ.tail old)
    ]
  ]
]

place_keeps :
    (h : GroupResource) (gs : List GroupResource) (g : GroupResource)
    → Memᴰ g (h ∷ gs)
    → Memᴰ g (place h gs)
unfolding place
place_keeps h [] g m = m
place_keeps h (k ∷ gs) g m = elim (Bool-cases (gr_lt k h)) [
  | inr e ↦ rw e m
  | inl e ↦ rw e (elim (mem-cons_cases m) [
    | inl same ↦ Memᴰ.tail (place_keeps h gs g (Memᴰ.head same))
    | inr m' ↦ elim (mem-cons_cases m') [
      | inl same ↦ Memᴰ.head same
      | inr old ↦ Memᴰ.tail (place_keeps h gs g (Memᴰ.tail old))
    ]
  ])
]

sort_mem : (gs : List GroupResource) (g : GroupResource) → Memᴰ g (sort gs) ↔ Memᴰ g gs
unfolding sort
sort_mem [] g = ((λ m. m), (λ m. m))
sort_mem (h ∷ gs) g =
    let (to, from) = sort_mem gs g in
    (
      (λ m. elim (mem-cons_cases (place_cases h (sort gs) g m)) [
        | inl same ↦ Memᴰ.head same
        | inr old ↦ Memᴰ.tail (to old)
      ]),
      (λ m. elim (mem-cons_cases m) [
        | inl same ↦ place_keeps h (sort gs) g (Memᴰ.head same)
        | inr old ↦ place_keeps h (sort gs) g (Memᴰ.tail (from old))
      ]),
    )

-- The places of resources in a rule of an audit policy.
abbrev pub entries : List GroupResource → String
entries [] = ""
entries (g ∷ gs) =
    "      - group: "
    ⧺ quote g.group
    ⧺ "\n        resources: ["
    ⧺ quote g.resource
    ⧺ "]\n"
    ⧺ entries gs

-- The rule that captures the bodies of requests, where there is a resource for it.
abbrev pub capturing : List GroupResource → String
capturing [] = ""
capturing (g ∷ gs) =
    "  # Request level for kinds a field-level `require` inspects.\n"
    ⧺ "  - level: Request\n"
    ⧺ "    verbs: [\"create\", \"update\", \"patch\"]\n"
    ⧺ "    resources:\n"
    ⧺ entries (g ∷ gs)

-- An audit policy: secrets come first, without their contents, then the rule that captures bodies,
-- then every action that changes something, without its body.
abbrev pub policy_text : String → String
policy_text captures =
    "apiVersion: audit.k8s.io/v1\n" ⧺ "kind: Policy\n"
    ⧺ "# Generated by kubedrill from the challenge's rules. Do not edit.\n"
    ⧺ "omitStages:\n  - RequestReceived\n" ⧺ "rules:\n"
    ⧺ "  # Secrets are always Metadata-only — contents are never captured.\n"
    ⧺ "  - level: Metadata\n" ⧺ "    resources:\n" ⧺ "      - group: \"\"\n"
    ⧺ "        resources: [\"secrets\"]\n" ⧺ captures
    ⧺ "  # Baseline: every mutating action, at Metadata level.\n" ⧺ "  - level: Metadata\n"
    ⧺ "    verbs: [\"create\", \"update\", \"patch\", \"delete\", \"deletecollection\"]\n"

field_require_resources_iff :
    (ch : Challenge) (g : GroupResource)
    → Memᴰ g (field_require_resources ch) ↔ ((r : Rule) × Memᴰ r ch.rules × Inspects r g)
unfolding field_require_resources
field_require_resources_iff ch g = (
  (λ m. elim (seen_sound ch.rules [] g ((sort_mem _ g).0 m)) [
    | inl found ↦ found
    | inr none_yet ↦ absurd (not_mem_of_nil refl none_yet)
  ]),
  (λ (r, m, i). (sort_mem _ g).1 (seen_complete ch.rules [] g r m i)),
)

resource_lines-entries : (gs : List GroupResource) → resource_lines gs ≡ entries gs
unfolding resource_lines
resource_lines-entries [] = refl
resource_lines-entries (g ∷ gs) = rw (resource_lines-entries gs) refl

request_level-capturing : (gs : List GroupResource) → request_level gs ≡ capturing gs
request_level-capturing [] = refl
request_level-capturing (g ∷ gs) = rw (resource_lines-entries (g ∷ gs)) refl

true-false : true ≢ false
true-false h = cc

-- A challenge without rules has no audit policy. For one with rules the policy captures the bodies of
-- requests in one rule, which is for exactly the resources whose fields some rule requires and never
-- for secrets, and comes after the rule for secrets.
pub audit_policy-Captures :
    (ch : Challenge)
    → ((ch.rules ≡ []) × (audit_policy ch ≡ ""))
      ⊎ ((ch.rules ≢ [])
          × ((gs : List GroupResource) × (audit_policy ch ≡ policy_text (capturing gs))
              × ((g : GroupResource) → Memᴰ g gs ↔ ((r : Rule) × Memᴰ r ch.rules × Inspects r g))))
unfolding audit_policy
audit_policy-Captures ch = elim (Bool-cases (is_empty ch.rules)) [
  | inl e ↦ inl (is_empty→nil ch.rules e, rw (is_empty→nil ch.rules e) refl)
  | inr e ↦ inr (
    (λ n. absurd (true-false (rw n at e))),
    (
      field_require_resources ch,
      rw (e, request_level-capturing (field_require_resources ch)) refl,
      field_require_resources_iff ch,
    ),
  )
]

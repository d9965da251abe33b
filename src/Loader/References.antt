-- ===== src/Loader/References.antt =====
-- `checkRefs` accepts a challenge whose files are there.
use mathlib.Core.Option.{none-ne-some}
use mathlib.Core.Bool.{false≢true}
use kubedrill.Shared.{
  ℕ, ◌+◌, String, ◌≡◌, ◌↔◌, inl, inr, refl, sym, ◌∙◌, Option, none, some, List, [], ◌∷◌, ◌==◌, All,
  Bool-cases, eq_iff,
}
use kubedrill.Challenge.{Challenge, Objective, Check, Probe, ManifestRef, probe_of}
use kubedrill.Loader.{
  Library, first_error, must_exist, check_manifests, probe_exists, check_probes, check_objectives,
  check_refs,
}
use kubedrill.Loader.Loadable.{Exists, ProbeExists, IsReferenced}

pub both_iff :
    {P Q : Type 0} (a b : Option String)
    → (a ≡ none) ↔ P
    → (b ≡ none) ↔ Q
    → (first_error a b ≡ none) ↔ (P × Q)
both_iff none b (to, _) (to', from') = ((λ h. (to refl, to' h)), (λ (_, q). from' q))
both_iff (some e) b (_, from) _ =
    ((λ h. absurd (none-ne-some _ (sym h))), (λ (p, _). absurd (none-ne-some _ (sym (from p)))))

module _ {F : Type 0} (lib : Library F) where
  must_exist_iff :
      (dir rel place : String) → (must_exist lib dir rel place ≡ none) ↔ Exists lib dir rel
  must_exist_iff dir rel place = elim (Bool-cases (rel == "")) [
    | inl e ↦ rw e ((λ _. inl ((eq_iff rel "").0 e)), (λ _. refl))
    | inr e ↦ elim (Bool-cases (lib.stat (lib.join dir rel))) [
      | inl s ↦ rw (e, s) ((λ _. inr refl), (λ _. refl))
      | inr s ↦
          rw (e, s)
            (
              (λ h. absurd (none-ne-some _ (sym h))),
              (λ c. elim c [
                | inl blank ↦ absurd (false≢true (sym e ∙ (eq_iff rel "").1 blank))
                | inr t ↦ absurd (false≢true t)
              ]),
            )
    ]
  ]

  check_manifests_iff :
      (dir : String) (i : ℕ) (ms : List ManifestRef)
      → (check_manifests lib dir i ms ≡ none) ↔ All (λ m. Exists lib dir m.path) ms
  unfolding check_manifests
  check_manifests_iff dir i [] = ((λ _. tt), (λ _. refl))
  check_manifests_iff dir i (m ∷ ms) =
      both_iff _ _ (must_exist_iff dir m.path _) (check_manifests_iff dir (i + 1) ms)

  probe_exists_iff :
      (dir place : String) (p : Option Probe)
      → (probe_exists lib dir place p ≡ none) ↔ ProbeExists lib dir p
  probe_exists_iff dir place none = ((λ _. tt), (λ _. refl))
  probe_exists_iff dir place (some p) = must_exist_iff dir p.script place

  check_probes_iff :
      (dir id : String) (j : ℕ) (chs : List Check)
      → (check_probes lib dir id j chs ≡ none) ↔ All (λ ch. ProbeExists lib dir (probe_of ch)) chs
  unfolding check_probes
  check_probes_iff dir id j [] = ((λ _. tt), (λ _. refl))
  check_probes_iff dir id j (ch ∷ chs) =
      both_iff _ _ (probe_exists_iff dir _ (probe_of ch)) (check_probes_iff dir id (j + 1) chs)

  check_objectives_iff :
      (dir : String) (os : List Objective)
      → (check_objectives lib dir os ≡ none)
        ↔ All (λ o. All (λ ch. ProbeExists lib dir (probe_of ch)) o.checks) os
  unfolding check_objectives
  check_objectives_iff dir [] = ((λ _. tt), (λ _. refl))
  check_objectives_iff dir (o ∷ os) =
      both_iff _ _ (check_probes_iff dir o.id 0 o.checks) (check_objectives_iff dir os)

  pub check_refs_iff :
      (dir : String) (c : Challenge) → (check_refs lib dir c ≡ none) ↔ IsReferenced lib dir c
  unfolding check_refs
  check_refs_iff dir c =
      let (to, from) = both_iff _ _ (check_manifests_iff dir 0 c.environment.setup.manifests) (
        both_iff _ _ (check_objectives_iff dir c.objectives) (
          both_iff _ _ (must_exist_iff dir c.solution.script _)
            (must_exist_iff dir c.solution.explanation _))) in
      (
        (λ h.
            let (m, (p, (s, x))) = to h in
            record { manifests = m; probes = p; script = s; explanation = x }),
        (λ r. from (r.manifests, (r.probes, (r.script, r.explanation)))),
      )

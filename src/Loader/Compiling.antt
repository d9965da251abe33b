-- ===== src/Loader/Compiling.antt =====
-- `checkCompiles` accepts a challenge whose trees decode and whose expressions compile.
use mathlib.Core.Option.{none-ne-some}
use mathlib.Core.Bool.{false≢true}
use kubedrill.Shared.{
  ℕ, ◌+◌, String, ◌≡◌, ◌≢◌, ◌↔◌, inl, inr, refl, sym, ◌∙◌, Option, none, some, List, [], ◌∷◌, ◌==◌,
  All, Bool-cases, eq_iff, ◌⧺◌,
}
use kubedrill.Json.{Json, Decoded, decoded, malformed}
use kubedrill.Challenge.{Challenge, Objective, Check, check, Checks, nil, cons}
use kubedrill.Loader.{
  Library, tree_error, decode_tree, labelled, compile_check, compile_leaves, compile_checks,
  compile_objectives, check_compiles,
}
use kubedrill.Loader.Loadable.{Compiles, LeavesCompile, IsCompiled}
use kubedrill.Loader.References.{both_iff}

module _ {F : Type 0} (lib : Library F) where
  tree_error_iff :
      (place : String) (d : Decoded F)
      → (tree_error lib place d ≡ none) ↔ ((v : Json F) × (d ≡ decoded v))
  tree_error_iff place (decoded v) = ((λ _. (v, refl)), (λ _. refl))
  tree_error_iff place (malformed e) = ((λ h. absurd (none-ne-some _ (sym h))), (λ (v, h). cc))

  decode_tree_iff :
      (raw place : String)
      → (decode_tree lib raw place ≡ none)
        ↔ ((raw ≢ "") × ((v : Json F) × (lib.unmarshal raw ≡ decoded v)))
  decode_tree_iff raw place = elim (Bool-cases (raw == "")) [
    | inl e ↦
        rw e ((λ h. absurd (none-ne-some _ (sym h))), (λ (n, _). absurd (n ((eq_iff raw "").0 e))))
    | inr e ↦
        let (to, from) = tree_error_iff place (lib.unmarshal raw) in
        rw e (
          (λ h. ((λ blank. absurd (false≢true (sym e ∙ (eq_iff raw "").1 blank))), to h)),
          (λ (_, d). from d),
        )
  ]

  labelled_iff : (label : String) (o : Option String) → (labelled lib label o ≡ none) ↔ (o ≡ none)
  labelled_iff label none = ((λ _. refl), (λ _. refl))
  labelled_iff label (some e) =
      ((λ h. absurd (none-ne-some _ (sym h))), (λ h. absurd (none-ne-some _ (sym h))))

  mutual
    unfolding compile_check compile_leaves Compiles LeavesCompile

    compile_check_iff :
        (place : String) (ch : Check) → (compile_check lib place ch ≡ none) ↔ Compiles lib ch
    compile_check_iff place (check (some m) cel p leaves poll t ts) = decode_tree_iff m.object place
    compile_check_iff place (check none cel p leaves poll t ts) =
        let leaves_iff = compile_leaves_iff (place ⧺ ".anyOf") 0 leaves in
        elim (Bool-cases (cel == "")) [
          | inl e ↦ rw (e, compile_check, Compiles) leaves_iff
          | inr e ↦
              rw (e, compile_check, Compiles)
                (both_iff _ _ (labelled_iff _ lib.cel_env_error)
                  (labelled_iff _ (lib.cel_issues cel)))
        ]

    compile_leaves_iff :
        (place : String) (i : ℕ) (leaves : Checks)
        → (compile_leaves lib place i leaves ≡ none) ↔ LeavesCompile lib leaves
    compile_leaves_iff place i nil = ((λ _. tt), (λ _. refl))
    compile_leaves_iff place i (cons leaf leaves) =
        both_iff _ _ (compile_check_iff _ leaf) (compile_leaves_iff place (i + 1) leaves)

  compile_checks_iff :
      (place : String) (i : ℕ) (chs : List Check)
      → (compile_checks lib place i chs ≡ none) ↔ All (Compiles lib) chs
  unfolding compile_checks
  compile_checks_iff place i [] = ((λ _. tt), (λ _. refl))
  compile_checks_iff place i (ch ∷ chs) =
      both_iff _ _ (compile_check_iff _ ch) (compile_checks_iff place (i + 1) chs)

  compile_objectives_iff :
      (os : List Objective)
      → (compile_objectives lib os ≡ none) ↔ All (λ o. All (Compiles lib) o.checks) os
  unfolding compile_objectives
  compile_objectives_iff [] = ((λ _. tt), (λ _. refl))
  compile_objectives_iff (o ∷ os) =
      both_iff _ _ (compile_checks_iff _ 0 o.checks) (compile_objectives_iff os)

  pub check_compiles_iff : (c : Challenge) → (check_compiles lib c ≡ none) ↔ IsCompiled lib c
  unfolding check_compiles
  check_compiles_iff c =
      let (to, from) =
        both_iff _ _ (compile_objectives_iff c.objectives)
          (compile_checks_iff _ 0 c.environment.setup.readiness) in
      (
        (λ h. let (os, r) = to h in record { objectives = os; readiness = r }),
        (λ k. from (k.objectives, k.readiness)),
      )

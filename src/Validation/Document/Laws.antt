-- ===== src/Validation/Document/Laws.antt =====
-- Which challenges `Validate` of apis/challenge/v1alpha1/validation.go accepts.
use mathlib.Core.Bool.{false≢true}
use mathlib.Core.Option.{none-ne-some}
use kubedrill.Shared.{
  ne_iff, unless_iff, ℕ, ◌+◌, String, ◌≡◌, ◌≢◌, refl, sym, ap, ◌↔◌, inl, inr, Bool, Option, none,
  some, List, [], ◌∷◌, Memᴰ, map, ◌==◌, eq_iff, Bool-cases, All, is_some, both_empty, empty_if,
}
use kubedrill.Shared.Int.{Int64}
use kubedrill.Challenge.{
  Challenge, Objective, Check, Fault, Rule, api_version, kind, easy, medium, hard, expert,
}
use kubedrill.Rules.Grade.{contains}
use kubedrill.Validation.{validate}
use kubedrill.Validation.Laws.{IsUnion, validate_iff}
use kubedrill.Validation.Cycle.{depends_on_cycle}
use kubedrill.Validation.Cycle.Graph.{Cycle}
use kubedrill.Validation.Cycle.Laws.{depends_on_cycle_iff}
use kubedrill.Validation.Document.{
  known_difficulty, failure, error_list, difficulty_errors, header_errors, ids_of,
  dependency_errors, all_dependency_errors, cycle_errors, check_errors, objective_errors,
  objectives_errors, fault_errors, rule_id_errors, rule_errors, validation_errors,
  validate_challenge,
}
use kubedrill.Validation.Document.Valid.{IsHeader, IsObjective, IsFault, IsRule, IsValid}
use kubedrill.Validation.Document.Conditions.{
  Empty, not_iff, nonempty_iff, unless_not_iff, OneOf-iff, contains_iff, fresh_iff, listed_iff, New,
  New-Distinct,
}

difficulty_iff :
    (d : String) → Empty (difficulty_errors d) ↔ Memᴰ d (easy ∷ medium ∷ hard ∷ expert ∷ [])
unfolding difficulty_errors
difficulty_iff d = elim (Bool-cases (known_difficulty d)) [
  | inl e ↦ rw (e, difficulty_errors) ((λ _. (contains_iff _ d).0 e), (λ _. refl))
  | inr e ↦
      rw (e, difficulty_errors)
        ((λ h. absurd (false≢true h)), (λ m. absurd ((fresh_iff _ d).0 e m)))
]

IsHeader-iff : (c : Challenge) → Empty (header_errors c) ↔ IsHeader c
unfolding header_errors
IsHeader-iff c =
    let (to, from) = both_empty _ _ (empty_if _ _ (not_iff c.api_version api_version)) (
      both_empty _ _ (empty_if _ _ (not_iff c.kind kind)) (
        both_empty _ _ (empty_if _ _ (ne_iff c.metadata.name "")) (
          both_empty _ _ (empty_if _ _ (ne_iff c.metadata.version ""))
            (difficulty_iff c.metadata.difficulty)))) in
    (
      (λ h.
          let (a, (b, (n, (v, d)))) = to h in
          record {
            document_version = a;
            document_kind = b;
            name = n;
            version = v;
            difficulty = d;
          }),
      (λ h. from (h.document_version, (h.document_kind, (h.name, (h.version, h.difficulty))))),
    )

module _ (show : Int64 → String) where
  check_errors_iff :
      (id : String) (j : ℕ) (chs : List Check)
      → Empty (check_errors show id j chs) ↔ All IsUnion chs
  unfolding check_errors
  check_errors_iff id j [] = ((λ _. tt), (λ _. refl))
  check_errors_iff id j (ch ∷ chs) =
      both_empty _ _ (one_check (validate show ch) _ (validate_iff show ch))
        (check_errors_iff id (j + 1) chs)
    where
      one_check :
          (e : Option String) (locate : String → String) {P : Type 0}
          → (e ≡ none) ↔ P
          → Empty (error_list e locate) ↔ P
      one_check none locate (to, from) = ((λ _. to refl), (λ _. refl))
      one_check (some e) locate (to, from) =
          ((λ h. absurd (false≢true h)), (λ p. absurd (none-ne-some _ (sym (from p)))))

  objective_errors_iff :
      (i : ℕ) (seen : List String) (o : Objective)
      → Empty (objective_errors show i seen o)
        ↔ ((¬ Memᴰ o.id seen) × ((o.checks ≢ []) × All IsUnion o.checks))
  unfolding objective_errors
  objective_errors_iff i seen o =
      both_empty _ _ (empty_if _ _ (fresh_iff seen o.id))
        (both_empty _ _ (empty_if _ _ (nonempty_iff o.checks)) (check_errors_iff o.id 0 o.checks))

  objectives_errors_iff :
      (i : ℕ) (seen : List String) (os : List Objective)
      → Empty (objectives_errors show i seen os)
        ↔ (All IsObjective os × New seen (map (λ o. o.id) os))
  unfolding objectives_errors
  objectives_errors_iff i seen [] = ((λ _. (tt, tt)), (λ _. refl))
  objectives_errors_iff i seen (o ∷ os) = elim (Bool-cases (o.id == "")) [
    | inl e ↦
        rw (e, objectives_errors)
          ((λ h. absurd (false≢true h)), (λ ((one, _), _). absurd (one.id ((eq_iff o.id "").0 e))))
    | inr e ↦
        let (to, from) =
          both_empty (objective_errors show i seen o)
            (objectives_errors show (i + 1) (o.id ∷ seen) os) (objective_errors_iff i seen o)
            (objectives_errors_iff (i + 1) (o.id ∷ seen) os) in
        rw (e, objectives_errors)
          (
            (λ h.
                let ((fresh, (some_check, fine)), (all, new)) = to h in
                (
                  (
                    record { id = (ne_iff o.id "").0 e; some_check = some_check; checks = fine },
                    all,
                  ),
                  (fresh, new),
                )),
            (λ ((one, all), (fresh, new)).
                from ((fresh, (one.some_check, one.checks)), (all, new))),
          )
  ]

  fault_errors_iff :
      (node_access : Bool) (i : ℕ) (fs : List Fault)
      → Empty (fault_errors show node_access i fs) ↔ All (IsFault node_access) fs
  unfolding fault_errors
  fault_errors_iff access i [] = ((λ _. tt), (λ _. refl))
  fault_errors_iff access i (f ∷ fs) =
      let (to, from) = both_empty _ _ (empty_if _ _ (OneOf-iff f.patch f.exec f.node_exec)) (
        both_empty _ _ (empty_if _ _ (unless_not_iff (is_some f.node_exec) access))
          (fault_errors_iff access (i + 1) fs)) in
      (
        (λ h. let (a, (b, c)) = to h in (record { action = a; access = b }, c)),
        (λ (one, rest). from (one.action, (one.access, rest))),
      )

  rule_id_iff :
      (i : ℕ) (seen : List String) (id : String)
      → Empty (rule_id_errors show i seen id) ↔ ((id ≢ "") × (¬ Memᴰ id seen))
  rule_id_iff i seen id = elim (Bool-cases (id == "")) [
    | inl e ↦ rw e ((λ h. absurd (false≢true h)), (λ (n, _). absurd (n ((eq_iff id "").0 e))))
    | inr e ↦
        let (to, from) = empty_if (contains seen id) _ (fresh_iff seen id) in
        rw e ((λ h. ((ne_iff id "").0 e, to h)), (λ (_, fresh). from fresh))
  ]

  rule_errors_iff :
      (i : ℕ) (seen : List String) (rs : List Rule)
      → Empty (rule_errors show i seen rs) ↔ (All IsRule rs × New seen (map (λ r. r.id) rs))
  unfolding rule_errors
  rule_errors_iff i seen [] = ((λ _. (tt, tt)), (λ _. refl))
  rule_errors_iff i seen (r ∷ rs) =
      let (to, from) = both_empty _ _ (rule_id_iff i seen r.id) (
        both_empty _ _ (empty_if _ _ (OneOf-iff r.deny r.protect r.require)) (
          both_empty _ _ (empty_if _ _ (unless_iff r.enforce (is_some r.require)))
            (rule_errors_iff (i + 1) (r.id ∷ seen) rs))) in
      (
        (λ h.
            let ((named, fresh), (verb, (enforce, (all, new)))) = to h in
            ((record { id = named; verb = verb; enforce = enforce }, all), (fresh, new))),
        (λ ((one, all), (fresh, new)).
            from ((one.id, fresh), (one.verb, (one.enforce, (all, new))))),
      )

dependency_errors_iff :
    (ids : List String) (id : String) (deps : List String)
    → Empty (dependency_errors ids id deps) ↔ All (λ dep. Memᴰ dep ids) deps
unfolding dependency_errors
dependency_errors_iff ids id [] = ((λ _. tt), (λ _. refl))
dependency_errors_iff ids id (dep ∷ deps) =
    both_empty _ _ (empty_if _ _ (listed_iff ids dep)) (dependency_errors_iff ids id deps)

all_dependency_errors_iff :
    (ids : List String) (os : List Objective)
    → Empty (all_dependency_errors ids os) ↔ All (λ o. All (λ dep. Memᴰ dep ids) o.depends_on) os
unfolding all_dependency_errors
all_dependency_errors_iff ids [] = ((λ _. tt), (λ _. refl))
all_dependency_errors_iff ids (o ∷ os) =
    both_empty _ _ (dependency_errors_iff ids o.id o.depends_on) (all_dependency_errors_iff ids os)

cycle_errors_iff : (os : List Objective) → Empty (cycle_errors (depends_on_cycle os)) ↔ (¬ Cycle os)
unfolding cycle_errors
cycle_errors_iff os =
    let (text, e, (to, from)) = depends_on_cycle_iff os in
    let (to', from') = empty_if _ _ (not_iff text "") in
    rw e ((λ h. to (to' h)), (λ n. from' (from n)))

failure_iff : (errs : List String) → (failure errs ≡ none) ↔ Empty errs
failure_iff [] = ((λ _. refl), (λ _. refl))
failure_iff (e ∷ es) = ((λ h. absurd (none-ne-some _ (sym h))), (λ h. absurd (false≢true h)))

ids_of-map : (os : List Objective) → All IsObjective os → ids_of os ≡ map (λ o. o.id) os
ids_of-map [] a = refl
ids_of-map (o ∷ os) (one, all) =
    rw ((ne_iff o.id "").1 one.id) (ap (λ ids. o.id ∷ ids) (ids_of-map os all))

module _ (show : Int64 → String) where
  validation_errors_iff : (c : Challenge) → Empty (validation_errors show c) ↔ IsValid c
  unfolding validation_errors
  validation_errors_iff c =
      let os = c.objectives in
      let (to, from) = both_empty _ _ (IsHeader-iff c) (
        both_empty _ _ (empty_if _ _ (nonempty_iff os)) (
          both_empty _ _ (objectives_errors_iff show 0 [] os) (
            both_empty _ _ (all_dependency_errors_iff (ids_of os) os) (
              both_empty _ _ (cycle_errors_iff os) (
                both_empty _ _
                  (fault_errors_iff show c.metadata.node_access 0 c.environment.setup.faults)
                  (both_empty _ _ (rule_errors_iff show 0 [] c.rules)
                    (empty_if _ _ (ne_iff c.solution.script "")))))))) in
      (
        (λ h.
            let (
              header,
              (filled, ((all, new), (known, (acyclic, (faults, ((rules, ids), script)))))),
            ) =
              to h in
            record {
              header = header;
              some_objective = filled;
              objectives = all;
              objective_ids = (New-Distinct _).0 new;
              known = rw (ids_of-map os all) at known;
              acyclic = acyclic;
              faults = faults;
              rules = rules;
              rule_ids = (New-Distinct _).0 ids;
              script = script;
            }),
        (λ v. from (
          v.header,
          (
            v.some_objective,
            (
              (v.objectives, (New-Distinct _).1 v.objective_ids),
              (
                rw (ids_of-map os v.objectives) v.known,
                (v.acyclic, (v.faults, ((v.rules, (New-Distinct _).1 v.rule_ids), v.script))),
              ),
            ),
          ),
        )),
      )

  -- `Validate` accepts a challenge exactly if it is valid: the header and the difficulty are those of
  -- the format, it has objectives, each with an id of its own, checks that are well-formed and
  -- dependencies that exist and have no cycle, each fault has one action, on nodes only with access,
  -- each rule has an id of its own and one verb and does not enforce a requirement, and there is a
  -- solution script.
  pub validate_challenge_iff : (c : Challenge) → (validate_challenge show c ≡ none) ↔ IsValid c
  unfolding validate_challenge
  validate_challenge_iff c =
      let (to, from) = validation_errors_iff c in
      let (full, blank) = failure_iff (validation_errors show c) in
      ((λ h. to (full h)), (λ v. blank (from v)))

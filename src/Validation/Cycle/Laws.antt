-- ===== src/Validation/Cycle/Laws.antt =====
-- `dependsOnCycle` of apis/challenge/v1alpha1/validation.go returns, and finds a cycle if there is one.
use kubedrill.Shared.{
  String, ◌≡◌, ◌≢◌, refl, ap, ◌∙◌, subst, ◌⊎◌, inl, inr, ◌↔◌, some, List, [], ◌∷◌, Memᴰ, ◌==◌,
  eq_iff, Bool-cases, length,
}
use kubedrill.Challenge.{Objective}
use kubedrill.Validation.Cycle.{
  gray, black, Search, edges_from, names, Answer, dfs, search_from, unsearched, depends_on_cycle,
}
use kubedrill.Validation.Cycle.Graph.{Edge, Cycle, IsSafe, IsSafe-not_on_cycle, first-Edge}
use kubedrill.Validation.Cycle.Soundness.{
  Color-cases, Settled, Kept, Kept-refl, Kept-trans, Returns, Returns-map, Returns-none,
  Returns-unless_found, Searches, dfs-Returns,
}
use kubedrill.Validation.Cycle.Ends.{search-Ends}

module _ (os : List Objective) where
  -- After the loop the ids of the objectives are black.
  abbrev Done : List Objective → Search → Search → Type 0
  Done rest s t = Kept os s t × ((o : Objective) → Memᴰ o rest → t.color o.id ≡ black)

  Done-cons :
      (o : Objective) (rest : List Objective) (s t u : Search)
      → Kept os s t
      → t.color o.id ≡ black
      → Done rest t u
      → Done (o ∷ rest) s u
  Done-cons o rest s t u kept done (more, all) = (Kept-trans os s t u kept more, each)
    where
      each : (p : Objective) → Memᴰ p (o ∷ rest) → u.color p.id ≡ black
      each p (Memᴰ.head e) = more.blacks p.id (ap (λ x. t.color x.id) e ∙ done)
      each p (Memᴰ.tail i) = all p i

  search_from-Returns :
      (go : String → Search → Answer) (rest : List Objective) (s : Search)
      → Searches os go
      → Settled os s
      → ((m : String) → s.color m ≢ gray)
      → Returns os (search_from go rest s) (Done rest s)
  unfolding search_from
  search_from-Returns go [] s search settled clear =
      Returns-none os s _ (Kept-refl os s settled, λ o i. elim i [ ])
  search_from-Returns go (o ∷ rest) s search settled clear = elim (Color-cases (s.color o.id)) [
    | inl w ↦
        rw (w, search_from)
          (Returns-unless_found os (go o.id s) (search_from go rest) _ _
            (search o.id s w settled (λ k g. absurd (clear k g)))
            (λ t (kept, done).
              Returns-map os _ _ _ (λ u. Done-cons o rest s t u kept done)
                (search_from-Returns go rest t search kept.settled
                  (λ m g. clear m (kept.grays m g)))))
    | inr (inl g) ↦ absurd (clear o.id g)
    | inr (inr b) ↦
        rw (b, search_from)
          (Returns-map os _ _ _ (λ u. Done-cons o rest s s u (Kept-refl os s settled) b)
            (search_from-Returns go rest s search settled clear))
  ]

  -- A node with an edge is the id of an objective.
  edge_from_objective :
      (rest : List Objective) (deps : List String) (n m : String)
      → Memᴰ m (edges_from deps rest n)
      → Memᴰ m deps ⊎ ((o : Objective) × Memᴰ o rest × (o.id ≡ n))
  edge_from_objective [] deps n m i = inl i
  edge_from_objective (o ∷ rest) deps n m i = elim (Bool-cases (o.id == n)) [
    | inl e ↦ inr (o, Memᴰ.head refl, (eq_iff o.id n).0 e)
    | inr e ↦ elim (edge_from_objective rest deps n m (rw e at i)) [
      | inl here ↦ inl here
      | inr (p, j, same) ↦ inr (p, Memᴰ.tail j, same)
    ]
  ]

  objective_of_Edge : (n m : String) → Edge os n m → (o : Objective) × Memᴰ o os × (o.id ≡ n)
  objective_of_Edge n m e = elim (edge_from_objective os [] n m e) [
    | inl i ↦ elim i [ ]
    | inr found ↦ found
  ]

  -- If all ids are safe there is no cycle.
  no_cycle : ((o : Objective) → Memᴰ o os → IsSafe os o.id) → ¬ Cycle os
  no_cycle fine c =
      let (l, f, v) = first-Edge os c.from c.to c.from c.walk c.back in
      let (o, i, same) = objective_of_Edge c.from l f in
      IsSafe-not_on_cycle os c.from c.to (subst (IsSafe os) same (fine o i)) c.walk c.back

  search-Returns :
      Returns os (search_from (dfs os (length (names os))) os unsearched) (Done os unsearched)
  search-Returns =
      search_from-Returns (dfs os (length (names os))) os unsearched
        (dfs-Returns os (length (names os))) (λ m b. cc) (λ m g. cc)

  -- The search for a cycle returns whatever the objectives, also with repeated ids and with
  -- dependencies on unknown ones, and its text is empty exactly if the dependencies have no cycle.
  pub depends_on_cycle_iff :
      (text : String) × (depends_on_cycle os ≡ some text) × ((text ≡ "") ↔ (¬ Cycle os))
  unfolding depends_on_cycle
  depends_on_cycle_iff =
      let (c, t, e) = search-Ends os in (c, rw e refl, decided c t (search-Returns c t e))
    where
      decided :
          (c : String) (t : Search)
          → (((c ≡ "") × Done os unsearched t) ⊎ ((c ≢ "") × Cycle os))
          → (c ≡ "") ↔ (¬ Cycle os)
      decided c t (inl (blank, (kept, all))) =
          ((λ _. no_cycle (λ o i. kept.settled o.id (all o i))), (λ _. blank))
      decided c t (inr (found, cycle)) = ((λ e. absurd (found e)), (λ h. absurd (h cycle)))

-- ===== src/Validation/Cycle/Soundness.antt =====
-- What the search of internal colours finds: a cycle, or safe nodes only.
use mathlib.Core.Option.{none-ne-some, some-injective}
use kubedrill.Shared.{
  ℕ, zero, suc, String, ◌≡◌, ◌≢◌, refl, sym, ap, ◌∙◌, subst, ◌⊎◌, inl, inr, false, none, some, List,
  [], ◌∷◌, ◌++◌, Memᴰ, ◌==◌, eq_iff, Bool-cases, join, ◌⧺◌, mem-cons_cases,
}
use text.Mathlib.TextLemmas.{append-eq-nil_iff}
use kubedrill.Challenge.{Objective}
use kubedrill.Validation.Cycle.{
  Color, white, gray, black, Search, paint, drop_last, enter, leave, edges, Answer, unless_found,
  visit_all, dfs,
}
use kubedrill.Validation.Cycle.Graph.{Edge, Walk, here, step, Cycle, IsSafe, safe}

pub Color-cases : (c : Color) → (c ≡ white) ⊎ ((c ≡ gray) ⊎ (c ≡ black))
Color-cases white = inl refl
Color-cases gray = inr (inl refl)
Color-cases black = inr (inr refl)

pub text_cases : (m n : String) → (m ≡ n) ⊎ ((m == n) ≡ false)
text_cases m n = elim (Bool-cases (m == n)) [ inl e ↦ inl ((eq_iff m n).0 e) | inr e ↦ inr e ]

pub paint_same : (n : String) (c : Color) (colors : String → Color) → paint n c colors n ≡ c
paint_same n c colors = rw ((eq_iff n n).1 refl) refl

pub paint_at : (m n : String) (c : Color) (colors : String → Color) → m ≡ n → paint n c colors m ≡ c
paint_at m n c colors e = rw ((eq_iff m n).1 e) refl

gray-ne-black : gray ≢ black
gray-ne-black e = cc

white-ne-black : white ≢ black
white-ne-black e = cc

append-ne-nil : (xs : List String) (n : String) → (xs ++ n ∷ []) ≢ []
append-ne-nil [] n e = cc
append-ne-nil (x ∷ xs) n e = cc

pub drop_last-append : (xs : List String) (n : String) → drop_last (xs ++ n ∷ []) ≡ xs
drop_last-append [] n = refl
drop_last-append (x ∷ []) n = refl
drop_last-append (x ∷ y ∷ r) n = ap (λ l. x ∷ l) (drop_last-append (y ∷ r) n)

-- The text that names a cycle is not empty.
arrow-ne-empty : (x t : String) → (x ⧺ " -> " ⧺ t) ≢ ""
arrow-ne-empty x t e = cc ((append-eq-nil_iff.0 (append-eq-nil_iff.0 e).1).0)

join-ne-empty : (xs : List String) (m : String) → xs ≢ [] → join " -> " (xs ++ m ∷ []) ≢ ""
unfolding join
join-ne-empty [] m h = absurd (h refl)
join-ne-empty (x ∷ []) m h = arrow-ne-empty x m
join-ne-empty (x ∷ y ∷ r) m h = arrow-ne-empty x (join " -> " (y ∷ r ++ m ∷ []))

module _ (os : List Objective) where
  -- Every black node is safe.
  abbrev pub Settled : Search → Type 0
  Settled s = (m : String) → s.color m ≡ black → IsSafe os m

  -- What a search that finds no cycle keeps.
  pub record Kept (s s' : Search) : Type 0 where
    pub settled : Settled s'
    pub path : s'.path ≡ s.path
    pub grays : (m : String) → s'.color m ≡ gray → s.color m ≡ gray
    pub blacks : (m : String) → s.color m ≡ black → s'.color m ≡ black

  -- No cycle was found and `P` holds, or there is one.
  abbrev pub Found : String → Type 0 → Type 0
  Found c P = ((c ≡ "") × P) ⊎ ((c ≢ "") × Cycle os)

  abbrev pub Returns : Answer → (Search → Type 0) → Type 0
  Returns a P = (c : String) (s' : Search) → a ≡ some (c, s') → Found c (P s')

  -- From all gray nodes there is a walk to `n`.
  abbrev pub Leads : Search → String → Type 0
  Leads s n = (m : String) → s.color m ≡ gray → Walk os m n

  pub Kept-refl : (s : Search) → Settled s → Kept s s
  Kept-refl s h = record { settled = h; path = refl; grays = λ m g. g; blacks = λ m b. b }

  pub Kept-trans : (s t u : Search) → Kept s t → Kept t u → Kept s u
  Kept-trans s t u k l = record {
    settled = l.settled;
    path = l.path ∙ k.path;
    grays = λ m g. k.grays m (l.grays m g);
    blacks = λ m b. l.blacks m (k.blacks m b);
  }

  -- The rule for `if c := …; c != "" { return c }`.
  pub Returns-unless_found :
      (a : Answer) (rest : Search → Answer) (P Q : Search → Type 0)
      → Returns a P
      → ((s : Search) → P s → Returns (rest s) Q)
      → Returns (unless_found a rest) Q
  Returns-unless_found none rest P Q h k c s' e = absurd (none-ne-some _ e)
  Returns-unless_found (some (d, t)) rest P Q h k c s' e = elim (h d t refl) [
    | inl (blank, p) ↦ k t p c s' (rw ((eq_iff d "").1 blank) at e)
    | inr (found, cycle) ↦ elim (text_cases d "") [
      | inl blank ↦ absurd (found blank)
      | inr other ↦
          let same : d ≡ c = ap (λ p. p.0) (some-injective _ _ (rw other at e)) in
          inr (subst (λ x. x ≢ "") same found, cycle)
    ]
  ]

  -- The answer with no cycle, in the search `t`.
  pub Returns-none : (t : Search) (P : Search → Type 0) → P t → Returns (some ("", t)) P
  Returns-none t P p c s' e =
      let same = some-injective _ _ e in
      inl (sym (ap (λ x. x.0) same), subst P (ap (λ x. x.1) same) p)

  pub Returns-map :
      (a : Answer) (P Q : Search → Type 0) → ((s : Search) → P s → Q s) → Returns a P → Returns a Q
  Returns-map a P Q f h c s e = elim (h c s e) [
    | inl (blank, p) ↦ inl (blank, f s p)
    | inr found ↦ inr found
  ]

  -- The search kept what it has to, and left the nodes black.
  abbrev Blackened : List String → Search → Search → Type 0
  Blackened ms s s' = Kept s s' × ((m : String) → Memᴰ m ms → s'.color m ≡ black)

  Blackened-cons :
      (m : String) (ms : List String) (s t u : Search)
      → Kept s t
      → t.color m ≡ black
      → Blackened ms t u
      → Blackened (m ∷ ms) s u
  Blackened-cons m ms s t u kept done (more, all) = (
    Kept-trans s t u kept more,
    λ k i. elim (mem-cons_cases i) [ inl e ↦ rw e (more.blacks m done) | inr later ↦ all k later ],
  )

  -- What `go` has to do for `visit_all` to be right: see `dfs-Returns`.
  abbrev pub Searches : (String → Search → Answer) → Type 0
  Searches go =
      (m : String) (s : Search)
      → s.color m ≡ white
      → Settled s
      → Leads s m
      → Returns (go m s) (λ s'. Kept s s' × (s'.color m ≡ black))

  visit_all-Returns :
      (go : String → Search → Answer) (n : String) (ms : List String) (s : Search)
      → Searches go
      → ((m : String) → Memᴰ m ms → Edge os n m)
      → s.path ≢ []
      → Settled s
      → Leads s n
      → Returns (visit_all go ms s) (Blackened ms s)
  unfolding visit_all
  visit_all-Returns go n [] s search below path settled leads =
      Returns-none s _ (Kept-refl s settled, λ m i. elim i [ ])
  visit_all-Returns go n (m ∷ ms) s search below path settled leads =
      elim (Color-cases (s.color m)) [
        | inl w ↦
            rw (w, visit_all)
              (Returns-unless_found (go m s) (visit_all go ms) _ _
                (search m s w settled (λ k g. step n m (leads k g) (below m (Memᴰ.head refl))))
                (λ t (kept, done).
                  Returns-map _ _ _ (λ u. Blackened-cons m ms s t u kept done)
                    (visit_all-Returns go n ms t search (λ k i. below k (Memᴰ.tail i))
                      (λ e. path (sym kept.path ∙ e)) kept.settled
                      (λ k g. leads k (kept.grays k g)))))
        | inr (inl g) ↦
            rw (g, visit_all)
              (λ c s' e. inr (
                subst (λ x. x ≢ "") (ap (λ x. x.0) (some-injective _ _ e))
                    (join-ne-empty s.path m path),
                record { from = m; to = n; walk = leads m g; back = below m (Memᴰ.head refl) },
              ))
        | inr (inr b) ↦
            rw (b, visit_all)
              (Returns-map _ _ _ (λ u. Blackened-cons m ms s s u (Kept-refl s settled) b)
                (visit_all-Returns go n ms s search (λ k i. below k (Memᴰ.tail i)) path settled
                  leads))
      ]

  -- The node that is entered is gray, so nothing turns black.
  enter-Settled : (n : String) (s : Search) → Settled s → Settled (enter n s)
  enter-Settled n s settled m b = elim (text_cases m n) [
    | inl e ↦ absurd (gray-ne-black (sym (paint_at m n gray s.color e) ∙ b))
    | inr e ↦ settled m (rw e at b)
  ]

  enter-Leads : (n : String) (s : Search) → Leads s n → Leads (enter n s) n
  enter-Leads n s leads m g = elim (text_cases m n) [
    | inl e ↦ rw e here
    | inr e ↦ leads m (rw e at g)
  ]

  enter-path : (n : String) (s : Search) → (enter n s).path ≢ []
  enter-path n s = append-ne-nil s.path n

  -- All that `n` leads to is black, so `n` is safe and may turn black.
  leave-Kept :
      (n : String) (s t : Search)
      → s.color n ≡ white
      → Blackened (edges os n) (enter n s) t
      → Kept s (leave n t) × ((leave n t).color n ≡ black)
  leave-Kept n s t w (kept, all) = (
    record {
      settled = λ m b. elim (text_cases m n) [
        | inl e ↦ subst (IsSafe os) (sym e) (safe n (λ k i. kept.settled k (all k i)))
        | inr e ↦ kept.settled m (rw e at b)
      ];
      path = ap drop_last kept.path ∙ drop_last-append s.path n;
      grays = λ m g. elim (text_cases m n) [
        | inl e ↦ absurd (gray-ne-black (sym g ∙ paint_at m n black t.color e))
        | inr e ↦ let entered = kept.grays m (rw e at g) in rw e at entered
      ];
      blacks = λ m b. elim (text_cases m n) [
        | inl e ↦ absurd (white-ne-black (sym w ∙ ap s.color (sym e) ∙ b))
        | inr e ↦ rw e (kept.blacks m (rw e b))
      ];
    },
    paint_same n black t.color,
  )

  pub dfs-Returns : (fuel : ℕ) → Searches (dfs os fuel)
  unfolding dfs
  dfs-Returns zero n s w settled leads = λ c s' e. absurd (none-ne-some _ e)
  dfs-Returns (suc fuel) n s w settled leads =
      Returns-unless_found (visit_all (dfs os fuel) (edges os n) (enter n s))
        (λ t. some ("", leave n t)) _ _
        (visit_all-Returns (dfs os fuel) n (edges os n) (enter n s) (dfs-Returns fuel) (λ m i. i)
          (enter-path n s) (enter-Settled n s settled) (enter-Leads n s leads))
        (λ t done. Returns-none (leave n t) _ (leave-Kept n s t w done))

-- ===== src/Validation/Cycle/Ends.antt =====
-- The fuel of the search is enough: every call colours one more of the names that the objectives give.
use kubedrill.Shared.{
  ℕ, zero, suc, ◌+◌, ◌≤◌, ◌<◌, String, ◌≡◌, refl, sym, ap, ◌∙◌, ◌⊎◌, inl, inr, some, List, [], ◌∷◌,
  Memᴰ, ◌==◌, Bool-cases, if◌then◌else◌, length, mem-append_left, mem-append_right, arith,
}
use kubedrill.Challenge.{Objective}
use kubedrill.Validation.Cycle.{
  Color, white, gray, black, Search, enter, leave, edges, edges_from, names, Answer, unless_found,
  visit_all, dfs, search_from, unsearched,
}
use kubedrill.Validation.Cycle.Soundness.{Color-cases, text_cases, paint_at}

abbrev is_white : Color → ℕ
is_white white = 1
is_white _ = 0

abbrev whites : List String → Search → ℕ
whites [] s = 0
whites (u ∷ us) s = is_white (s.color u) + whites us s

-- No node turns white.
abbrev Darkens : Search → Search → Type 0
Darkens s t = (m : String) → t.color m ≡ white → s.color m ≡ white

is_white-le : (c d : Color) → (d ≡ white → c ≡ white) → is_white d ≤ is_white c
is_white-le c white h = rw (h refl) (omega arith)
is_white-le c gray h = omega arith
is_white-le c black h = omega arith

whites-le : (us : List String) (s t : Search) → Darkens s t → whites us t ≤ whites us s
whites-le [] s t h = omega arith
whites-le (u ∷ us) s t h =
    let a = is_white-le (s.color u) (t.color u) (h u) in let b = whites-le us s t h in omega arith

-- A node that is no longer white counts.
whites-lt :
    (us : List String) (s t : Search) (n : String)
    → Darkens s t
    → Memᴰ n us
    → s.color n ≡ white
    → t.color n ≡ gray
    → whites us t < whites us s
whites-lt [] s t n h i w g = elim i [ ]
whites-lt (u ∷ us) s t n h (Memᴰ.head e) w g =
    let b = whites-le us s t h in rw (sym e, w, g) (omega arith)
whites-lt (u ∷ us) s t n h (Memᴰ.tail i) w g =
    let a = is_white-le (s.color u) (t.color u) (h u) in
    let b = whites-lt us s t n h i w g in omega arith

abbrev Ends : Answer → Search → Type 0
Ends a s = (c : String) × (t : Search) × (a ≡ some (c, t)) × Darkens s t

Ends-from : (a : Answer) (s t : Search) → Darkens s t → Ends a t → Ends a s
Ends-from a s t h (c, u, e, d) = (c, u, e, λ m w. h m (d m w))

Ends-unless_found :
    (a : Answer) (rest : Search → Answer) (s : Search)
    → Ends a s
    → ((t : Search) → Darkens s t → Ends (rest t) t)
    → Ends (unless_found a rest) s
Ends-unless_found a rest s (c, t, e, d) k = elim (Bool-cases (c == "")) [
  | inl blank ↦ rw (e, blank) (Ends-from (rest t) s t d (k t d))
  | inr found ↦ rw (e, found) (c, t, refl, d)
]

enter-Darkens : (n : String) (s : Search) → Darkens s (enter n s)
enter-Darkens n s m w = elim (text_cases m n) [
  | inl e ↦ let g : white ≡ gray = sym w ∙ paint_at m n gray s.color e in cc
  | inr e ↦ rw e at w
]

leave-Darkens : (n : String) (s : Search) → Darkens s (leave n s)
leave-Darkens n s m w = elim (text_cases m n) [
  | inl e ↦ let g : white ≡ black = sym w ∙ paint_at m n black s.color e in cc
  | inr e ↦ rw e at w
]

edges_from-names :
    (deps : List String) (os : List Objective) (n m : String)
    → Memᴰ m (edges_from deps os n)
    → Memᴰ m deps ⊎ Memᴰ m (names os)
edges_from-names deps [] n m i = inl i
edges_from-names deps (o ∷ os) n m i =
    elim (edges_from-names (if o.id == n then o.depends_on else deps) os n m i) [
      | inr later ↦ inr (mem-append_right (o.id ∷ o.depends_on) later)
      | inl here ↦ elim (Bool-cases (o.id == n)) [
        | inl e ↦ inr (mem-append_left (names os) (Memᴰ.tail (rw e at here)))
        | inr e ↦ inl (rw e at here)
      ]
    ]

module _ (os : List Objective) where
  visit_all-Ends :
      (go : String → Search → Answer) (fuel : ℕ) (ms : List String) (s : Search)
      → ((m : String) (t : Search)
          → Memᴰ m (names os)
          → t.color m ≡ white
          → whites (names os) t ≤ fuel
          → Ends (go m t) t)
      → ((m : String) → Memᴰ m ms → Memᴰ m (names os))
      → whites (names os) s ≤ fuel
      → Ends (visit_all go ms s) s
  unfolding visit_all
  visit_all-Ends go fuel [] s ends known h = ("", s, refl, λ m w. w)
  visit_all-Ends go fuel (m ∷ ms) s ends known h =
      let rest = λ (i : String) (j : Memᴰ i ms). known i (Memᴰ.tail j) in
      elim (Color-cases (s.color m)) [
        | inl w ↦
            rw (w, visit_all)
              (Ends-unless_found (go m s) (visit_all go ms) s
                (ends m s (known m (Memᴰ.head refl)) w h)
                (λ t d.
                  let fewer = whites-le (names os) s t d in
                  visit_all-Ends go fuel ms t ends rest (omega arith)))
        | inr (inl g) ↦ rw (g, visit_all) (_, s, refl, λ k w. w)
        | inr (inr b) ↦ rw (b, visit_all) (visit_all-Ends go fuel ms s ends rest h)
      ]

  dfs-Ends :
      (fuel : ℕ) (n : String) (s : Search)
      → Memᴰ n (names os)
      → s.color n ≡ white
      → whites (names os) s ≤ fuel
      → Ends (dfs os fuel n s) s
  unfolding dfs
  dfs-Ends zero n s i w h =
      let some_white =
        whites-lt (names os) s (enter n s) n (enter-Darkens n s) i w
          (paint_at n n gray s.color refl) in
      absurd (omega arith)
  dfs-Ends (suc fuel) n s i w h =
      let fewer =
        whites-lt (names os) s (enter n s) n (enter-Darkens n s) i w
          (paint_at n n gray s.color refl) in
      Ends-from _ s (enter n s) (enter-Darkens n s) (
        Ends-unless_found (visit_all (dfs os fuel) (edges os n) (enter n s))
          (λ t. some ("", leave n t)) (enter n s)
          (visit_all-Ends (dfs os fuel) fuel (edges os n) (enter n s) (dfs-Ends fuel)
            (edges_known n) (omega arith))
          (λ t d. ("", leave n t, refl, leave-Darkens n t)))
    where
      edges_known : (n m : String) → Memᴰ m (edges os n) → Memᴰ m (names os)
      edges_known n m i = elim (edges_from-names [] os n m i) [
        | inl none_left ↦ elim none_left [ ]
        | inr k ↦ k
      ]

  search_from-Ends :
      (go : String → Search → Answer) (rest : List Objective) (s : Search)
      → ((o : Objective) (t : Search)
          → Memᴰ o rest
          → t.color o.id ≡ white
          → whites (names os) t ≤ length (names os)
          → Ends (go o.id t) t)
      → whites (names os) s ≤ length (names os)
      → Ends (search_from go rest s) s
  unfolding search_from
  search_from-Ends go [] s ends h = ("", s, refl, λ m w. w)
  search_from-Ends go (o ∷ rest) s ends h =
      let later = λ (p : Objective) (t : Search) (j : Memᴰ p rest). ends p t (Memᴰ.tail j) in
      elim (Color-cases (s.color o.id)) [
        | inl w ↦
            rw (w, search_from)
              (Ends-unless_found (go o.id s) (search_from go rest) s (ends o s (Memᴰ.head refl) w h)
                (λ t d.
                  let fewer = whites-le (names os) s t d in
                  search_from-Ends go rest t later (omega arith)))
        | inr (inl g) ↦ rw (g, search_from) (search_from-Ends go rest s later h)
        | inr (inr b) ↦ rw (b, search_from) (search_from-Ends go rest s later h)
      ]

  id_known : (rest : List Objective) (o : Objective) → Memᴰ o rest → Memᴰ o.id (names rest)
  id_known [] o i = elim i [ ]
  id_known (p ∷ rest) o (Memᴰ.head e) = Memᴰ.head (ap (λ x. x.id) e)
  id_known (p ∷ rest) o (Memᴰ.tail i) = mem-append_right (p.id ∷ p.depends_on) (id_known rest o i)

  whites_at_most : (us : List String) (s : Search) → whites us s ≤ length us
  whites_at_most [] s = omega arith
  whites_at_most (u ∷ us) s =
      let a = is_white-le white (s.color u) (λ _. refl) in
      let b = whites_at_most us s in omega arith

  -- The search of all objectives returns.
  pub search-Ends :
      (c : String) × (t : Search) × (search_from (dfs os (length (names os))) os unsearched
        ≡ some (c, t))
  search-Ends =
      let (c, t, e, _) =
        search_from-Ends (dfs os (length (names os))) os unsearched
          (λ o t i w h. dfs-Ends (length (names os)) o.id t (id_known os o i) w h)
          (whites_at_most (names os) unsearched) in
      (c, t, e)

-- ===== src/Shared/Sorting.antt =====
-- Sorting by insertion: what a stable sort by a test on two elements gives.
use mathlib.Core.Logic.{inl, inr, ◌↔◌}
use mathlib.Core.Bool.{Bool}
use mathlib.Core.List.{List, [], ◌∷◌, Memᴰ}
use package.kubedrill.Shared.Tests.{if◌then◌else◌, Bool-cases}
use package.kubedrill.Shared.Members.{mem-cons_cases}

-- `before x y` puts a new `x` in front of `y`.
module _ {A : Type 0} (before : A → A → Bool) where
  abbrev pub insert_by : A → List A → List A
  insert_by x [] = x ∷ []
  insert_by x (y ∷ ys) = let rest = insert_by x ys in if before x y then x ∷ y ∷ ys else y ∷ rest

  abbrev pub sort_by : List A → List A
  sort_by [] = []
  sort_by (x ∷ xs) = insert_by x (sort_by xs)

  pub mem-insert_by : (a x : A) (xs : List A) → Memᴰ a (insert_by x xs) ↔ Memᴰ a (x ∷ xs)
  mem-insert_by a x [] = ((λ m. m), (λ m. m))
  mem-insert_by a x (y ∷ ys) = elim (Bool-cases (before x y)) [
    | inl e ↦ rw e ((λ m. m), (λ m. m))
    | inr e ↦ rw e (to (mem-insert_by a x ys).0, from (mem-insert_by a x ys).1)
  ]
    where
      to :
          (Memᴰ a (insert_by x ys) → Memᴰ a (x ∷ ys))
          → Memᴰ a (y ∷ insert_by x ys)
          → Memᴰ a (x ∷ y ∷ ys)
      to rec m = elim (mem-cons_cases m) [
        | inl e ↦ Memᴰ.tail (Memᴰ.head e)
        | inr r ↦ elim (mem-cons_cases (rec r)) [
          | inl e ↦ Memᴰ.head e
          | inr q ↦ Memᴰ.tail (Memᴰ.tail q)
        ]
      ]

      from :
          (Memᴰ a (x ∷ ys) → Memᴰ a (insert_by x ys))
          → Memᴰ a (x ∷ y ∷ ys)
          → Memᴰ a (y ∷ insert_by x ys)
      from rec m = elim (mem-cons_cases m) [
        | inl e ↦ Memᴰ.tail (rec (Memᴰ.head e))
        | inr r ↦ elim (mem-cons_cases r) [
          | inl e ↦ Memᴰ.head e
          | inr q ↦ Memᴰ.tail (rec (Memᴰ.tail q))
        ]
      ]

  pub mem-sort_by : (a : A) (xs : List A) → Memᴰ a (sort_by xs) ↔ Memᴰ a xs
  mem-sort_by a [] = ((λ m. m), (λ m. m))
  mem-sort_by a (x ∷ xs) = (
    (λ m. elim (mem-cons_cases ((mem-insert_by a x (sort_by xs)).0 m)) [
      | inl e ↦ Memᴰ.head e
      | inr r ↦ Memᴰ.tail ((mem-sort_by a xs).0 r)
    ]),
    (λ m. (mem-insert_by a x (sort_by xs)).1 (elim (mem-cons_cases m) [
      | inl e ↦ Memᴰ.head e
      | inr r ↦ Memᴰ.tail ((mem-sort_by a xs).1 r)
    ])),
  )

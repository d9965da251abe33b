-- ===== src/Validation/Cycle.antt =====
-- `dependsOnCycle` of apis/challenge/v1alpha1/validation.go: a depth-first search with three colours.
pub mod Graph
pub mod Soundness
pub mod Ends
pub mod Laws
use kubedrill.Shared.{
  ℕ, zero, suc, String, Bool, true, false, Option, none, some, List, [], ◌∷◌, ◌++◌, ◌==◌, length,
  if◌then◌else◌, join,
}
use kubedrill.Challenge.{Objective}

pub data Color : Type 0 where
  white gray black : Color

-- The variables that the closure `dfs` shares: the map of colours, white at a missing key, and the path.
pub record Search : Type 0 where
  pub color : String → Color
  pub path : List String

abbrev pub paint : String → Color → (String → Color) → String → Color
paint n c colors m = if m == n then c else colors m

-- `path[:len(path)-1]`
abbrev pub drop_last : List String → List String
drop_last [] = []
drop_last (n ∷ []) = []
drop_last (n ∷ m ∷ r) = n ∷ drop_last (m ∷ r)

abbrev pub enter : String → Search → Search
enter n s = record { color = paint n gray s.color; path = s.path ++ n ∷ [] }

abbrev pub leave : String → Search → Search
leave n s = record { color = paint n black s.color; path = drop_last s.path }

-- `graph[n]`, after `deps` was stored last: a later objective takes the place of an earlier one.
abbrev pub edges_from : List String → List Objective → String → List String
edges_from deps [] n = deps
edges_from deps (o ∷ os) n = edges_from (if o.id == n then o.depends_on else deps) os n

abbrev pub edges : List Objective → String → List String
edges os n = edges_from [] os n

-- What `dfs` returns, and the variables after it; none where the fuel is gone.
abbrev pub Answer : Type 0
Answer = Option (String × Search)

-- `if c := …; c != "" { return c }`
abbrev pub unless_found : Answer → (Search → Answer) → Answer
unless_found none rest = none
unless_found (some (cycle, s)) rest = if cycle == "" then rest s else some (cycle, s)

-- The loop over `graph[n]`; `go` is `dfs`.
unfoldable pub visit_all : (String → Search → Answer) → List String → Search → Answer
unfolding join
visit_all go [] s = some ("", s)
visit_all go (m ∷ ms) s = elim (s.color m) [
  | gray ↦ some (join " -> " (s.path ++ m ∷ []), s)
  | white ↦ unless_found (go m s) (λ s'. visit_all go ms s')
  | black ↦ visit_all go ms s
]

unfoldable pub dfs : List Objective → ℕ → String → Search → Answer
unfolding visit_all
dfs os zero n s = none
dfs os (suc fuel) n s =
    unless_found (visit_all (dfs os fuel) (edges os n) (enter n s)) (λ s'. some ("", leave n s'))

-- The loop over the objectives
unfoldable pub search_from : (String → Search → Answer) → List Objective → Search → Answer
search_from go [] s = some ("", s)
search_from go (o ∷ os) s = elim (s.color o.id) [
  | white ↦ unless_found (go o.id s) (λ s'. search_from go os s')
  | gray ↦ search_from go os s
  | black ↦ search_from go os s
]

-- Every id and every dependency that the objectives name. A call of `dfs` inside another colours one
-- more of them.
abbrev pub names : List Objective → List String
names [] = []
names (o ∷ os) = o.id ∷ o.depends_on ++ names os

abbrev pub unsearched : Search
unsearched = record { color = λ _. white; path = [] }

abbrev text_of : Answer → Option String
text_of none = none
text_of (some (cycle, s)) = some cycle

-- The text of the cycle, or "": with the fuel that is given it is never none.
unfoldable pub depends_on_cycle : List Objective → Option String
unfolding dfs search_from
depends_on_cycle os = text_of (search_from (dfs os (length (names os))) os unsearched)

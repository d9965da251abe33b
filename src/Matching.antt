-- ===== src/Matching.antt =====
-- internal/challenge/match.go: subset matching of a tree against a live object.
pub mod Relation
mod Assignment
pub mod Laws
use kubedrill.Shared.{
  Bool, true, false, not, ◌&&◌, ◌||◌, Option, none, some, List, [], ◌∷◌, ◌++◌, ◌==◌, map,
  if◌then◌else◌,
}
use kubedrill.Json.{
  Json, null, bool, float, int, str, arr, obj, Items, nil, cons, Fields, end, field, items, lookup,
  Float64,
}

abbrev pub bool_eq : Bool → Bool → Bool
bool_eq true b = b
bool_eq false true = false
bool_eq false false = true

-- The loop over `j` in `assign`, at the objects from `j` on: `before` and `used` are the flags of
-- the objects before `j` and from `j` on. `accepts` is `Match(tree[i], _)` and `next` is `assign(i + 1)`.
module _ {A : Type 0} (accepts : A → Bool) (next : List Bool → Bool) where
  unfoldable pub try_from : List A → List Bool → List Bool → Bool
  try_from [] before used = false
  try_from (o ∷ os) before [] = false
  try_from (o ∷ os) before (u ∷ us) =
      let rest = try_from os (before ++ u ∷ []) us in
      if u || not (accepts o)
      then rest
      else (elim (next (before ++ true ∷ us)) [ true ↦ true | false ↦ rest ])

-- What the loop over the keys asks of `o[k]`: for a null, and for any other value of the tree.
module _ {F : Type 0} where
  abbrev pub absent_or_null : Option (Json F) → Bool
  absent_or_null none = true
  absent_or_null (some null) = true
  absent_or_null (some _) = false

  abbrev pub present_and : (Json F → Bool) → Option (Json F) → Bool
  present_and accepts none = false
  present_and accepts (some v) = accepts v

module _ (fl : Float64) where
  open fl use {Float, of_int, eq}

  abbrev as_float : Json Float → Option Float
  as_float (float x) = some x
  as_float (int n) = some (of_int n)
  as_float _ = none

  -- `a == b` on the values that are no numbers
  abbrev same_value : Json Float → Json Float → Bool
  same_value null null = true
  same_value (bool a) (bool b) = bool_eq a b
  same_value (str a) (str b) = a == b
  same_value _ _ = false

  abbrev floats_equal : Option Float → Option Float → Bool → Bool
  floats_equal none none other = other
  floats_equal (some x) (some y) other = eq x y
  floats_equal _ _ other = false

  unfoldable pub scalar_equal : Json Float → Json Float → Bool
  scalar_equal a b = floats_equal (as_float a) (as_float b) (same_value a b)

  unfoldable mutual
    pub matches : Json Float → Json Float → Bool
    matches null null = true
    matches null _ = false
    matches (obj t) (obj o) = matches_fields t o
    matches (obj t) _ = false
    matches (arr t) (arr o) = assign t (items o) (map (λ _. false) (items o))
    matches (arr t) _ = false
    matches (bool a) o = scalar_equal (bool a) o
    matches (float a) o = scalar_equal (float a) o
    matches (int a) o = scalar_equal (int a) o
    matches (str a) o = scalar_equal (str a) o

    -- the loop over the keys of the tree
    pub matches_fields : Fields Float → Fields Float → Bool
    matches_fields end o = true
    matches_fields (field k null t) o = absent_or_null (lookup k o) && matches_fields t o
    matches_fields (field k v t) o = present_and (matches v) (lookup k o) && matches_fields t o

    pub assign : Items Float → List (Json Float) → List Bool → Bool
    assign nil os used = true
    assign (cons t ts) os used = try_from (matches t) (assign ts os) os [] used

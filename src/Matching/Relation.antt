-- ===== src/Matching/Relation.antt =====
-- The subset semantics that the comment on `Match` states, as a relation.
use kubedrill.Shared.{String, ◌≡◌, Bool, true, ◌⊎◌, none, some, List, [], ◌∷◌}
use kubedrill.Json.{
  Json, null, bool, float, int, str, arr, obj, Items, nil, cons, Fields, end, field, items, lookup,
  Float64,
}

-- `rest` is `os` without one occurrence of `o`.
abbrev pub Picks : {A : Type 0} → A → List A → List A → Type 0
Picks o [] rest = ⊥
Picks {A} o (x ∷ xs) rest = ((o ≡ x) × (rest ≡ xs)) ⊎ ((r : List A) × (rest ≡ x ∷ r) × Picks o xs r)

module _ (fl : Float64) where
  open fl use {Float, of_int, eq}

  -- The number that a value is, if it is one: int64 and float64 are compared as float64.
  abbrev pub Number : Json Float → Float → Type 0
  Number (float x) y = x ≡ y
  Number (int n) y = of_int n ≡ y
  Number _ y = ⊥

  mutual
    pub data Matches : Json Float → Json Float → Type 0 where
      both_null : Matches null null
      same_bool : (a b : Bool) → a ≡ b → Matches (bool a) (bool b)
      same_text : (a b : String) → a ≡ b → Matches (str a) (str b)
      same_number :
          (t o : Json Float) (x y : Float) → Number t x → Number o y → eq x y ≡ true → Matches t o
      sub_object : (t o : Fields Float) → Covers t o → Matches (obj t) (obj o)
      sub_array : (t o : Items Float) → Assigns t (items o) → Matches (arr t) (arr o)

    -- Every key of the tree is in the object with a value that matches, or is null and absent.
    pub data Covers : Fields Float → Fields Float → Type 0 where
      all_covered : (o : Fields Float) → Covers end o
      absent :
          (k : String) (t o : Fields Float)
          → lookup k o ≡ none
          → Covers t o
          → Covers (field k null t) o
      present :
          (k : String) (v w : Json Float) (t o : Fields Float)
          → lookup k o ≡ some w
          → Matches v w
          → Covers t o
          → Covers (field k v t) o

    -- Every element of the tree has an element of the object of its own that it matches.
    pub data Assigns : Items Float → List (Json Float) → Type 0 where
      all_assigned : (os : List (Json Float)) → Assigns nil os
      pick :
          (t : Json Float) (ts : Items Float) (o : Json Float) (os rest : List (Json Float))
          → Picks o os rest
          → Matches t o
          → Assigns ts rest
          → Assigns (cons t ts) os

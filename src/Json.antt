-- ===== src/Json.antt =====
-- Decoded JSON values, the `any` of Go's encoding/json and of unstructured objects.
-- A number is a float64 (what encoding/json decodes) or an int64 (what unstructured objects hold).
use kubedrill.Shared.{
  String, ◌≡◌, Bool, true, Option, none, some, List, [], ◌∷◌, ◌==◌, if◌then◌else◌,
}
use kubedrill.Shared.Int.{Int64}

mutual
  pub data Json (F : Type 0) : Type 0 where
    null : Json F
    bool : Bool → Json F
    float : F → Json F
    int : Int64 → Json F
    str : String → Json F
    arr : Items F → Json F
    obj : Fields F → Json F

  pub data Items (F : Type 0) : Type 0 where
    nil : Items F
    cons : Json F → Items F → Items F

  -- A map: the entries in some order. A key stands for its first entry.
  pub data Fields (F : Type 0) : Type 0 where
    end : Fields F
    field : String → Json F → Fields F → Fields F

module _ {F : Type 0} where
  abbrev pub items : Items F → List (Json F)
  items nil = []
  items (cons x xs) = x ∷ items xs

  -- `o[k]`, with `present` as `some`
  abbrev pub lookup : String → Fields F → Option (Json F)
  lookup k end = none
  lookup k (field j v fs) = if j == k then some v else lookup k fs

-- The floats are not the program's: the type, the conversion of an int64 and the comparison `==`,
-- which is an equivalence on the values that JSON texts denote (there is no NaN among them).
pub record Float64 : Type 1 where
  pub Float : Type 0
  pub of_int : Int64 → Float
  pub eq : Float → Float → Bool
  pub eq_refl : (x : Float) → eq x x ≡ true
  pub eq_symm : (x y : Float) → eq x y ≡ true → eq y x ≡ true
  pub eq_trans : (x y z : Float) → eq x y ≡ true → eq y z ≡ true → eq x z ≡ true

-- `json.Unmarshal` of a text into an `any`: the value, or the text of the error.
pub data Decoded (F : Type 0) : Type 0 where
  decoded : Json F → Decoded F
  malformed : String → Decoded F

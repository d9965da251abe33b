-- ===== src/Matching/Laws.antt =====
-- `Match` decides the subset relation.
use mathlib.Core.Bool.{and-eq-true_iff}
use kubedrill.Shared.{
  String, ◌≡◌, refl, ◌↔◌, inl, inr, Bool, true, false, Option, none, some, List, [], arith, eq_iff,
  Option-cases, map,
}
use kubedrill.Json.{
  Json, null, bool, float, int, str, arr, obj, Items, nil, cons, Fields, end, field, items, lookup,
  Float64,
}
use kubedrill.Matching.{
  bool_eq, scalar_equal, matches, matches_fields, assign, absent_or_null, present_and,
}
use kubedrill.Matching.Relation.{
  Matches, both_null, same_bool, same_text, same_number, sub_object, sub_array, Covers, all_covered,
  absent, present, Assigns, all_assigned, pick, Number,
}
use kubedrill.Matching.Assignment.{free, free_of_unused, try_from_sound, try_from_complete}

bool_eq→eq : (a b : Bool) → bool_eq a b ≡ true → a ≡ b
bool_eq→eq a b h = ground arith

module _ (fl : Float64) where
  open fl use {Float, of_int, eq}

  scalar_sound : (t o : Json Float) → scalar_equal fl t o ≡ true → Matches fl t o
  unfolding scalar_equal
  scalar_sound (bool a) (bool b) h = same_bool a b (bool_eq→eq a b h)
  scalar_sound (str a) (str b) h = same_text a b ((eq_iff a b).0 h)
  scalar_sound (float x) (float y) h = same_number (float x) (float y) x y refl refl h
  scalar_sound (float x) (int n) h = same_number (float x) (int n) x (of_int n) refl refl h
  scalar_sound (int m) (float y) h = same_number (int m) (float y) (of_int m) y refl refl h
  scalar_sound (int m) (int n) h = same_number (int m) (int n) (of_int m) (of_int n) refl refl h
  scalar_sound null null h = both_null
  scalar_sound (arr t) null h = cc
  scalar_sound (obj t) null h = cc
  scalar_sound _ _ h = cc

  Covers-null :
      (k : String) (t o : Fields Float)
      → absent_or_null (lookup k o) ≡ true
      → Covers fl t o
      → Covers fl (field k null t) o
  Covers-null k t o h c = go (lookup k o) refl h
    where
      go :
          (found : Option (Json Float))
          → lookup k o ≡ found
          → absent_or_null found ≡ true
          → Covers fl (field k null t) o
      go none e _ = absent k t o e c
      go (some null) e _ = present k null null t o e both_null c
      go (some w) e x = cc

  Covers-value :
      (k : String) (v : Json Float) (t o : Fields Float)
      → ((w : Json Float) → matches fl v w ≡ true → Matches fl v w)
      → present_and (matches fl v) (lookup k o) ≡ true
      → Covers fl t o
      → Covers fl (field k v t) o
  Covers-value k v t o ih h c = elim (Option-cases (lookup k o)) [
    | inl e ↦ ground (arith, e)
    | inr (w, e) ↦ present k v w t o e (ih w (rw e at h)) c
  ]

  mutual
    unfolding matches

    matches_sound : (t o : Json Float) → matches fl t o ≡ true → Matches fl t o
    matches_sound null null h = both_null
    matches_sound (obj t) (obj o) h = sub_object t o (matches_fields_sound t o h)
    matches_sound (arr t) (arr o) h =
        sub_array t o
          (rw free_of_unused at (assign_sound t (items o) (map (λ _. false) (items o)) h))
    matches_sound (bool a) o h = scalar_sound (bool a) o h
    matches_sound (float a) o h = scalar_sound (float a) o h
    matches_sound (int a) o h = scalar_sound (int a) o h
    matches_sound (str a) o h = scalar_sound (str a) o h
    matches_sound _ _ h = cc

    matches_fields_sound : (t o : Fields Float) → matches_fields fl t o ≡ true → Covers fl t o
    matches_fields_sound end o h = all_covered o
    matches_fields_sound (field k null t) o h =
        let (here, later) = (and-eq-true_iff _ _).0 h in
        Covers-null k t o here (matches_fields_sound t o later)
    matches_fields_sound (field k v t) o h =
        let (here, later) = (and-eq-true_iff _ _).0 h in
        Covers-value k v t o (matches_sound v) here (matches_fields_sound t o later)

    assign_sound :
        (t : Items Float) (os : List (Json Float)) (used : List Bool)
        → assign fl t os used ≡ true
        → Assigns fl t (free os used)
    assign_sound nil os used h = all_assigned (free os used)
    assign_sound (cons t ts) os used h =
        let (o, after, p, a, n) = try_from_sound (matches fl t) (assign fl ts os) os [] used h in
        pick t ts o (free os used) (free os after) p (matches_sound t o a)
          (assign_sound ts os after n)

  scalar_complete_bool : (a b : Bool) → a ≡ b → matches fl (bool a) (bool b) ≡ true
  unfolding matches scalar_equal
  scalar_complete_bool a b e = ground arith

  scalar_complete_text : (a b : String) → a ≡ b → matches fl (str a) (str b) ≡ true
  unfolding matches scalar_equal
  scalar_complete_text a b e = (eq_iff a b).1 e

  scalar_complete-Number :
      (t o : Json Float) (x y : Float)
      → Number fl t x
      → Number fl o y
      → eq x y ≡ true
      → matches fl t o ≡ true
  unfolding matches scalar_equal
  scalar_complete-Number (float a) (float b) x y p q h = rw (p, q) h
  scalar_complete-Number (float a) (int b) x y p q h = rw (p, q) h
  scalar_complete-Number (int a) (float b) x y p q h = rw (p, q) h
  scalar_complete-Number (int a) (int b) x y p q h = rw (p, q) h
  scalar_complete-Number t o x y p q h = ground arith

  present_complete :
      (k : String) (v w : Json Float) (t o : Fields Float)
      → lookup k o ≡ some w
      → matches fl v w ≡ true
      → matches_fields fl t o ≡ true
      → matches_fields fl (field k v t) o ≡ true
  unfolding matches
  present_complete k null null t o e m c = rw e c
  present_complete k null w t o e m c = cc
  present_complete k v w t o e m c = rw e (rw m c)

  mutual
    unfolding matches

    matches_complete : {t o : Json Float} → Matches fl t o → matches fl t o ≡ true
    matches_complete both_null = refl
    matches_complete (same_bool a b e) = scalar_complete_bool a b e
    matches_complete (same_text a b e) = scalar_complete_text a b e
    matches_complete (same_number t o x y p q h) = scalar_complete-Number t o x y p q h
    matches_complete (sub_object t o c) = Covers-complete c
    matches_complete (sub_array t o a) =
        Assigns-complete a (items o) (map (λ _. false) (items o)) (free_of_unused (items o))

    Covers-complete : {t o : Fields Float} → Covers fl t o → matches_fields fl t o ≡ true
    Covers-complete (all_covered o) = refl
    Covers-complete (absent k t o e c) = rw e (Covers-complete c)
    Covers-complete (present k v w t o e m c) =
        present_complete k v w t o e (matches_complete m) (Covers-complete c)

    Assigns-complete :
        {t : Items Float} {left : List (Json Float)}
        → Assigns fl t left
        → (os : List (Json Float)) (used : List Bool) → free os used ≡ left
        → assign fl t os used ≡ true
    Assigns-complete (all_assigned left) os used e = refl
    Assigns-complete (pick t ts o left rest p m a) os used e =
        try_from_complete (matches fl t) (assign fl ts os) os [] used o rest (rw e p)
          (matches_complete m) (λ after f. Assigns-complete a os after f)

  -- `Match` answers true exactly when the tree and the object are in the subset relation: every key
  -- of the tree present and matching, or null and absent; every array element matched to an element
  -- of its own; scalars equal, numbers as float64.
  pub matches_iff : (t o : Json Float) → (matches fl t o ≡ true) ↔ Matches fl t o
  matches_iff t o = (matches_sound t o, matches_complete)

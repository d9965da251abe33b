-- ===== src/Rules/Enforce/Names.antt =====
-- The names of the generated policies are safe as parts of DNS-1123 names.
use Prim.Native.Char.{Char, code}
use kubedrill.Shared.{
  String, ◌≡◌, refl, ◌⊎◌, inl, inr, true, Bool-cases, arith, ℕ, ◌≤◌, nat_eq, map_chars, to_lower,
  ◌≢◌,
}
use kubedrill.Rules.Enforce.{
  is_safe_code, safe_char, trim_end, trim_start, drop_last_dash, sanitize,
}

-- A lower-case letter, a digit or a dash.
abbrev pub IsSafe : Char → Type 0
IsSafe c =
    ((b'a' ≤ code c) × (code c ≤ b'z')) ⊎ (((b'0' ≤ code c) × (code c ≤ b'9')) ⊎ (code c ≡ b'-'))

abbrev pub AllSafe : String → Type 0
AllSafe String.[] = Unit
AllSafe (String.◌∷◌ c s) = IsSafe c × AllSafe s

abbrev pub NoDashFirst : String → Type 0
NoDashFirst String.[] = Unit
NoDashFirst (String.◌∷◌ c s) = code c ≢ b'-'

abbrev pub NoDashLast : String → Type 0
NoDashLast String.[] = Unit
NoDashLast (String.◌∷◌ c String.[]) = code c ≢ b'-'
NoDashLast (String.◌∷◌ c (String.◌∷◌ d s)) = NoDashLast (String.◌∷◌ d s)

safe_code :
    (n : ℕ)
    → is_safe_code n ≡ true
    → ((b'a' ≤ n) × (n ≤ b'z')) ⊎ (((b'0' ≤ n) × (n ≤ b'9')) ⊎ (n ≡ b'-'))
safe_code n h = ground arith

safe_char-IsSafe : (c : Char) → IsSafe (safe_char c)
unfolding safe_char
safe_char-IsSafe c = elim (Bool-cases (is_safe_code (code c))) [
  | inl e ↦ rw e (safe_code (code c) e)
  | inr e ↦ rw e (inr (inr refl))
]

map_chars-AllSafe : (s : String) → AllSafe (map_chars safe_char s)
unfolding map_chars
map_chars-AllSafe String.[] = tt
map_chars-AllSafe (String.◌∷◌ c s) = (safe_char-IsSafe c, map_chars-AllSafe s)

drop_last_dash-AllSafe :
    (c : Char) (s : String) → IsSafe c → AllSafe s → AllSafe (drop_last_dash c s)
drop_last_dash-AllSafe c String.[] p h = elim (Bool-cases (nat_eq (code c) b'-')) [
  | inl e ↦ rw e tt
  | inr e ↦ rw e (p, tt)
]
drop_last_dash-AllSafe c (String.◌∷◌ d s) p h = (p, h)

drop_last_dash-NoDashLast : (c : Char) (s : String) → NoDashLast s → NoDashLast (drop_last_dash c s)
drop_last_dash-NoDashLast c String.[] h = elim (Bool-cases (nat_eq (code c) b'-')) [
  | inl e ↦ rw e tt
  | inr e ↦ rw e (ground arith)
]
drop_last_dash-NoDashLast c (String.◌∷◌ d s) h = h

trim_end-AllSafe : (s : String) → AllSafe s → AllSafe (trim_end s)
unfolding trim_end
trim_end-AllSafe String.[] h = tt
trim_end-AllSafe (String.◌∷◌ c s) (p, h) =
    drop_last_dash-AllSafe c (trim_end s) p (trim_end-AllSafe s h)

trim_end-NoDashLast : (s : String) → NoDashLast (trim_end s)
unfolding trim_end
trim_end-NoDashLast String.[] = tt
trim_end-NoDashLast (String.◌∷◌ c s) =
    drop_last_dash-NoDashLast c (trim_end s) (trim_end-NoDashLast s)

NoDashLast-tail : (c : Char) (s : String) → NoDashLast (String.◌∷◌ c s) → NoDashLast s
NoDashLast-tail c String.[] h = tt
NoDashLast-tail c (String.◌∷◌ d s) h = h

-- What holds of a text and its tails holds of the trimmed text.
trim_start_safe :
    (s : String)
    → AllSafe s
    → NoDashLast s
    → AllSafe (trim_start s) × NoDashFirst (trim_start s) × NoDashLast (trim_start s)
unfolding trim_start
trim_start_safe String.[] h l = (tt, tt, tt)
trim_start_safe (String.◌∷◌ c s) (p, h) l = elim (Bool-cases (nat_eq (code c) b'-')) [
  | inl e ↦ rw e (trim_start_safe s h (NoDashLast-tail c s l))
  | inr e ↦ rw e ((p, h), ground arith, l)
]

-- Whatever the rule id, the sanitized id has only lower-case letters, digits and dashes, and
-- neither begins nor ends with a dash.
pub sanitize-IsSafe :
    (id : String) → AllSafe (sanitize id) × NoDashFirst (sanitize id) × NoDashLast (sanitize id)
unfolding sanitize
sanitize-IsSafe id =
    let s = map_chars safe_char (to_lower id) in
    trim_start_safe (trim_end s) (trim_end-AllSafe s (map_chars-AllSafe (to_lower id)))
      (trim_end-NoDashLast s)

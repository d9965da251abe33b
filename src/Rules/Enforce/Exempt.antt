-- ===== src/Rules/Enforce/Exempt.antt =====
-- Live enforcement and grading exempt the same users.
use text.Mathlib.Text.{starts_with}
use kubedrill.Shared.{
  String, ◌≡◌, refl, Bool, not, ◌&&◌, List, ◌==◌, any, arith, ◌⧺◌, quote, join, map,
}
use kubedrill.Rules.Attribution.{is_exempt, exempt_usernames}
use kubedrill.Rules.Enforce.{exempt_cel}

-- The expressions of CEL about the name of the requesting user that a condition needs.
pub data Cel : Type 0 where
  is_among : List String → Cel
  has_prefix : String → Cel
  negation : Cel → Cel
  both : Cel → Cel → Cel

-- The text of an expression.
unfoldable pub text_of : Cel → String
unfolding join quote
text_of (is_among us) = "(request.userInfo.username in [" ⧺ join ", " (map quote us) ⧺ "])"
text_of (has_prefix p) = "request.userInfo.username.startsWith(" ⧺ quote p ⧺ ")"
text_of (negation c) = "!" ⧺ text_of c
text_of (both c d) = text_of c ⧺ " && " ⧺ text_of d

-- What CEL answers to it at a requesting user: `in` is membership, and `startsWith` is the test for a
-- prefix.
unfoldable pub holds : String → Cel → Bool
holds username (is_among us) = any (λ u. username == u) us
holds username (has_prefix p) = starts_with username p
holds username (negation c) = not (holds username c)
holds username (both c d) = holds username c && holds username d

-- The user is none of those by name, and has none of the two prefixes.
abbrev not_exempt : Cel
not_exempt = both (negation (is_among exempt_usernames)) (
    both (negation (has_prefix "system:node:"))
      (negation (has_prefix "system:serviceaccount:kube-system:")))

-- The condition that `exemptCEL` writes is the text of a CEL expression that is true of a
-- user exactly when grading does not exempt that user.
pub exempt_cel-is_exempt :
    (c : Cel) × (exempt_cel ≡ text_of c)
    × ((username : String) → holds username c ≡ not (is_exempt username))
unfolding exempt_cel text_of holds is_exempt
exempt_cel-is_exempt = (not_exempt, refl, (λ username. ground arith))

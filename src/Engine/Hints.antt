-- ===== src/Engine/Hints.antt =====
-- internal/engine/hint.go: revealing hints. The session and the challenge are those that were loaded.
pub mod Laws
use kubedrill.Shared.{
  ℕ, String, Bool, not, Option, none, some, List, [], ◌∷◌, ◌++◌, filter, length, if◌then◌else◌,
  ◌==◌,
}
use kubedrill.Shared.Int.{Int64, add}
use kubedrill.Challenge.{Challenge, Hint}
use kubedrill.Rules.Grade.{contains}
use kubedrill.Session.{Session}

abbrev pub unused : List Hint → List String → List Hint
unused hints used = filter (λ h. not (contains used h.id)) hints

abbrev first_of : List Hint → Option (Hint × ℕ)
first_of [] = none
first_of (h ∷ hs) = some (h, length (h ∷ hs))

-- `NextHint`: the next hint and how many remain, or none (`ok` is false).
unfoldable pub next_hint : Challenge → Session → Option (Hint × ℕ)
next_hint ch s = first_of (unused ch.hints s.hints_used)

-- The mutation in `RevealHint`
unfoldable pub record_hint : Hint → Session → Session
record_hint h s =
    if contains s.hints_used h.id then s else record s { hints_used = s.hints_used ++ h.id ∷ [] }

abbrev recorded : Session → Option (Hint × ℕ) → Option (Hint × Session)
recorded s none = none
recorded s (some (h, _)) = some (h, record_hint h s)

-- `RevealHint`: the hint and the session's new state, or none (no more hints).
unfoldable pub reveal_hint : Challenge → Session → Option (Hint × Session)
unfolding next_hint record_hint
reveal_hint ch s = recorded s (next_hint ch s)

-- `byID[id]`, after `found` was stored last
abbrev pub penalty_from : Int64 → String → List Hint → Int64
penalty_from found id [] = found
penalty_from found id (h ∷ hs) = penalty_from (if h.id == id then h.penalty else found) id hs

abbrev pub penalties_from : Int64 → List Hint → List String → Int64
penalties_from total hints [] = total
penalties_from total hints (id ∷ ids) =
    penalties_from (add total (penalty_from 0 id hints)) hints ids

unfoldable pub hint_penalty : Challenge → List String → Int64
hint_penalty ch used = penalties_from 0 ch.hints used

-- ===== src/Engine/Hints/Laws.antt =====
-- internal/engine/hint.go: a hint is charged once.
use mathlib.Core.Option.{none-ne-some, some-injective}
use mathlib.Core.Bool.{false≢true}
use kubedrill.Shared.{
  ◌≤◌, ◌<◌, ◌≡◌, refl, sym, subst, String, true, false, not, some, List, [], ◌∷◌, ◌++◌, Memᴰ,
  filter_mem, length, arith, ◌==◌, any_of_mem, mem-append_right, eq_iff,
}
use kubedrill.Challenge.{Challenge, Hint}
use kubedrill.Rules.Grade.{contains}
use kubedrill.Session.{Session}
use kubedrill.Engine.Hints.{unused, record_hint, reveal_hint, first_of, recorded}

contains-snoc :
    (used : List String) (x y : String)
    → contains used x ≡ true
    → contains (used ++ y ∷ []) x ≡ true
contains-snoc [] x y h = absurd (false≢true h)
contains-snoc (u ∷ us) x y h = ground (arith, contains-snoc us x y)

contains-last : (used : List String) (x : String) → contains (used ++ x ∷ []) x ≡ true
contains-last used x =
    any_of_mem (λ u. u == x) x (used ++ x ∷ []) (mem-append_right used (Memᴰ.head refl))
      ((eq_iff x x).1 refl)

-- Using one more hint leaves no more unused.
unused_le :
    (hints : List Hint) (used : List String) (x : String)
    → length (unused hints (used ++ x ∷ [])) ≤ length (unused hints used)
unused_le [] used x = omega arith
unused_le (h ∷ hs) used x =
    let ih = unused_le hs used x in let c = contains-snoc used h.id x in ground (arith, c)

-- Using a hint that was unused leaves fewer.
unused_lt :
    (hints : List Hint) (used : List String) (h : Hint)
    → Memᴰ h hints
    → contains used h.id ≡ false
    → length (unused hints (used ++ h.id ∷ [])) < length (unused hints used)
unused_lt [] used h m n = elim m [ ]
unused_lt (g ∷ gs) used h (Memᴰ.head e) n =
    let le = unused_le gs used h.id in
    let last = contains-last used h.id in rw (sym e, n, last) (omega arith)
unused_lt (g ∷ gs) used h (Memᴰ.tail m) n =
    let lt = unused_lt gs used h m n in let c = contains-snoc used g.id h.id in ground (arith, c)

-- What revealing the hint `h` does.
pub record Revealed (ch : Challenge) (s : Session) (h : Hint) (s' : Session) : Type 0 where
  pub known : Memᴰ h ch.hints
  pub fresh : contains s.hints_used h.id ≡ false
  pub charged : s'.hints_used ≡ s.hints_used ++ h.id ∷ []
  pub fewer : length (unused ch.hints s'.hints_used) < length (unused ch.hints s.hints_used)

record_hint-Revealed :
    (ch : Challenge) (s : Session) (h : Hint)
    → Memᴰ h (unused ch.hints s.hints_used)
    → Revealed ch s h (record_hint h s)
unfolding record_hint
record_hint-Revealed ch s h m =
    let (known, left) = filter_mem (λ x. not (contains s.hints_used x.id)) h ch.hints m in
    let fresh : contains s.hints_used h.id ≡ false = ground arith in
    let lt = unused_lt ch.hints s.hints_used h known fresh in
    rw (fresh, record_hint) (record { known = known; fresh = fresh; charged = refl; fewer = lt })

Revealed-first :
    (ch : Challenge) (s s' : Session) (h : Hint) (left : List Hint)
    → unused ch.hints s.hints_used ≡ left
    → recorded s (first_of left) ≡ some (h, s')
    → Revealed ch s h s'
Revealed-first ch s s' h [] e r = absurd (none-ne-some _ r)
Revealed-first ch s s' h (g ∷ gs) e r =
    let both = some-injective _ _ r in
    subst (λ p. Revealed ch s p.0 p.1) both
      (record_hint-Revealed ch s g (subst (λ l. Memᴰ g l) (sym e) (Memᴰ.head refl)))

-- Revealing a hint gives one of the challenge that had not been used and records its id once, at the
-- end; fewer hints are left, so repeating it comes to an end.
pub reveal_hint-Revealed :
    (ch : Challenge) (s s' : Session) (h : Hint)
    → reveal_hint ch s ≡ some (h, s')
    → Revealed ch s h s'
unfolding reveal_hint
reveal_hint-Revealed ch s s' h r = Revealed-first ch s s' h (unused ch.hints s.hints_used) refl r

-- ===== src/Rules/Attribution.antt =====
-- internal/rules/attribution.go: whom an audit event is held against.
pub mod Laws
use text.Mathlib.Text.{starts_with}
use kubedrill.Shared.{
  String, Bool, true, false, Option, none, some, List, [], ◌∷◌, ◌||◌, ◌==◌, any, if◌then◌else◌,
}
use kubedrill.Rules.Audit.{AuditEvent, Actor, engine_identity}

pub data Charge : Type 0 where
  charge_player charge_exempt charge_tamper : Charge

abbrev pub is_player : Charge → Bool
is_player charge_player = true
is_player _ = false

abbrev pub is_tamper : Charge → Bool
is_tamper charge_tamper = true
is_tamper _ = false

abbrev pub exempt_usernames : List String
exempt_usernames =
    engine_identity ∷ "system:apiserver" ∷ "system:kube-controller-manager"
    ∷ "system:kube-scheduler" ∷ "system:kube-proxy" ∷ []

abbrev pub exempt_prefixes : List String
exempt_prefixes = "system:node:" ∷ "system:serviceaccount:kube-system:" ∷ []

unfoldable pub is_exempt : String → Bool
is_exempt username =
    any (λ u. username == u) exempt_usernames || any (λ p. starts_with username p) exempt_prefixes

abbrev by_identity : String → Option Actor → Charge
by_identity username (some actor) =
    if actor.username == engine_identity then charge_tamper else charge_player
by_identity username none = if is_exempt username then charge_exempt else charge_player

unfoldable pub attribute : AuditEvent → Charge
attribute e = by_identity e.user.username e.impersonated_user

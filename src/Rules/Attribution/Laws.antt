-- ===== src/Rules/Attribution/Laws.antt =====
-- Who is charged.
use text.Mathlib.Text.{starts_with}
use text.Mathlib.TextEquality.{starts_with_iff}
use text.Mathlib.TextPositions.{starts_with-append, slice-append_left, starts_with_of_prefix}
use text.Mathlib.TextLemmas.{append_assoc, append_cancel_left}
use mathlib.Core.Bool.{false≢true}
use kubedrill.Shared.{
  String, ◌≡◌, refl, inl, inr, true, false, none, ◌==◌, eq_iff, ◌⧺◌, Bool-cases, sym, ◌∙◌, subst,
}
use kubedrill.Rules.Audit.{AuditEvent, engine_identity}
use kubedrill.Rules.Attribution.{charge_player, attribute, is_exempt}

abbrev account_prefix : String
account_prefix = "system:serviceaccount:"

-- A text that begins with `p` is no text that does not.
starts_apart : (p account t : String) → starts_with t p ≡ false → (p ⧺ account == t) ≡ false
starts_apart p account t h = elim (Bool-cases (p ⧺ account == t)) [
  | inr e ↦ e
  | inl e ↦
      let same = (eq_iff (p ⧺ account) t).0 e in
      absurd (
        false≢true
          (sym h ∙ subst (λ s. starts_with s p ≡ true) same (starts_with-append p account)))
]

-- The prefix of a prefix.
starts_with_cancel :
    (p q account : String) → starts_with (p ⧺ account) (p ⧺ q) ≡ true → starts_with account q ≡ true
starts_with_cancel p q account h =
    let (r, e) = (starts_with_iff (p ⧺ account) (p ⧺ q)).0 h in
    starts_with_of_prefix q account
      (r, append_cancel_left p (q ⧺ r) account (sym (append_assoc p q r) ∙ e))

-- A service account is outside kube-system, or has the second exempt prefix.
account_no_node : (account : String) → starts_with (account_prefix ⧺ account) "system:node:" ≡ false
account_no_node account =
    let split : account_prefix ⧺ account ≡ "system:servi" ⧺ ("ceaccount:" ⧺ account) =
      append_assoc "system:servi" "ceaccount:" account in
    rw (split, slice-append_left "system:servi" ("ceaccount:" ⧺ account)) refl

account_elsewhere :
    (account : String)
    → starts_with account "kube-system:" ≡ false
    → starts_with (account_prefix ⧺ account) "system:serviceaccount:kube-system:" ≡ false
account_elsewhere account h =
    elim (Bool-cases
      (starts_with (account_prefix ⧺ account) "system:serviceaccount:kube-system:")) [
        | inr e ↦ e
        | inl e ↦
            absurd (false≢true (sym h ∙ starts_with_cancel account_prefix "kube-system:" account e))
      ]

-- An action by a service account outside kube-system, under whatever name the player made it, is
-- charged to the player.
pub service_account_charged :
    (e : AuditEvent) (account : String)
    → e.impersonated_user ≡ none
    → e.user.username ≡ "system:serviceaccount:" ⧺ account
    → starts_with account "kube-system:" ≡ false
    → attribute e ≡ charge_player
unfolding attribute is_exempt
service_account_charged e account i u h = rw (
  i,
  u,
  starts_apart account_prefix account engine_identity refl,
  starts_apart account_prefix account "system:apiserver" refl,
  starts_apart account_prefix account "system:kube-controller-manager" refl,
  starts_apart account_prefix account "system:kube-scheduler" refl,
  starts_apart account_prefix account "system:kube-proxy" refl,
  account_no_node account,
  account_elsewhere account h,
)

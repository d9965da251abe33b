-- ===== src/Tests/Policies.antt =====
-- The generated policies at concrete inputs.
use kubedrill.Shared.{String, List, ◌≢◌, ◌≡◌, ◌↔◌, ◌⊎◌, [], ◌∷◌, Memᴰ}
use kubedrill.Challenge.{Rule}
use kubedrill.Rules.Resource.{GroupResource}
use kubedrill.Rules.Enforce.{admission_ops}
use kubedrill.Rules.Enforce.Operations.{Wanted, Mutating, admission_ops_iff}
use kubedrill.Rules.Policy.{audit_policy}
use kubedrill.Rules.Policy.Laws.{Inspects, policy_text, capturing, audit_policy-Captures}
use kubedrill.Tests.Setting.{shop}

admission_ops_iff_example : Memᴰ "UPDATE" (admission_ops ("patch" ∷ "get" ∷ [])) ↔ (
    Wanted "UPDATE" ("patch" ∷ "get" ∷ [])
    ⊎ (((o : String) → ¬ Wanted o ("patch" ∷ "get" ∷ [])) × Mutating "UPDATE"))
admission_ops_iff_example = admission_ops_iff ("patch" ∷ "get" ∷ []) "UPDATE"

audit_policy-Captures_example :
    ((shop.rules ≡ []) × (audit_policy shop ≡ ""))
    ⊎ ((shop.rules ≢ [])
        × ((gs : List GroupResource) × (audit_policy shop ≡ policy_text (capturing gs))
            × ((g : GroupResource) → Memᴰ g gs ↔ ((r : Rule) × Memᴰ r shop.rules × Inspects r g))))
audit_policy-Captures_example = audit_policy-Captures shop

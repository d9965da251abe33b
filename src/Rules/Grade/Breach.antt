-- ===== src/Rules/Grade/Breach.antt =====
-- When a rule is broken by what the player did, without the code's loops and tests.
use kubedrill.Shared.{String, ◌≡◌, ◌≢◌, ◌⊎◌, true, none, some, List, [], ◌∷◌, Memᴰ}
use kubedrill.Json.{Json, Decoded, decoded, Float64}
use kubedrill.Challenge.{Rule, RuleSpec, RuleMatch}
use kubedrill.Matching.Relation.{Matches}
use kubedrill.Rules.Audit.{AuditEvent, Actor, engine_identity}
use kubedrill.Rules.Attribution.{is_exempt}
use kubedrill.Rules.Resource.{kind_to_resource}

-- The event acted on an object that the rule selects. An empty name or namespace selects all, and
-- the groups are compared where both are given.
pub record Selects (m : RuleMatch) (e : AuditEvent) : Type 0 where
  pub resource : e.object_ref.resource ≡ (kind_to_resource m.kind).resource
  pub group :
      ((kind_to_resource m.kind).group ≡ "")
      ⊎ ((e.object_ref.api_group ≡ "") ⊎ (e.object_ref.api_group ≡ (kind_to_resource m.kind).group))
  pub name : (m.name ≡ "") ⊎ (e.object_ref.name ≡ m.name)
  pub namespace : (m.namespace ≡ "") ⊎ (e.object_ref.namespace ≡ m.namespace)

-- Whom the event is charged to: an impersonation is the player's, and tampering if it is of the
-- engine; otherwise it is the player's unless the user is exempt.
pub data Charged (e : AuditEvent) : Type 0 where
  as_other : (a : Actor) → e.impersonated_user ≡ some a → a.username ≢ engine_identity → Charged e
  as_self : e.impersonated_user ≡ none → is_exempt e.user.username ≢ true → Charged e

pub record Tampers (e : AuditEvent) : Type 0 where
  pub actor : Actor
  pub impersonated : e.impersonated_user ≡ some actor
  pub engine : actor.username ≡ engine_identity

-- The verb is one of those listed.
abbrev pub Allowed : List String → AuditEvent → Type 0
Allowed verbs e = Memᴰ e.verb verbs

module _ (fl : Float64) (unmarshal : String → Decoded fl.Float) where
  -- The captured body of the request contains the required fields.
  pub record HasFields (fields : String) (e : AuditEvent) : Type 0 where
    pub captured : e.request_object ≢ ""
    pub tree : Json fl.Float
    pub body : Json fl.Float
    pub required : unmarshal fields ≡ decoded tree
    pub submitted : unmarshal e.request_object ≡ decoded body
    pub contained : Matches fl tree body

  pub record Fulfils (spec : RuleSpec) (e : AuditEvent) : Type 0 where
    pub selects : Selects spec.target e
    pub verb :
        ((spec.operations ≡ []) × Allowed ("create" ∷ "update" ∷ "patch" ∷ []) e)
        ⊎ ((spec.operations ≢ []) × Allowed spec.operations e)
    pub fields : (spec.fields ≡ "") ⊎ HasFields spec.fields e

  -- The rule is broken by the player's charged events. A rule is read as its first verb among
  -- deny, protect and require.
  pub data Broken (events : List AuditEvent) (r : Rule) : Type 0 where
    denied :
        (spec : RuleSpec) (e : AuditEvent)
        → r.deny ≡ some spec
        → Memᴰ e events
        → Charged e
        → Selects spec.target e
        → (spec.operations ≡ []) ⊎ Allowed spec.operations e
        → Broken events r
    deleted :
        (spec : RuleSpec) (e : AuditEvent)
        → r.deny ≡ none
        → r.protect ≡ some spec
        → Memᴰ e events
        → Charged e
        → Selects spec.target e
        → Allowed ("delete" ∷ "deletecollection" ∷ []) e
        → Broken events r
    omitted :
        (spec : RuleSpec)
        → r.deny ≡ none
        → r.protect ≡ none
        → r.require ≡ some spec
        → ((e : AuditEvent) → Memᴰ e events → Charged e → ¬ Fulfils spec e)
        → Broken events r

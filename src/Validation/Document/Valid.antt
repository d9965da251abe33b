-- ===== src/Validation/Document/Valid.antt =====
-- What a valid challenge is.
use kubedrill.Shared.{
  String, ◌≡◌, ◌≢◌, Bool, true, false, Option, none, some, List, [], ◌∷◌, Memᴰ, map, All, is_some,
}
use kubedrill.Challenge.{
  Challenge, Objective, Fault, Rule, api_version, kind, easy, medium, hard, expert,
}
use kubedrill.Validation.Laws.{IsUnion}
use kubedrill.Validation.Cycle.Graph.{Cycle}

-- Exactly one of three is given.
abbrev pub OneOf : {A B C : Type 0} → Option A → Option B → Option C → Type 0
OneOf (some _) none none = Unit
OneOf none (some _) none = Unit
OneOf none none (some _) = Unit
OneOf _ _ _ = ⊥

-- No value stands twice.
abbrev pub Distinct : List String → Type 0
Distinct [] = Unit
Distinct (x ∷ xs) = (¬ Memᴰ x xs) × Distinct xs

pub record IsHeader (c : Challenge) : Type 0 where
  pub document_version : c.api_version ≡ api_version
  pub document_kind : c.kind ≡ kind
  pub name : c.metadata.name ≢ ""
  pub version : c.metadata.version ≢ ""
  pub difficulty : Memᴰ c.metadata.difficulty (easy ∷ medium ∷ hard ∷ expert ∷ [])

-- An objective by itself: an id, and checks that are well-formed.
pub record IsObjective (o : Objective) : Type 0 where
  pub id : o.id ≢ ""
  pub some_check : o.checks ≢ []
  pub checks : All IsUnion o.checks

-- A fault with one kind of action, on a node only where the challenge gives access.
pub record IsFault (node_access : Bool) (f : Fault) : Type 0 where
  pub action : OneOf f.patch f.exec f.node_exec
  pub access : is_some f.node_exec ≡ true → node_access ≡ true

-- A rule with one verb, enforced only if that is not `require`.
pub record IsRule (r : Rule) : Type 0 where
  pub id : r.id ≢ ""
  pub verb : OneOf r.deny r.protect r.require
  pub enforce : r.enforce ≡ true → is_some r.require ≡ false

pub record IsValid (c : Challenge) : Type 0 where
  pub header : IsHeader c
  pub some_objective : c.objectives ≢ []
  pub objectives : All IsObjective c.objectives
  pub objective_ids : Distinct (map (λ o. o.id) c.objectives)
  pub known :
      All (λ o. All (λ dep. Memᴰ dep (map (λ p. p.id) c.objectives)) o.depends_on) c.objectives
  pub acyclic : ¬ Cycle c.objectives
  pub faults : All (IsFault c.metadata.node_access) c.environment.setup.faults
  pub rules : All IsRule c.rules
  pub rule_ids : Distinct (map (λ r. r.id) c.rules)
  pub script : c.solution.script ≢ ""

-- ===== src/Challenge.antt =====
-- apis/challenge/v1alpha1/types.go: the challenge document. A pointer is an `Option`, a raw JSON
-- message is its text. A Go `int` is its bit pattern.
use kubedrill.Shared.{String, Bool, true, false, Option, List, [], ◌∷◌}
use kubedrill.Shared.Int.{Int64}

abbrev pub api_version : String
api_version = "kubedrill.dev/v1alpha1"

abbrev pub kind : String
kind = "Challenge"

-- The values of the string type `Difficulty`.
abbrev pub easy : String
easy = "easy"

abbrev pub medium : String
medium = "medium"

abbrev pub hard : String
hard = "hard"

abbrev pub expert : String
expert = "expert"

pub record Metadata : Type 0 where
  pub name : String
  pub version : String
  pub title : String
  pub description : String
  pub difficulty : String
  pub topics : List String
  pub exam : List String
  pub time_limit : String
  pub node_access : Bool
  pub min_engine_version : String

pub record Nodes : Type 0 where
  pub control_plane : Int64
  pub workers : Int64

pub record Cluster : Type 0 where
  pub provider : String
  pub kubernetes_version : String
  pub nodes : Option Nodes

pub record ManifestRef : Type 0 where
  pub path : String

pub record Target : Type 0 where
  pub kind : String
  pub name : String
  pub namespace : String
  pub api_version : String

pub record Targets : Type 0 where
  pub kind : String
  pub namespace : String
  pub label_selector : String
  pub api_version : String

pub record MatchCheck : Type 0 where
  pub target : Target
  pub object : String

pub record Probe : Type 0 where
  pub image : String
  pub script : String
  pub namespace : String
  pub timeout : String

pub record Poll : Type 0 where
  pub timeout : String
  pub window : String

-- `Check`: the fields `match`, `cel`, `probe`, `anyOf`, `poll`, `target` and `targets`.
mutual
  pub data Check : Type 0 where
    check :
        Option MatchCheck
        → String
        → Option Probe
        → Checks
        → Option Poll
        → Option Target
        → Option Targets
        → Check

  pub data Checks : Type 0 where
    nil : Checks
    cons : Check → Checks → Checks

abbrev pub checks : Checks → List Check
checks nil = []
checks (cons c cs) = c ∷ checks cs

abbrev pub no_leaves : Checks → Bool
no_leaves nil = true
no_leaves (cons _ _) = false

abbrev pub match_of : Check → Option MatchCheck
match_of (check m _ _ _ _ _ _) = m

abbrev pub cel_of : Check → String
cel_of (check _ c _ _ _ _ _) = c

abbrev pub probe_of : Check → Option Probe
probe_of (check _ _ p _ _ _ _) = p

abbrev pub any_of : Check → Checks
any_of (check _ _ _ a _ _ _) = a

abbrev pub poll_of : Check → Option Poll
poll_of (check _ _ _ _ p _ _) = p

pub record Patch : Type 0 where
  pub target : Target
  pub type : String
  pub content : String

pub record Exec : Type 0 where
  pub command : List String

pub record NodeExec : Type 0 where
  pub node : String
  pub command : List String

pub record Fault : Type 0 where
  pub name : String
  pub patch : Option Patch
  pub exec : Option Exec
  pub node_exec : Option NodeExec

pub record Setup : Type 0 where
  pub manifests : List ManifestRef
  pub faults : List Fault
  pub readiness : List Check

pub record Environment : Type 0 where
  pub cluster : Cluster
  pub images : List String
  pub setup : Setup

pub record Objective : Type 0 where
  pub id : String
  pub title : String
  pub points : Int64
  pub depends_on : List String
  pub expect_initially_passing : Bool
  pub checks : List Check

pub record RuleMatch : Type 0 where
  pub kind : String
  pub name : String
  pub namespace : String

pub record RuleSpec : Type 0 where
  pub operations : List String
  pub target : RuleMatch
  pub fields : String
  pub description : String

pub record Penalty : Type 0 where
  pub fail : Bool
  pub points : Int64

pub record Rule : Type 0 where
  pub id : String
  pub deny : Option RuleSpec
  pub protect : Option RuleSpec
  pub require : Option RuleSpec
  pub penalty : Penalty
  pub enforce : Bool

pub record Hint : Type 0 where
  pub id : String
  pub penalty : Int64
  pub text : String

pub record Solution : Type 0 where
  pub explanation : String
  pub script : String

pub record Challenge : Type 0 where
  pub api_version : String
  pub kind : String
  pub metadata : Metadata
  pub environment : Environment
  pub objectives : List Objective
  pub rules : List Rule
  pub hints : List Hint
  pub solution : Solution

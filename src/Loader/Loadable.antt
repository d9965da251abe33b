-- ===== src/Loader/Loadable.antt =====
-- What a challenge must have on top of being valid, to be loaded.
use kubedrill.Shared.{String, ◌≡◌, ◌≢◌, ◌⊎◌, true, Option, none, some, ◌==◌, All, if◌then◌else◌}
use kubedrill.Json.{Json, decoded}
use kubedrill.Challenge.{Challenge, Check, check, Checks, nil, cons, Probe, probe_of}
use kubedrill.Loader.{Library}

module _ {F : Type 0} (lib : Library F) where
  -- A file that the challenge names is there; a blank name names none.
  abbrev pub Exists : String → String → Type 0
  Exists dir rel = (rel ≡ "") ⊎ (lib.stat (lib.join dir rel) ≡ true)

  abbrev pub ProbeExists : String → Option Probe → Type 0
  ProbeExists dir none = Unit
  ProbeExists dir (some p) = Exists dir p.script

  pub record IsReferenced (dir : String) (c : Challenge) : Type 0 where
    pub manifests : All (λ m. Exists dir m.path) c.environment.setup.manifests
    pub probes : All (λ o. All (λ ch. ProbeExists dir (probe_of ch)) o.checks) c.objectives
    pub script : Exists dir c.solution.script
    pub explanation : Exists dir c.solution.explanation

  -- The object of a match decodes, a CEL expression compiles, and so in the leaves of an anyOf. The
  -- first of the three that a check has counts.
  unfoldable mutual
    pub Compiles : Check → Type 0
    Compiles (check (some m) cel p leaves poll t ts) =
        (m.object ≢ "") × ((v : Json F) × (lib.unmarshal m.object ≡ decoded v))
    Compiles (check none cel p leaves poll t ts) =
        if cel == ""
        then LeavesCompile leaves
        else (lib.cel_env_error ≡ none) × (lib.cel_issues cel ≡ none)

    pub LeavesCompile : Checks → Type 0
    LeavesCompile nil = Unit
    LeavesCompile (cons leaf leaves) = Compiles leaf × LeavesCompile leaves

  pub record IsCompiled (c : Challenge) : Type 0 where
    pub objectives : All (λ o. All Compiles o.checks) c.objectives
    pub readiness : All Compiles c.environment.setup.readiness

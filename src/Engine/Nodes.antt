-- ===== src/Engine/Nodes.antt =====
-- internal/engine/nodes.go: the faults of a challenge that need a node.
use kubedrill.Shared.{
  String, Bool, true, false, Option, none, some, List, [], ◌∷◌, is_some, if◌then◌else◌, ◌⧺◌, quote,
}
use kubedrill.Shared.State.{M, pure, ◌>>=◌}
use kubedrill.Challenge.{Challenge, Fault, NodeExec}
use kubedrill.Provision.{unless_error, as_it_is}

abbrev pub any_node_exec : List Fault → Bool
any_node_exec [] = false
any_node_exec (f ∷ fs) = let rest = any_node_exec fs in if is_some f.node_exec then true else rest

-- `challengeUsesNodeExec`
unfoldable pub challenge_uses_node_exec : Challenge → Bool
challenge_uses_node_exec ch = any_node_exec ch.environment.setup.faults

-- `exec` is `NodeExec` of the environment: the error and the output, if it fails; `trim` is
-- `strings.TrimSpace`.
module _ {W : Type 0} (exec : String → List String → M W (Option (String × String)))
    (trim : String → String) where
  abbrev pub node_error : String → Option (String × String) → Option String
  node_error name none = none
  node_error name (some (e, out)) = some ("node fault " ⧺ quote name ⧺ ": " ⧺ e ⧺ "\n" ⧺ trim out)

  abbrev pub apply_node_fault : String → Option NodeExec → M W (Option String)
  apply_node_fault name none = pure none
  apply_node_fault name (some x) = do r ← exec x.node x.command; pure (node_error name r)

  -- The loop of `applyNodeFaults`
  unfoldable pub apply_node_faults : List Fault → M W (Option String)
  apply_node_faults [] = pure none
  apply_node_faults (f ∷ fs) = do
    e ← apply_node_fault f.name f.node_exec
    unless_error as_it_is (apply_node_faults fs) e

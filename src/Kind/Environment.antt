-- ===== src/Kind/Environment.antt =====
-- internal/providers/kind/environment.go, with the search for nodes of provider.go: what the handle of
-- a cluster does.
use Prim.Native.Char.{Char, code}
use kubedrill.Shared.{
  ℕ, zero, suc, ◌+◌, String, Bool, ◌||◌, Option, none, some, List, [], ◌∷◌, ◌==◌, nat_eq,
  if◌then◌else◌, ◌⧺◌, join, quote,
}
use kubedrill.Shared.Results.{Result, ok, err}
use kubedrill.Shared.State.{M, pure, ◌>>=◌}
use kubedrill.Rules.Policy.{audit_log_path}
use kubedrill.Kind.Runtime.{Ran, output, broke, Runtime, Handle, cluster_name}

-- The bytes from `n` on.
abbrev pub drop_text : ℕ → String → String
drop_text zero s = s
drop_text (suc n) String.[] = String.[]
drop_text (suc n) (String.◌∷◌ c s) = drop_text n s

abbrev pub text_length : String → ℕ
text_length String.[] = 0
text_length (String.◌∷◌ c s) = suc (text_length s)

-- The bytes up to the last newline, with it.
abbrev pub line_end : Char → String → String
line_end c String.[] = if nat_eq (code c) b'\n' then String.◌∷◌ c String.[] else String.[]
line_end c (String.◌∷◌ d s) = String.◌∷◌ c (String.◌∷◌ d s)

unfoldable pub whole_lines : String → String
whole_lines String.[] = String.[]
whole_lines (String.◌∷◌ c s) = line_end c (whole_lines s)

module _ {W : Type 0} (runtime : Runtime W) where
  abbrev first_node : Result (List String) → Result String
  first_node (err e) = err ("control-plane nodes: " ⧺ e)
  first_node (ok []) = err "no control-plane node found"
  first_node (ok (n ∷ ns)) = ok n

  abbrev control_plane_of : Result (List String) → M W (Result String)
  control_plane_of (err e) = pure (err ("list nodes: " ⧺ e))
  control_plane_of (ok nodes) = do cps ← runtime.control_plane_nodes nodes; pure (first_node cps)

  -- `controlPlane`
  unfoldable pub control_plane : String → M W (Result String)
  control_plane name = do nodes ← runtime.list_nodes name; control_plane_of nodes

  abbrev pub is_node : String → String → String → Bool
  is_node cluster ref name =
      name == ref || (name == cluster ⧺ "-" ⧺ ref || runtime.has_suffix name ("-" ⧺ ref))

  -- The loop of `findNode`
  abbrev pub matching_node : String → String → List String → Result String
  matching_node cluster ref [] = err ("no node " ⧺ quote ref ⧺ " in cluster " ⧺ quote cluster)
  matching_node cluster ref (n ∷ ns) =
      let rest = matching_node cluster ref ns in if is_node cluster ref n then ok n else rest

  abbrev node_among : String → String → Result (List String) → Result String
  node_among cluster ref (err e) = err ("list nodes: " ⧺ e)
  node_among cluster ref (ok nodes) = matching_node cluster ref nodes

  -- `findNode`
  unfoldable pub find_node : String → String → M W (Result String)
  unfolding control_plane
  find_node cluster ref =
      if ref == "" || ref == "control-plane"
      then control_plane cluster
      else do nodes ← runtime.list_nodes cluster; pure (node_among cluster ref nodes)

  -- The lines of a read, with the cursor after them.
  abbrev pub lines_from : ℕ → Ran → Result (String × ℕ)
  lines_from from (broke e text) = err ("kind: read audit log: " ⧺ e ⧺ " (" ⧺ text ⧺ ")")
  lines_from from (output out) = let b = whole_lines out in ok (b, from + text_length b)

  abbrev pub read_node : ℕ → Result String → M W (Result (String × ℕ))
  read_node from (err e) = pure (err ("kind: audit: " ⧺ e))
  read_node from (ok node) = do
    r ← runtime.tail node (from + 1) audit_log_path
    pure (lines_from from r)

  abbrev pub read_wired : Handle → ℕ → M W (Result (String × ℕ))
  read_wired env from = do node ← control_plane env.cluster; read_node from node

  -- `AuditEvents`
  unfoldable pub audit_events : Handle → ℕ → M W (Result (String × ℕ))
  unfolding control_plane whole_lines
  audit_events env from = if env.audit then read_wired env from else pure (ok ("", from))

  abbrev exec_error : List String → String → Option (String × String) → Option (String × String)
  exec_error cmd node none = none
  exec_error cmd node (some (e, out)) =
      some ("kind: node exec [" ⧺ join " " cmd ⧺ "] on " ⧺ node ⧺ ": " ⧺ e, out)

  abbrev exec_on : List String → Result String → M W (Option (String × String))
  exec_on cmd (err e) = pure (some ("kind: node exec: " ⧺ e, ""))
  exec_on cmd (ok node) = do r ← runtime.run_combined node cmd; pure (exec_error cmd node r)

  -- `NodeExec`
  unfoldable pub node_exec : Handle → String → List String → M W (Option (String × String))
  unfolding find_node
  node_exec env ref [] = pure (some ("kind: node exec: empty command", ""))
  node_exec env ref (c ∷ cs) = do node ← find_node env.cluster ref; exec_on (c ∷ cs) node

  abbrev shell_on : Result String → Result (List String)
  shell_on (err e) = err ("kind: node shell: " ⧺ e)
  shell_on (ok node) = ok ("docker" ∷ "exec" ∷ "-it" ∷ node ∷ "bash" ∷ [])

  -- `NodeShellCommand`
  unfoldable pub node_shell_command : Handle → String → M W (Result (List String))
  unfolding find_node
  node_shell_command env ref = do node ← find_node env.cluster ref; pure (shell_on node)

  -- `Environment`
  unfoldable pub environment : String → String → M W Handle
  environment id dir = do
    wired ← runtime.has_file (runtime.join dir "audit-policy.yaml")
    pure (record {
      player_path = runtime.join dir "kubeconfig";
      engine_path = runtime.join dir "engine-kubeconfig";
      cluster = cluster_name id;
      audit = wired;
    })

-- ===== src/Kind/Clusters.antt =====
-- Of internal/providers/kind/provider.go: making, listing and destroying clusters.
use Prim.Native.Char.{code}
use kubedrill.Shared.{
  String, not, ◌||◌, Option, none, some, List, [], ◌∷◌, ◌==◌, nat_eq, if◌then◌else◌, ◌⧺◌, quote,
}
use kubedrill.Shared.Results.{Result, ok, err}
use kubedrill.Shared.State.{M, pure, ◌>>=◌}
use kubedrill.Kind.Runtime.{Runtime, Handle, cluster_name, cluster_prefix}
use kubedrill.Kind.Identity.{mint_engine_kubeconfig}
use kubedrill.Kind.Config.{Request, cluster_config, node_image_for}

-- `strings.HasPrefix` and `strings.TrimPrefix` in one: what follows the prefix, if it is there.
abbrev pub after_prefix : String → String → Option String
after_prefix String.[] s = some s
after_prefix (String.◌∷◌ c p) String.[] = none
after_prefix (String.◌∷◌ c p) (String.◌∷◌ d s) =
    let rest = after_prefix p s in if nat_eq (code c) (code d) then rest else none

pub record EnvInfo : Type 0 where
  pub id : String
  pub name : String
  pub labels : List (String × String)

abbrev pub and_info : String → Option String → List EnvInfo → List EnvInfo
and_info name none rest = rest
and_info name (some id) rest =
    record { id = id; name = name; labels = ("dev.kubedrill.session", id) ∷ [] } ∷ rest

-- The loop of `List`
unfoldable pub infos_of : List String → List EnvInfo
infos_of [] = []
infos_of (n ∷ ns) = and_info n (after_prefix cluster_prefix n) (infos_of ns)

module _ {W : Type 0} (runtime : Runtime W) where
  abbrev pub listed_infos : Result (List String) → Result (List EnvInfo)
  listed_infos (err e) = err ("kind: list clusters: " ⧺ e)
  listed_infos (ok names) = ok (infos_of names)

  -- `List`
  unfoldable pub list : M W (Result (List EnvInfo))
  unfolding infos_of
  list = do names ← runtime.list; pure (listed_infos names)

  abbrev destroyed : String → Option String → Option String
  destroyed id none = none
  destroyed id (some e) = some ("kind: delete cluster for " ⧺ quote id ⧺ ": " ⧺ e)

  -- `Destroy`
  unfoldable pub destroy : String → M W (Option String)
  destroy id = do e ← runtime.delete (cluster_name id); pure (destroyed id e)

  abbrev handle_of : Request → String → Handle
  handle_of req policy_path = record {
    player_path = runtime.join req.session_dir "kubeconfig";
    engine_path = runtime.join req.session_dir "engine-kubeconfig";
    cluster = cluster_name req.session_id;
    audit = not (policy_path == "");
  }

  abbrev minted : Request → String → Option String → M W (Result Handle)
  minted req policy_path none = pure (ok (handle_of req policy_path))
  minted req policy_path (some e) = do
    _ ← runtime.delete (cluster_name req.session_id)
    pure (err ("kind: mint engine identity: " ⧺ e))

  abbrev cluster_created : Request → String → Option String → M W (Result Handle)
  cluster_created req policy_path (some e) =
      pure (err ("kind: create cluster " ⧺ quote (cluster_name req.session_id) ⧺ ": " ⧺ e))
  cluster_created req policy_path none = do
    e ←
        mint_engine_kubeconfig runtime (cluster_name req.session_id)
          (runtime.join req.session_dir "kubeconfig")
          (runtime.join req.session_dir "engine-kubeconfig")
    minted req policy_path e

  abbrev policy_written : Request → String → Option String → M W (Result Handle)
  policy_written req policy_path (some e) = pure (err ("kind: write audit policy: " ⧺ e))
  policy_written req policy_path none = do
    e ←
        runtime.create (cluster_name req.session_id) (runtime.join req.session_dir "kubeconfig")
          (node_image_for req.kubernetes_version) (cluster_config req policy_path)
    cluster_created req policy_path e

  abbrev write_policy : Request → M W (Result Handle)
  write_policy req = do
    let policy_path = runtime.join req.session_dir "audit-policy.yaml"
    e ← runtime.write_file policy_path req.audit_policy
    policy_written req policy_path e

  abbrev dir_made : Request → Option String → M W (Result Handle)
  dir_made req (some e) = pure (err ("kind: session dir: " ⧺ e))
  dir_made req none =
      if not (req.audit_policy == "") then write_policy req else policy_written req "" none

  abbrev make_session_dir : Request → M W (Result Handle)
  make_session_dir req = do e ← runtime.make_dir req.session_dir; dir_made req e

  -- `Provision`
  unfoldable pub provision : Request → M W (Result Handle)
  unfolding cluster_config mint_engine_kubeconfig
  provision req =
      if req.session_id == "" || req.session_dir == ""
      then pure (err "kind: SessionID and SessionDir are required")
      else make_session_dir req

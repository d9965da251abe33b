-- ===== src/Kind/Identity.antt =====
-- internal/providers/kind/identity.go: the engine's own user, signed by kubeadm on the control plane.
use kubedrill.Shared.{String, Option, none, some, List, [], ◌∷◌, map, ◌⧺◌}
use kubedrill.Shared.Results.{Result, ok, err}
use kubedrill.Shared.State.{M, pure, ◌>>=◌}
use kubedrill.Kind.Runtime.{Runtime, Ran, output, broke, KubeContext, KubeConfig}
use kubedrill.Kind.Environment.{control_plane}

abbrev pub engine_user : String
engine_user = "kubedrill-engine"

abbrev first_info : List (String × String) → Option String
first_info [] = none
first_info ((name, auth) ∷ rest) = some auth

-- `singleAuthInfo`
abbrev pub single_auth_info : KubeConfig → Option String
single_auth_info cfg = first_info cfg.auth_infos

abbrev as_engine : String × KubeContext → String × KubeContext
as_engine (name, ctx) = (name, record ctx { auth_info = engine_user })

-- The player's configuration with the engine's credential as its only one, for every context.
abbrev pub with_engine : String → KubeConfig → KubeConfig
with_engine auth base = record base {
  auth_infos = (engine_user, auth) ∷ [];
  contexts = map as_engine base.contexts;
}

module _ {W : Type 0} (runtime : Runtime W) where
  abbrev splice_base : String → Result KubeConfig → Result String
  splice_base auth (err e) = err ("parse player kubeconfig: " ⧺ e)
  splice_base auth (ok base) = runtime.write_config (with_engine auth base)

  abbrev splice_auth : String → Option String → Result String
  splice_auth player none = err "minted kubeconfig has no user credential"
  splice_auth player (some auth) = splice_base auth (runtime.load_config player)

  abbrev splice_minted : String → Result KubeConfig → Result String
  splice_minted player (err e) = err ("parse minted kubeconfig: " ⧺ e)
  splice_minted player (ok cfg) = splice_auth player (single_auth_info cfg)

  -- `splicedEngineKubeconfig`
  abbrev pub spliced_engine_kubeconfig : String → String → Result String
  spliced_engine_kubeconfig player text = splice_minted player (runtime.load_config text)

  abbrev written_error : Option String → Option String
  written_error none = none
  written_error (some e) = some ("write engine kubeconfig: " ⧺ e)

  abbrev write_spliced : String → Result String → M W (Option String)
  write_spliced engine_path (err e) = pure (some e)
  write_spliced engine_path (ok out) = do
    e ← runtime.write_file engine_path out
    pure (written_error e)

  abbrev splice_read : String → String → Result String → M W (Option String)
  splice_read engine_path text (err e) = pure (some ("read player kubeconfig: " ⧺ e))
  splice_read engine_path text (ok player) =
      write_spliced engine_path (spliced_engine_kubeconfig player text)

  abbrev signed : String → String → Ran → M W (Option String)
  signed player_path engine_path (broke e text) =
      pure (some ("kubeadm kubeconfig user: " ⧺ e ⧺ " (" ⧺ text ⧺ ")"))
  signed player_path engine_path (output text) = do
    player ← runtime.read_file player_path
    splice_read engine_path text player

  -- The command that signs a certificate for the engine.
  abbrev kubeadm_user : List String
  kubeadm_user =
      "kubeadm" ∷ "kubeconfig" ∷ "user" ∷ "--client-name" ∷ "kubedrill:engine" ∷ "--org"
      ∷ "system:masters" ∷ []

  abbrev sign_on : String → String → Result String → M W (Option String)
  sign_on player_path engine_path (err e) = pure (some e)
  sign_on player_path engine_path (ok node) = do
    ran ← runtime.run node kubeadm_user
    signed player_path engine_path ran

  -- `mintEngineKubeconfig`
  unfoldable pub mint_engine_kubeconfig : String → String → String → M W (Option String)
  unfolding control_plane
  mint_engine_kubeconfig name player_path engine_path = do
    cp ← control_plane runtime name
    sign_on player_path engine_path cp

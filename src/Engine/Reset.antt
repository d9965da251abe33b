-- ===== src/Engine/Reset.antt =====
-- internal/engine/reset.go: a session's challenge is brought back to its broken state, on a cluster and
-- the session store. The files of the challenge do not change meanwhile; what is printed is left out.
pub mod Laws
use kubedrill.Shared.{
  ℕ, String, Bool, true, false, Option, none, some, List, [], if◌then◌else◌, ◌⧺◌,
}
use kubedrill.Shared.State.{M, pure, ◌>>=◌}
use kubedrill.Shared.Results.{Result, ok, err}
use kubedrill.Json.{Float64}
use kubedrill.Challenge.{Challenge}
use kubedrill.Loader.{load_dir}
use kubedrill.Session.{Session, phase_running}
use kubedrill.Store.Files.{World, Os}
use kubedrill.Store as Store
use kubedrill.Store.{Codec, load}
use kubedrill.Provision.{Finish, done, unfinished, failing, apply}
use kubedrill.Provision.Reset as Provision
use kubedrill.Engine.Verify.{on_cluster, on_files}
use kubedrill.Engine.Start.{Wiring, EnvRequest, from_now, duration_or_zero}

pub record ResetOpts : Type 0 where
  pub hard : Bool
  pub clock : Bool
  pub hints : Bool

-- What `Reset` returns: whether the cluster was recreated, and the error; none where a wait is out of
-- rounds.
abbrev pub Did : Type 0
Did = Option (Bool × Option String)

abbrev pub show_bool : Bool → String
show_bool b = if b then "true" else "false"

-- The mutation of `Reset`, with the new deadline, if there is to be one.
abbrev pub resumed : ResetOpts → Option ℕ → Session → Session
resumed opts deadline s = record s {
  phase = phase_running;
  deadline = elim deadline [ none ↦ s.deadline | some d ↦ some d ];
  hints_used = if opts.hints then [] else s.hints_used;
}

abbrev pub update_resumed : ResetOpts → Option ℕ → Session → Result Session
update_resumed opts deadline s = ok (resumed opts deadline s)

module _ (fl : Float64) {W : Type 0} (wiring : Wiring fl.Float W) where
  abbrev pub hard_connected : String → Challenge → Option String → M W Finish
  hard_connected dir ch (some e) = pure (failing e)
  hard_connected dir ch none = apply fl wiring.api wiring.texts wiring.writes dir ch

  abbrev pub hard_provisioned : String → String → Challenge → Option String → M W Finish
  hard_provisioned id dir ch (some e) = pure (failing ("hard reset: provision: " ⧺ e))
  hard_provisioned id dir ch none = do
    e ← wiring.provider.connect_engine id
    hard_connected dir ch e

  abbrev pub hard_request : String → Challenge → EnvRequest
  hard_request id ch = record {
    session_id = id;
    session_dir = wiring.session_dir id;
    kubernetes_version = ch.environment.cluster.kubernetes_version;
    audit_policy = "";
  }

  abbrev pub hard_loaded : String → String → Result Challenge → M W Finish
  hard_loaded id dir (err e) = pure (failing e)
  hard_loaded id dir (ok ch) = do
    e ← wiring.provider.provision (hard_request id ch)
    hard_provisioned id dir ch e

  abbrev pub hard_destroyed : String → String → Option String → M W Finish
  hard_destroyed id dir (some e) = pure (failing ("hard reset: destroy: " ⧺ e))
  hard_destroyed id dir none = hard_loaded id dir (load_dir wiring.library dir)

  -- `hardReset`
  unfoldable pub hard_reset : String → String → M W Finish
  unfolding load_dir apply
  hard_reset id dir = do e ← wiring.provider.destroy id; hard_destroyed id dir e

  module _ (os : Os) (codec : Codec) where
    abbrev pub log_reset : String → ResetOpts → Bool → Option String → M (W × World) Did
    log_reset id opts did_hard (some e) = pure (some (did_hard, some e))
    log_reset id opts did_hard none = do
      now ← on_cluster wiring.api.now
      _ ← on_files (
          Store.append_event os codec now id (record {
            at = 0;
            kind = "reset";
            note =
                "hard="
                ⧺ show_bool did_hard
                ⧺ " clock="
                ⧺ show_bool opts.clock
                ⧺ " hints="
                ⧺ show_bool opts.hints;
          }))
      pure (some (did_hard, none))

    -- `Reset` once the environment is restored
    abbrev pub resume : String → ResetOpts → Challenge → Bool → M (W × World) Did
    resume id opts ch did_hard = do
      d ← on_cluster (
          from_now wiring.api (
            if opts.clock
            then duration_or_zero wiring.api.parse_duration ch.metadata.time_limit
            else none))
      e ← on_files (Store.update os codec id (update_resumed opts d))
      log_reset id opts did_hard e

    abbrev pub after_hard : String → ResetOpts → Challenge → Finish → M (W × World) Did
    after_hard id opts ch unfinished = pure none
    after_hard id opts ch (failing e) = pure (some (true, some e))
    after_hard id opts ch done = resume id opts ch true

    abbrev pub reset_hard : String → String → ResetOpts → Challenge → M (W × World) Did
    reset_hard id dir opts ch = do f ← on_cluster (hard_reset id dir); after_hard id opts ch f

    abbrev pub after_fast : String → String → ResetOpts → Challenge → Finish → M (W × World) Did
    after_fast id dir opts ch unfinished = pure none
    after_fast id dir opts ch (failing e) = reset_hard id dir opts ch
    after_fast id dir opts ch done = resume id opts ch false

    abbrev pub reset_connected :
        String → String → ResetOpts → Challenge → Option String → M (W × World) Did
    reset_connected id dir opts ch (some e) = pure (some (false, some e))
    reset_connected id dir opts ch none = do
      f ← on_cluster (Provision.reset fl wiring.api wiring.texts wiring.writes dir ch)
      after_fast id dir opts ch f

    abbrev pub reset_fast : String → String → ResetOpts → Challenge → M (W × World) Did
    reset_fast id dir opts ch = do
      e ← on_cluster (wiring.connect id)
      reset_connected id dir opts ch e

    abbrev pub reset_challenge : String → String → ResetOpts → Result Challenge → M (W × World) Did
    reset_challenge id dir opts (err e) = pure (some (false, some e))
    reset_challenge id dir opts (ok ch) =
        if opts.hard then reset_hard id dir opts ch else reset_fast id dir opts ch

    abbrev pub reset_loaded : String → ResetOpts → Result Session → M (W × World) Did
    reset_loaded id opts (err e) = pure (some (false, some e))
    reset_loaded id opts (ok st) =
        reset_challenge id st.challenge_dir opts (load_dir wiring.library st.challenge_dir)

    -- `Reset`
    unfoldable pub reset_session : String → ResetOpts → M (W × World) Did
    unfolding load load_dir hard_reset Provision.reset Store.update Store.append_event
    reset_session id opts = do st ← on_files (load os codec id); reset_loaded id opts st

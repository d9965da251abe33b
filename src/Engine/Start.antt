-- ===== src/Engine/Start.antt =====
-- `Start` of internal/engine/engine.go with its helpers, on a cluster and the session store. The files
-- of the challenge do not change meanwhile; what is printed is left out.
pub mod Halts
pub mod Laws
pub mod Ends
use kubedrill.Shared.{
  ℕ, String, Bool, not, ◌&&◌, Option, none, some, List, [], ◌==◌, is_empty, if◌then◌else◌, ◌⧺◌,
}
use kubedrill.Shared.Int.{Int64, int_lt}
use kubedrill.Shared.State.{M, pure, ◌>>=◌}
use kubedrill.Shared.Results.{Result, ok, err}
use kubedrill.Json.{Float64}
use kubedrill.Challenge.{Challenge}
use kubedrill.Cluster.{Api, time_add}
use kubedrill.Loader.{Library, load_dir}
use kubedrill.Session.{Session, phase_creating, phase_running, phase_failed}
use kubedrill.Rules.Policy.{audit_policy}
use kubedrill.Store.Files.{World, Os}
use kubedrill.Store as Store
use kubedrill.Store.{Codec, load}
use kubedrill.Verify.Probe.{Texts}
use kubedrill.Provision.{Writes, Finish, done, unfinished, failing, apply}
use kubedrill.Engine.Guardrails.{Admission, apply_enforcement}
use kubedrill.Engine.Nodes.{challenge_uses_node_exec, apply_node_faults}
use kubedrill.Engine.Verify.{on_cluster, on_files}

-- The request of an environment, as far as the engine fills it.
pub record EnvRequest : Type 0 where
  pub session_id : String
  pub session_dir : String
  pub kubernetes_version : String
  pub audit_policy : String

-- The provider of environments, with the engine's client of one: its kubeconfig is read, and the
-- client made from it, the error being that of either.
pub record Provider (W : Type 0) : Type 0 where
  pub name : String
  pub audit_log : Bool
  pub can_exec : Bool
  pub provision : EnvRequest → M W (Option String)
  pub connect_engine : String → M W (Option String)
  pub destroy : String → M W (Option String)
  pub node_exec : String → String → List String → M W (Option (String × String))

-- What the engine calls in `Start` and `Reset`: the cluster as the engine, the provider, the
-- loader's library, the kubeconfig of the engine in a session's directory with the client made from
-- it, and the paths of a session.
pub record Wiring (F W : Type 0) : Type 0 where
  pub api : Api F W
  pub texts : Texts
  pub writes : Writes F W
  pub admission : Admission F W
  pub provider : Provider W
  pub library : Library F
  pub connect : String → M W (Option String)
  pub absolute : String → String
  pub session_dir : String → String
  pub kubeconfig_path : String → String

pub record StartResult : Type 0 where
  pub session_id : String
  pub kubeconfig_path : String
  pub deadline : Option ℕ
  pub challenge : Challenge

abbrev pub if_positive : Option Int64 → Option Int64
if_positive none = none
if_positive (some d) = if int_lt 0 d then some d else none

-- `durationOrZero`
abbrev pub duration_or_zero : (String → Option Int64) → String → Option Int64
duration_or_zero parse_duration s = if s == "" then none else if_positive (parse_duration s)

-- The error of a `CapabilityError`
abbrev pub capability_error : String → String
capability_error need =
    "provider lacks capability " ⧺ need
    ⧺ " required by this challenge; re-run with --rules=advisory to grade from logs only"

-- What `Start` returns, none where a wait is out of rounds.
abbrev pub Begun : Type 0
Begun = Option (Result StartResult)

-- The time limit from now on, if there is one.
abbrev pub from_now : {F W : Type 0} → Api F W → Option Int64 → M W (Option ℕ)
from_now api none = pure none
from_now api (some d) = do t ← api.now; pure (some (time_add t d))

-- `computeDeadline`
abbrev pub compute_deadline : {F W : Type 0} → Api F W → String → M W (Option ℕ)
compute_deadline api limit = from_now api (duration_or_zero api.parse_duration limit)

module _ (fl : Float64) {W : Type 0} (wiring : Wiring fl.Float W) (os : Os) (codec : Codec) where
  -- `AppendEvent` of an event without a note, its error dropped.
  abbrev pub log_event : String → String → M (W × World) (Option String)
  log_event id kind = do
    now ← on_cluster wiring.api.now
    on_files (Store.append_event os codec now id (record { at = 0; kind = kind; note = "" }))

  abbrev pub mark_failed : Session → Result Session
  mark_failed s = ok (record s { phase = phase_failed })

  -- `failStart`
  abbrev pub fail_start : String → String → M (W × World) Begun
  fail_start id cause = do
    _ ← on_files (Store.update os codec id mark_failed)
    _ ← on_cluster (wiring.provider.destroy id)
    _ ← on_files (Store.remove os codec id)
    pure (some (err ("start failed, cluster torn down: " ⧺ cause)))

  -- The mutation that arms the timer: a session with a deadline gets one from now on.
  abbrev pub arm : Option ℕ → List String → Session → Session
  arm deadline enforced s = record s {
    phase = phase_running;
    deadline = elim deadline [ none ↦ s.deadline | some d ↦ some d ];
    enforced_policies = enforced;
  }

  abbrev pub update_armed : Option ℕ → List String → Session → Result Session
  update_armed deadline enforced s = ok (arm deadline enforced s)

  abbrev pub deadline_of : Result Session → Option ℕ
  deadline_of (ok st) = st.deadline
  deadline_of (err e) = none

  abbrev pub start_result : String → Challenge → M (W × World) Begun
  start_result id ch = do
    st ← on_files (load os codec id)
    pure (
        some (
          ok (record {
            session_id = id;
            kubeconfig_path = wiring.kubeconfig_path id;
            deadline = deadline_of st;
            challenge = ch;
          })))

  abbrev pub report_started : String → Challenge → Option String → M (W × World) Begun
  report_started id ch (some e) = pure (some (err e))
  report_started id ch none = do _ ← log_event id "started"; start_result id ch

  abbrev pub arm_timer : String → Challenge → List String → M (W × World) Begun
  arm_timer id ch enforced = do
    d ← on_cluster (compute_deadline wiring.api ch.metadata.time_limit)
    e ← on_files (Store.update os codec id (update_armed d enforced))
    report_started id ch e

  abbrev pub start_broken : String → Challenge → List String → Option String → M (W × World) Begun
  start_broken id ch enforced (some e) = fail_start id e
  start_broken id ch enforced none = arm_timer id ch enforced

  abbrev pub start_enforced :
      String → Challenge → Option (Result (List String)) → M (W × World) Begun
  start_enforced id ch none = pure none
  start_enforced id ch (some (err e)) = fail_start id e
  start_enforced id ch (some (ok enforced)) = do
    e ← on_cluster (
        apply_node_faults (wiring.provider.node_exec id) wiring.writes.trim_space
          ch.environment.setup.faults)
    start_broken id ch enforced e

  abbrev pub start_applied : String → Challenge → Finish → M (W × World) Begun
  start_applied id ch unfinished = pure none
  start_applied id ch (failing e) = fail_start id e
  start_applied id ch done = do
    r ← on_cluster (apply_enforcement wiring.api wiring.writes wiring.admission ch)
    start_enforced id ch r

  abbrev pub start_connected : String → String → Challenge → Option String → M (W × World) Begun
  start_connected dir id ch (some e) = fail_start id e
  start_connected dir id ch none = do
    f ← on_cluster (apply fl wiring.api wiring.texts wiring.writes dir ch)
    start_applied id ch f

  abbrev pub start_provisioned : String → String → Challenge → Option String → M (W × World) Begun
  start_provisioned dir id ch (some e) = fail_start id e
  start_provisioned dir id ch none = do
    e ← on_cluster (wiring.provider.connect_engine id)
    start_connected dir id ch e

  abbrev pub env_request : String → Challenge → EnvRequest
  env_request id ch = record {
    session_id = id;
    session_dir = wiring.session_dir id;
    kubernetes_version = ch.environment.cluster.kubernetes_version;
    audit_policy = audit_policy ch;
  }

  abbrev pub start_created : String → String → Challenge → Option String → M (W × World) Begun
  start_created dir id ch (some e) = pure (some (err e))
  start_created dir id ch none = do
    _ ← on_files (Store.set_current os codec id)
    _ ← log_event id "created"
    e ← on_cluster (wiring.provider.provision (env_request id ch))
    start_provisioned dir id ch e

  -- The session as `Start` records it before the cluster is there.
  abbrev pub created_session : String → String → Challenge → Option ℕ → Session
  created_session dir id ch deadline = record {
    schema_version = 0;
    id = id;
    challenge = record { name = ch.metadata.name; version = ch.metadata.version };
    challenge_dir = wiring.absolute dir;
    provider = wiring.provider.name;
    cluster = "kubedrill-" ⧺ id;
    phase = phase_creating;
    started_at = 0;
    deadline = deadline;
    hints_used = [];
    attempts = [];
    best_score = 0;
    labels = [];
    enforced_policies = [];
  }

  abbrev pub start_capable : String → String → Challenge → M (W × World) Begun
  start_capable dir id ch = do
    d ← on_cluster (compute_deadline wiring.api ch.metadata.time_limit)
    now ← on_cluster wiring.api.now
    e ← on_files (Store.create os codec now (created_session dir id ch d))
    start_created dir id ch e

  abbrev pub start_challenge : String → String → Result Challenge → M (W × World) Begun
  start_challenge dir id (err e) = pure (some (err e))
  start_challenge dir id (ok ch) =
      if not (is_empty ch.rules) && not wiring.provider.audit_log
      then pure (some (err (capability_error "\"auditLog\"")))
      else if challenge_uses_node_exec ch && not wiring.provider.can_exec
      then pure (some (err (capability_error "\"nodeExec\"")))
      else start_capable dir id ch

  -- `Start`
  unfoldable pub start : String → String → M (W × World) Begun
  unfolding load_dir challenge_uses_node_exec Store.create Store.update Store.remove
      Store.set_current Store.append_event apply apply_enforcement apply_node_faults audit_policy
      load
  start dir id = start_challenge dir id (load_dir wiring.library dir)

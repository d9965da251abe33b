-- ===== src/Provision.antt =====
-- internal/provision: the setup of a challenge, its faults and its readiness gates, in provision.go,
-- yaml.go and reset.go.
pub mod Calls
pub mod Waiting
pub mod Reset
pub mod Laws
pub mod Labels
use kubedrill.Shared.{
  ℕ, zero, suc, ◌+◌, ◌*◌, ◌/◌, String, Bool, true, false, not, ◌&&◌, Option, none, some, List, [],
  ◌∷◌, ◌++◌, ◌==◌, map, ltb, is_some, is_empty, if◌then◌else◌, ◌⧺◌, quote,
}
use kubedrill.Shared.Int.{Int64}
use kubedrill.Shared.Results.{Result, ok, err}
use kubedrill.Shared.State.{M, pure, ◌>>=◌}
use kubedrill.Json.{Fields, end, field, Float64}
use kubedrill.Challenge.{Challenge, ManifestRef, Fault, Patch, Check, Poll, poll_of}
use kubedrill.Cluster.{
  Api, ResourceInterface, Got, found, not_found, failed, resource_for, default_api_version,
  time_add,
}
use kubedrill.Verify.Outcome.{CheckResult, is_pass}
use kubedrill.Verify.Probe.{Texts, second}
use kubedrill.Verify.Checks.{eval_check}
use kubedrill.Provision.Waiting.{Awaited, arrived, late, cancelled, exhausted, await}
pub use kubedrill.Provision.Calls.{
  challenge_label, PatchType, Deleted, with_label, Writes, Finish, finish_of, or_no_labels,
  prefix_error, unless_error, unless_failing, as_it_is, split_yaml, apply_patch,
  strategic_merge_patch, json_patch, deleted, absent, refused, done, unfinished, failing,
}

module _ {F W : Type 0} (api : Api F W) (writes : Writes F W) where
  -- The label that `applyManifest` stamps on an object.
  abbrev pub challenge_labelled : String → Fields F → Fields F
  challenge_labelled name o =
      writes.set_labels (with_label challenge_label name (or_no_labels (writes.labels_of o))) o

  abbrev pub patch_marshalled : Fields F → ResourceInterface → Result String → M W (Option String)
  patch_marshalled o ri (err e) = pure (some e)
  patch_marshalled o ri (ok content) = do
    e ← writes.patch ri (writes.name_of o) apply_patch content
    pure (
        prefix_error
          (λ e. "server-side apply " ⧺ writes.kind_of o ⧺ "/" ⧺ writes.name_of o ⧺ ": " ⧺ e) e)

  abbrev pub patch_resolved : Fields F → Result ResourceInterface → M W (Option String)
  patch_resolved o (err e) = pure (some e)
  patch_resolved o (ok ri) = patch_marshalled o ri (writes.marshal o)

  abbrev pub patch_object : Fields F → M W (Option String)
  patch_object o = do
    ri ← resource_for api (writes.api_version_of o) (writes.kind_of o) (writes.namespace_of o)
    patch_resolved o ri

  abbrev pub apply_parsed : String → Result (Fields F) → M W (Option String)
  apply_parsed name (err e) = pure (some ("parse doc: " ⧺ e))
  apply_parsed name (ok end) = pure none
  apply_parsed name (ok (field k v fs)) = patch_object (challenge_labelled name (field k v fs))

  abbrev pub apply_document : String → String → M W (Option String)
  apply_document name doc =
      if doc == "" then pure none else apply_parsed name (writes.parse_yaml doc)

  -- The loop of `applyManifest`
  unfoldable pub apply_documents : String → List String → M W (Option String)
  unfolding resource_for
  apply_documents name [] = pure none
  apply_documents name (doc ∷ docs) = do
    e ← apply_document name doc
    unless_error as_it_is (apply_documents name docs) e

  abbrev pub apply_file : String → Result String → M W (Option String)
  apply_file name (err e) = pure (some e)
  apply_file name (ok raw) = apply_documents name (split_yaml writes raw)

  -- `applyManifest`
  unfoldable pub apply_manifest : String → String → String → M W (Option String)
  unfolding apply_documents
  apply_manifest dir path name = do raw ← api.read_file dir path; apply_file name raw

  -- The loop of `Apply` over the manifests
  unfoldable pub apply_manifests : String → String → List ManifestRef → M W (Option String)
  unfolding apply_manifest
  apply_manifests dir name [] = pure none
  apply_manifests dir name (m ∷ ms) = do
    e ← apply_manifest dir m.path name
    unless_error (λ e. "apply " ⧺ m.path ⧺ ": " ⧺ e) (apply_manifests dir name ms) e

  -- The switch of `injectFault`
  abbrev pub patch_type : String → Option PatchType
  patch_type t =
      if t == "merge"
      then some strategic_merge_patch
      else if t == ""
      then some strategic_merge_patch
      else if t == "json"
      then some json_patch
      else none

  abbrev pub patch_typed : Patch → ResourceInterface → Option PatchType → M W (Option String)
  patch_typed p ri none = pure (some ("unknown patch type " ⧺ quote p.type))
  patch_typed p ri (some t) = do
    e ← writes.patch ri p.target.name t p.content
    pure (prefix_error (λ e. "patch " ⧺ p.target.kind ⧺ "/" ⧺ p.target.name ⧺ ": " ⧺ e) e)

  abbrev pub patch_target : Patch → Result ResourceInterface → M W (Option String)
  patch_target p (err e) = pure (some e)
  patch_target p (ok ri) = patch_typed p ri (patch_type p.type)

  abbrev pub inject_patch : String → Option Patch → M W (Option String)
  inject_patch name none = pure (
      some
        ("only patch and nodeExec faults are supported in this build (fault " ⧺ quote name ⧺ ")"))
  inject_patch name (some p) = do
    let t = p.target
    ri ←
        resource_for api (if t.api_version == "" then default_api_version t.kind else t.api_version)
          t.kind t.namespace
    patch_target p ri

  -- `injectFault`
  unfoldable pub inject_fault : Fault → M W (Option String)
  unfolding resource_for default_api_version
  inject_fault f = if is_some f.node_exec then pure none else inject_patch f.name f.patch

  -- The loop of `Apply` over the faults
  unfoldable pub inject_faults : List Fault → M W (Option String)
  unfolding inject_fault
  inject_faults [] = pure none
  inject_faults (f ∷ fs) = do
    e ← inject_fault f
    unless_error (λ e. "fault " ⧺ quote f.name ⧺ ": " ⧺ e) (inject_faults fs) e

abbrev pub overall_window : ℕ
overall_window = 90 * second

abbrev pub gate_interval : ℕ
gate_interval = 2 * second

-- Rounds of the interval that fit into the window, and two more.
abbrev pub gate_rounds : ℕ
gate_rounds = overall_window / gate_interval + 2

abbrev pub default_gate_timeout : Int64
default_gate_timeout = 60 * second

abbrev parsed_timeout : Option Int64 → Int64
parsed_timeout none = default_gate_timeout
parsed_timeout (some d) = d

-- The timeout of a gate in `waitReadiness`
abbrev pub gate_timeout : (String → Option Int64) → Option Poll → Int64
gate_timeout parse_duration none = default_gate_timeout
gate_timeout parse_duration (some p) =
    if p.timeout == "" then default_gate_timeout else parsed_timeout (parse_duration p.timeout)

-- The gate's deadline, which is not after that of all gates.
abbrev pub gate_deadline : ℕ → ℕ → Int64 → ℕ
gate_deadline deadline now timeout =
    let d = time_add now timeout in if ltb deadline d then deadline else d

module _ (fl : Float64) {W : Type 0} (api : Api fl.Float W) (texts : Texts)
    (writes : Writes fl.Float W) (dir : String) where
  abbrev pub gate_answer : CheckResult → Option String
  gate_answer r = if is_pass r.outcome then none else some r.reason

  -- `ev.Check(ctx, g)`, none where the gate passes
  abbrev pub try_gate : Check → M W (Option String)
  try_gate g w = let (r, w') = eval_check fl api texts dir g w in (gate_answer r, w')

  abbrev pub gate_finish : Int64 → Awaited → M W Finish
  gate_finish to arrived = pure done
  gate_finish to (late reason) = pure (
      failing
        ("readiness gate did not become true in time (" ⧺ writes.show_duration to ⧺ "): " ⧺ reason))
  gate_finish to cancelled = do e ← writes.context_error; pure (failing e)
  gate_finish to exhausted = pure unfinished

  abbrev pub wait_gate : ℕ → Check → M W Finish
  wait_gate deadline g = do
    let to = gate_timeout api.parse_duration (poll_of g)
    now ← api.now
    a ← await api gate_interval (try_gate g) gate_rounds (gate_deadline deadline now to)
    gate_finish to a

  -- The loop of `waitReadiness`
  unfoldable pub wait_gates : ℕ → List Check → M W Finish
  unfolding await
  wait_gates deadline [] = pure done
  wait_gates deadline (g ∷ gs) = do
    f ← wait_gate deadline g
    unless_failing as_it_is (wait_gates deadline gs) f

  abbrev pub wait_from_now : List Check → M W Finish
  wait_from_now gates = do now ← api.now; wait_gates (now + overall_window) gates

  -- `waitReadiness`
  unfoldable pub wait_readiness : List Check → M W Finish
  unfolding wait_gates
  wait_readiness gates = if is_empty gates then pure done else wait_from_now gates

  abbrev pub inject_and_wait : Challenge → M W Finish
  inject_and_wait ch = do
    e ← inject_faults api writes ch.environment.setup.faults
    unless_failing as_it_is (wait_readiness ch.environment.setup.readiness) (finish_of e)

  -- `Apply`
  unfoldable pub apply : Challenge → M W Finish
  unfolding apply_manifests inject_faults wait_readiness
  apply ch = do
    e ← apply_manifests api writes dir ch.metadata.name ch.environment.setup.manifests
    unless_failing as_it_is (inject_and_wait ch) (finish_of e)

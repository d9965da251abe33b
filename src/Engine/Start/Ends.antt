-- ===== src/Engine/Start/Ends.antt =====
-- A start comes to an end.
use kubedrill.Shared.{
  ℕ, String, Bool, true, false, not, ◌&&◌, is_empty, Option, none, some, List, if◌then◌else◌,
}
use kubedrill.Shared.Results.{Result, ok, err}
use kubedrill.Json.{Float64}
use kubedrill.Challenge.{Challenge}
use kubedrill.Cluster.{ResourceInterface}
use kubedrill.Loader.{load_dir}
use kubedrill.Store.Files.{World, Os}
use kubedrill.Store as Store
use kubedrill.Store.{Codec}
use kubedrill.Provision.Waiting.{Clock, Onward}
use kubedrill.Provision.{Finish, done, unfinished, failing, apply}
use kubedrill.Provision.Laws.{EndsWith, OnwardGates, apply-EndsWith}
use kubedrill.Engine.Guardrails.{apply_enforcement, server_minor_at_least, min_vap_minor}
use kubedrill.Engine.Guardrails.Laws.{Accessors, Guards, apply_enforcement-Guards}
use kubedrill.Engine.Nodes.{apply_node_faults, challenge_uses_node_exec}
use kubedrill.Engine.Start.{
  Wiring, capability_error, compute_deadline, update_armed, log_event, report_started, start_broken,
  start_enforced, start_applied, start_connected, start_provisioned, env_request, start_created,
  created_session, start_capable, start_challenge, start,
}

-- There is a result.
abbrev pub Returns : {A B : Type 0} → Option A × B → Type 0
Returns (none, w) = ⊥
Returns (some r, w) = Unit

module _ (fl : Float64) {W : Type 0} (wiring : Wiring fl.Float W) (os : Os) (codec : Codec)
    (dir id : String) (time : W → ℕ) (clock : Clock wiring.api time)
    (getting : (ri : ResourceInterface) (name : String) → Onward time (wiring.api.get ri name))
    (accessors : Accessors wiring.api wiring.writes wiring.admission time) where
  -- The readiness gates of the challenge, if there is one, do not turn the clock back.
  abbrev pub OnwardIn : Result Challenge → Type 0
  OnwardIn (err e) = Unit
  OnwardIn (ok ch) =
      OnwardGates fl wiring.api wiring.texts wiring.writes dir time ch.environment.setup.readiness

  report_started-Returns :
      (ch : Challenge) (e : Option String) (w : W) (f : World)
      → Returns (report_started fl wiring os codec id ch e (w, f))
  report_started-Returns ch none w f = tt
  report_started-Returns ch (some e) w f = tt

  start_broken-Returns :
      (ch : Challenge) (enforced : List String) (e : Option String) (w : W) (f : World)
      → Returns (start_broken fl wiring os codec id ch enforced e (w, f))
  start_broken-Returns ch enforced (some e) w f = tt
  start_broken-Returns ch enforced none w f =
      let (d, w') = compute_deadline wiring.api ch.metadata.time_limit w in
      let (e, f') = Store.update os codec id (update_armed fl wiring os codec d enforced) f in
      report_started-Returns ch e w' f'

  start_enforced-Returns :
      (ch : Challenge) (modern : Bool) (r : Option (Result (List String))) (w : W) (f : World)
      → Guards wiring.api wiring.writes wiring.admission time accessors ch modern r
      → Returns (start_enforced fl wiring os codec id ch r (w, f))
  start_enforced-Returns ch modern none w f g = g
  start_enforced-Returns ch modern (some (err e)) w f g = tt
  start_enforced-Returns ch modern (some (ok enforced)) w f g =
      let (e, w') =
        apply_node_faults (wiring.provider.node_exec id) wiring.writes.trim_space
          ch.environment.setup.faults w in
      start_broken-Returns ch enforced e w' f

  start_applied-Returns :
      (P : W → Type 0) (ch : Challenge) (r : Finish) (w : W) (f : World)
      → EndsWith P (r, w)
      → Returns (start_applied fl wiring os codec id ch r (w, f))
  start_applied-Returns P ch unfinished w f e = e
  start_applied-Returns P ch (failing e) w f _ = tt
  start_applied-Returns P ch done w f e =
      let (r, w') = apply_enforcement wiring.api wiring.writes wiring.admission ch w in
      start_enforced-Returns ch
        (server_minor_at_least wiring.api wiring.writes wiring.admission min_vap_minor w).0 r w' f
        (apply_enforcement-Guards wiring.api wiring.writes wiring.admission time accessors clock
          getting ch w)

  start_connected-Returns :
      (ch : Challenge) (e : Option String) (w : W) (f : World)
      → OnwardGates fl wiring.api wiring.texts wiring.writes dir time ch.environment.setup.readiness
      → Returns (start_connected fl wiring os codec dir id ch e (w, f))
  start_connected-Returns ch (some e) w f onward = tt
  start_connected-Returns ch none w f onward =
      let (r, w') = apply fl wiring.api wiring.texts wiring.writes dir ch w in
      start_applied-Returns _ ch r w' f
        (apply-EndsWith fl wiring.api wiring.texts wiring.writes dir time clock ch w onward)

  start_provisioned-Returns :
      (ch : Challenge) (e : Option String) (w : W) (f : World)
      → OnwardGates fl wiring.api wiring.texts wiring.writes dir time ch.environment.setup.readiness
      → Returns (start_provisioned fl wiring os codec dir id ch e (w, f))
  start_provisioned-Returns ch (some e) w f onward = tt
  start_provisioned-Returns ch none w f onward =
      let (e, w') = wiring.provider.connect_engine id w in start_connected-Returns ch e w' f onward

  start_created-Returns :
      (ch : Challenge) (e : Option String) (w : W) (f : World)
      → OnwardGates fl wiring.api wiring.texts wiring.writes dir time ch.environment.setup.readiness
      → Returns (start_created fl wiring os codec dir id ch e (w, f))
  start_created-Returns ch (some e) w f onward = tt
  start_created-Returns ch none w f onward =
      let current = (Store.set_current os codec id f).1 in
      let (w', logged) = (log_event fl wiring os codec id "created" (w, current)).1 in
      let (e, w'') = wiring.provider.provision (env_request fl wiring os codec id ch) w' in
      start_provisioned-Returns ch e w'' logged onward

  start_challenge-Returns :
      (r : Result Challenge) (w : W) (f : World)
      → OnwardIn r
      → Returns (start_challenge fl wiring os codec dir id r (w, f))
  start_challenge-Returns (err e) w f onward = tt
  start_challenge-Returns (ok ch) w f onward =
      either (not (is_empty ch.rules) && not wiring.provider.audit_log)
        (challenge_uses_node_exec ch && not wiring.provider.can_exec)
    where
      either :
          (a b : Bool)
          → Returns (
              (if a
                  then (λ w. (some (err (capability_error "\"auditLog\"")), w))
                  else if b
                  then (λ w. (some (err (capability_error "\"nodeExec\"")), w))
                  else start_capable fl wiring os codec dir id ch)
                (w, f))
      either true b = tt
      either false true = tt
      either false false =
          let (d, w₁) = compute_deadline wiring.api ch.metadata.time_limit w in
          let (now, w₂) = wiring.api.now w₁ in
          let (e, f') =
            Store.create os codec now (created_session fl wiring os codec dir id ch d) f in
          start_created-Returns ch e w₂ f' onward

  -- A start returns a result or an error, whatever fails and however the cluster answers, if the clock
  -- reads and waits as a clock does and neither a `Get` nor a readiness gate
  -- turns it back: none of its waits is
  -- without an end.
  pub start-Returns :
      (w : W) (f : World)
      → OnwardIn (load_dir wiring.library dir)
      → Returns (start fl wiring os codec dir id (w, f))
  unfolding start
  start-Returns w f onward = start_challenge-Returns (load_dir wiring.library dir) w f onward

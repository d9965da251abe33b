-- ===== src/Engine/Verify.antt =====
-- `Verify` of internal/engine/engine.go and `gradeRules` of grade.go, on a cluster and the session
-- store. The clock is the cluster's; the files of the challenge do not change meanwhile.
pub mod Laws
use kubedrill.Shared.{
  ℕ, String, Bool, true, false, Option, none, some, List, [], is_empty, if◌then◌else◌, ◌⧺◌,
}
use kubedrill.Shared.State.{M, pure, ◌>>=◌}
use kubedrill.Shared.Results.{Result, ok, err}
use kubedrill.Json.{Float64}
use kubedrill.Cluster.{Api}
use kubedrill.Challenge.{Challenge}
use kubedrill.Loader.{Library, load_dir}
use kubedrill.Session.{Session}
use kubedrill.Rules.Audit.{AuditEvent}
use kubedrill.Rules.Grade.{grade}
use kubedrill.Store.Files.{World, Os}
use kubedrill.Store as Store
use kubedrill.Store.{Codec, load}
use kubedrill.Verify.Probe.{Texts}
use kubedrill.Verify.Score.{Scorecard, evaluate, net_score}
use kubedrill.Engine.Hints.{hint_penalty}
use kubedrill.Engine.Attempts.{grade_card, check_enforcement_tamper, late_at, record_attempt}
use kubedrill.Engine.Reading.{AuditLog, read_from}

-- What the engine calls: the cluster as the player, the loader's library, the audit log, and the
-- player's kubeconfig with the client made from it (the error, if any).
pub record Ports (F W : Type 0) : Type 0 where
  pub api : Api F W
  pub texts : Texts
  pub library : Library F
  pub audit : AuditLog W
  pub connect : String → M W (Option String)

abbrev pub on_cluster : {W A : Type 0} → M W A → M (W × World) A
on_cluster m (w, files) = let (a, w') = m w in (a, (w', files))

abbrev pub on_files : {W A : Type 0} → M World A → M (W × World) A
on_files m (w, files) = let (a, files') = m files in (a, (w, files'))

-- What `Verify` returns, none where the reading of the audit log is out of rounds.
abbrev pub Verified : Type 0
Verified = Option (Result (Scorecard × Bool))

-- `rounds` are those of the reading of the audit log.
module _ (fl : Float64) {W : Type 0} (ports : Ports fl.Float W) (rounds : ℕ) where
  -- `gradeRules` once the log was read: an error leaves the card as it is.
  abbrev pub graded : Challenge → Scorecard → Option (Result (List AuditEvent)) → Option Scorecard
  graded ch card none = none
  graded ch card (some (err e)) = some card
  graded ch card (some (ok events)) =
      some (grade_card (grade fl ports.api.unmarshal ch.rules events) card)

  abbrev pub grade_events : String → Challenge → Scorecard → Option String → M W (Option Scorecard)
  grade_events id ch card (some e) = pure (some card)
  grade_events id ch card none = do
    events ← read_from ports.audit rounds id 0 []
    pure (graded ch card events)

  -- `gradeRules`
  unfoldable pub grade_session : String → Challenge → Scorecard → M W (Option Scorecard)
  grade_session id ch card = do e ← ports.audit.environment id; grade_events id ch card e

  abbrev pub check_tamper : List String → Option Scorecard → M W (Option Scorecard)
  check_tamper enforced none = pure none
  check_tamper enforced (some card) = do
    checked ← check_enforcement_tamper ports.api enforced card
    pure (some checked)

  abbrev pub grade_if_ruled : String → Session → Challenge → Scorecard → M W (Option Scorecard)
  grade_if_ruled id st ch card = if is_empty ch.rules then pure (some card) else do
    with_rules ← grade_session id ch (record card { advisory = ch.metadata.node_access })
    check_tamper st.enforced_policies with_rules

  -- The scorecard of `Verify`, with the hints' penalty and the rules.
  unfoldable pub score_session : String → Session → Challenge → M W (Option Scorecard)
  unfolding grade_session evaluate hint_penalty
  score_session id st ch = do
    card ← evaluate fl ports.api ports.texts st.challenge_dir ch
    grade_if_ruled id st ch (record card { hint_penalty = hint_penalty ch st.hints_used })

  module _ (os : Os) (codec : Codec) where
    abbrev pub note : Scorecard → Bool → String
    note card late =
        "net="
        ⧺ ports.texts.show_int (net_score card)
        ⧺ "/"
        ⧺ ports.texts.show_int card.max_score
        ⧺ " penalty="
        ⧺ ports.texts.show_int card.hint_penalty
        ⧺ " late="
        ⧺ (if late then "true" else "false")

    abbrev pub log_verify : String → Scorecard → Bool → Option String → M (W × World) Verified
    log_verify id card late (some e) = pure (some (err e))
    log_verify id card late none = do
      now ← on_cluster ports.api.now
      _ ← on_files (
          Store.append_event os codec now id
            (record { at = 0; kind = "verify"; note = note card late }))
      pure (some (ok (card, late)))

    abbrev pub update_attempts : Scorecard → Bool → ℕ → Session → Result Session
    update_attempts card late at s = ok (record_attempt card late at s)

    abbrev pub save_attempt : String → Scorecard → Bool → M (W × World) Verified
    save_attempt id card late = do
      at ← on_cluster ports.api.now
      e ← on_files (Store.update os codec id (update_attempts card late at))
      log_verify id card late e

    abbrev pub record_card : String → Session → Option Scorecard → M (W × World) Verified
    record_card id st none = pure none
    record_card id st (some card) = do
      now ← on_cluster ports.api.now
      save_attempt id card (late_at st now)

    abbrev pub verify_connected :
        String → Session → Challenge → Option String → M (W × World) Verified
    verify_connected id st ch (some e) = pure (some (err e))
    verify_connected id st ch none = do
      card ← on_cluster (score_session id st ch)
      record_card id st card

    abbrev pub verify_challenge : String → Session → Result Challenge → M (W × World) Verified
    verify_challenge id st (err e) = pure (some (err e))
    verify_challenge id st (ok ch) = do
      e ← on_cluster (ports.connect id)
      verify_connected id st ch e

    abbrev pub verify_loaded : String → Result Session → M (W × World) Verified
    verify_loaded id (err e) = pure (some (err e))
    verify_loaded id (ok st) = verify_challenge id st (load_dir ports.library st.challenge_dir)

    -- `Verify`
    unfoldable pub verify : String → M (W × World) Verified
    unfolding load load_dir score_session Store.update Store.append_event record_attempt
    verify id = do st ← on_files (load os codec id); verify_loaded id st

-- ===== src/Engine/Reveal.antt =====
-- `NextHint` and `RevealHint` of internal/engine/hint.go on the session store, and `EvaluateDirect` of
-- authortest.go. The files of the challenge do not change meanwhile.
pub mod Laws
use kubedrill.Shared.{ℕ, String, Option, none, some, ◌⧺◌}
use kubedrill.Shared.Int.{Int64}
use kubedrill.Shared.State.{M, pure, ◌>>=◌}
use kubedrill.Shared.Results.{Result, ok, err}
use kubedrill.Json.{Float64}
use kubedrill.Challenge.{Challenge, Hint}
use kubedrill.Loader.{Library, load_dir}
use kubedrill.Session.{Session}
use kubedrill.Store.Files.{World, Os}
use kubedrill.Store as Store
use kubedrill.Store.{Codec, load}
use kubedrill.Verify.Score.{Scorecard, evaluate_direct}
use kubedrill.Engine.Hints.{next_hint, record_hint}
use kubedrill.Engine.Verify.{Ports, on_cluster, on_files}

module _ {F : Type 0} (library : Library F) (os : Os) (codec : Codec) where
  abbrev pub hint_of_challenge : Session → Result Challenge → Result (Option (Hint × ℕ))
  hint_of_challenge st (err e) = err e
  hint_of_challenge st (ok ch) = ok (next_hint ch st)

  abbrev pub hint_of : Result Session → Result (Option (Hint × ℕ))
  hint_of (err e) = err e
  hint_of (ok st) = hint_of_challenge st (load_dir library st.challenge_dir)

  -- `NextHint`
  unfoldable pub next_hint_of : String → M World (Result (Option (Hint × ℕ)))
  unfolding load load_dir next_hint
  next_hint_of id = do st ← load os codec id; pure (hint_of st)

  abbrev pub update_hints : Hint → Session → Result Session
  update_hints h s = ok (record_hint h s)

  -- The end of `RevealHint`, at the time `now`
  abbrev pub log_hint : ℕ → String → Hint → Option String → M World (Result Hint)
  log_hint now id h (some e) = pure (err e)
  log_hint now id h none = do
    _ ←
        Store.append_event os codec now id
          (record { at = 0; kind = "hint"; note = h.id ⧺ " (-" ⧺ library.show h.penalty ⧺ ")" })
    pure (ok h)

  abbrev pub save_hint : ℕ → String → Result (Option (Hint × ℕ)) → M World (Result Hint)
  save_hint now id (err e) = pure (err e)
  save_hint now id (ok none) = pure (err "no more hints for this challenge")
  save_hint now id (ok (some (h, _))) = do
    e ← Store.update os codec id (update_hints h)
    log_hint now id h e

  -- `RevealHint`
  unfoldable pub reveal_hint_of : ℕ → String → M World (Result Hint)
  unfolding next_hint_of record_hint Store.update Store.append_event
  reveal_hint_of now id = do h ← next_hint_of id; save_hint now id h

module _ (fl : Float64) {W : Type 0} (ports : Ports fl.Float W) (os : Os) (codec : Codec) where
  abbrev pub direct_card : Session → Challenge → Option String → M (W × World) (Result Scorecard)
  direct_card st ch (some e) = pure (err e)
  direct_card st ch none = do
    card ← on_cluster (evaluate_direct fl ports.api ports.texts st.challenge_dir ch)
    pure (ok card)

  abbrev pub direct_challenge :
      String → Session → Result Challenge → M (W × World) (Result Scorecard)
  direct_challenge id st (err e) = pure (err e)
  direct_challenge id st (ok ch) = do e ← on_cluster (ports.connect id); direct_card st ch e

  abbrev pub direct_loaded : String → Result Session → M (W × World) (Result Scorecard)
  direct_loaded id (err e) = pure (err e)
  direct_loaded id (ok st) = direct_challenge id st (load_dir ports.library st.challenge_dir)

  -- `EvaluateDirect`
  unfoldable pub evaluate_session : String → M (W × World) (Result Scorecard)
  unfolding load load_dir evaluate_direct
  evaluate_session id = do st ← on_files (load os codec id); direct_loaded id st

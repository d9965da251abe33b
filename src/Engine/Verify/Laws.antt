-- ===== src/Engine/Verify/Laws.antt =====
-- What a verify leaves in the session store.
use kubedrill.Shared.{
  [], ◌∷◌, ◌++◌, map, length, not, ◌&&◌, if◌then◌else◌, ℕ, String, Bool, Option, none, some, ◌≡◌,
  refl, ap, ◌∙◌, subst,
}
use kubedrill.Shared.Results.{Result, ok, err}
use kubedrill.Json.{Float64}
use kubedrill.Challenge.{Challenge}
use kubedrill.Session.{Session, Event}
use kubedrill.Loader.{load_dir}
use kubedrill.Store.Files.{World, Os}
use kubedrill.Store as Store
use kubedrill.Store.{Codec, load}
use kubedrill.Store.Sessions.{Sessions, Operation, Unchanged, IsPut, Step, view, stored}
use kubedrill.Store.Saving.{load-shows, load-same}
use kubedrill.Store.Refinement.{run-Step, IsPut-of_Step}
use kubedrill.Shared.Int.{add, int_lt}
use kubedrill.Store.Views.{HasOwnId}
use kubedrill.Verify.Score.{Scorecard, net_score}
use kubedrill.Engine.Attempts.{late_at, record_attempt}
use kubedrill.Engine.Verify.{
  Ports, Verified, update_attempts, log_verify, record_card, verify_connected, verify_challenge,
  verify_loaded, score_session, verify, note,
}

record_attempt-id :
    (card : Scorecard) (late : Bool) (at : ℕ) (st : Session)
    → (record_attempt card late at st).id ≡ st.id
unfolding record_attempt
record_attempt-id card late at st = refl

-- The session `st'` is `st` with one attempt more.
pub record Attempted (card : Scorecard) (late : Bool) (at : ℕ) (st st' : Session) : Type 0 where
  pub attempts :
      st'.attempts
      ≡ st.attempts
        ++ (record {
          n = add (length st.attempts) 1;
          at = at;
          score = net_score card;
          late = late;
          objectives = map (λ o. (o.id, o.passed)) card.objectives;
        })
          ∷ []
  pub best : st'.best_score ≡ (
      if not late && int_lt st.best_score (net_score card) then net_score card else st.best_score)
  pub phase : st'.phase ≡ (if card.all_passed then "verified" else st.phase)
  pub others :
      st' ≡ record st { attempts = st'.attempts; best_score = st'.best_score; phase = st'.phase }

record_attempt-Attempted :
    (card : Scorecard) (late : Bool) (at : ℕ) (st : Session)
    → Attempted card late at st (record_attempt card late at st)
unfolding record_attempt
record_attempt-Attempted card late at st = record {
  attempts = refl;
  best = refl;
  phase = refl;
  others = refl;
}

module _ (fl : Float64) {W : Type 0} (ports : Ports fl.Float W) (rounds : ℕ) (os : Os)
    (codec : Codec) where
  -- The sessions before, what a verify returned, and the sessions after: a scorecard comes with one
  -- attempt more in the session, and nothing else changes.
  abbrev pub Recorded : String → Sessions → Verified → Sessions → Type 0
  Recorded id s none s' = Unchanged s s'
  Recorded id s (some (err e)) s' = Unchanged s s'
  Recorded id s (some (ok (card, late))) s' =
      (st : Session) × (st' : Session) × (now : ℕ) × (at : ℕ) × (s id ≡ some st)
      × (late ≡ late_at st now)
      × Attempted card late at st st'
      × IsPut id (stored codec st') s s'

  -- The same, where the session has been put under the id that it has.
  abbrev RecordedAs : String → Sessions → Verified → Sessions → Type 0
  RecordedAs id s none s' = Unchanged s s'
  RecordedAs id s (some (err e)) s' = Unchanged s s'
  RecordedAs id s (some (ok (card, late))) s' =
      (st : Session) × (now : ℕ) × (at : ℕ) × (s id ≡ some st)
      × (late ≡ late_at st now)
      × IsPut st.id (stored codec (record_attempt card late at st)) s s'

  Recorded-of :
      (id : String) (s s' : Sessions) (r : Verified)
      → HasOwnId id s
      → RecordedAs id s r s'
      → Recorded id s r s'
  Recorded-of id s s' none own h = h
  Recorded-of id s s' (some (err e)) own h = h
  Recorded-of id s s' (some (ok (card, late))) own (st, now, at, seen, l, put) = (
    st,
    record_attempt card late at st,
    now,
    at,
    seen,
    l,
    record_attempt-Attempted card late at st,
    subst (λ i. IsPut i (stored codec (record_attempt card late at st)) s s') (own st seen) put,
  )

  -- The result and the files of a computation.
  abbrev RecordedBy : String → World → Verified × (W × World) → Type 0
  RecordedBy id f (r, (w, f')) = RecordedAs id (view codec f.disk) r (view codec f'.disk)

  log_verify-RecordedBy :
      (id : String) (st : Session) (card : Scorecard) (now at : ℕ) (f f' : World)
      (e : Option String) (w : W)
      → view codec f.disk id ≡ some st
      → Step codec
          (Operation.update id (update_attempts fl ports rounds os codec card (late_at st now) at))
          (view codec f.disk)
          e
          (view codec f'.disk)
      → RecordedBy id f (log_verify fl ports rounds os codec id card (late_at st now) e (w, f'))
  log_verify-RecordedBy id st card now at f f' (some e) w seen step = step
  log_verify-RecordedBy id st card now at f f' none w seen step =
      let new = record_attempt card (late_at st now) at st in
      let put =
        subst (λ i. IsPut i (stored codec new) (view codec f.disk) (view codec f'.disk))
          (record_attempt-id card (late_at st now) at st)
          (IsPut-of_Step codec id
            (update_attempts fl ports rounds os codec card (late_at st now) at) (view codec f.disk)
            (view codec f'.disk) st new seen refl step) in
      let ev : Event = record {
        at = 0;
        kind = "verify";
        note = note fl ports rounds os codec card (late_at st now);
      } in
      (
        st,
        now,
        at,
        seen,
        refl,
        (λ j. run-Step codec os (Operation.append_event (ports.api.now w).0 id ev) f' j ∙ put j),
      )

  record_card-RecordedBy :
      (id : String) (st : Session) (card : Option Scorecard) (w : W) (f : World)
      → view codec f.disk id ≡ some st
      → RecordedBy id f (record_card fl ports rounds os codec id st card (w, f))
  record_card-RecordedBy id st none w f seen = λ j. refl
  record_card-RecordedBy id st (some card) w f seen =
      log_verify-RecordedBy id st card now at f (Store.update os codec id change f).1
        (Store.update os codec id change f).0 w'' seen
        (run-Step codec os (Operation.update id change) f)
    where
      now : ℕ
      now = (ports.api.now w).0

      at : ℕ
      at = (ports.api.now (ports.api.now w).1).0

      w'' : W
      w'' = (ports.api.now (ports.api.now w).1).1

      change : Session → Result Session
      change = update_attempts fl ports rounds os codec card (late_at st now) at

  verify_connected-RecordedBy :
      (id : String) (st : Session) (ch : Challenge) (e : Option String) (w : W) (f : World)
      → view codec f.disk id ≡ some st
      → RecordedBy id f (verify_connected fl ports rounds os codec id st ch e (w, f))
  verify_connected-RecordedBy id st ch (some e) w f seen = λ j. refl
  verify_connected-RecordedBy id st ch none w f seen =
      record_card-RecordedBy id st (score_session fl ports rounds id st ch w).0
        (score_session fl ports rounds id st ch w).1 f seen

  verify_challenge-RecordedBy :
      (id : String) (st : Session) (r : Result Challenge) (w : W) (f : World)
      → view codec f.disk id ≡ some st
      → RecordedBy id f (verify_challenge fl ports rounds os codec id st r (w, f))
  verify_challenge-RecordedBy id st (err e) w f seen = λ j. refl
  verify_challenge-RecordedBy id st (ok ch) w f seen =
      verify_connected-RecordedBy id st ch (ports.connect id w).0 (ports.connect id w).1 f seen

  verify_loaded-RecordedBy :
      (id : String) (r : Result Session) (w : W) (f : World)
      → ((st : Session) → r ≡ ok st → view codec f.disk id ≡ some st)
      → RecordedBy id f (verify_loaded fl ports rounds os codec id r (w, f))
  verify_loaded-RecordedBy id (err e) w f loaded = λ j. refl
  verify_loaded-RecordedBy id (ok st) w f loaded =
      verify_challenge-RecordedBy id st (load_dir ports.library st.challenge_dir) w f
        (loaded st refl)

  verify-RecordedAs :
      (id : String) (w : W) (f : World)
      → RecordedAs id
          (view codec f.disk)
          (verify fl ports rounds os codec id (w, f)).0
          (view codec (verify fl ports rounds os codec id (w, f)).1.1.disk)
  unfolding verify
  verify-RecordedAs id w f =
      subst (λ d. RecordedAs id (view codec d) verified (view codec after.disk))
        (load-same codec os id f)
        (verify_loaded-RecordedBy id r w f' (λ st e.
          ap (λ d. view codec d id) (load-same codec os id f) ∙ load-shows codec os id f st e))
    where
      r : Result Session
      r = (load os codec id f).0

      f' : World
      f' = (load os codec id f).1

      after : World
      after = (verify_loaded fl ports rounds os codec id r (w, f')).1.1

      verified : Verified
      verified = (verify_loaded fl ports rounds os codec id r (w, f')).0

  -- Where the session in the store has the id under which it is: a verify that returns a scorecard has
  -- put one attempt more into the session, as it is in the store: at its end, with the next number, the
  -- net score, the outcomes, and the lateness that the verify returns; the best score is raised by an
  -- attempt in time, and the phase is verified if all objectives passed. A verify that returns an error,
  -- whatever fails, has changed no session. No verify changes another session.
  pub verify-Recorded :
      (id : String) (w : W) (f : World)
      → HasOwnId id (view codec f.disk)
      → Recorded id
          (view codec f.disk)
          (verify fl ports rounds os codec id (w, f)).0
          (view codec (verify fl ports rounds os codec id (w, f)).1.1.disk)
  verify-Recorded id w f own =
      Recorded-of id (view codec f.disk)
        (view codec (verify fl ports rounds os codec id (w, f)).1.1.disk)
        (verify fl ports rounds os codec id (w, f)).0 own (verify-RecordedAs id w f)

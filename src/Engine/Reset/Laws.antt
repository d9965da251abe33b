-- ===== src/Engine/Reset/Laws.antt =====
-- What a reset leaves in the session store, and of the cluster.
use kubedrill.Shared.{
  [], ℕ, String, Bool, true, false, Option, none, some, ◌≡◌, refl, ap, ◌∙◌, subst, if◌then◌else◌,
  ◌⧺◌,
}
use kubedrill.Shared.Results.{Result, ok, err}
use kubedrill.Json.{Float64}
use kubedrill.Challenge.{Challenge}
use kubedrill.Session.{Session, Event}
use kubedrill.Loader.{load_dir}
use kubedrill.Store.Files.{World, Os}
use kubedrill.Store as Store
use kubedrill.Store.{Codec, load}
use kubedrill.Store.Sessions.{Sessions, Operation, Unchanged, IsPut, Step, view, stored}
use kubedrill.Store.Saving.{load-shows, load-same}
use kubedrill.Store.Views.{HasOwnId}
use kubedrill.Store.Refinement.{run-Step, IsPut-of_Step}
use kubedrill.Provision.{apply, Finish, done, unfinished, failing}
use kubedrill.Provision.Reset as Provision
use kubedrill.Engine.Start.{Wiring, from_now, duration_or_zero}
use kubedrill.Engine.Reset.{
  ResetOpts, Did, show_bool, resumed, update_resumed, hard_reset, hard_request, hard_connected,
  hard_provisioned, hard_loaded, hard_destroyed, log_reset, resume, after_hard, reset_hard,
  after_fast, reset_connected, reset_fast, reset_challenge, reset_loaded, reset_session,
}

module _ (fl : Float64) {W : Type 0} (wiring : Wiring fl.Float W) (os : Os) (codec : Codec) where
  -- From the world `u` on: the cluster was destroyed, a new one was provisioned, the engine was
  -- connected to it and the setup was applied to it, each without an error.
  pub record Rebuilt (id dir : String) (ch : Challenge) (u : W) : Type 0 where
    pub destroyed : (wiring.provider.destroy id u).0 ≡ none
    pub provisioned :
        (wiring.provider.provision
          (hard_request fl wiring id ch)
          (wiring.provider.destroy id u).1).0
        ≡ none
    pub connected :
        (wiring.provider.connect_engine id
          (wiring.provider.provision
            (hard_request fl wiring id ch)
            (wiring.provider.destroy id u).1).1).0
        ≡ none
    pub applied :
        (apply fl wiring.api wiring.texts wiring.writes dir ch
          (wiring.provider.connect_engine id
            (wiring.provider.provision
              (hard_request fl wiring id ch)
              (wiring.provider.destroy id u).1).1).1).0
        ≡ done

  hard_reset-Rebuilt :
      (id dir : String) (ch : Challenge) (u : W)
      → load_dir wiring.library dir ≡ ok ch
      → (hard_reset fl wiring id dir u).0 ≡ done
      → Rebuilt id dir ch u
  unfolding hard_reset
  hard_reset-Rebuilt id dir ch u loaded h = destroying (wiring.provider.destroy id u).0 refl h
    where
      u₁ : W
      u₁ = (wiring.provider.destroy id u).1

      made : Option String × W
      made = wiring.provider.provision (hard_request fl wiring id ch) u₁

      joined : Option String × W
      joined = wiring.provider.connect_engine id made.1

      connecting :
          (e : Option String)
          → joined.0 ≡ e
          → (wiring.provider.destroy id u).0 ≡ none
          → made.0 ≡ none
          → (hard_connected fl wiring dir ch e joined.1).0 ≡ done
          → Rebuilt id dir ch u
      connecting (some t) k d p h = cc
      connecting none k d p h = record {
        destroyed = d;
        provisioned = p;
        connected = k;
        applied = h;
      }

      provisioning :
          (e : Option String)
          → made.0 ≡ e
          → (wiring.provider.destroy id u).0 ≡ none
          → (hard_provisioned fl wiring id dir ch e made.1).0 ≡ done
          → Rebuilt id dir ch u
      provisioning (some t) p d h = cc
      provisioning none p d h = connecting joined.0 refl d p h

      loading :
          (r : Result Challenge)
          → r ≡ ok ch
          → (hard_loaded fl wiring id dir r u₁).0 ≡ done
          → (hard_loaded fl wiring id dir (ok ch) u₁).0 ≡ done
      loading r e h = subst (λ r. (hard_loaded fl wiring id dir r u₁).0 ≡ done) e h

      destroying :
          (e : Option String)
          → (wiring.provider.destroy id u).0 ≡ e
          → (hard_destroyed fl wiring id dir e u₁).0 ≡ done
          → Rebuilt id dir ch u
      destroying (some t) d h = cc
      destroying none d h =
          provisioning made.0 refl d (loading (load_dir wiring.library dir) loaded h)

  -- How the environment came back: by a hard reset, or by a reset of the setup in place.
  abbrev Restored : String → String → Challenge → Bool → Type 0
  Restored id dir ch true = (u : W) × Rebuilt id dir ch u
  Restored id dir ch false =
      (u : W) × ((Provision.reset fl wiring.api wiring.texts wiring.writes dir ch u).0 ≡ done)

  -- The deadline that the options ask for: from the time in the world `w`, if they restart the clock
  -- and the challenge has a time limit that is one.
  abbrev pub new_deadline : ResetOpts → Challenge → W → Option ℕ
  new_deadline opts ch w =
      (from_now wiring.api
        (if opts.clock
          then duration_or_zero wiring.api.parse_duration ch.metadata.time_limit
          else none)
        w).0

  -- The sessions before, what a reset returned, and the sessions after: without an error the
  -- session is back at running, with the deadline and the hints that the options ask for.
  abbrev pub Resumed : String → ResetOpts → Sessions → Did → Sessions → Type 0
  Resumed id opts s none s' = Unchanged s s'
  Resumed id opts s (some (did_hard, some e)) s' = Unchanged s s'
  Resumed id opts s (some (did_hard, none)) s' =
      (st : Session) × (ch : Challenge) × (w : W) × (s id ≡ some st)
      × (load_dir wiring.library st.challenge_dir ≡ ok ch)
      × Restored id st.challenge_dir ch did_hard
      × IsPut id
          (stored codec (record st {
            phase = "running";
            deadline = elim (new_deadline opts ch w) [ none ↦ st.deadline | some t ↦ some t ];
            hints_used = if opts.hints then [] else st.hints_used;
          }))
          s s'

  -- The same, where the session has been put under the id that it has.
  abbrev ResumedAs : String → ResetOpts → Sessions → Did → Sessions → Type 0
  ResumedAs id opts s none s' = Unchanged s s'
  ResumedAs id opts s (some (did_hard, some e)) s' = Unchanged s s'
  ResumedAs id opts s (some (did_hard, none)) s' =
      (st : Session) × (ch : Challenge) × (w : W) × (s id ≡ some st)
      × (load_dir wiring.library st.challenge_dir ≡ ok ch)
      × Restored id st.challenge_dir ch did_hard
      × IsPut st.id
          (stored codec (
            resumed opts
              (from_now wiring.api
                (if opts.clock
                  then duration_or_zero wiring.api.parse_duration ch.metadata.time_limit
                  else none)
                w).0
              st))
          s s'

  Resumed-of :
      (id : String) (opts : ResetOpts) (s s' : Sessions) (r : Did)
      → HasOwnId id s
      → ResumedAs id opts s r s'
      → Resumed id opts s r s'
  Resumed-of id opts s s' none own h = h
  Resumed-of id opts s s' (some (did_hard, some e)) own h = h
  Resumed-of id opts s s' (some (did_hard, none)) own (st, ch, w, seen, l, restored, put) = (
    st,
    ch,
    w,
    seen,
    l,
    restored,
    subst (λ i. IsPut i (stored codec (resumed opts (new_deadline opts ch w) st)) s s')
        (own st seen) put,
  )

  abbrev ResumedBy : String → ResetOpts → World → Did × (W × World) → Type 0
  ResumedBy id opts f (r, (w, f')) = ResumedAs id opts (view codec f.disk) r (view codec f'.disk)

  module _ (id : String) (opts : ResetOpts) (st : Session) (f : World)
      (seen : view codec f.disk id ≡ some st) (ch : Challenge)
      (loaded : load_dir wiring.library st.challenge_dir ≡ ok ch) where
    resume-ResumedBy :
        (did_hard : Bool) (w : W)
        → Restored id st.challenge_dir ch did_hard
        → ResumedBy id opts f (resume fl wiring os codec id opts ch did_hard (w, f))
    resume-ResumedBy did_hard w restored =
        either (Store.update os codec id mutate f).0
          (run-Step codec os (Operation.update id mutate) f)
      where
        timed : Option ℕ × W
        timed =
            from_now wiring.api
              (if opts.clock
                then duration_or_zero wiring.api.parse_duration ch.metadata.time_limit
                else none)
              w

        mutate : Session → Result Session
        mutate = update_resumed opts timed.0

        f' : World
        f' = (Store.update os codec id mutate f).1

        either :
            (e : Option String)
            → Step codec (Operation.update id mutate) (view codec f.disk) e (view codec f'.disk)
            → ResumedBy id opts f (log_reset fl wiring os codec id opts did_hard e (timed.1, f'))
        either (some e) step = step
        either none step =
            let put =
              IsPut-of_Step codec id mutate (view codec f.disk) (view codec f'.disk) st
                (resumed opts timed.0 st) seen refl step in
            let ev : Event = record {
              at = 0;
              kind = "reset";
              note =
                  "hard="
                  ⧺ show_bool did_hard
                  ⧺ " clock="
                  ⧺ show_bool opts.clock
                  ⧺ " hints="
                  ⧺ show_bool opts.hints;
            } in
            (
              st,
              ch,
              w,
              seen,
              loaded,
              restored,
              (λ j.
                  run-Step codec os (Operation.append_event (wiring.api.now timed.1).0 id ev) f' j
                  ∙ put j),
            )

    reset_hard-ResumedBy :
        (w : W)
        → ResumedBy id opts f (reset_hard fl wiring os codec id st.challenge_dir opts ch (w, f))
    reset_hard-ResumedBy w =
        either (hard_reset fl wiring id st.challenge_dir w).0
          (hard_reset fl wiring id st.challenge_dir w).1 refl
      where
        either :
            (r : Finish) (w' : W)
            → (hard_reset fl wiring id st.challenge_dir w).0 ≡ r
            → ResumedBy id opts f (after_hard fl wiring os codec id opts ch r (w', f))
        either unfinished w' h = λ j. refl
        either (failing e) w' h = λ j. refl
        either done w' h =
            resume-ResumedBy true w' (w, hard_reset-Rebuilt id st.challenge_dir ch w loaded h)

    reset_connected-ResumedBy :
        (e : Option String) (w : W)
        → ResumedBy id opts f
            (reset_connected fl wiring os codec id st.challenge_dir opts ch e (w, f))
    reset_connected-ResumedBy (some e) w = λ j. refl
    reset_connected-ResumedBy none w = either restored.0 restored.1 refl
      where
        restored : Finish × W
        restored = Provision.reset fl wiring.api wiring.texts wiring.writes st.challenge_dir ch w

        either :
            (r : Finish) (w' : W)
            → restored.0 ≡ r
            → ResumedBy id opts f
                (after_fast fl wiring os codec id st.challenge_dir opts ch r (w', f))
        either unfinished w' h = λ j. refl
        either (failing e) w' h = reset_hard-ResumedBy w'
        either done w' h = resume-ResumedBy false w' (w, h)

    reset_fast-ResumedBy :
        (w : W)
        → ResumedBy id opts f (reset_fast fl wiring os codec id st.challenge_dir opts ch (w, f))
    reset_fast-ResumedBy w =
        reset_connected-ResumedBy (wiring.connect id w).0 (wiring.connect id w).1

  reset_challenge-ResumedBy :
      (id : String) (opts : ResetOpts) (st : Session) (r : Result Challenge) (w : W) (f : World)
      → view codec f.disk id ≡ some st
      → load_dir wiring.library st.challenge_dir ≡ r
      → ResumedBy id opts f (reset_challenge fl wiring os codec id st.challenge_dir opts r (w, f))
  reset_challenge-ResumedBy id opts st (err e) w f seen loaded = λ j. refl
  reset_challenge-ResumedBy id opts st (ok ch) w f seen loaded = either opts.hard
    where
      either :
          (b : Bool)
          → ResumedBy id opts f (
              (if b
                  then reset_hard fl wiring os codec id st.challenge_dir opts ch
                  else reset_fast fl wiring os codec id st.challenge_dir opts ch)
                (w, f))
      either true = reset_hard-ResumedBy id opts st f seen ch loaded w
      either false = reset_fast-ResumedBy id opts st f seen ch loaded w

  reset_loaded-ResumedBy :
      (id : String) (opts : ResetOpts) (r : Result Session) (w : W) (f : World)
      → ((st : Session) → r ≡ ok st → view codec f.disk id ≡ some st)
      → ResumedBy id opts f (reset_loaded fl wiring os codec id opts r (w, f))
  reset_loaded-ResumedBy id opts (err e) w f loaded = λ j. refl
  reset_loaded-ResumedBy id opts (ok st) w f loaded =
      reset_challenge-ResumedBy id opts st (load_dir wiring.library st.challenge_dir) w f
        (loaded st refl) refl

  reset_session-ResumedAs :
      (id : String) (opts : ResetOpts) (w : W) (f : World)
      → ResumedAs id opts
          (view codec f.disk)
          (reset_session fl wiring os codec id opts (w, f)).0
          (view codec (reset_session fl wiring os codec id opts (w, f)).1.1.disk)
  unfolding reset_session
  reset_session-ResumedAs id opts w f =
      subst (λ d. ResumedAs id opts (view codec d) result (view codec after.disk))
        (load-same codec os id f)
        (reset_loaded-ResumedBy id opts r w f' (λ st e.
          ap (λ d. view codec d id) (load-same codec os id f) ∙ load-shows codec os id f st e))
    where
      r : Result Session
      r = (load os codec id f).0

      f' : World
      f' = (load os codec id f).1

      after : World
      after = (reset_loaded fl wiring os codec id opts r (w, f')).1.1

      result : Did
      result = (reset_loaded fl wiring os codec id opts r (w, f')).0

  -- Where the session in the store has the id under which it is: a reset without an error has restored
  -- the environment, in place or by recreating the cluster as it reports, and has put the session, as it
  -- was in the store, back to running, with a new deadline and without its hints if the options ask for
  -- it, and else unchanged. A reset with an error, whatever fails, has changed no session. No reset
  -- changes another session.
  pub reset_session-Resumed :
      (id : String) (opts : ResetOpts) (w : W) (f : World)
      → HasOwnId id (view codec f.disk)
      → Resumed id opts
          (view codec f.disk)
          (reset_session fl wiring os codec id opts (w, f)).0
          (view codec (reset_session fl wiring os codec id opts (w, f)).1.1.disk)
  reset_session-Resumed id opts w f own =
      Resumed-of id opts (view codec f.disk)
        (view codec (reset_session fl wiring os codec id opts (w, f)).1.1.disk)
        (reset_session fl wiring os codec id opts (w, f)).0 own
        (reset_session-ResumedAs id opts w f)

-- ===== src/Engine/Start/Halts.antt =====
-- How a start can end, and the ends that it has when it fails.
use kubedrill.Shared.{[], ◌⧺◌, ◌==◌, false, ◌∙◌, ℕ, String, Option, none, some, List, ◌≡◌, refl}
use kubedrill.Shared.Results.{Result, ok, err}
use kubedrill.Json.{Float64}
use kubedrill.Challenge.{Challenge}
use kubedrill.Session.{Session}
use kubedrill.Loader.{load_dir}
use kubedrill.Store.Files.{World, Os}
use kubedrill.Store as Store
use kubedrill.Store.{Codec, filled, load}
use kubedrill.Store.Sessions.{Sessions, Operation, Unchanged, IsPut, Step, view, stored}
use kubedrill.Store.Refinement.{run-Step}
use kubedrill.Store.Views.{
  Others, Others-of_IsPut, Others-trans, IsPut-Unchanged, IsPut-self, Unchanged-of_Others,
  update-Others,
}
use kubedrill.Provision.{done, apply}
use kubedrill.Engine.Guardrails.{apply_enforcement}
use kubedrill.Engine.Start.{Wiring, Begun, compute_deadline, mark_failed, fail_start}

module _ (fl : Float64) {W : Type 0} (wiring : Wiring fl.Float W) (os : Os) (codec : Codec) where
  -- How a start without a session ends: before anything was made; after everything was torn down,
  -- where the last call to the cluster destroys it and the last one to the store removes the session;
  -- or with the session there, where the update that arms the timer failed.
  pub data Halted (id : String) (s : Sessions) (out : W × World) : Type 0 where
    refused : Unchanged s (view codec out.1.disk) → Halted id s out
    torn_down :
        (w : W) (f : World)
        → out.0 ≡ (wiring.provider.destroy id w).1
        → out.1 ≡ (Store.remove os codec id f).1
        → Others id s (view codec out.1.disk)
        → ((Store.remove os codec id f).0 ≡ none → Unchanged s (view codec out.1.disk))
        → Halted id s out
    unarmed :
        (st : Session)
        → s id ≡ none
        → IsPut id (some st) s (view codec out.1.disk)
        → Halted id s out

  -- The session that was recorded for a challenge, as it is read back.
  abbrev pub Recorded : String → String → Challenge → Session → Type 0
  Recorded dir id ch st =
      (d : Option ℕ) × (now : ℕ) × (stored codec (
          filled now (record {
            schema_version = 0;
            id = id;
            challenge = record { name = ch.metadata.name; version = ch.metadata.version };
            challenge_dir = wiring.absolute dir;
            provider = wiring.provider.name;
            cluster = "kubedrill-" ⧺ id;
            phase = "creating";
            started_at = 0;
            deadline = d;
            hints_used = [];
            attempts = [];
            best_score = 0;
            labels = [];
            enforced_policies = [];
          }))
        ≡ some st)

  -- What a start returned, and the sessions before and after: a start out of rounds has changed no
  -- other session; one that failed is halted; one that succeeded has put the session.
  abbrev pub Started : String → String → Sessions → Begun × (W × World) → Type 0
  Started dir id s (none, out) = Others id s (view codec out.1.disk)
  Started dir id s (some (err e), out) = Halted id s out
  Started dir id s (some (ok res), out) =
      (st : Session) × (d : Option ℕ) × (enforced : List String) × (u v w : W) × (load_dir
          wiring.library dir
        ≡ ok res.challenge)
      × (s id ≡ none)
      × Recorded dir id res.challenge st
      × ((apply fl wiring.api wiring.texts wiring.writes dir res.challenge u).0 ≡ done)
      × ((apply_enforcement wiring.api wiring.writes wiring.admission res.challenge v).0
          ≡ some (ok enforced))
      × ((compute_deadline wiring.api res.challenge.metadata.time_limit w).0 ≡ d)
      × IsPut id
          (stored codec (record st {
            phase = "running";
            deadline = elim d [ none ↦ st.deadline | some t ↦ some t ];
            enforced_policies = enforced;
          }))
          s (view codec out.1.disk)

  module _ (dir id : String) (s : Sessions) where
    -- The session was not there, and is now as it was recorded.
    abbrev pub Made : Session → World → Type 0
    Made st f =
        ((s id ≡ none) × ((id == "") ≡ false))
        × ((st.id ≡ id) × IsPut id (some st) s (view codec f.disk))

    pub Made-Unchanged :
        (st : Session) (f f' : World)
        → Made st f
        → Unchanged (view codec f.disk) (view codec f'.disk)
        → Made st f'
    Made-Unchanged st f f' (was, (same, put)) h =
        (was, (same, IsPut-Unchanged id (some st) s (view codec f.disk) (view codec f'.disk) put h))

    IsPut-of_removal :
        (t u : Sessions)
        → (id == "") ≡ false
        → Step codec (Operation.remove id) t none u
        → IsPut id none t u
    IsPut-of_removal t u named step j = step j ∙ rw named refl

    -- A removal without an error, after changes of the session alone.
    removed-Unchanged :
        (t u : Sessions) (e : Option String)
        → s id ≡ none
        → (id == "") ≡ false
        → Others id s t
        → Step codec (Operation.remove id) t e u
        → e ≡ none
        → Unchanged s u
    removed-Unchanged t u none was named others step h =
        Unchanged-of_Others id none s t u was others (IsPut-of_removal t u named step)
    removed-Unchanged t u (some e) was named others step h = cc

    remove-Others :
        (t u : Sessions) (e : Option String)
        → (id == "") ≡ false
        → Step codec (Operation.remove id) t e u
        → Others id t u
    remove-Others t u none named step =
        Others-of_IsPut id none t u (IsPut-of_removal t u named step)
    remove-Others t u (some e) named step = λ j. step j named

    pub fail_start-Started :
        (st : Session) (w : W) (f : World) (cause : String)
        → Made st f
        → Started dir id s (fail_start fl wiring os codec id cause (w, f))
    fail_start-Started st w f cause ((was, named), (same, put)) =
        torn_down w marked refl refl
          (Others-trans id s (view codec marked.disk) (view codec removed.disk) others (
            remove-Others (view codec marked.disk) (view codec removed.disk)
              (Store.remove os codec id marked).0 named step))
          (removed-Unchanged (view codec marked.disk) (view codec removed.disk)
            (Store.remove os codec id marked).0 was named others step)
      where
        mutate : Session → Result Session
        mutate = mark_failed fl wiring os codec

        marked : World
        marked = (Store.update os codec id mutate f).1

        removed : World
        removed = (Store.remove os codec id marked).1

        step :
            Step codec
              (Operation.remove id)
              (view codec marked.disk)
              (Store.remove os codec id marked).0
              (view codec removed.disk)
        step = run-Step codec os (Operation.remove id) marked

        others : Others id s (view codec marked.disk)
        others =
            Others-trans id s (view codec f.disk) (view codec marked.disk)
              (Others-of_IsPut id (some st) s (view codec f.disk) put)
              (update-Others codec id mutate (view codec f.disk) (view codec marked.disk) st
                (record st { phase = "failed" }) (IsPut-self id (some st) s (view codec f.disk) put)
                refl same (Store.update os codec id mutate f).0
                (run-Step codec os (Operation.update id mutate) f))

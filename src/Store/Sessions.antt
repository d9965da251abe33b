-- ===== src/Store/Sessions.antt =====
-- What a store of sessions promises: a map from ids to sessions, and what each operation does to it.
use kubedrill.Shared.{
  false, ℕ, String, Option, none, some, List, [], ◌∷◌, ◌==◌, ◌≡◌, ◌≢◌, if◌then◌else◌,
}
use kubedrill.Shared.State.{M, pure, ◌>>=◌}
use kubedrill.Shared.Results.{Result, ok, err}
use kubedrill.Session.{Session, Event}
use kubedrill.Store.Files.{Disk, World, Os, state_file}
use kubedrill.Store as Store
use kubedrill.Store.{Codec, filled}

abbrev pub Sessions : Type 0
Sessions = String → Option Session

pub data Operation : Type 0 where
  create : ℕ → Session → Operation
  update : String → (Session → Result Session) → Operation
  append_event : ℕ → String → Event → Operation
  remove : String → Operation
  set_current : String → Operation

abbrev pub Unchanged : Sessions → Sessions → Type 0
Unchanged s s' = (j : String) → s' j ≡ s j

abbrev pub IsPut : String → Option Session → Sessions → Sessions → Type 0
IsPut id v s s' = (j : String) → s' j ≡ (if id == j then v else s j)

-- What a removal of `id` leaves of the session `j`.
abbrev pub gone_or : String → String → Option Session → Option Session
gone_or id j o = if id == "" then none else if id == j then none else o

abbrev pub answer_of : {A : Type 0} → Result A → Option A
answer_of (ok a) = some a
answer_of (err e) = none

module _ (codec : Codec) where
  -- The session that a file shows, if there is one and it can be read.
  abbrev pub shown : Option String → Option Session
  shown none = none
  shown (some text) = answer_of (codec.decode text)

  abbrev pub view : Disk → Sessions
  view d id = shown (state_file id d)

  -- What is read back of a session that was written.
  abbrev pub stored : Session → Option Session
  stored st = shown (answer_of (codec.encode st))

  -- The sessions before, the error, and the sessions after. An operation with an error changes
  -- nothing, but that a removal may have removed a part of its session. A blank id is no session's: a
  -- removal of it removes all sessions, or, with an error, any part of them.
  abbrev pub Step : Operation → Sessions → Option String → Sessions → Type 0
  Step (create now st) s none s' =
      ((st.id == "") ≡ false) × IsPut st.id (stored (filled now st)) s s'
  Step (create now st) s (some e) s' = Unchanged s s'
  Step (update id mutate) s none s' =
      (st st' : Session) × (s id ≡ some st) × (mutate st ≡ ok st') × IsPut st'.id (stored st') s s'
  Step (update id mutate) s (some e) s' = Unchanged s s'
  Step (append_event now id ev) s e s' = Unchanged s s'
  Step (remove id) s none s' = (j : String) → s' j ≡ gone_or id j (s j)
  Step (remove id) s (some e) s' = (j : String) → (id == "") ≡ false → (id ≢ j) → s' j ≡ s j
  Step (set_current id) s e s' = Unchanged s s'

  abbrev pub Runs : List Operation → Sessions → List (Option String) → Sessions → Type 0
  Runs [] s [] s' = Unchanged s s'
  Runs (op ∷ ops) s (e ∷ es) s' =
      (between : Sessions) × Step op s e between × Runs ops between es s'
  Runs _ _ _ _ = ⊥

  module _ (os : Os) where
    -- The operations of the program.
    abbrev pub run : Operation → M World (Option String)
    run (create now st) = Store.create os codec now st
    run (update id mutate) = Store.update os codec id mutate
    run (append_event now id ev) = Store.append_event os codec now id ev
    run (remove id) = Store.remove os codec id
    run (set_current id) = Store.set_current os codec id

    abbrev pub run_all : List Operation → M World (List (Option String))
    run_all [] = pure []
    run_all (op ∷ ops) = do e ← run op; es ← run_all ops; pure (e ∷ es)

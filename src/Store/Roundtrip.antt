-- ===== src/Store/Roundtrip.antt =====
-- A session that was written is read back, where no call fails.
use kubedrill.Shared.{
  ℕ, String, false, Option, none, some, ◌==◌, ◌≡◌, ◌≢◌, refl, sym, ap, ◌∙◌, subst, eq_iff, inl, inr,
  Option-cases, Bool-cases,
}
use kubedrill.Shared.State.{M, pure}
use kubedrill.Shared.Results.{Result, ok, err}
use kubedrill.Session.{Session}
use kubedrill.Store.Files.{
  tick, Folder, World, Os, state_file, exists, lookup, no_folder, file_of, make_folder, attempt,
  in_folder, then_or, read,
}
use kubedrill.Store.Folders.{then_or_rule, lookup-put, Same-in_folder}
use kubedrill.Store.{
  Codec, filled, add_temp, fill_temp, commit, failing, discard, close_and_discard, rename_temp,
  close_temp, write_temp, write_text, write_state, load, read_back, parsed_state, create, update,
  update_locked, update_loaded,
}
use kubedrill.Store.Sessions.{Operation, Step, view, shown, answer_of, stored}
use kubedrill.Store.Refinement.{run-Step}
use kubedrill.Store.Saving.{load-same, load-shows, Unchanged-of_Same}

-- No call fails.
abbrev pub IsHealthy : Os → Type 0
IsHealthy os = (n : ℕ) → os.refuses n ≡ none

abbrev pub HasFolder : String → World → Type 0
HasFolder id w = (f : Folder) × (lookup id w.disk.folders ≡ some f)

-- With the directory there, a computation has no error and leaves it there.
abbrev Succeeds : String → M World (Option String) → Type 0
Succeeds id m = (w : World) → HasFolder id w → ((m w).0 ≡ none) × HasFolder id (m w).1

pub none≢some : {A : Type 0} {t : A} → none ≢ some t
none≢some e = cc

then_or-none :
    (m : M World (Option String)) (on_error : String → M World (Option String))
    (rest : M World (Option String)) (w : World)
    → (m w).0 ≡ none
    → (rest (m w).1).0 ≡ none
    → (then_or m on_error rest w).0 ≡ none
then_or-none m on_error rest w fine fine' =
    then_or_rule (λ r. r.0 ≡ none) m on_error rest w (λ _. fine')
      (λ t e. absurd (none≢some (sym fine ∙ e)))

Succeeds-then_or :
    (id : String) (m : M World (Option String)) (on_error : String → M World (Option String))
    (rest : M World (Option String))
    → Succeeds id m
    → Succeeds id rest
    → Succeeds id (then_or m on_error rest)
Succeeds-then_or id m on_error rest s_m s_rest w has =
    let (fine, has') = s_m w has in
    then_or_rule (λ r. (r.0 ≡ none) × HasFolder id r.1) m on_error rest w (λ _. s_rest (m w).1 has')
      (λ t e. absurd (none≢some (sym fine ∙ e)))

module _ (codec : Codec) (os : Os) (healthy : IsHealthy os) where
  Succeeds-in_folder :
      (id : String) (change : Folder → Folder) → Succeeds id (in_folder os id change)
  Succeeds-in_folder id change w (f, l) =
      rw (healthy w.calls, in_folder)
        (rw l (
          refl,
          (change f, lookup-put id id (change f) w.disk.folders ∙ rw ((eq_iff id id).1 refl) refl),
        ))

  Succeeds-close : (id : String) → Succeeds id (attempt os (λ d. d))
  Succeeds-close id w has = rw (healthy w.calls, attempt) (refl, has)

  Succeeds-write_text : (id text : String) → Succeeds id (write_text os codec id text)
  Succeeds-write_text id text =
      Succeeds-then_or id (in_folder os id add_temp) (failing os codec "store: temp state: ")
        (write_temp os codec id text) (Succeeds-in_folder id add_temp)
        (Succeeds-then_or id (in_folder os id (fill_temp text))
          (close_and_discard os codec id "store: write state: ") (close_temp os codec id)
          (Succeeds-in_folder id (fill_temp text))
          (Succeeds-then_or id (attempt os (λ d. d)) (discard os codec id "store: close state: ")
            (rename_temp os codec id) (Succeeds-close id)
            (Succeeds-then_or id (in_folder os id commit)
              (discard os codec id "store: commit state: ") (pure none)
              (Succeeds-in_folder id commit) (λ w has. (refl, has)))))

  -- Without failing calls, what is in view is loaded.
  pub load-of_view :
      (id : String) (w : World) (st : Session)
      → view codec w.disk id ≡ some st
      → (load os codec id w).0 ≡ ok st
  unfolding load
  load-of_view id w st h = rw (healthy w.calls, read) (found (state_file id w.disk) h)
    where
      decoded : (r : Result Session) → answer_of r ≡ some st → parsed_state os codec id r ≡ ok st
      decoded (ok s) h = cc
      decoded (err e) h = cc

      found : (o : Option String) → shown codec o ≡ some st → read_back os codec id (ok o) ≡ ok st
      found none h = cc
      found (some text) h = decoded (codec.decode text) h

  folder_of_view :
      (id : String) (w : World) (st : Session) → view codec w.disk id ≡ some st → HasFolder id w
  folder_of_view id w st h = elim (Option-cases (lookup id w.disk.folders)) [
    | inl l ↦ absurd (none≢some (ap (λ o. shown codec (file_of o)) (sym l) ∙ h))
    | inr (f, l) ↦ (f, l)
  ]

  stored-some :
      (st : Session) (text : String)
      → codec.encode st ≡ ok text
      → codec.decode text ≡ ok st
      → stored codec st ≡ some st
  stored-some st text e d = rw e (rw d refl)

  write_state-succeeds :
      (st : Session) (text : String) (w : World)
      → codec.encode st ≡ ok text
      → HasFolder st.id w
      → (write_state os codec st w).0 ≡ none
  unfolding write_state
  write_state-succeeds st text w e has = rw e ((Succeeds-write_text st.id text w has).0)

  -- The directory is there once it was made.
  made :
      (id : String) (w : World)
      → ((attempt os (make_folder id) w).0 ≡ none) × HasFolder id (attempt os (make_folder id) w).1
  made id w =
      rw (healthy w.calls, attempt)
        (elim (Option-cases (lookup id w.disk.folders)) [
          | inl l ↦ rw l (
            refl,
            (
              no_folder,
              lookup-put id id no_folder w.disk.folders ∙ rw ((eq_iff id id).1 refl) refl,
            ),
          )
          | inr (f, l) ↦ rw l (refl, (f, l))
        ])

  create-succeeds :
      (now : ℕ) (st : Session) (text : String) (w : World)
      → st.id ≢ ""
      → exists st.id w.disk ≡ false
      → codec.encode (filled now st) ≡ ok text
      → (create os codec now st w).0 ≡ none
  unfolding create
  create-succeeds now st text w named fresh e = elim (Bool-cases (st.id == "")) [
    | inl blank ↦ absurd (named ((eq_iff st.id "").0 blank))
    | inr b ↦ rw b (
        rw (healthy w.calls, read)
          (rw fresh (
            then_or-none (attempt os (make_folder st.id))
              (failing os codec "store: create session dir: ")
              (write_state os codec (filled now st)) (tick (λ d. d) w)
              (made st.id (tick (λ d. d) w)).0
              (write_state-succeeds (filled now st) text
                (attempt os (make_folder st.id) (tick (λ d. d) w)).1 e
                (made st.id (tick (λ d. d) w)).1))))
  ]

  -- A session that is created under an id that has no directory, and whose JSON form can be read
  -- back, is created, and then loaded as it was, with the version and the time filled in.
  pub create-load :
      (now : ℕ) (st : Session) (text : String) (w : World)
      → st.id ≢ ""
      → exists st.id w.disk ≡ false
      → codec.encode (filled now st) ≡ ok text
      → codec.decode text ≡ ok (filled now st)
      → ((create os codec now st w).0 ≡ none)
        × ((load os codec st.id (create os codec now st w).1).0 ≡ ok (filled now st))
  create-load now st text w named fresh e d =
      let fine = create-succeeds now st text w named fresh e in
      let (_, step) =
        subst
          (λ r.
            Step codec (Operation.create now st) (view codec w.disk) r
              (view codec (create os codec now st w).1.disk))
          fine (run-Step codec os (Operation.create now st) w) in
      (
        fine,
        load-of_view st.id (create os codec now st w).1 (filled now st)
            (step st.id ∙ rw ((eq_iff st.id st.id).1 refl) (stored-some (filled now st) text e d)),
      )

  update-succeeds :
      (id text : String) (mutate : Session → Result Session) (st st' : Session) (w : World)
      → view codec w.disk id ≡ some st
      → mutate st ≡ ok st'
      → st'.id ≡ id
      → codec.encode st' ≡ ok text
      → (update os codec id mutate w).0 ≡ none
  unfolding update update_locked
  update-succeeds id text mutate st st' w seen mutated same_id e =
      let (fine, has) = Succeeds-in_folder id (λ f. f) w (folder_of_view id w st seen) in
      then_or-none (in_folder os id (λ f. f)) (failing os codec _)
        (update_locked os codec id mutate) w fine
        (wrote (load os codec id (locked w).1).0 (load os codec id (locked w).1).1
          (load-of_view id (locked w).1 st (
            Unchanged-of_Same codec w.disk (locked w).1.disk
              (Same-in_folder os id (λ f. f) (λ f. refl) w) id
            ∙ seen))
          (subst (λ d. (f : Folder) × (lookup id d.folders ≡ some f))
            (sym (load-same codec os id (locked w).1)) has))
    where
      locked : M World (Option String)
      locked = in_folder os id (λ f. f)

      wrote :
          (r : Result Session) (w' : World)
          → r ≡ ok st
          → HasFolder id w'
          → (update_loaded os codec mutate r w').0 ≡ none
      wrote r w' loaded has = rw loaded (
          rw mutated
            (write_state-succeeds st' text w' e (subst (λ i. HasFolder i w') (sym same_id) has)))

  -- A mutation of a session in view that keeps its id, and whose result has a JSON form that can be
  -- read back, is carried out, and the session is then loaded as the mutation left it.
  pub update-load :
      (id text : String) (mutate : Session → Result Session) (st st' : Session) (w : World)
      → (load os codec id w).0 ≡ ok st
      → mutate st ≡ ok st'
      → st'.id ≡ id
      → codec.encode st' ≡ ok text
      → codec.decode text ≡ ok st'
      → ((update os codec id mutate w).0 ≡ none)
        × ((load os codec id (update os codec id mutate w).1).0 ≡ ok st')
  update-load id text mutate st st' w loaded mutated same_id e d =
      let seen = load-shows codec os id w st loaded in
      let fine = update-succeeds id text mutate st st' w seen mutated same_id e in
      let (s, s', was, became, step) =
        subst
          (λ r.
            Step codec (Operation.update id mutate) (view codec w.disk) r
              (view codec (update os codec id mutate w).1.disk))
          fine (run-Step codec os (Operation.update id mutate) w) in
      let is_new : s' ≡ st' = cc in
      (
        fine,
        load-of_view id (update os codec id mutate w).1 st'
            (step id ∙ rw is_new (rw ((eq_iff st'.id id).1 same_id) (stored-some st' text e d))),
      )

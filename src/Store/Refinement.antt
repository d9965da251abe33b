-- ===== src/Store/Refinement.antt =====
-- The operations on files refine the map from ids to sessions.
use kubedrill.Shared.{
  ◌⊎◌, ℕ, String, Bool, true, false, Option, none, some, List, [], ◌∷◌, ◌==◌, ◌≡◌, ◌≢◌, refl, sym,
  ap, ◌∙◌, subst, eq_iff, ◌⧺◌, quote, inl, inr, Option-cases, Bool-cases,
}
use kubedrill.Shared.State.{pure}
use kubedrill.Shared.Results.{Result, ok, err, ok_injective}
use kubedrill.Session.{Session, Event}
use kubedrill.Store.Files.{
  Disk, World, Os, exists, state_file, lookup, file_of, make_folder, attempt, in_folder,
  remove_folder, read,
}
use kubedrill.Store.Folders.{
  Same, Keeps, Keeps-then_or, then_or_rule, Same-in_folder, Same-attempt, Same-make_folder,
  remove_folder-Removed, Removed, remove_folder-others,
}
use kubedrill.Store.{
  Codec, filled, is_there, failing, write_text, write_encoded, write_state, persist, update_loaded,
  update_locked, load, read_back, parsed_state, clear_pointer, points_to, forget, append_line,
  stamped, write_pointer, rename_pointer, discard_pointer,
}
use kubedrill.Store as Store
use kubedrill.Store.Saving.{Unchanged-of_Same, Saved, write_state-Saved, load-shows, load-same}
use kubedrill.Store.Sessions.{
  Operation, shown, view, Step, Runs, run, run_all, create, update, append_event, remove,
  set_current, Sessions, IsPut, stored,
}

some-none : {t : String} → some t ≢ none
some-none h = cc

-- Reading changes no file.
pub read-same :
    (os : Os) {A : Type 0} (look : Disk → A) (w : World) → (read os look w).1.disk ≡ w.disk
read-same os look w = elim (Option-cases (os.refuses w.calls)) [
  | inl e ↦ rw (e, read) refl
  | inr (t, e) ↦ rw (e, read) refl
]

module _ (codec : Codec) (os : Os) where
  -- The result and the disk of an operation, as a step.
  abbrev Steps : Operation → Disk → Option String × World → Type 0
  Steps op d (e, w) = Step codec op (view codec d) e (view codec w.disk)

  -- Where the look for its directory does not fail, a session that was created was not there.
  pub create-fresh :
      (now : ℕ) (st : Session) (w : World)
      → os.refuses w.calls ≡ none
      → (Store.create os codec now st w).0 ≡ none
      → view codec w.disk st.id ≡ none
  unfolding Store.create
  create-fresh now st w healthy = elim (Option-cases (lookup st.id w.disk.folders)) [
    | inl l ↦ λ _. ap (λ o. shown codec (file_of o)) l
    | inr (f, l) ↦ elim (Bool-cases (st.id == "")) [
      | inl b ↦ rw b (λ h. absurd (some-none h))
      | inr b ↦ rw b (rw (healthy, read) (rw l (λ h. absurd (some-none h))))
    ]
  ]

  create-Steps :
      (now : ℕ) (st : Session) (w : World)
      → Steps (create now st) w.disk (Store.create os codec now st w)
  unfolding Store.create
  create-Steps now st w = elim (Bool-cases (st.id == "")) [
    | inl e ↦ rw e (λ j. refl)
    | inr e ↦ rw e (elim (Bool-cases (is_there os codec (read os (exists st.id) w).0)) [
      | inl l ↦ rw l (Unchanged-of_Same codec w.disk looked.disk kept)
      | inr l ↦ rw l (
          then_or_rule (Steps (create now st) w.disk) (attempt os (make_folder st.id))
            (failing os codec "store: create session dir: ") (write_state os codec (filled now st))
            looked
            (λ _.
              created
                (write_state os codec (filled now st) (attempt os (make_folder st.id) looked).1) e
                (write_state-Saved codec os (filled now st) w.disk
                  (attempt os (make_folder st.id) looked).1 made))
            (λ t h.
              Unchanged-of_Same codec w.disk (attempt os (make_folder st.id) looked).1.disk made))
    ])
  ]
    where
      looked : World
      looked = (read os (exists st.id) w).1

      kept : Same w.disk looked.disk
      kept j = ap (state_file j) (read-same os (exists st.id) w)

      made : Same w.disk (attempt os (make_folder st.id) looked).1.disk
      made j =
          Same-attempt os (make_folder st.id) looked (Same-make_folder os st.id looked.disk) j
          ∙ kept j

      created :
          (r : Option String × World)
          → (st.id == "") ≡ false
          → Saved codec (filled now st) (view codec w.disk) r
          → Steps (create now st) w.disk r
      created (none, w') named saved = (named, saved)
      created (some t, w') named saved = saved

  update_loaded-Steps :
      (id : String) (mutate : Session → Result Session) (d : Disk) (r : Result Session) (w : World)
      → ((st : Session) → r ≡ ok st → view codec d id ≡ some st)
      → Same d w.disk
      → Steps (update id mutate) d (update_loaded os codec mutate r w)
  update_loaded-Steps id mutate d (err e) w loaded same = Unchanged-of_Same codec d w.disk same
  update_loaded-Steps id mutate d (ok st) w loaded same = either (mutate st) refl
    where
      saved :
          (st' : Session) (r : Option String × World)
          → mutate st ≡ ok st'
          → Saved codec st' (view codec d) r
          → Steps (update id mutate) d r
      saved st' (none, w') e h = (st, st', loaded st refl, e, h)
      saved st' (some t, w') e h = h

      either :
          (r : Result Session) → mutate st ≡ r → Steps (update id mutate) d (persist os codec r w)
      either (err t) e = Unchanged-of_Same codec d w.disk same
      either (ok st') e =
          saved st' (write_state os codec st' w) e (write_state-Saved codec os st' d w same)

  update_locked-Steps :
      (id : String) (mutate : Session → Result Session) (d : Disk) (w : World)
      → Same d w.disk
      → Steps (update id mutate) d (update_locked os codec id mutate w)
  unfolding update_locked
  update_locked-Steps id mutate d w kept =
      update_loaded-Steps id mutate d (load os codec id w).0 (load os codec id w).1
        (λ st e. sym (Unchanged-of_Same codec d w.disk kept id) ∙ load-shows codec os id w st e)
        (subst (Same d) (sym (load-same codec os id w)) kept)

  update-Steps :
      (id : String) (mutate : Session → Result Session) (w : World)
      → Steps (update id mutate) w.disk (Store.update os codec id mutate w)
  unfolding Store.update
  update-Steps id mutate w =
      then_or_rule (Steps (update id mutate) w.disk) (in_folder os id (λ f. f))
        (failing os codec ("store: flock " ⧺ quote id ⧺ ": ")) (update_locked os codec id mutate) w
        (λ _. update_locked-Steps id mutate w.disk locked kept)
        (λ t _. Unchanged-of_Same codec w.disk locked.disk kept)
    where
      locked : World
      locked = (in_folder os id (λ f. f) w).1

      kept : Same w.disk locked.disk
      kept = Same-in_folder os id (λ f. f) (λ f. refl) w

  append_line-Keeps : (id : String) (r : Result String) → Keeps (append_line os codec id r)
  append_line-Keeps id (err e) = λ w j. refl
  append_line-Keeps id (ok line) =
      Keeps-then_or (in_folder os id (λ f. record f { events = f.events ⧺ line ⧺ "\n" }))
        (failing os codec "store: append event: ") (pure none)
        (Same-in_folder os id (λ f. record f { events = f.events ⧺ line ⧺ "\n" }) (λ f. refl))
        (λ t w j. refl) (λ w j. refl)

  append_event-Keeps :
      (now : ℕ) (id : String) (ev : Event) → Keeps (Store.append_event os codec now id ev)
  unfolding Store.append_event
  append_event-Keeps now id ev =
      Keeps-then_or (in_folder os id (λ f. f)) (failing os codec "store: open events.log: ")
        (append_line os codec id (codec.encode_event (stamped now ev)))
        (Same-in_folder os id (λ f. f) (λ f. refl)) (λ t w j. refl)
        (append_line-Keeps id (codec.encode_event (stamped now ev)))

  rename_pointer-Keeps : Keeps (rename_pointer os codec)
  rename_pointer-Keeps =
      Keeps-then_or (attempt os (λ d. record d { current = d.next_current; next_current = none }))
        (discard_pointer os codec) (pure none)
        (λ w.
          Same-attempt os (λ d. record d { current = d.next_current; next_current = none }) w
            (λ j. refl))
        (λ t w. Same-attempt os (λ d. record d { next_current = none }) w (λ j. refl)) (λ w j. refl)

  set_current-Keeps : (id : String) → Keeps (Store.set_current os codec id)
  unfolding Store.set_current
  set_current-Keeps id =
      Keeps-then_or (attempt os (λ d. d)) (failing os codec "store: root dir: ")
        (write_pointer os codec id) (λ w. Same-attempt os (λ d. d) w (λ j. refl)) (λ t w j. refl)
        (Keeps-then_or (attempt os (λ d. record d { next_current = some id }))
          (failing os codec "store: write current: ") (rename_pointer os codec)
          (λ w. Same-attempt os (λ d. record d { next_current = some id }) w (λ j. refl))
          (λ t w j. refl) rename_pointer-Keeps)

  current-same : (w : World) → (Store.current os codec w).1.disk ≡ w.disk
  unfolding Store.current
  current-same w = elim (Option-cases (os.refuses w.calls)) [
    | inl e ↦ rw (e, read) refl
    | inr (t, e) ↦ rw (e, read) refl
  ]

  forget-Keeps : (id : String) → Keeps (forget os codec id)
  unfolding forget
  forget-Keeps id w =
      cleared (points_to os codec id (Store.current os codec w).0) (Store.current os codec w).1
        (current-same w)
    where
      cleared :
          (b : Bool) (w' : World)
          → w'.disk ≡ w.disk
          → Same w.disk (clear_pointer os codec b w').1.disk
      cleared true w' e =
          subst (λ d. Same d (clear_pointer os codec true w').1.disk) e
            (Same-attempt os (λ d. record d { current = none }) w' (λ j. refl))
      cleared false w' e = λ j. ap (state_file j) e

  forget-none : (id : String) (w : World) → (forget os codec id w).0 ≡ none
  unfolding forget
  forget-none id w = refl

  remove-Steps : (id : String) (w : World) → Steps (remove id) w.disk (Store.remove os codec id w)
  unfolding Store.remove
  remove-Steps id w =
      then_or_rule (Steps (remove id) w.disk) (remove_folder os id)
        (failing os codec ("store: remove session " ⧺ quote id ⧺ ": ")) (forget os codec id) w
        (λ h.
          gone (forget os codec id (remove_folder os id w).1)
            (forget-none id (remove_folder os id w).1)
            (λ j. forget-Keeps id (remove_folder os id w).1 j ∙ remove_folder-Removed os id w h j))
        (λ t _ j named other. ap (shown codec) (
          remove_folder-others os id j w named (elim (Bool-cases (id == j)) [
            | inl e ↦ absurd (other ((eq_iff id j).0 e))
            | inr e ↦ e
          ])))
    where
      gone :
          (r : Option String × World)
          → r.0 ≡ none
          → Removed id w.disk r.1.disk
          → Steps (remove id) w.disk r
      gone (none, w') e h = λ j. ap (shown codec) (h j) ∙ (elim (Bool-cases (id == "")) [
        | inl b ↦ rw b refl
        | inr b ↦ elim (Bool-cases (id == j)) [ inl k ↦ rw (b, k) refl | inr k ↦ rw (b, k) refl ]
      ])
      gone (some t, w') e h = cc

  -- Every operation, with whatever call failing, is a step of the map from ids to sessions.
  pub run-Step : (op : Operation) (w : World) → Steps op w.disk (run codec os op w)
  run-Step (create now st) = create-Steps now st
  run-Step (update id mutate) = update-Steps id mutate
  run-Step (append_event now id ev) = λ w.
      Unchanged-of_Same codec w.disk (Store.append_event os codec now id ev w).1.disk
        (append_event-Keeps now id ev w)
  run-Step (remove id) = remove-Steps id
  run-Step (set_current id) = λ w.
      Unchanged-of_Same codec w.disk (Store.set_current os codec id w).1.disk
        (set_current-Keeps id w)

  -- A creation that succeeds is of a session that is not there, unless the look for it failed.
  abbrev pub FreshAt : Operation → World → Option String → Type 0
  FreshAt (create now st) w (some e) = Unit
  FreshAt (create now st) w none =
      ((t : String) × (os.refuses w.calls ≡ some t)) ⊎ (view codec w.disk st.id ≡ none)
  FreshAt _ w e = Unit

  abbrev pub AllFresh : List Operation → World → Type 0
  AllFresh [] w = Unit
  AllFresh (op ∷ ops) w = FreshAt op w (run codec os op w).0 × AllFresh ops (run codec os op w).1

  create-FreshAt :
      (now : ℕ) (st : Session) (w : World)
      → FreshAt (create now st) w (Store.create os codec now st w).0
  create-FreshAt now st w = either (Store.create os codec now st w).0 refl
    where
      either :
          (e : Option String) → (Store.create os codec now st w).0 ≡ e → FreshAt (create now st) w e
      either (some t) h = tt
      either none h = elim (Option-cases (os.refuses w.calls)) [
        | inl fine ↦ inr (create-fresh now st w fine h)
        | inr (t, failed) ↦ inl (t, failed)
      ]

  run-FreshAt : (op : Operation) (w : World) → FreshAt op w (run codec os op w).0
  run-FreshAt (create now st) w = create-FreshAt now st w
  run-FreshAt (update id mutate) w = tt
  run-FreshAt (append_event now id ev) w = tt
  run-FreshAt (remove id) w = tt
  run-FreshAt (set_current id) w = tt

  -- Whatever calls fail, a sequence of operations on the files is a run of the map from ids to sessions,
  -- in which every creation that succeeds is of a session that is not there, unless the look for it
  -- failed.
  pub run_all-Runs :
      (ops : List Operation) (w : World)
      → Runs codec ops
          (view codec w.disk)
          (run_all codec os ops w).0
          (view codec (run_all codec os ops w).1.disk)
        × AllFresh ops w
  run_all-Runs [] w = ((λ j. refl), tt)
  run_all-Runs (op ∷ ops) w =
      let (runs, fresh) = run_all-Runs ops (run codec os op w).1 in
      ((view codec (run codec os op w).1.disk, run-Step op w, runs), (run-FreshAt op w, fresh))

-- An update that succeeded has put what the mutation makes of the session in view.
pub IsPut-of_Step :
    (codec : Codec) (id : String) (mutate : Session → Result Session) (s s' : Sessions)
    (st st' : Session)
    → s id ≡ some st
    → mutate st ≡ ok st'
    → Step codec (update id mutate) s none s'
    → IsPut st'.id (stored codec st') s s'
IsPut-of_Step codec id mutate s s' st st' seen mutated (t, t', was, became, put) =
    let same : t ≡ st = cc in
    let result : t' ≡ st' = ok_injective (sym became ∙ (ap mutate same ∙ mutated)) in
    subst (λ t. IsPut t.id (stored codec t) s s') result put

-- ===== src/Engine/Reveal/Laws.antt =====
-- What revealing a hint leaves in the session store.
use kubedrill.Shared.{
  ℕ, String, Option, none, some, ◌≡◌, refl, ap, ◌∙◌, subst, Bool-cases, inl, inr, ◌⧺◌,
}
use kubedrill.Shared.Results.{Result, ok, err}
use kubedrill.Challenge.{Challenge, Hint}
use kubedrill.Loader.{Library, load_dir}
use kubedrill.Session.{Session, Event}
use kubedrill.Rules.Grade.{contains}
use kubedrill.Store.Files.{World, Os}
use kubedrill.Store as Store
use kubedrill.Store.{Codec, load}
use kubedrill.Store.Sessions.{Sessions, Operation, Unchanged, IsPut, Step, view, stored}
use kubedrill.Store.Saving.{load-shows, load-same}
use kubedrill.Store.Views.{HasOwnId}
use kubedrill.Store.Refinement.{run-Step, IsPut-of_Step}
use kubedrill.Engine.Hints.{next_hint, record_hint, reveal_hint}
use kubedrill.Engine.Hints.Laws.{Revealed, reveal_hint-Revealed}
use kubedrill.Engine.Reveal.{
  hint_of, hint_of_challenge, next_hint_of, update_hints, log_hint, save_hint, reveal_hint_of,
}

record_hint-id : (h : Hint) (st : Session) → (record_hint h st).id ≡ st.id
unfolding record_hint
record_hint-id h st = elim (Bool-cases (contains st.hints_used h.id)) [
  | inl e ↦ rw e refl
  | inr e ↦ rw e refl
]

reveal_hint-next :
    (ch : Challenge) (st : Session) (h : Hint) (n : ℕ)
    → next_hint ch st ≡ some (h, n)
    → reveal_hint ch st ≡ some (h, record_hint h st)
unfolding reveal_hint
reveal_hint-next ch st h n e = rw e refl

module _ {F : Type 0} (library : Library F) (os : Os) (codec : Codec) where
  -- The sessions before, what was returned, and the sessions after.
  abbrev pub RevealedIn : String → Sessions → Result Hint → Sessions → Type 0
  RevealedIn id s (err e) s' = Unchanged s s'
  RevealedIn id s (ok h) s' =
      (st : Session) × (ch : Challenge) × (st' : Session) × (s id ≡ some st)
      × (load_dir library st.challenge_dir ≡ ok ch)
      × Revealed ch st h st'
      × IsPut id (stored codec st') s s'

  -- The same, where the session has been put under the id that it has.
  abbrev RevealedAs : String → Sessions → Result Hint → Sessions → Type 0
  RevealedAs id s (err e) s' = Unchanged s s'
  RevealedAs id s (ok h) s' =
      (st : Session) × (ch : Challenge) × (st' : Session) × (s id ≡ some st)
      × (load_dir library st.challenge_dir ≡ ok ch)
      × Revealed ch st h st'
      × IsPut st.id (stored codec st') s s'

  RevealedIn-of :
      (id : String) (s s' : Sessions) (r : Result Hint)
      → HasOwnId id s
      → RevealedAs id s r s'
      → RevealedIn id s r s'
  RevealedIn-of id s s' (err e) own h = h
  RevealedIn-of id s s' (ok h) own (st, ch, st', seen, l, revealed, put) = (
    st,
    ch,
    st',
    seen,
    l,
    revealed,
    subst (λ i. IsPut i (stored codec st') s s') (own st seen) put,
  )

  -- The hint is the next one of the session's challenge.
  abbrev IsNext : Session → Hint → ℕ → Type 0
  IsNext st h n =
      (ch : Challenge) × (load_dir library st.challenge_dir ≡ ok ch)
      × (next_hint ch st ≡ some (h, n))

  hint_of-IsNext :
      (r : Result Session) (h : Hint) (n : ℕ)
      → hint_of library os codec r ≡ ok (some (h, n))
      → (st : Session) × (r ≡ ok st) × IsNext st h n
  hint_of-IsNext (err e) h n q = cc
  hint_of-IsNext (ok st) h n q = loaded (load_dir library st.challenge_dir) refl q
    where
      loaded :
          (r : Result Challenge)
          → load_dir library st.challenge_dir ≡ r
          → hint_of_challenge library os codec st r ≡ ok (some (h, n))
          → (t : Session) × (ok st ≡ ok t) × IsNext t h n
      loaded (err e) l q = cc
      loaded (ok ch) l q = (st, refl, (ch, l, cc))

  log_hint-RevealedAs :
      (now : ℕ) (id : String) (st : Session) (h : Hint) (n : ℕ) (s : Sessions) (e : Option String)
      (f : World)
      → s id ≡ some st
      → IsNext st h n
      → Step codec (Operation.update id (update_hints library os codec h)) s e (view codec f.disk)
      → RevealedAs id s
          (log_hint library os codec now id h e f).0
          (view codec (log_hint library os codec now id h e f).1.disk)
  log_hint-RevealedAs now id st h n s (some e) f seen next step = step
  log_hint-RevealedAs now id st h n s none f seen (ch, l, q) step =
      let put =
        subst (λ i. IsPut i (stored codec (record_hint h st)) s (view codec f.disk))
          (record_hint-id h st)
          (IsPut-of_Step codec id (update_hints library os codec h) s (view codec f.disk) st
            (record_hint h st) seen refl step) in
      let ev : Event = record {
        at = 0;
        kind = "hint";
        note = h.id ⧺ " (-" ⧺ library.show h.penalty ⧺ ")";
      } in
      (
        st,
        ch,
        record_hint h st,
        seen,
        l,
        reveal_hint-Revealed ch st (record_hint h st) h (reveal_hint-next ch st h n q),
        (λ j. run-Step codec os (Operation.append_event now id ev) f j ∙ put j),
      )

  save_hint-RevealedAs :
      (now : ℕ) (id : String) (r : Result (Option (Hint × ℕ))) (f : World)
      → ((h : Hint) (n : ℕ)
          → r ≡ ok (some (h, n))
          → (st : Session) × (view codec f.disk id ≡ some st) × IsNext st h n)
      → RevealedAs id
          (view codec f.disk)
          (save_hint library os codec now id r f).0
          (view codec (save_hint library os codec now id r f).1.disk)
  save_hint-RevealedAs now id (err e) f next = λ j. refl
  save_hint-RevealedAs now id (ok none) f next = λ j. refl
  save_hint-RevealedAs now id (ok (some (h, n))) f next =
      let (st, seen, is_next) = next h n refl in
      log_hint-RevealedAs now id st h n (view codec f.disk)
        (Store.update os codec id (update_hints library os codec h) f).0
        (Store.update os codec id (update_hints library os codec h) f).1 seen is_next
        (run-Step codec os (Operation.update id (update_hints library os codec h)) f)

  reveal_hint_of-RevealedAs :
      (now : ℕ) (id : String) (f : World)
      → RevealedAs id
          (view codec f.disk)
          (reveal_hint_of library os codec now id f).0
          (view codec (reveal_hint_of library os codec now id f).1.disk)
  unfolding reveal_hint_of next_hint_of
  reveal_hint_of-RevealedAs now id f =
      subst
        (λ d.
          RevealedAs id (view codec d) (save_hint library os codec now id r f').0
            (view codec (save_hint library os codec now id r f').1.disk))
        (load-same codec os id f)
        (save_hint-RevealedAs now id r f' (λ h n e.
          let (st, l, next) = hint_of-IsNext (load os codec id f).0 h n e in
          (
            st,
            ap (λ d. view codec d id) (load-same codec os id f) ∙ load-shows codec os id f st l,
            next,
          )))
    where
      f' : World
      f' = (load os codec id f).1

      r : Result (Option (Hint × ℕ))
      r = hint_of library os codec (load os codec id f).0

  -- Where the session in the store has the id under which it is: revealing a hint that returns one has
  -- charged the session for it, as it is in the store; what returns an error, whatever fails, has
  -- changed no session; and no other session changes.
  pub reveal_hint_of-RevealedIn :
      (now : ℕ) (id : String) (f : World)
      → HasOwnId id (view codec f.disk)
      → RevealedIn id
          (view codec f.disk)
          (reveal_hint_of library os codec now id f).0
          (view codec (reveal_hint_of library os codec now id f).1.disk)
  reveal_hint_of-RevealedIn now id f own =
      RevealedIn-of id (view codec f.disk)
        (view codec (reveal_hint_of library os codec now id f).1.disk)
        (reveal_hint_of library os codec now id f).0 own (reveal_hint_of-RevealedAs now id f)

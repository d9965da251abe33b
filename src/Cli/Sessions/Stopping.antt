-- ===== src/Cli/Sessions/Stopping.antt =====
-- What `stop` removes.
use kubedrill.Shared.{
  map, ◌⊎◌, ◌≢◌, String, Bool, true, false, Option, none, some, List, [], ◌∷◌, ◌==◌, ◌≡◌, refl, sym,
  ap, ◌∙◌, subst, Bool-cases, inl, inr,
}
use kubedrill.Shared.Results.{Result, ok, err}
use kubedrill.Session.{Session}
use kubedrill.Rules.Grade.{contains}
use kubedrill.Store.Files.{World, Os}
use kubedrill.Store as Store
use kubedrill.Store.{Codec}
use kubedrill.Store.Refinement.{run-Step}
use kubedrill.Store.Sessions.{Sessions, Operation, Step, view}
use kubedrill.Store.Views.{remove-out, remove-in, list-same}
use kubedrill.Store.Saving.{load-same, load-shows}
use kubedrill.Cli.Sessions.{
  stop, stop_listed, stop_resolved, stop_loaded, resolve_session, session_ids, Clusters, stop_all,
  unless_removed,
}
use kubedrill.Cli.Sessions.Choosing.{Chosen, resolve_session-Chosen, resolve_session-same}
use kubedrill.Cli.Sessions.Ids.{or_false_left, or_false_right, or_true_left}

module _ (os : Os) (codec : Codec) {W : Type 0} (clusters : Clusters W) where
  -- The sessions before, the error of a stop, and the sessions after: sessions that were not to be
  -- stopped are as before, unless an id that was to be stopped is blank, and without an error those
  -- that were are gone.
  abbrev pub Stopped : List String → Sessions → Option String × (W × World) → Type 0
  Stopped ids s (e, out) =
      ((contains ids "" ≡ true)
        ⊎ ((j : String) → contains ids j ≡ false → view codec out.1.disk j ≡ s j))
      × (e ≡ none → (j : String) → contains ids j ≡ true → view codec out.1.disk j ≡ none)

  -- A session that is not there is not there after removals without an error.
  remove-none :
      (id j : String) (f : World)
      → view codec f.disk j ≡ none
      → (Store.remove os codec id f).0 ≡ none
      → view codec (Store.remove os codec id f).1.disk j ≡ none
  remove-none id j f out fine =
      either (Store.remove os codec id f).0 fine (run-Step codec os (Operation.remove id) f)
    where
      either :
          (e : Option String)
          → e ≡ none
          → Step codec
              (Operation.remove id)
              (view codec f.disk)
              e
              (view codec (Store.remove os codec id f).1.disk)
          → view codec (Store.remove os codec id f).1.disk j ≡ none
      either (some t) h step = cc
      either none h step = step j ∙ (elim (Bool-cases (id == "")) [
        | inl b ↦ rw b refl
        | inr b ↦ elim (Bool-cases (id == j)) [ inl k ↦ rw (b, k) refl | inr k ↦ rw (b, k) out ]
      ])

  stop_all-none :
      (ids : List String) (j : String) (w : W) (f : World)
      → view codec f.disk j ≡ none
      → (stop_all os codec clusters ids (w, f)).0 ≡ none
      → view codec (stop_all os codec clusters ids (w, f)).1.1.disk j ≡ none
  unfolding stop_all
  stop_all-none [] j w f out fine = out
  stop_all-none (id ∷ ids) j w f out fine =
      either (Store.remove os codec id f).0 refl
        (stop_all-none ids j (clusters.destroy id w).1 (Store.remove os codec id f).1) fine
    where
      y : W × World
      y = ((clusters.destroy id w).1, (Store.remove os codec id f).1)

      either :
          (e : Option String)
          → (Store.remove os codec id f).0 ≡ e
          → (view codec y.1.disk j ≡ none
              → (stop_all os codec clusters ids y).0 ≡ none
              → view codec (stop_all os codec clusters ids y).1.1.disk j ≡ none)
          → (unless_removed os codec clusters (stop_all os codec clusters ids) e y).0 ≡ none
          → view codec
              (unless_removed os codec clusters (stop_all os codec clusters ids) e y).1.1.disk
              j
            ≡ none
      either (some t) failed later h = cc
      either none gone later h = later (remove-none id j f out gone) h

  pub stop_all-Stopped :
      (ids : List String) (w : W) (f : World)
      → Stopped ids (view codec f.disk) (stop_all os codec clusters ids (w, f))
  unfolding stop_all
  stop_all-Stopped [] w f = (inr (λ j _. refl), (λ _ j h. cc))
  stop_all-Stopped (id ∷ ids) w f =
      either (Store.remove os codec id f).0 refl (stop_all-Stopped ids destroyed removed)
    where
      destroyed : W
      destroyed = (clusters.destroy id w).1

      removed : World
      removed = (Store.remove os codec id f).1

      either :
          (e : Option String)
          → (Store.remove os codec id f).0 ≡ e
          → Stopped ids
              (view codec removed.disk)
              (stop_all os codec clusters ids (destroyed, removed))
          → Stopped (id ∷ ids) (view codec f.disk) (
              unless_removed os codec clusters
                (stop_all os codec clusters ids)
                e
                (destroyed, removed))
      either (some t) failed rest = (
        elim (Bool-cases (id == "")) [
          | inl b ↦ inl (rw b refl)
          | inr b ↦
              inr (λ j out.
                remove-out os codec id f j b (or_false_left (id == j) (contains ids j) out))
        ],
        (λ h. cc),
      )
      either none fine (kept, gone) = (
        elim (Bool-cases (id == "")) [
          | inl b ↦ inl (rw b refl)
          | inr b ↦ elim kept [
            | inl blank ↦ inl (rw b blank)
            | inr kept ↦ inr (λ j out.
                kept j (or_false_right (id == j) (contains ids j) out)
                ∙ remove-out os codec id f j b (or_false_left (id == j) (contains ids j) out))
          ]
        ],
        (λ h j in_ids. elim (Bool-cases (contains ids j)) [
          | inl e ↦ gone h j e
          | inr e ↦
              stop_all-none ids j destroyed removed
                (remove-in os codec id f j fine (or_true_left (id == j) (contains ids j) in_ids e))
                h
        ]),
      )

  -- The sessions that a stop is about: all that are listed, or the one that is named or current and
  -- can be loaded.
  abbrev pub Targets : Bool → List String → World → List String → Type 0
  Targets true args f ids =
      (states : List Session) × ((Store.list os codec f).0 ≡ ok states)
      × (ids ≡ map (λ (st : Session). st.id) states)
  Targets false args f ids =
      (id : String) × Chosen os codec args f id
      × (ids ≡ id ∷ [])
      × ((st : Session) × (view codec f.disk id ≡ some st))

  -- A stop is about no session, where it is refused before any is removed, or about its targets.
  abbrev pub StopsFor : Bool → List String → World → Option String × (W × World) → Type 0
  StopsFor all args f r =
      (ids : List String) × Stopped ids (view codec f.disk) r
      × (((ids ≡ []) × (r.0 ≢ none)) ⊎ Targets all args f ids)

  refused-StopsFor :
      (all : Bool) (args : List String) (e : String) (w : W) (f f' : World)
      → f'.disk ≡ f.disk
      → StopsFor all args f (some e, (w, f'))
  refused-StopsFor all args e w f f' same =
      ([], (inr (λ j _. ap (λ d. view codec d j) same), (λ h. cc)), inl (refl, (λ h. cc)))

  stop_all-StopsFor :
      (all : Bool) (args ids : List String) (w : W) (f f' : World)
      → f'.disk ≡ f.disk
      → Targets all args f ids
      → StopsFor all args f (stop_all os codec clusters ids (w, f'))
  stop_all-StopsFor all args ids w f f' same t = (
    ids,
    subst (λ d. Stopped ids (view codec d) (stop_all os codec clusters ids (w, f'))) same
        (stop_all-Stopped ids w f'),
    inr t,
  )

  -- With its flag a stop is about every session that was listed, else about the one session that was
  -- named, or is the current one, and was there; or it returns an error and is about none. Whatever
  -- fails, it changes no session but those that it is about, unless one of their ids is blank; and
  -- where it returns no error they are all gone.
  pub stop-StopsFor :
      (all : Bool) (args : List String) (w : W) (f : World)
      → StopsFor all args f (stop os codec clusters all args (w, f))
  unfolding stop
  stop-StopsFor true args w f = either (Store.list os codec f).0 refl (list-same os codec f)
    where
      f' : World
      f' = (Store.list os codec f).1

      either :
          (r : Result (List Session))
          → (Store.list os codec f).0 ≡ r
          → f'.disk ≡ f.disk
          → StopsFor true args f (stop_listed os codec clusters r (w, f'))
      either (err e) h same = refused-StopsFor true args e w f f' same
      either (ok states) h same =
          stop_all-StopsFor true args (session_ids os codec clusters states) w f f' same
            (states, h, refl)
  stop-StopsFor false args w f =
      either (resolve_session os codec args f).0 refl (resolve_session-same os codec args f)
    where
      f' : World
      f' = (resolve_session os codec args f).1

      either :
          (r : Result String)
          → (resolve_session os codec args f).0 ≡ r
          → f'.disk ≡ f.disk
          → StopsFor false args f (stop_resolved os codec clusters r (w, f'))
      either (err e) h same = refused-StopsFor false args e w f f' same
      either (ok id) h same = loaded (Store.load os codec id f').0 refl
        where
          f'' : World
          f'' = (Store.load os codec id f').1

          same' : f''.disk ≡ f.disk
          same' = load-same codec os id f' ∙ same

          loaded :
              (r : Result Session)
              → (Store.load os codec id f').0 ≡ r
              → StopsFor false args f (stop_loaded os codec clusters id r (w, f''))
          loaded (err e) k = refused-StopsFor false args e w f f'' same'
          loaded (ok st) k = stop_all-StopsFor false args (id ∷ []) w f f'' same' (
            id,
            resolve_session-Chosen os codec args f id h,
            refl,
            (st, ap (λ d. view codec d id) (sym same) ∙ load-shows codec os id f' st k),
          )

-- ===== src/Store/Views.antt =====
-- Sequences of operations, seen as the map from ids to sessions.
use mathlib.Core.Bool.{false≢true}
use kubedrill.Shared.{
  String, Option, none, some, ◌==◌, ◌≡◌, ◌≢◌, true, false, refl, sym, ap, ◌∙◌, subst, eq_iff, inl,
  inr, Bool-cases, ◌⧺◌, quote, List, [], ◌∷◌, map,
}
use kubedrill.Shared.Results.{Result, ok, err}
use kubedrill.Session.{Session}
use kubedrill.Store.Files.{World, Os, read, remove_folder}
use kubedrill.Store.{Codec, load, load_each, list, list_entries, current, remove, forget, failing}
use kubedrill.Store.Saving.{load-same}
use kubedrill.Store.Sessions.{Sessions, Unchanged, IsPut, Step, Operation, stored, view}
use kubedrill.Store.Refinement.{read-same, IsPut-of_Step, run-Step}
use kubedrill.Store.Roundtrip.{none≢some}
use kubedrill.Store.Folders.{then_or_rule}

-- At most the session `id` is another one.
abbrev pub Others : String → Sessions → Sessions → Type 0
Others id s s' = (j : String) → id ≢ j → s' j ≡ s j

pub ne_test : (i j : String) → i ≢ j → (i == j) ≡ false
ne_test i j h = elim (Bool-cases (i == j)) [ inl e ↦ absurd (h ((eq_iff i j).0 e)) | inr e ↦ e ]

pub test_ne : (i j : String) → (i == j) ≡ false → i ≢ j
test_ne i j e h = false≢true (sym e ∙ (eq_iff i j).1 h)

pub Others-of_IsPut :
    (id : String) (v : Option Session) (s s' : Sessions) → IsPut id v s s' → Others id s s'
Others-of_IsPut id v s s' h j other = h j ∙ rw (ne_test id j other) refl

pub Others-trans : (id : String) (s t u : Sessions) → Others id s t → Others id t u → Others id s u
Others-trans id s t u h k j other = k j other ∙ h j other

-- A put after a put counts alone.
pub IsPut-trans :
    (id : String) (v v' : Option Session) (s t u : Sessions)
    → IsPut id v s t
    → IsPut id v' t u
    → IsPut id v' s u
IsPut-trans id v v' s t u h k j =
    k j ∙ (elim (Bool-cases (id == j)) [ inl e ↦ rw e refl | inr e ↦ rw e (h j ∙ rw e refl) ])

pub IsPut-Unchanged :
    (id : String) (v : Option Session) (s t u : Sessions)
    → IsPut id v s t
    → Unchanged t u
    → IsPut id v s u
IsPut-Unchanged id v s t u h k j = k j ∙ h j

-- To put what was there, after changes of that session alone, changes nothing.
pub Unchanged-of_Others :
    (id : String) (v : Option Session) (s t u : Sessions)
    → s id ≡ v
    → Others id s t
    → IsPut id v t u
    → Unchanged s u
Unchanged-of_Others id v s t u same others h j = h j ∙ (elim (Bool-cases (id == j)) [
  | inl e ↦ rw e (sym same ∙ ap s ((eq_iff id j).0 e))
  | inr e ↦ rw e (others j (test_ne id j e))
])

pub IsPut-self : (id : String) (v : Option Session) (s s' : Sessions) → IsPut id v s s' → s' id ≡ v
IsPut-self id v s s' h = h id ∙ rw ((eq_iff id id).1 refl) refl

-- An update of a session under its id changes no other one, and without an error it puts what the
-- mutation made of it.
module _ (codec : Codec) (id : String) (mutate : Session → Result Session) (s s' : Sessions)
    (st st' : Session) (seen : s id ≡ some st) (mutated : mutate st ≡ ok st')
    (same : st'.id ≡ id) where
  pub update-IsPut :
      Step codec (Operation.update id mutate) s none s' → IsPut id (stored codec st') s s'
  update-IsPut step =
      subst (λ i. IsPut i (stored codec st') s s') same
        (IsPut-of_Step codec id mutate s s' st st' seen mutated step)

  pub update-Others :
      (e : Option String) → Step codec (Operation.update id mutate) s e s' → Others id s s'
  update-Others none step = Others-of_IsPut id (stored codec st') s s' (update-IsPut step)
  update-Others (some e) step = λ j _. step j

-- Reading changes no file.
module _ (os : Os) where
  module _ (codec : Codec) where
    load_each-same : (ids : List String) (w : World) → (load_each os codec ids w).1.disk ≡ w.disk
    unfolding load_each
    load_each-same [] w = refl
    load_each-same (id ∷ ids) w =
        load_each-same ids (load os codec id w).1 ∙ load-same codec os id w

    pub list-same : (w : World) → (list os codec w).1.disk ≡ w.disk
    unfolding list
    list-same w =
        either (read os (λ d. map (λ (id, _). id) d.folders) w).0
          (read-same os (λ d. map (λ (id, _). id) d.folders) w)
      where
        opened : World
        opened = (read os (λ d. map (λ (id, _). id) d.folders) w).1

        either :
            (r : Result (List String))
            → opened.disk ≡ w.disk
            → (list_entries os codec r opened).1.disk ≡ w.disk
        either (err e) h = h
        either (ok ids) h = load_each-same ids opened ∙ h

    pub current-same : (w : World) → (current os codec w).1.disk ≡ w.disk
    unfolding current
    current-same w = read-same os (λ d. d.current) w

    -- Where no call fails, a removal has no error.
    pub remove-healthy :
        (id : String) (w : World) → os.refuses w.calls ≡ none → (remove os codec id w).0 ≡ none
    unfolding remove forget
    remove-healthy id w h =
        then_or_rule (λ r. r.0 ≡ none) (remove_folder os id)
          (failing os codec ("store: remove session " ⧺ quote id ⧺ ": ")) (forget os codec id) w
          (λ _. refl) (λ t e. absurd (none≢some (sym fine ∙ e)))
      where
        fine : (remove_folder os id w).0 ≡ none
        fine = rw (h, remove_folder) refl

    -- A removal concerns its session alone, if its id is not blank.
    pub remove-out :
        (id : String) (w : World) (j : String)
        → (id == "") ≡ false
        → (id == j) ≡ false
        → view codec (remove os codec id w).1.disk j ≡ view codec w.disk j
    remove-out id w j named out =
        either (remove os codec id w).0 (run-Step codec os (Operation.remove id) w)
      where
        either :
            (e : Option String)
            → Step codec
                (Operation.remove id)
                (view codec w.disk)
                e
                (view codec (remove os codec id w).1.disk)
            → view codec (remove os codec id w).1.disk j ≡ view codec w.disk j
        either (some t) step = step j named (test_ne id j out)
        either none step = step j ∙ rw (named, out) refl

    pub remove-in :
        (id : String) (w : World) (j : String)
        → (remove os codec id w).0 ≡ none
        → (id == j) ≡ true
        → view codec (remove os codec id w).1.disk j ≡ none
    remove-in id w j h same =
        either (remove os codec id w).0 h (run-Step codec os (Operation.remove id) w)
      where
        either :
            (e : Option String)
            → e ≡ none
            → Step codec
                (Operation.remove id)
                (view codec w.disk)
                e
                (view codec (remove os codec id w).1.disk)
            → view codec (remove os codec id w).1.disk j ≡ none
        either (some t) h step = absurd (none≢some (sym h))
        either none h step =
            step j
            ∙ (elim (Bool-cases (id == "")) [ inl b ↦ rw b refl | inr b ↦ rw (b, same) refl ])

-- The session under the id, if there is one, has that id.
abbrev pub HasOwnId : String → Sessions → Type 0
HasOwnId id s = (st : Session) → s id ≡ some st → st.id ≡ id

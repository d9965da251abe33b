-- ===== src/Store/Saving.antt =====
-- Writes and loads, seen as the map from ids to sessions.
use kubedrill.Shared.{
  String, Option, none, some, ◌==◌, ◌≡◌, refl, sym, ap, ◌∙◌, subst, inl, inr, Option-cases,
  Bool-cases,
}
use kubedrill.Shared.Results.{Result, ok, err}
use kubedrill.Session.{Session}
use kubedrill.Store.Files.{Disk, World, Os, state_file, read}
use kubedrill.Store.Folders.{Same, Changed}
use kubedrill.Store.Writing.{Wrote, write_text-Wrote}
use kubedrill.Store.{Codec, write_text, write_encoded, write_state, load, read_back, parsed_state}
use kubedrill.Store.Sessions.{Sessions, Unchanged, IsPut, answer_of, shown, view, stored}

module _ (codec : Codec) where
  pub Unchanged-of_Same : (d d' : Disk) → Same d d' → Unchanged (view codec d) (view codec d')
  Unchanged-of_Same d d' h j = ap (shown codec) (h j)

  pub IsPut-of_Changed :
      (id : String) (t : Option String) (d d' : Disk)
      → Changed id t d d'
      → IsPut id (shown codec t) (view codec d) (view codec d')
  IsPut-of_Changed id t d d' h j =
      ap (shown codec) (h j)
      ∙ (elim (Bool-cases (id == j)) [ inl e ↦ rw e refl | inr e ↦ rw e refl ])

  -- A write that succeeded has stored the session, one that failed has changed nothing.
  abbrev pub Saved : Session → Sessions → Option String × World → Type 0
  Saved st s (none, w) = IsPut st.id (stored codec st) s (view codec w.disk)
  Saved st s (some e, w) = Unchanged s (view codec w.disk)

  Saved-of_Wrote :
      (st : Session) (text : String) (d : Disk) (r : Option String × World)
      → codec.encode st ≡ ok text
      → Wrote st.id text d r
      → Saved st (view codec d) r
  Saved-of_Wrote st text d (none, w) e h =
      subst (λ t. IsPut st.id (shown codec t) (view codec d) (view codec w.disk))
        (ap answer_of (sym e)) (IsPut-of_Changed st.id (some text) d w.disk h)
  Saved-of_Wrote st text d (some t, w) e h = Unchanged-of_Same d w.disk h

  module _ (os : Os) where
    pub write_state-Saved :
        (st : Session) (d : Disk) (w : World)
        → Same d w.disk
        → Saved st (view codec d) (write_state os codec st w)
    unfolding write_state
    write_state-Saved st d w same = either (codec.encode st) refl
      where
        either :
            (r : Result String)
            → codec.encode st ≡ r
            → Saved st (view codec d) (write_encoded os codec st.id r w)
        either (ok text) e =
            Saved-of_Wrote st text d (write_text os codec st.id text w) e
              (write_text-Wrote os codec st.id text d w same)
        either (err t) e = Unchanged-of_Same d w.disk same

    -- A session that was loaded is in view, and loading changes no file.
    pub load-shows :
        (id : String) (w : World) (st : Session)
        → (load os codec id w).0 ≡ ok st
        → view codec w.disk id ≡ some st
    unfolding load
    load-shows id w st h = elim (Option-cases (os.refuses w.calls)) [
      | inl e ↦ found (state_file id w.disk) (rw (e, read) at h)
      | inr (t, e) ↦ let k = rw (e, read) at h in cc
    ]
      where
        found : (o : Option String) → read_back os codec id (ok o) ≡ ok st → shown codec o ≡ some st
        found none h = cc
        found (some text) h = decoded (codec.decode text) h
          where
            decoded :
                (r : Result Session) → parsed_state os codec id r ≡ ok st → answer_of r ≡ some st
            decoded (ok s) h = cc
            decoded (err e) h = cc

    pub load-same : (id : String) (w : World) → (load os codec id w).1.disk ≡ w.disk
    unfolding load
    load-same id w = elim (Option-cases (os.refuses w.calls)) [
      | inl e ↦ rw (e, read) refl
      | inr (t, e) ↦ rw (e, read) refl
    ]

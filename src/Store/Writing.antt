-- ===== src/Store/Writing.antt =====
-- What a write of the state leaves on the disk: the new text, or what was there.
use kubedrill.Shared.{String, Option, none, some, List, ◌∷◌, ◌≡◌, refl, sym, ap, ◌∙◌, subst, eq_iff}
use kubedrill.Shared.State.{M, pure}
use kubedrill.Store.Files.{Folder, Disk, World, state_file, Os, lookup, then_or, attempt, in_folder}
use kubedrill.Store.Folders.{
  Same, Changed, then_or_rule, lookup-put, Changed-put, Same-in_folder, Same-attempt,
  in_folder-found, attempt-done, in_folder-refused,
}
use kubedrill.Store.{
  Codec, add_temp, fill_temp, drop_temp, commit, failing, discard, close_and_discard, rename_temp,
  close_temp, write_temp, write_text,
}

abbrev pub Wrote : String → String → Disk → Option String × World → Type 0
Wrote id text d (none, w) = Changed id (some text) d w.disk
Wrote id text d (some e, w) = Same d w.disk

pub Same-trans : (d d' d'' : Disk) → Same d d' → Same d' d'' → Same d d''
Same-trans d d' d'' h k j = k j ∙ h j

pub Changed-after :
    (id : String) (t : Option String) (d d' d'' : Disk)
    → Same d d'
    → Changed id t d' d''
    → Changed id t d d''
Changed-after id t d d' d'' h k j = k j ∙ rw (h j) refl

-- The temporary file that was made last holds `text`.
abbrev HasTemp : String → String → Disk → Type 0
HasTemp id text d =
    (f : Folder) × (r : List String) × (lookup id d.folders ≡ some f) × (f.temps ≡ text ∷ r)

-- A step that keeps the files, before a write.
keeping-Wrote :
    (id text : String) (d : Disk) (m : M World (Option String))
    (on_error : String → M World (Option String)) (rest : M World (Option String)) (w : World)
    → Same d (m w).1.disk
    → ((t : String) (w' : World) → Same d w'.disk → Wrote id text d (on_error t w'))
    → ((m w).0 ≡ none → Wrote id text d (rest (m w).1))
    → Wrote id text d (then_or m on_error rest w)
keeping-Wrote id text d m on_error rest w same on_some on_none =
    then_or_rule (Wrote id text d) m on_error rest w on_none (λ t _. on_some t (m w).1 same)

module _ (os : Os) (codec : Codec) (id text : String) (d : Disk) where
  discard-Wrote :
      (label t : String) (w : World)
      → Same d w.disk
      → Wrote id text d (discard os codec id label t w)
  discard-Wrote label t w same =
      Same-trans d w.disk (in_folder os id drop_temp w).1.disk same
        (Same-in_folder os id drop_temp (λ f. refl) w)

  close_and_discard-Wrote :
      (label t : String) (w : World)
      → Same d w.disk
      → Wrote id text d (close_and_discard os codec id label t w)
  close_and_discard-Wrote label t w same = discard-Wrote label t (attempt os (λ d. d) w).1 (
      Same-trans d w.disk (attempt os (λ d. d) w).1.disk same
        (Same-attempt os (λ d. d) w (λ j. refl)))

  HasTemp-filled :
      (w : World)
      → (in_folder os id (fill_temp text) w).0 ≡ none
      → HasTemp id text (in_folder os id (fill_temp text) w).1.disk
  HasTemp-filled w h =
      let (f, l, e) = in_folder-found os id (fill_temp text) w h in
      (
        fill_temp text f,
        _,
        ap (λ d. lookup id d.folders) e
            ∙ (lookup-put id id (fill_temp text f) w.disk.folders
                ∙ rw ((eq_iff id id).1 refl) refl),
        refl,
      )

  committed-Changed :
      (w : World)
      → Same d w.disk
      → HasTemp id text w.disk
      → (in_folder os id commit w).0 ≡ none
      → Changed id (some text) d (in_folder os id commit w).1.disk
  committed-Changed w same (f, r, l, t) h =
      let (g, k, e) = in_folder-found os id commit w h in
      let g_is_f : g ≡ f = cc in
      Changed-after id (some text) d w.disk (in_folder os id commit w).1.disk same
        (λ j. ap (state_file j) e ∙ (Changed-put id (commit g) w.disk j ∙ rw g_is_f (rw t refl)))

  renamed-Wrote :
      (w : World)
      → Same d w.disk
      → HasTemp id text w.disk
      → Wrote id text d (rename_temp os codec id w)
  renamed-Wrote w same temp =
      then_or_rule (Wrote id text d) (in_folder os id commit)
        (discard os codec id "store: commit state: ") (pure none) w (committed-Changed w same temp)
        (λ t h.
          discard-Wrote "store: commit state: " t (in_folder os id commit w).1
            (subst (Same d) (sym (in_folder-refused os id commit w t h)) same))

  closed-Wrote :
      (w : World)
      → Same d w.disk
      → HasTemp id text w.disk
      → Wrote id text d (close_temp os codec id w)
  closed-Wrote w same temp =
      let kept =
        Same-trans d w.disk (attempt os (λ d. d) w).1.disk same
          (Same-attempt os (λ d. d) w (λ j. refl)) in
      keeping-Wrote id text d (attempt os (λ d. d)) (discard os codec id "store: close state: ")
        (rename_temp os codec id) w kept (discard-Wrote "store: close state: ")
        (λ h.
          renamed-Wrote (attempt os (λ d. d) w).1 kept
            (subst (HasTemp id text) (sym (attempt-done os (λ d. d) w h)) temp))

  filled-Wrote : (w : World) → Same d w.disk → Wrote id text d (write_temp os codec id text w)
  filled-Wrote w same =
      let kept =
        Same-trans d w.disk (in_folder os id (fill_temp text) w).1.disk same
          (Same-in_folder os id (fill_temp text) (λ f. refl) w) in
      keeping-Wrote id text d (in_folder os id (fill_temp text))
        (close_and_discard os codec id "store: write state: ") (close_temp os codec id) w kept
        (close_and_discard-Wrote "store: write state: ")
        (λ h. closed-Wrote (in_folder os id (fill_temp text) w).1 kept (HasTemp-filled w h))

  pub write_text-Wrote :
      (w : World) → Same d w.disk → Wrote id text d (write_text os codec id text w)
  write_text-Wrote w same =
      let kept =
        Same-trans d w.disk (in_folder os id add_temp w).1.disk same
          (Same-in_folder os id add_temp (λ f. refl) w) in
      keeping-Wrote id text d (in_folder os id add_temp) (failing os codec "store: temp state: ")
        (write_temp os codec id text) w kept (λ t w' same. same)
        (λ _. filled-Wrote (in_folder os id add_temp w).1 kept)

-- ===== src/Store/Folders.antt =====
-- The directories as a finite map, and what a call does to the files state.json.
use kubedrill.Shared.{
  String, false, Option, none, some, List, [], ◌∷◌, ◌==◌, ◌≡◌, refl, ap, ◌∙◌, arith, if◌then◌else◌,
  Option-cases, Bool-cases, eq_iff, inl, inr,
}
use kubedrill.Shared.State.{M}
use kubedrill.Store.Files.{
  Folder, Disk, World, Os, lookup, put, delete, file_of, state_file, make_folder, no_folder,
  with_folder, then_or, attempt, in_folder, remove_folder,
}

pub lookup-put :
    (j k : String) (f : Folder) (d : List (String × Folder))
    → lookup j (put k f d) ≡ (if k == j then some f else lookup j d)
lookup-put j k f [] = refl
lookup-put j k f ((i, g) ∷ d) =
    ground (arith, lookup-put j k f d, eq_iff i k, eq_iff k j, eq_iff i j)

pub lookup-delete :
    (j k : String) (d : List (String × Folder))
    → lookup j (delete k d) ≡ (if k == j then none else lookup j d)
lookup-delete j k [] = ground arith
lookup-delete j k ((i, g) ∷ d) =
    ground (arith, lookup-delete j k d, eq_iff i k, eq_iff k j, eq_iff i j)

-- The files state.json of two disks are the same.
abbrev pub Same : Disk → Disk → Type 0
Same d d' = (j : String) → state_file j d' ≡ state_file j d

-- One of them has become `text`, or is gone.
abbrev pub Changed : String → Option String → Disk → Disk → Type 0
Changed id text d d' = (j : String) → state_file j d' ≡ (if id == j then text else state_file j d)

-- One of them is gone, or all, where the id is blank.
abbrev pub Removed : String → Disk → Disk → Type 0
Removed id d d' =
    (j : String)
    → state_file j d' ≡ (if id == "" then none else if id == j then none else state_file j d)

pub then_or_rule :
    (P : Option String × World → Type 0) (m : M World (Option String))
    (on_error : String → M World (Option String)) (rest : M World (Option String)) (w : World)
    → ((m w).0 ≡ none → P (rest (m w).1))
    → ((t : String) → (m w).0 ≡ some t → P (on_error t (m w).1))
    → P (then_or m on_error rest w)
then_or_rule P m on_error rest w on_none on_some = either (m w) on_none on_some
  where
    either :
        (r : Option String × World)
        → (r.0 ≡ none → P (rest r.1))
        → ((t : String) → r.0 ≡ some t → P (on_error t r.1))
        → P (elim r.0 [ none ↦ rest r.1 | some t ↦ on_error t r.1 ])
    either (none, w') on_none on_some = on_none refl
    either (some t, w') on_none on_some = on_some t refl

-- Whatever it returns, a computation leaves the files state.json as they are.
abbrev pub Keeps : {A : Type 0} → M World A → Type 0
Keeps m = (w : World) → Same w.disk (m w).1.disk

pub Keeps-then_or :
    (m : M World (Option String)) (on_error : String → M World (Option String))
    (rest : M World (Option String))
    → Keeps m
    → ((t : String) → Keeps (on_error t))
    → Keeps rest
    → Keeps (then_or m on_error rest)
Keeps-then_or m on_error rest k_m k_error k_rest w =
    then_or_rule (λ r. Same w.disk r.1.disk) m on_error rest w (λ _ j. k_rest (m w).1 j ∙ k_m w j)
      (λ t _ j. k_error t (m w).1 j ∙ k_m w j)

pub Changed-put :
    (id : String) (f : Folder) (d : Disk)
    → Changed id f.state d (record d { folders = put id f d.folders })
Changed-put id f d j = ground (arith, lookup-put j id f d.folders)

-- A file that becomes what it was.
pub Same-of_Changed : (id : String) (d d' : Disk) → Changed id (state_file id d) d d' → Same d d'
Same-of_Changed id d d' h j = elim (Bool-cases (id == j)) [
  | inl e ↦ h j ∙ rw e (ap (λ k. state_file k d) ((eq_iff id j).0 e))
  | inr e ↦ h j ∙ rw e refl
]

-- A change that keeps the file state.json of its directory keeps that of all.
pub Same-with_folder :
    (id : String) (change : Folder → Folder)
    → ((f : Folder) → (change f).state ≡ f.state)
    → (d : Disk) → Same d (with_folder id change (lookup id d.folders) d)
Same-with_folder id change keeps d = either (lookup id d.folders) refl
  where
    either : (o : Option Folder) → lookup id d.folders ≡ o → Same d (with_folder id change o d)
    either none e = λ j. refl
    either (some f) e =
        Same-of_Changed id d (record d { folders = put id (change f) d.folders })
          (λ j. Changed-put id (change f) d j ∙ rw (keeps f) (rw (ap file_of e) refl))

module _ (os : Os) where
  pub Same-in_folder :
      (id : String) (change : Folder → Folder)
      → ((f : Folder) → (change f).state ≡ f.state)
      → (w : World) → Same w.disk (in_folder os id change w).1.disk
  Same-in_folder id change keeps w = elim (Option-cases (os.refuses w.calls)) [
    | inl e ↦ rw (e, in_folder) (Same-with_folder id change keeps w.disk)
    | inr (t, e) ↦ rw (e, in_folder) (λ j. refl)
  ]

  pub Same-attempt :
      (change : Disk → Disk) (w : World)
      → Same w.disk (change w.disk)
      → Same w.disk (attempt os change w).1.disk
  Same-attempt change w keeps = elim (Option-cases (os.refuses w.calls)) [
    | inl e ↦ rw (e, attempt) keeps
    | inr (t, e) ↦ rw (e, attempt) (λ j. refl)
  ]

  -- A call on a file in a directory succeeds only if the directory is there.
  pub in_folder-found :
      (id : String) (change : Folder → Folder) (w : World)
      → (in_folder os id change w).0 ≡ none
      → (f : Folder) × (lookup id w.disk.folders ≡ some f)
        × ((in_folder os id change w).1.disk
            ≡ record w.disk { folders = put id (change f) w.disk.folders })
  in_folder-found id change w h = elim (Option-cases (os.refuses w.calls)) [
    | inl e ↦ elim (Option-cases (lookup id w.disk.folders)) [
      | inl l ↦ cc
      | inr (f, l) ↦ (f, l, rw (e, in_folder) (rw l refl))
    ]
    | inr (t, e) ↦ cc
  ]

  pub Same-make_folder : (id : String) (d : Disk) → Same d (make_folder id d)
  Same-make_folder id d j = elim (Option-cases (lookup id d.folders)) [
    | inl l ↦ rw l (
        Same-of_Changed id d (record d { folders = put id no_folder d.folders })
          (λ j. Changed-put id no_folder d j ∙ rw (ap file_of l) refl) j)
    | inr (f, l) ↦ rw l refl
  ]

  pub remove_folder-Removed :
      (id : String) (w : World)
      → (remove_folder os id w).0 ≡ none
      → Removed id w.disk (remove_folder os id w).1.disk
  remove_folder-Removed id w h j = elim (Option-cases (os.refuses w.calls)) [
    | inl e ↦ elim (Bool-cases (id == "")) [
      | inl b ↦ rw (e, remove_folder) (rw b refl)
      | inr b ↦ rw (e, remove_folder) (rw b (ground (arith, lookup-delete j id w.disk.folders)))
    ]
    | inr (t, e) ↦ cc
  ]

  -- A removal that fails changes no other directory.
  pub remove_folder-others :
      (id j : String) (w : World)
      → (id == "") ≡ false
      → (id == j) ≡ false
      → state_file j (remove_folder os id w).1.disk ≡ state_file j w.disk
  remove_folder-others id j w b h = elim (Option-cases (os.refuses w.calls)) [
    | inl e ↦ rw (e, remove_folder) (rw b (ground (arith, lookup-delete j id w.disk.folders)))
    | inr (t, e) ↦ elim (Option-cases (lookup id w.disk.folders)) [
      | inl l ↦ rw (e, remove_folder) (rw b (rw l refl))
      | inr (f, l) ↦
          rw (e, remove_folder)
            (rw b (rw l (Changed-put id (os.left w.calls f) w.disk j ∙ rw h refl)))
    ]
  ]

  pub attempt-done :
      (change : Disk → Disk) (w : World)
      → (attempt os change w).0 ≡ none
      → (attempt os change w).1.disk ≡ change w.disk
  attempt-done change w h = elim (Option-cases (os.refuses w.calls)) [
    | inl e ↦ rw (e, attempt) refl
    | inr (t, e) ↦ cc
  ]

  pub in_folder-refused :
      (id : String) (change : Folder → Folder) (w : World) (t : String)
      → (in_folder os id change w).0 ≡ some t
      → (in_folder os id change w).1.disk ≡ w.disk
  in_folder-refused id change w t h = elim (Option-cases (os.refuses w.calls)) [
    | inl e ↦ elim (Option-cases (lookup id w.disk.folders)) [
      | inl l ↦ rw (e, in_folder) (rw l refl)
      | inr (f, l) ↦ cc
    ]
    | inr (u, e) ↦ rw (e, in_folder) refl
  ]

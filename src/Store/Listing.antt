-- ===== src/Store/Listing.antt =====
-- The list of the sessions: those in view, the newest first.
use kubedrill.Shared.{
  ℕ, suc, ◌≤◌, String, some, List, [], ◌∷◌, ◌==◌, ◌≡◌, ◌≢◌, ◌↔◌, ◌⊎◌, refl, sym, ap, ◌∙◌, eq_iff,
  inl, inr, Option-cases, Bool-cases, Memᴰ, map, All, ltb, arith, mem-cons_cases,
}
use mathlib.Core.Bool.{false≢true}
use kubedrill.Shared.Sorting.{insert_by, mem-sort_by}
use kubedrill.Shared.Results.{Result, ok, err}
use kubedrill.Session.{Session, phase_stopped}
use kubedrill.Store.Files.{Folder, World, Os, lookup, file_of, read, tick}
use kubedrill.Store.{
  Codec, load, load_each, list, newer, newest_first, readable, count_live, live_count,
}
use kubedrill.Store.Sessions.{view, shown}
use kubedrill.Store.Saving.{load-same, load-shows}
use kubedrill.Store.Roundtrip.{none≢some, IsHealthy, load-of_view}

abbrev pub IsNewestFirst : List Session → Type 0
IsNewestFirst [] = Unit
IsNewestFirst (s ∷ ss) = All (λ t. t.started_at ≤ s.started_at) ss × IsNewestFirst ss

All-place :
    (P : Session → Type 0) (s : Session) (ss : List Session)
    → P s
    → All P ss
    → All P (insert_by newer s ss)
All-place P s [] p ps = (p, ps)
All-place P s (t ∷ ts) p (q, qs) = elim (Bool-cases (ltb t.started_at s.started_at)) [
  | inl e ↦ rw e (p, (q, qs))
  | inr e ↦ rw e (q, All-place P s ts p qs)
]

All-weaken :
    (P Q : Session → Type 0) (ss : List Session) → ((t : Session) → P t → Q t) → All P ss → All Q ss
All-weaken P Q [] h ps = tt
All-weaken P Q (t ∷ ts) h (p, ps) = (h t p, All-weaken P Q ts h ps)

IsNewestFirst-place :
    (s : Session) (ss : List Session) → IsNewestFirst ss → IsNewestFirst (insert_by newer s ss)
IsNewestFirst-place s [] h = (tt, tt)
IsNewestFirst-place s (t ∷ ts) (below, h) = elim (Bool-cases (ltb t.started_at s.started_at)) [
  | inl e ↦ rw e (
    (
      ground arith,
      All-weaken (λ u. u.started_at ≤ t.started_at) (λ u. u.started_at ≤ s.started_at) ts
          (λ u le. ground arith) below,
    ),
    (below, h),
  )
  | inr e ↦ rw e (
    All-place (λ u. u.started_at ≤ t.started_at) s ts (ground arith) below,
    IsNewestFirst-place s ts h,
  )
]

newest_first-IsNewestFirst : (ss : List Session) → IsNewestFirst (newest_first ss)
newest_first-IsNewestFirst [] = tt
newest_first-IsNewestFirst (s ∷ ss) =
    IsNewestFirst-place s (newest_first ss) (newest_first-IsNewestFirst ss)

-- The directories that are looked at are all that are there.
mem-names :
    (id : String) (f : Folder) (d : List (String × Folder))
    → lookup id d ≡ some f
    → Memᴰ id (map (λ (k, _). k) d)
mem-names id f [] h = cc
mem-names id f ((k, g) ∷ r) h = elim (Bool-cases (k == id)) [
  | inl e ↦ Memᴰ.head (sym ((eq_iff k id).0 e))
  | inr e ↦ Memᴰ.tail (mem-names id f r (rw e at h))
]

name_of_view :
    (codec : Codec) (w : World) (id : String) (s : Session)
    → view codec w.disk id ≡ some s
    → Memᴰ id (map (λ (k, _). k) w.disk.folders)
name_of_view codec w id s h = elim (Option-cases (lookup id w.disk.folders)) [
  | inl l ↦ absurd (none≢some (ap (λ o. shown codec (file_of o)) (sym l) ∙ h))
  | inr (f, l) ↦ mem-names id f w.disk.folders l
]

count_live_iff :
    (ss : List Session)
    → (count_live ss ≡ 0) ↔ ((s : Session) → Memᴰ s ss → s.phase ≡ phase_stopped)
count_live_iff [] = ((λ _ s m. elim m [ ]), (λ _. refl))
count_live_iff (s ∷ ss) = elim (Bool-cases (s.phase == phase_stopped)) [
  | inl e ↦
      let stopped = (eq_iff s.phase phase_stopped).0 e in
      let (to, from) = count_live_iff ss in
      rw e (
        (λ h a m. elim (mem-cons_cases m) [
          | inl is_s ↦ ap (λ (t : Session). t.phase) is_s ∙ stopped
          | inr t ↦ to h a t
        ]),
        (λ all. from (λ a t. all a (Memᴰ.tail t))),
      )
  | inr e ↦ rw e (
    (λ h. absurd (not_zero h)),
    (λ all.
        absurd (false≢true (sym e ∙ (eq_iff s.phase phase_stopped).1 (all s (Memᴰ.head refl))))),
  )
]
  where
    not_zero : {n : ℕ} → suc n ≢ 0
    not_zero h = omega arith

module _ (codec : Codec) (os : Os) (healthy : IsHealthy os) where
  -- One round of the loop of `List`.
  mem-readable :
      (r : Result Session) (s : Session) (rest : List Session)
      → Memᴰ s (readable os codec r rest) ↔ ((r ≡ ok s) ⊎ Memᴰ s rest)
  mem-readable (ok st) s rest = (
    (λ m. elim (mem-cons_cases m) [ inl e ↦ inl (ap ok (sym e)) | inr t ↦ inr t ]),
    (λ c. elim c [ inl e ↦ Memᴰ.head (cc) | inr t ↦ Memᴰ.tail t ]),
  )
  mem-readable (err e) s rest = ((λ m. inr m), (λ c. elim c [ inl e ↦ cc | inr t ↦ t ]))

  -- The sessions in view under some of the ids.
  abbrev InView : List String → World → Session → Type 0
  InView ids w s = (id : String) × Memᴰ id ids × (view codec w.disk id ≡ some s)

  load_each-InView :
      (ids : List String) (w : World) (s : Session)
      → Memᴰ s (load_each os codec ids w).0 ↔ InView ids w s
  unfolding load_each
  load_each-InView [] w s = ((λ m. elim m [ ]), (λ (id, m, _). elim m [ ]))
  load_each-InView (id ∷ ids) w s =
      let (to, from) =
        mem-readable (load os codec id w).0 s (load_each os codec ids (load os codec id w).1).0 in
      let (to', from') = load_each-InView ids (load os codec id w).1 s in
      let kept : (j : String) → view codec (load os codec id w).1.disk j ≡ view codec w.disk j =
        λ j. ap (λ d. view codec d j) (load-same codec os id w) in
      (
        (λ m. elim (to m) [
          | inl e ↦ (id, Memᴰ.head refl, load-shows codec os id w s e)
          | inr t ↦ let (j, i, v) = to' t in (j, Memᴰ.tail i, sym (kept j) ∙ v)
        ]),
        (λ (j, i, v). elim (mem-cons_cases i) [
          | inl e ↦
              from (inl (load-of_view codec os healthy id w s (ap (view codec w.disk) (sym e) ∙ v)))
          | inr t ↦ from (inr (from' (j, t, kept j ∙ v)))
        ]),
      )

  -- Without failing calls, the list has exactly the sessions that can be loaded, the newest first.
  pub list-IsListing :
      (w : World)
      → (states : List Session) × ((list os codec w).0 ≡ ok states)
        × IsNewestFirst states
        × ((s : Session) → Memᴰ s states ↔ ((id : String) × ((load os codec id w).0 ≡ ok s)))
  unfolding list
  list-IsListing w = (
    newest_first states,
    rw (healthy w.calls, read) refl,
    newest_first-IsNewestFirst states,
    (λ s.
        let (to, from) = load_each-InView ids opened s in
        let (out, back) = mem-sort_by newer s states in
        (
          (λ m. let (id, _, v) = to (out m) in (id, load-of_view codec os healthy id w s v)),
          (λ (id, h).
              let v = load-shows codec os id w s h in
              back (from (id, name_of_view codec w id s v, v))),
        )),
  )
    where
      opened : World
      opened = tick (λ d. d) w

      ids : List String
      ids = map (λ (id, _). id) w.disk.folders

      states : List Session
      states = (load_each os codec ids opened).0

  -- Without failing calls, the live sessions are counted as 0 exactly if every session that can be
  -- loaded is stopped.
  pub live_count-zero_iff :
      (w : World)
      → ((live_count os codec w).0 ≡ 0)
        ↔ ((id : String) (s : Session) → (load os codec id w).0 ≡ ok s → s.phase ≡ phase_stopped)
  unfolding live_count
  live_count-zero_iff w =
      let (states, e, _, members) = list-IsListing w in
      rw e (
        let (to, from) = count_live_iff states in
        (
          (λ h id s loaded. to h s ((members s).1 (id, loaded))),
          (λ all. from (λ s m. let (id, loaded) = (members s).0 m in all id s loaded)),
        ))

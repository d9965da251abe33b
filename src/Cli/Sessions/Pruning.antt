-- ===== src/Cli/Sessions/Pruning.antt =====
-- What `prune` removes.
use kubedrill.Shared.{
  map, String, true, false, none, List, [], ◌∷◌, ◌==◌, ◌≡◌, refl, sym, ap, ◌∙◌, subst, Bool-cases,
  inl, inr,
}
use kubedrill.Shared.Results.{Result, ok, err}
use kubedrill.Session.{Session}
use kubedrill.Rules.Grade.{contains}
use kubedrill.Store.Files.{World, Os}
use kubedrill.Store as Store
use kubedrill.Store.{Codec}
use kubedrill.Store.Sessions.{Sessions, view}
use kubedrill.Store.Views.{remove-healthy, remove-out, remove-in, list-same}
use kubedrill.Store.Roundtrip.{IsHealthy}
use kubedrill.Cli.Sessions.{
  Clusters, destroy_orphans, remove_stale, ids_listed, clusters_listed, prune_orphans,
}
use kubedrill.Cli.Sessions.Ids.{
  or_false_left, or_false_right, or_true_left, or_true_right, ne_of_contains, ne_of_contains_not,
}

module _ (os : Os) (codec : Codec) {W : Type 0} (clusters : Clusters W) where
  -- The calls that destroy clusters of which `sessions` has no id keep what holds of the clusters.
  abbrev KeptBy : List String → (W → Type 0) → Type 0
  KeptBy sessions P =
      (id : String) → contains sessions id ≡ false → (w : W) → P w → P (clusters.destroy id w).1

  destroy_orphans-same :
      (sessions ids : List String) (w : W) (f : World)
      → (destroy_orphans os codec clusters sessions ids (w, f)).1.1 ≡ f
  unfolding destroy_orphans
  destroy_orphans-same sessions [] w f = refl
  destroy_orphans-same sessions (id ∷ ids) w f = elim (Bool-cases (contains sessions id)) [
    | inl e ↦ rw (e, destroy_orphans) (destroy_orphans-same sessions ids w f)
    | inr e ↦
        rw (e, destroy_orphans) (destroy_orphans-same sessions ids (clusters.destroy id w).1 f)
  ]

  destroy_orphans-Kept :
      (sessions : List String) (P : W → Type 0) (kept : KeptBy sessions P) (ids : List String)
      (w : W) (f : World)
      → P w
      → P (destroy_orphans os codec clusters sessions ids (w, f)).1.0
  unfolding destroy_orphans
  destroy_orphans-Kept sessions P kept [] w f p = p
  destroy_orphans-Kept sessions P kept (id ∷ ids) w f p = elim (Bool-cases (contains sessions id)) [
    | inl e ↦ rw (e, destroy_orphans) (destroy_orphans-Kept sessions P kept ids w f p)
    | inr e ↦
        rw (e, destroy_orphans)
          (destroy_orphans-Kept sessions P kept ids (clusters.destroy id w).1 f (kept id e w p))
  ]

  remove_stale-cluster :
      (seen ids : List String) (w : W) (f : World)
      → (remove_stale os codec clusters seen ids (w, f)).1.0 ≡ w
  unfolding remove_stale
  remove_stale-cluster seen [] w f = refl
  remove_stale-cluster seen (id ∷ ids) w f = elim (Bool-cases (contains seen id)) [
    | inl e ↦ rw (e, remove_stale) (remove_stale-cluster seen ids w f)
    | inr e ↦ rw (e, remove_stale) (remove_stale-cluster seen ids w (Store.remove os codec id f).1)
  ]

  -- Of the sessions, those that are not among `ids` and those that are among `seen` are as before;
  -- the others are gone, where no call fails.
  abbrev Cleared : List String → List String → Sessions → Sessions → Type 0
  Cleared seen ids s s' =
      ((j : String) → contains ids j ≡ false → s' j ≡ s j)
      × ((j : String) → contains seen j ≡ true → s' j ≡ s j)
      × (IsHealthy os
          → (j : String) → contains ids j ≡ true
          → contains seen j ≡ false
          → s' j ≡ none)

  remove_stale-Cleared :
      (seen ids : List String) (w : W) (f : World)
      → contains ids "" ≡ false
      → Cleared seen ids
          (view codec f.disk)
          (view codec (remove_stale os codec clusters seen ids (w, f)).1.1.disk)
  unfolding remove_stale
  remove_stale-Cleared seen [] w f named = ((λ j _. refl), (λ j _. refl), (λ h j i _. cc))
  remove_stale-Cleared seen (id ∷ ids) w f named = elim (Bool-cases (contains seen id)) [
    | inl e ↦
        let (out, known, gone) =
          remove_stale-Cleared seen ids w f (or_false_right (id == "") (contains ids "") named) in
        rw (e, remove_stale)
          (
            (λ j o. out j (or_false_right (id == j) (contains ids j) o)),
            known,
            (λ h j i n.
                gone h j
                  (or_true_right (id == j) (contains ids j) i (ne_of_contains_not seen id j e n))
                  n),
          )
    | inr e ↦
        let (out, known, gone) =
          remove_stale-Cleared seen ids w (Store.remove os codec id f).1
            (or_false_right (id == "") (contains ids "") named) in
        let b = or_false_left (id == "") (contains ids "") named in
        rw (e, remove_stale)
          (
            (λ j o.
                out j (or_false_right (id == j) (contains ids j) o)
                ∙ remove-out os codec id f j b (or_false_left (id == j) (contains ids j) o)),
            (λ j k. known j k ∙ remove-out os codec id f j b (ne_of_contains seen id j e k)),
            (λ h j i n. elim (Bool-cases (contains ids j)) [
              | inl c ↦ gone h j c n
              | inr c ↦
                  out j c
                  ∙ remove-in os codec id f j (remove-healthy os codec id f (h f.calls))
                      (or_true_left (id == j) (contains ids j) i c)
            ]),
          )
  ]

  -- What pruning does to the sessions and to the clusters, by the sessions and the clusters that were
  -- listed.
  abbrev pub Pruned : List String → List String → Sessions → W → W × World → Type 1
  Pruned sessions seen s w (w', f') =
      Cleared seen sessions s (view codec f'.disk)
      × ((P : W → Type 0) → KeptBy sessions P → P w → P w')

  prune_orphans-PrunedBy :
      (ranged : List String → List String)
      → ((xs : List String) (j : String) → contains (ranged xs) j ≡ contains xs j)
      → (w : W) (f : World)
      → contains (ids_listed os codec clusters (Store.list os codec f).0) "" ≡ false
      → Pruned
          (ids_listed os codec clusters (Store.list os codec f).0)
          (clusters_listed os codec clusters (clusters.list w).0)
          (view codec f.disk)
          (clusters.list w).1
          (prune_orphans os codec clusters ranged (w, f)).1
  unfolding prune_orphans
  prune_orphans-PrunedBy ranged ranges w f named =
      let (out, known, gone) =
        remove_stale-Cleared seen (ranged sessions) spared between (ranges sessions "" ∙ named) in
      (
        (
          (λ j o. out j (ranges sessions j ∙ o) ∙ before j),
          (λ j k. known j k ∙ before j),
          (λ h j i n. gone h j (ranges sessions j ∙ i) n),
        ),
        (λ P kept p.
            subst P (sym (remove_stale-cluster seen (ranged sessions) spared between))
              (destroy_orphans-Kept sessions P kept seen (clusters.list w).1 listed p)),
      )
    where
      listed : World
      listed = (Store.list os codec f).1

      sessions : List String
      sessions = ids_listed os codec clusters (Store.list os codec f).0

      seen : List String
      seen = clusters_listed os codec clusters (clusters.list w).0

      spared : W
      spared = (destroy_orphans os codec clusters sessions seen ((clusters.list w).1, listed)).1.0

      between : World
      between = (destroy_orphans os codec clusters sessions seen ((clusters.list w).1, listed)).1.1

      before : (j : String) → view codec between.disk j ≡ view codec f.disk j
      before j =
          ap (λ (x : World). view codec x.disk j)
            (destroy_orphans-same sessions seen (clusters.list w).1 listed)
          ∙ ap (λ d. view codec d j) (list-same os codec f)

  -- The ids of the sessions that a listing gives; one that fails gives none.
  abbrev pub sessions_of : Result (List Session) → List String
  sessions_of (err e) = []
  sessions_of (ok states) = map (λ (st : Session). st.id) states

  -- The same of the clusters.
  abbrev pub clusters_of : Result (List String) → List String
  clusters_of (err e) = []
  clusters_of (ok ids) = ids

  ids_listed-sessions_of :
      (r : Result (List Session)) → ids_listed os codec clusters r ≡ sessions_of r
  ids_listed-sessions_of (err e) = refl
  ids_listed-sessions_of (ok states) = refl

  clusters_listed-clusters_of :
      (r : Result (List String)) → clusters_listed os codec clusters r ≡ clusters_of r
  clusters_listed-clusters_of (err e) = refl
  clusters_listed-clusters_of (ok ids) = refl

  -- Unless a listed session has a blank id: pruning removes no session whose cluster was listed, and none that was not listed; where no call
  -- on the files fails, every listed session whose cluster was not listed is gone. It destroys no
  -- cluster whose session was listed. A listing that fails lists none.
  pub prune_orphans-Pruned :
      (ranged : List String → List String)
      → ((xs : List String) (j : String) → contains (ranged xs) j ≡ contains xs j)
      → (w : W) (f : World) → contains (sessions_of (Store.list os codec f).0) "" ≡ false
      → Pruned
          (sessions_of (Store.list os codec f).0)
          (clusters_of (clusters.list w).0)
          (view codec f.disk)
          (clusters.list w).1
          (prune_orphans os codec clusters ranged (w, f)).1
  prune_orphans-Pruned ranged ranges w f named =
      let s_same = ids_listed-sessions_of (Store.list os codec f).0 in
      let c_same = clusters_listed-clusters_of (clusters.list w).0 in
      subst
        (λ xs.
          Pruned xs (clusters_of (clusters.list w).0) (view codec f.disk) (clusters.list w).1
            (prune_orphans os codec clusters ranged (w, f)).1)
        s_same
        (subst
          (λ ys.
            Pruned (ids_listed os codec clusters (Store.list os codec f).0) ys (view codec f.disk)
              (clusters.list w).1 (prune_orphans os codec clusters ranged (w, f)).1)
          c_same
          (prune_orphans-PrunedBy ranged ranges w f (ap (λ xs. contains xs "") s_same ∙ named)))

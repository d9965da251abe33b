-- ===== src/Provision/Reset/Laws.antt =====
-- What a reset has seen gone, and in which order.
use kubedrill.Shared.{
  ℕ, ◌+◌, ◌≤◌, String, true, false, none, List, [], ◌∷◌, ◌==◌, ◌≡◌, refl, sym, subst, arith, Bool,
  if◌then◌else◌, ◌⧺◌,
}
use kubedrill.Shared.Results.{Result, ok, err}
use kubedrill.Shared.State.{pure}
use kubedrill.Json.{Float64}
use kubedrill.Challenge.{Challenge}
use kubedrill.Cluster.{
  Api, ResourceInterface, Got, found, not_found, failed, GroupVersion, mapping_of, resource_for,
}
use kubedrill.Verify.Probe.{Texts, second}
use kubedrill.Provision.Waiting.{
  Awaited, arrived, late, cancelled, exhausted, await, Clock, Onward, Arrived, await-Arrived,
}
use kubedrill.Provision.{
  Writes, done, Deleted, deleted, absent, refused, as_it_is, unless_failing, apply,
}
use kubedrill.Provision.Laws.{
  EndsWith, EndsWith-map, EndsWith-done, unless_failing-EndsWith, PassedFrom, OnwardGates, broken,
  apply-EndsWith,
}
use kubedrill.Provision.Reset.Manifests.{Named, setup_objects-Named}
use kubedrill.Provision.Reset.{
  ObjRef, unless_gone, try_gone, delete_finish, wait_gone, after_delete, delete_resolved,
  delete_and_wait, delete_object, delete_all, delete_window, delete_rounds, setup_objects,
  reset_objects, reset,
}

module _ {F W : Type 0} (api : Api F W) (writes : Writes F W) (time : W → ℕ)
    (clock : Clock api time) where
  -- The calls of a deletion do not turn the clock back.
  pub record Forward : Type 0 where
    pub mapping : (g k v : String) → Onward time (api.rest_mapping g k v)
    pub deleting : (ri : ResourceInterface) (name : String) → Onward time (writes.delete ri name)
    pub getting : (ri : ResourceInterface) (name : String) → Onward time (api.get ri name)

  -- The object was not found, at a time that is not before `t`, nor after the world `w'`.
  abbrev pub GoneAt : ObjRef → ℕ → W → Type 0
  GoneAt o t w' =
      (ri : ResourceInterface) × (v : W) × (t ≤ time v)
      × ((api.get ri o.name v).0 ≡ not_found)
      × ((u : W) × ((resource_for api o.api_version o.kind o.namespace u).0 ≡ ok ri))
      × (time v ≤ time w')

  -- Every object but the namespaces was not found, each one after those that follow it in the list;
  -- the first at `t` or later, the last one at `w'` or before.
  abbrev pub AllGone : ℕ → List ObjRef → W → Type 0
  AllGone t [] w' = t ≤ time w'
  AllGone t (o ∷ os) w' =
      if o.kind == "Namespace"
      then AllGone t os w'
      else ((w : W) × AllGone t os w × GoneAt o (time w) w')

  module _ (forward : Forward) where
    try_gone-Onward :
        (ri : ResourceInterface) (name : String) → Onward time (try_gone api writes ri name)
    try_gone-Onward ri name w = forward.getting ri name w

    resource_for-Onward :
        (api_version kind namespace : String)
        → Onward time (resource_for api api_version kind namespace)
    unfolding resource_for
    resource_for-Onward api_version kind namespace w = either (api.parse_group_version api_version)
      where
        either :
            (r : Result GroupVersion)
            → time w ≤ time (mapping_of api api_version kind namespace r w).1
        either (err e) = omega arith
        either (ok gv) = forward.mapping gv.group kind gv.version w

    unless_gone-none : (got : Got F) → unless_gone api writes got ≡ none → got ≡ not_found
    unless_gone-none not_found h = refl
    unless_gone-none (found o) h = cc
    unless_gone-none (failed e) h = cc

    delete_finish-EndsWith :
        (o : ObjRef) (ri : ResourceInterface) (t : ℕ) (u : W) (a : Awaited) (w : W)
        → (resource_for api o.api_version o.kind o.namespace u).0 ≡ ok ri
        → Arrived api time clock second
            (try_gone api writes ri o.name)
            (try_gone-Onward ri o.name)
            t
            (a, w)
        → EndsWith (GoneAt o t) (delete_finish api writes o a w)
    delete_finish-EndsWith o ri t u arrived w m (v, h, e, l) = (
      ri,
      v,
      h,
      unless_gone-none (api.get ri o.name v).0 e,
      (u, m),
      subst (λ w. time v ≤ time w) (sym l) (forward.getting ri o.name v),
    )
    delete_finish-EndsWith o ri t u (late reason) w m s = tt
    delete_finish-EndsWith o ri t u cancelled w m s = tt
    delete_finish-EndsWith o ri t u exhausted w m s = s

    wait_gone-EndsWith :
        (o : ObjRef) (ri : ResourceInterface) (t : ℕ) (u w : W)
        → (resource_for api o.api_version o.kind o.namespace u).0 ≡ ok ri
        → t ≤ time w
        → EndsWith (GoneAt o t) (wait_gone api writes o ri w)
    wait_gone-EndsWith o ri t u w m h =
        let a = clock.reads w in
        let b = clock.reading w in
        let until = (api.now w).0 + delete_window in
        let waited =
          await api second (try_gone api writes ri o.name) delete_rounds until (api.now w).1 in
        EndsWith-map (GoneAt o (time (api.now w).1)) (GoneAt o t)
          (delete_finish api writes o waited.0 waited.1)
          (λ w' (ri', v, l, e, m', n). let k : t ≤ time v = omega arith in (ri', v, k, e, m', n))
          (delete_finish-EndsWith o ri (time (api.now w).1) u waited.0 waited.1 m (
            await-Arrived api time clock second (try_gone api writes ri o.name)
              (try_gone-Onward ri o.name) 31 until (api.now w).1 (omega arith)))

    delete_and_wait-EndsWith :
        (o : ObjRef) (w : W) → EndsWith (GoneAt o (time w)) (delete_and_wait api writes o w)
    unfolding delete_and_wait
    delete_and_wait-EndsWith o w =
        resolved (resource_for api o.api_version o.kind o.namespace w).0 refl
      where
        w₁ : W
        w₁ = (resource_for api o.api_version o.kind o.namespace w).1

        resolved :
            (r : Result ResourceInterface)
            → (resource_for api o.api_version o.kind o.namespace w).0 ≡ r
            → EndsWith (GoneAt o (time w)) (delete_resolved api writes o r w₁)
        resolved (err e) m = tt
        resolved (ok ri) m = removed (writes.delete ri o.name w₁).0
          where
            w₂ : W
            w₂ = (writes.delete ri o.name w₁).1

            later : time w ≤ time w₂
            later =
                let a = resource_for-Onward o.api_version o.kind o.namespace w in
                let b = forward.deleting ri o.name w₁ in omega arith

            removed :
                (d : Deleted) → EndsWith (GoneAt o (time w)) (after_delete api writes o ri d w₂)
            removed (refused e) = tt
            removed deleted = wait_gone-EndsWith o ri (time w) w w₂ m later
            removed absent = wait_gone-EndsWith o ri (time w) w w₂ m later

    delete_object-EndsWith :
        (o : ObjRef) (os : List ObjRef) (t : ℕ) (w : W)
        → AllGone t os w
        → EndsWith (AllGone t (o ∷ os)) (delete_object api writes o w)
    delete_object-EndsWith o os t w gone = either (o.kind == "Namespace")
      where
        after : W → Type 0
        after w' = (v : W) × AllGone t os v × GoneAt o (time v) w'

        either :
            (b : Bool)
            → EndsWith
                (λ w'. if b then AllGone t os w' else after w')
                ((if b then pure done else (λ w.
                    unless_failing
                      (λ e. "reset delete " ⧺ o.kind ⧺ "/" ⧺ o.name ⧺ ": " ⧺ e)
                      (pure done)
                      (delete_and_wait api writes o w).0
                      (delete_and_wait api writes o w).1))
                  w)
        either true = gone
        either false =
            unless_failing-EndsWith (GoneAt o (time w)) after
              (λ e. "reset delete " ⧺ o.kind ⧺ "/" ⧺ o.name ⧺ ": " ⧺ e) (pure done)
              (delete_and_wait api writes o w).0 (delete_and_wait api writes o w).1
              (delete_and_wait-EndsWith o w) (λ g. (w, gone, g))

    delete_all-EndsWith :
        (os : List ObjRef) (w : W) → EndsWith (AllGone (time w) os) (delete_all api writes os w)
    unfolding delete_all
    delete_all-EndsWith [] w = let e : time w ≤ time w = omega arith in e
    delete_all-EndsWith (o ∷ os) w =
        unless_failing-EndsWith (AllGone (time w) os) (AllGone (time w) (o ∷ os)) as_it_is
          (delete_object api writes o) (delete_all api writes os w).0 (delete_all api writes os w).1
          (delete_all-EndsWith os w)
          (delete_object-EndsWith o os (time w) (delete_all api writes os w).1)

module _ (fl : Float64) {W : Type 0} (api : Api fl.Float W) (texts : Texts)
    (writes : Writes fl.Float W) (dir : String) (time : W → ℕ) (clock : Clock api time)
    (forward : Forward api writes time clock) where
  -- The objects that the manifests name are gone by the world `w`, and the setup was then applied to
  -- it without an error, which ended in the world `w'`.
  abbrev pub Restored : Challenge → W → W → Type 0
  Restored ch start w' =
      (objs : List ObjRef) × (w : W) × Named api writes dir ch.environment.setup.manifests objs
      × AllGone api writes time clock
          (time (setup_objects api writes dir ch.environment.setup.manifests start).1) objs w
      × ((apply fl api texts writes dir ch w).0 ≡ done)
      × PassedFrom fl api texts writes dir time
          (time (broken fl api texts writes dir time clock ch w)) ch.environment.setup.readiness w'

  -- The `Reset` of a setup comes to an end, if the clock reads and waits as a clock does. Where it
  -- returns no error, each object that a document of the manifests names was, unless it is a
  -- namespace, not found by a `Get` of its resource, the later ones first, and then the setup was applied
  -- without an error and every readiness gate has passed after its faults.
  pub reset-EndsWith :
      (ch : Challenge) (w : W)
      → OnwardGates fl api texts writes dir time ch.environment.setup.readiness
      → EndsWith (Restored ch w) (reset fl api texts writes dir ch w)
  unfolding reset
  reset-EndsWith ch w onward = either read.0 refl
    where
      read : Result (List ObjRef) × W
      read = setup_objects api writes dir ch.environment.setup.manifests w

      named :
          (objs : List ObjRef)
          → read.0 ≡ ok objs
          → Named api writes dir ch.environment.setup.manifests objs
      named objs m =
          setup_objects-Named api writes dir ch.environment.setup.manifests w objs objs m (λ x i. i)

      either :
          (r : Result (List ObjRef))
          → read.0 ≡ r
          → EndsWith (Restored ch w) (reset_objects fl api texts writes dir ch r read.1)
      either (err e) m = tt
      either (ok objs) m =
          unless_failing-EndsWith (AllGone api writes time clock (time read.1) objs) (Restored ch w)
            as_it_is (apply fl api texts writes dir ch) (delete_all api writes objs read.1).0
            cleared (delete_all-EndsWith api writes time clock forward objs read.1)
            (λ gone.
              EndsWith-map Applied (Restored ch w) (apply fl api texts writes dir ch cleared)
                (λ w' (applied, p). (objs, cleared, named objs m, gone, applied, p))
                (EndsWith-done
                  (PassedFrom fl api texts writes dir time
                    (time (broken fl api texts writes dir time clock ch cleared))
                    ch.environment.setup.readiness)
                  (apply fl api texts writes dir ch cleared)
                  (apply-EndsWith fl api texts writes dir time clock ch cleared onward)))
        where
          cleared : W
          cleared = (delete_all api writes objs read.1).1

          Applied : W → Type 0
          Applied w' =
              ((apply fl api texts writes dir ch cleared).0 ≡ done)
              × PassedFrom fl api texts writes dir time
                  (time (broken fl api texts writes dir time clock ch cleared))
                  ch.environment.setup.readiness w'

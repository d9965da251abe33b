-- ===== src/Verify/Checks/Listing.antt =====
-- internal/verify/cel.go: the objects that a check sees when it names targets.
use kubedrill.Shared.{
  ◌≡◌, refl, ◌↔◌, String, Bool, true, false, not, List, Memᴰ, filter, filter_mem, filter_keeps, inl,
  inr, Bool-cases, ◌⊎◌, eq_iff, Option-cases, Option, some, none, ◌∙◌, sym, ◌==◌, arith,
}
use kubedrill.Shared.Results.{Result, ok, err}
use mathlib.Core.Bool.{false≢true}
use kubedrill.Json.{Json, Fields, Float64, lookup, null, bool, float, int, str, arr, obj}
use kubedrill.Challenge.{Targets}
use kubedrill.Cluster.{Api, ResourceInterface, resource_for}
use kubedrill.Verify.Outcome.{errored}
use kubedrill.Verify.Probe.{Texts}
use kubedrill.Verify.Checks.{
  Fetched, fetched, decides, listed, list_from, list_targets, is_probe_object, has_label, as_map,
  map_at, or_default_version,
}

not_iff : (b : Bool) → (not b ≡ true) ↔ (b ≡ false)
not_iff b = ((λ h. ground arith), (λ h. ground arith))

module _ {F : Type 0} where
  -- The object has labels, and among them that of a probe.
  abbrev pub IsProbeObject : Fields F → Type 0
  IsProbeObject o =
      (metadata : Fields F) × (labels : Fields F) × (value : Json F) × (lookup "metadata" o
        ≡ some (obj metadata))
      × (lookup "labels" metadata ≡ some (obj labels))
      × (lookup "kubedrill.dev/probe" labels ≡ some value)

  labels-labelled :
      (labels : Option (Json F))
      → has_label (as_map labels) ≡ true
      → (ls : Fields F) × (value : Json F) × (labels ≡ some (obj ls))
        × (lookup "kubedrill.dev/probe" ls ≡ some value)
  labels-labelled none h = cc
  labels-labelled (some null) h = cc
  labels-labelled (some (bool b)) h = cc
  labels-labelled (some (float n)) h = cc
  labels-labelled (some (int n)) h = cc
  labels-labelled (some (str t)) h = cc
  labels-labelled (some (arr vs)) h = cc
  labels-labelled (some (obj ls)) h = elim (Option-cases (lookup "kubedrill.dev/probe" ls)) [
    | inl e ↦ let k = rw e at h in cc
    | inr (v, e) ↦ (ls, v, refl, e)
  ]

  metadata-labelled :
      (metadata : Option (Json F))
      → has_label (map_at "labels" (as_map metadata)) ≡ true
      → (ms : Fields F) × (ls : Fields F) × (value : Json F) × (metadata ≡ some (obj ms))
        × (lookup "labels" ms ≡ some (obj ls))
        × (lookup "kubedrill.dev/probe" ls ≡ some value)
  metadata-labelled none h = cc
  metadata-labelled (some null) h = cc
  metadata-labelled (some (bool b)) h = cc
  metadata-labelled (some (float n)) h = cc
  metadata-labelled (some (int n)) h = cc
  metadata-labelled (some (str t)) h = cc
  metadata-labelled (some (arr vs)) h = cc
  metadata-labelled (some (obj ms)) h =
      let (ls, v, e, f) = labels-labelled (lookup "labels" ms) h in (ms, ls, v, refl, e, f)

  is_probe_object_iff : (o : Fields F) → (is_probe_object o ≡ false) ↔ ¬ IsProbeObject o
  unfolding is_probe_object
  is_probe_object_iff o = (
    (λ h (ms, ls, v, m, l, p). false≢true (sym h ∙ rw (m, l, p) refl)),
    (λ n. elim (Bool-cases (is_probe_object o)) [
      | inl e ↦ absurd (n (metadata-labelled (lookup "metadata" o) e))
      | inr e ↦ e
    ]),
  )

module _ (fl : Float64) {W : Type 0} (api : Api fl.Float W) (texts : Texts) (dir : String) where
  open fl use {Float}

  -- What the listing in the world `w` gives: an error, where the kind has no
  -- version, or resolving or listing it fails, or, where the kind of the targets is resolved
  -- and the cluster lists its objects with the label selector, exactly those that are no probe's.
  abbrev pub IsListing : Targets → W → Fetched (List (Fields Float)) → Type 0
  IsListing t w (decides r) =
      let (resolved, w') =
        resource_for api (or_default_version t.api_version t.kind) t.kind t.namespace w in
      (r.outcome ≡ errored)
      × ((or_default_version t.api_version t.kind ≡ "")
          ⊎ (((e : String) × (resolved ≡ err e))
              ⊎ ((ri : ResourceInterface) × (e : String) × (resolved ≡ ok ri)
                  × ((api.list ri t.label_selector w').0 ≡ err e))))
  IsListing t w (fetched os) =
      let (resolved, w') =
        resource_for api (or_default_version t.api_version t.kind) t.kind t.namespace w in
      (ri : ResourceInterface) × (all : List (Fields Float)) × (resolved ≡ ok ri)
      × ((api.list ri t.label_selector w').0 ≡ ok all)
      × ((o : Fields Float) → Memᴰ o os ↔ (Memᴰ o all × ¬ IsProbeObject o))

  kept :
      (all : List (Fields Float)) (o : Fields Float)
      → Memᴰ o (filter (λ x. not (is_probe_object x)) all) ↔ (Memᴰ o all × ¬ IsProbeObject o)
  kept all o =
      let p : Fields Float → Bool = λ x. not (is_probe_object x) in
      (
        (λ m.
            let (l, h) = filter_mem p o all m in
            (l, (is_probe_object_iff o).0 ((not_iff (is_probe_object o)).0 h))),
        (λ (l, h).
            filter_keeps p o all l ((not_iff (is_probe_object o)).1 ((is_probe_object_iff o).1 h))),
      )

  list_from-IsListing :
      (t : Targets) (w : W)
      → let (resolved, w') =
          resource_for api (or_default_version t.api_version t.kind) t.kind t.namespace w in
        IsListing t w (list_from fl api texts dir t resolved w').0
  list_from-IsListing t w = either resolution.0 refl
    where
      resolution : Result ResourceInterface × W
      resolution = resource_for api (or_default_version t.api_version t.kind) t.kind t.namespace w

      listed_as :
          (ri : ResourceInterface) (answer : Result (List (Fields Float)))
          → resolution.0 ≡ ok ri
          → (api.list ri t.label_selector resolution.1).0 ≡ answer
          → IsListing t w (listed fl api texts dir t answer)
      listed_as ri (err e) r h = (refl, inr (inr (ri, e, r, h)))
      listed_as ri (ok all) r h = (ri, all, r, h, kept all)

      either :
          (r : Result ResourceInterface)
          → resolution.0 ≡ r
          → IsListing t w (list_from fl api texts dir t r resolution.1).0
      either (err e) h = (refl, inr (inl (e, h)))
      either (ok ri) h = listed_as ri (api.list ri t.label_selector resolution.1).0 h refl

  -- Listing targets ends in an error, where the kind of the targets is not resolved or
  -- the cluster does not list it, or it gives exactly the objects that the cluster listed for the
  -- kind and the label selector of the targets, less those with the label of a probe.
  pub list_targets-IsListing :
      (t : Targets) (w : W) → IsListing t w (list_targets fl api texts dir t w).0
  unfolding list_targets
  list_targets-IsListing t w = elim (Bool-cases (or_default_version t.api_version t.kind == "")) [
    | inl e ↦
        rw (e, list_targets) (refl, inl ((eq_iff (or_default_version t.api_version t.kind) "").0 e))
    | inr n ↦ rw (n, list_targets) (list_from-IsListing t w)
  ]

-- ===== src/Provision/Reset/Manifests.antt =====
-- The objects that the manifests of a setup name are those that a reset deletes.
use kubedrill.Shared.{
  String, List, [], ◌∷◌, ◌++◌, ◌==◌, ◌≡◌, ◌⊎◌, inl, inr, refl, subst, eq_iff, map, Memᴰ, All,
  Bool-cases, if◌then◌else◌, mem-append_left, mem-append_right, true, false, Bool,
}
use kubedrill.Shared.Results.{Result, ok, err, ok_injective}
use kubedrill.Json.{Fields}
use kubedrill.Challenge.{ManifestRef}
use kubedrill.Cluster.{Api}
use kubedrill.Provision.{Writes}
use kubedrill.Provision.Reset.{
  ObjRef, and_refs, parsed_ref, and_then_refs, document_refs, file_refs, with_refs, setup_objects,
}

module _ {F W : Type 0} (api : Api F W) (writes : Writes F W) where
  -- The document is blank, or it is an object that is among `objs`, unless it has no kind.
  abbrev pub InDocument : List ObjRef → String → Type 0
  InDocument objs doc =
      (doc ≡ "")
      ⊎ ((o : Fields F) × (writes.parse_yaml doc ≡ ok o)
          × ((writes.kind_of o ≡ "")
              ⊎ Memᴰ
                  (record {
                    api_version = writes.api_version_of o;
                    kind = writes.kind_of o;
                    namespace = writes.namespace_of o;
                    name = writes.name_of o;
                  })
                  objs))

  -- Every document of every manifest, as it was read in some world, names an object of `objs`.
  abbrev pub Named : String → List ManifestRef → List ObjRef → Type 0
  Named dir ms objs =
      All
        (λ (m : ManifestRef).
          (raw : String) × (w : W) × ((api.read_file dir m.path w).0 ≡ ok raw)
          × All (InDocument objs) (map writes.trim_space (writes.split raw "\n---")))
        ms

  -- All of the one list are in the other.
  abbrev Within : List ObjRef → List ObjRef → Type 0
  Within xs ys = (x : ObjRef) → Memᴰ x xs → Memᴰ x ys

  and_refs-ok :
      (xs : List ObjRef) (r : Result (List ObjRef)) (objs : List ObjRef)
      → and_refs api writes xs r ≡ ok objs
      → (more : List ObjRef) × (r ≡ ok more) × (xs ++ more ≡ objs)
  and_refs-ok xs (err e) objs h = cc
  and_refs-ok xs (ok more) objs h = (more, refl, ok_injective h)

  document_refs-InDocument :
      (path : String) (docs : List String) (objs target : List ObjRef)
      → document_refs api writes path docs ≡ ok objs
      → Within objs target
      → All (InDocument target) docs
  unfolding document_refs
  document_refs-InDocument path [] objs target h k = tt
  document_refs-InDocument path (doc ∷ docs) objs target h k = elim (Bool-cases (doc == "")) [
    | inl e ↦
        (inl ((eq_iff doc "").0 e), document_refs-InDocument path docs objs target (rw e at h) k)
    | inr e ↦
        parsed (writes.parse_yaml doc) refl (rw e at h)
          (λ more. document_refs-InDocument path docs more target)
  ]
    where
      rest : Result (List ObjRef)
      rest = document_refs api writes path docs

      Later : Type 0
      Later =
          (more : List ObjRef) → rest ≡ ok more → Within more target → All (InDocument target) docs

      named :
          (o : Fields F)
          → writes.parse_yaml doc ≡ ok o
          → (b : Bool) → (writes.kind_of o == "") ≡ b
          → and_refs api writes
              (if b
                then []
                else record {
                  api_version = writes.api_version_of o;
                  kind = writes.kind_of o;
                  namespace = writes.namespace_of o;
                  name = writes.name_of o;
                }
                  ∷ [])
              rest
            ≡ ok objs
          → Later
          → All (InDocument target) (doc ∷ docs)
      named o p true e h later =
          let (more, r, whole) = and_refs-ok [] rest objs h in
          (
            inr (o, p, inl ((eq_iff (writes.kind_of o) "").0 e)),
            later more r (λ x m. k x (subst (Memᴰ x) whole m)),
          )
      named o p false e h later =
          let (more, r, whole) = and_refs-ok (_ ∷ []) rest objs h in
          (
            inr (o, p, inr (k _ (subst (Memᴰ _) whole (Memᴰ.head refl)))),
            later more r (λ x m. k x (subst (Memᴰ x) whole (Memᴰ.tail m))),
          )

      parsed :
          (r : Result (Fields F))
          → writes.parse_yaml doc ≡ r
          → and_then_refs api writes (parsed_ref api writes path r) rest ≡ ok objs
          → Later
          → All (InDocument target) (doc ∷ docs)
      parsed (err e) p h later = cc
      parsed (ok o) p h later = named o p (writes.kind_of o == "") refl h later

  -- What a reset reads of the manifests has every object that they name.
  pub setup_objects-Named :
      (dir : String) (ms : List ManifestRef) (w : W) (objs target : List ObjRef)
      → (setup_objects api writes dir ms w).0 ≡ ok objs
      → Within objs target
      → Named dir ms target
  unfolding setup_objects
  setup_objects-Named dir [] w objs target h k = tt
  setup_objects-Named dir (m ∷ ms) w objs target h k =
      read (api.read_file dir m.path w).0 refl h
        (λ more. setup_objects-Named dir ms (api.read_file dir m.path w).1 more target)
    where
      w' : W
      w' = (api.read_file dir m.path w).1

      Later : Type 0
      Later =
          (more : List ObjRef)
          → (setup_objects api writes dir ms w').0 ≡ ok more
          → Within more target
          → Named dir ms target

      filed :
          (raw : String) (xs : Result (List ObjRef))
          → (api.read_file dir m.path w).0 ≡ ok raw
          → file_refs api writes m.path (ok raw) ≡ xs
          → (with_refs api writes (setup_objects api writes dir ms) xs w').0 ≡ ok objs
          → Later
          → Named dir (m ∷ ms) target
      filed raw (err e) r f h later = cc
      filed raw (ok xs) r f h later =
          let (more, rest, whole) = and_refs-ok xs (setup_objects api writes dir ms w').0 objs h in
          (
            (
              raw,
              w,
              r,
              document_refs-InDocument m.path (map writes.trim_space (writes.split raw "\n---")) xs
                  target f (λ x i. k x (subst (Memᴰ x) whole (mem-append_left more i))),
            ),
            later more rest (λ x i. k x (subst (Memᴰ x) whole (mem-append_right xs i))),
          )

      read :
          (r : Result String)
          → (api.read_file dir m.path w).0 ≡ r
          → (with_refs api writes
              (setup_objects api writes dir ms)
              (file_refs api writes m.path r)
              w').0
            ≡ ok objs
          → Later
          → Named dir (m ∷ ms) target
      read (err e) r h later = cc
      read (ok raw) r h later = filed raw (file_refs api writes m.path (ok raw)) r refl h later

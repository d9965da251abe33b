-- ===== src/Provision/Labels.antt =====
-- Which objects `applyManifest` sends to the cluster.
use kubedrill.Shared.{
  String, Bool, true, false, Option, none, some, List, [], ◌∷◌, ◌==◌, ◌≡◌, refl, eq_iff,
  if◌then◌else◌, Bool-cases, inl, inr, ◌⧺◌,
}
use kubedrill.Shared.Results.{Result, ok, err}
use kubedrill.Shared.State.{M}
use kubedrill.Json.{Fields, end, field}
use kubedrill.Challenge.{ManifestRef}
use kubedrill.Cluster.{Api, ResourceInterface, GroupVersion, mapping_of, resource_for}
use kubedrill.Provision.Calls.{Labels}
use kubedrill.Provision.{
  Writes, with_label, challenge_label, apply_patch, as_it_is, unless_error, or_no_labels,
  challenge_labelled, patch_resolved, patch_marshalled, patch_object, apply_parsed, apply_document,
  apply_documents, apply_file, apply_manifest, apply_manifests, split_yaml,
}

-- The value of a label.
abbrev pub label_value : String → Labels → Option String
label_value key [] = none
label_value key ((k, v) ∷ rest) = if k == key then some v else label_value key rest

label_value-with_label :
    (key value : String) (ls : Labels) → label_value key (with_label key value ls) ≡ some value
label_value-with_label key value [] = rw ((eq_iff key key).1 refl) refl
label_value-with_label key value ((k, v) ∷ rest) = elim (Bool-cases (k == key)) [
  | inl e ↦ rw (e, e) refl
  | inr e ↦ rw (e, e) (label_value-with_label key value rest)
]

-- A computation that keeps what holds of the world.
abbrev pub Keeps : {W A : Type 0} → (W → Type 0) → M W A → Type 0
Keeps P m = (w : _) → P w → P (m w).1

module _ {F W : Type 0} (api : Api F W) (writes : Writes F W) where
  -- The object carries the label of the challenge.
  abbrev pub IsLabelled : String → Fields F → Type 0
  IsLabelled name o =
      (ls : Labels) × (writes.labels_of o ≡ some ls) × (label_value challenge_label ls ≡ some name)

  -- What is documented of `SetLabels` and `GetLabels`.
  abbrev pub Marks : Type 0
  Marks = (ls : Labels) (o : Fields F) → writes.labels_of (writes.set_labels ls o) ≡ some ls

  -- Whatever holds of the world is kept by the lookups and the reads, and by the server-side applies
  -- of objects that carry the label.
  pub record Kept (name : String) (P : W → Type 0) : Type 0 where
    pub mapping : (g k v : String) → Keeps P (api.rest_mapping g k v)
    pub reading : (dir path : String) → Keeps P (api.read_file dir path)
    pub applying :
        (ri : ResourceInterface) (o : Fields F) (content : String)
        → writes.marshal o ≡ ok content
        → IsLabelled name o
        → Keeps P (writes.patch ri (writes.name_of o) apply_patch content)

  module _ (marks : Marks) (name : String) (P : W → Type 0) (kept : Kept name P) where
    challenge_labelled-IsLabelled :
        (o : Fields F) → IsLabelled name (challenge_labelled api writes name o)
    challenge_labelled-IsLabelled o =
        let ls = with_label challenge_label name (or_no_labels (writes.labels_of o)) in
        (
          ls,
          marks ls o,
          label_value-with_label challenge_label name (or_no_labels (writes.labels_of o)),
        )

    resource_for-Keeps :
        (api_version kind namespace : String)
        → Keeps P (resource_for api api_version kind namespace)
    unfolding resource_for
    resource_for-Keeps api_version kind namespace w p = either (api.parse_group_version api_version)
      where
        either : (r : Result GroupVersion) → P (mapping_of api api_version kind namespace r w).1
        either (err e) = p
        either (ok gv) = kept.mapping gv.group kind gv.version w p

    unless_error-Keeps :
        (label : String → String) (rest : M W (Option String)) (e : Option String)
        → Keeps P rest
        → Keeps P (unless_error label rest e)
    unless_error-Keeps label rest none h = h
    unless_error-Keeps label rest (some e) h = λ w p. p

    patch_marshalled-Keeps :
        (o : Fields F) (ri : ResourceInterface) (r : Result String)
        → writes.marshal o ≡ r
        → IsLabelled name o
        → Keeps P (patch_marshalled api writes o ri r)
    patch_marshalled-Keeps o ri (err e) m l w p = p
    patch_marshalled-Keeps o ri (ok content) m l w p = kept.applying ri o content m l w p

    patch_resolved-Keeps :
        (o : Fields F) (r : Result ResourceInterface)
        → IsLabelled name o
        → Keeps P (patch_resolved api writes o r)
    patch_resolved-Keeps o (err e) l w p = p
    patch_resolved-Keeps o (ok ri) l w p = patch_marshalled-Keeps o ri (writes.marshal o) refl l w p

    patch_object-Keeps : (o : Fields F) → IsLabelled name o → Keeps P (patch_object api writes o)
    patch_object-Keeps o l w p =
        let found =
          resource_for api (writes.api_version_of o) (writes.kind_of o) (writes.namespace_of o) w in
        patch_resolved-Keeps o found.0 l found.1 (
          resource_for-Keeps (writes.api_version_of o) (writes.kind_of o) (writes.namespace_of o) w
            p)

    apply_parsed-Keeps : (r : Result (Fields F)) → Keeps P (apply_parsed api writes name r)
    apply_parsed-Keeps (err e) w p = p
    apply_parsed-Keeps (ok end) w p = p
    apply_parsed-Keeps (ok (field k v fs)) w p =
        patch_object-Keeps (challenge_labelled api writes name (field k v fs))
          (challenge_labelled-IsLabelled (field k v fs)) w p

    apply_document-Keeps : (doc : String) → Keeps P (apply_document api writes name doc)
    apply_document-Keeps doc w p = either (doc == "")
      where
        either :
            (b : Bool)
            → P
                ((if b
                    then (λ w. (none, w))
                    else apply_parsed api writes name (writes.parse_yaml doc))
                  w).1
        either true = p
        either false = apply_parsed-Keeps (writes.parse_yaml doc) w p

    apply_documents-Keeps : (docs : List String) → Keeps P (apply_documents api writes name docs)
    unfolding apply_documents
    apply_documents-Keeps [] w p = p
    apply_documents-Keeps (doc ∷ docs) w p =
        let done = apply_document api writes name doc w in
        unless_error-Keeps as_it_is (apply_documents api writes name docs) done.0
          (apply_documents-Keeps docs) done.1 (apply_document-Keeps doc w p)

    apply_manifest-Keeps : (dir path : String) → Keeps P (apply_manifest api writes dir path name)
    unfolding apply_manifest
    apply_manifest-Keeps dir path w p =
        either (api.read_file dir path w).0 (api.read_file dir path w).1 (kept.reading dir path w p)
      where
        either : (r : Result String) → Keeps P (apply_file api writes name r)
        either (err e) w p = p
        either (ok raw) w p = apply_documents-Keeps (split_yaml writes raw) w p

    -- Applying the manifests of a challenge sends no object to the cluster without the label of the
    -- challenge, whatever labels its document has: what lookups, reads and server-side applies of
    -- labelled objects keep of the world, it keeps, wherever it stops.
    pub apply_manifests-Keeps :
        (dir : String) (ms : List ManifestRef) → Keeps P (apply_manifests api writes dir name ms)
    unfolding apply_manifests
    apply_manifests-Keeps dir [] w p = p
    apply_manifests-Keeps dir (m ∷ ms) w p =
        let done = apply_manifest api writes dir m.path name w in
        unless_error-Keeps (λ e. "apply " ⧺ m.path ⧺ ": " ⧺ e)
          (apply_manifests api writes dir name ms) done.0 (apply_manifests-Keeps dir ms) done.1
          (apply_manifest-Keeps dir m.path w p)

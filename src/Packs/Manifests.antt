-- ===== src/Packs/Manifests.antt =====
-- Which manifests `readManifest` accepts.
use Prim.Native.Char.{Char}
use mathlib.Core.Bool.{false≢true}
use kubedrill.Shared.{
  String, Bool, true, false, not, ◌&&◌, ◌||◌, ◌≡◌, ◌≢◌, ◌↔◌, refl, sym, ap, ◌∙◌, subst, ◌==◌,
  eq_iff, Bool-cases, inl, inr,
}
use kubedrill.Shared.Results.{Result, ok, err, err≢ok, ok_injective}
use kubedrill.Packs.{
  Manifest, Shelf, pack_api_version, pack_kind, manifest_name, is_alnum, is_label_char, ends_label,
  is_label, check_manifest, checked_manifest, manifest_of, read_manifest,
}

abbrev AllLabel : String → Type 0
AllLabel String.[] = Unit
AllLabel (String.◌∷◌ c s) = (is_label_char c ≡ true) × AllLabel s

abbrev last_char : Char → String → Char
last_char c String.[] = c
last_char c (String.◌∷◌ d s) = last_char d s

-- A text of letters, digits and dashes, of which the first and the last are no dash.
abbrev pub IsLabel : String → Type 0
IsLabel String.[] = ⊥
IsLabel (String.◌∷◌ c s) = (is_alnum c ≡ true) × (AllLabel s × (is_alnum (last_char c s) ≡ true))

and_iff : (a b : Bool) → ((a && b) ≡ true) ↔ ((a ≡ true) × (b ≡ true))
and_iff true b = ((λ h. (refl, h)), (λ (_, h). h))
and_iff false b = ((λ h. absurd (false≢true h)), (λ (h, _). absurd (false≢true h)))

ends_label_iff :
    (c : Char) (s : String)
    → (ends_label (is_alnum c) s ≡ true) ↔ (AllLabel s × (is_alnum (last_char c s) ≡ true))
unfolding ends_label
ends_label_iff c String.[] = ((λ h. (tt, h)), (λ (_, h). h))
ends_label_iff c (String.◌∷◌ d s) =
    let (to, from) = and_iff (is_label_char d) (ends_label (is_alnum d) s) in
    let (to', from') = ends_label_iff d s in
    (
      (λ h. let (one, rest) = to h in let (all, last) = to' rest in ((one, all), last)),
      (λ ((one, all), last). from (one, from' (all, last))),
    )

is_label_iff : (s : String) → (is_label s ≡ true) ↔ IsLabel s
unfolding is_label
is_label_iff String.[] = ((λ h. false≢true h), (λ b. absurd b))
is_label_iff (String.◌∷◌ c s) = elim (Bool-cases (is_alnum c)) [
  | inl e ↦
      let (to, from) = ends_label_iff c s in
      rw e ((λ h. (refl, to (rw e h))), (λ (_, l). rw e at from l))
  | inr e ↦ rw e ((λ h. absurd (false≢true h)), (λ (h, _). absurd (false≢true h)))
]

-- The document of a pack: its header, a name that is a label, and a version.
pub record IsManifest (m : Manifest) : Type 0 where
  pub document_version : m.api_version ≡ pack_api_version
  pub document_kind : m.kind ≡ pack_kind
  pub label : IsLabel m.name
  pub version : m.version ≢ ""

header_of : (a b : Bool) → (not a || not b) ≡ false → (a ≡ true) × (b ≡ true)
header_of true true h = (refl, refl)
header_of true false h = cc
header_of false b h = cc

IsManifest-of : (m m' : Manifest) → check_manifest m ≡ ok m' → (m ≡ m') × IsManifest m
unfolding check_manifest
IsManifest-of m m' h =
    elim (Bool-cases (not (m.api_version == pack_api_version) || not (m.kind == pack_kind))) [
      | inl e ↦ absurd (err≢ok (rw (e, check_manifest) at h))
      | inr e ↦ elim (Bool-cases (is_label m.name)) [
        | inr l ↦ absurd (err≢ok (rw (e, l, check_manifest) at h))
        | inl l ↦ elim (Bool-cases (m.version == "")) [
          | inl v ↦ absurd (err≢ok (rw (e, l, v, check_manifest) at h))
          | inr v ↦
              let (a, k) = header_of (m.api_version == pack_api_version) (m.kind == pack_kind) e in
              (
                ok_injective (rw (e, l, v, check_manifest) at h),
                record {
                  document_version = (eq_iff m.api_version pack_api_version).0 a;
                  document_kind = (eq_iff m.kind pack_kind).0 k;
                  label = (is_label_iff m.name).0 l;
                  version = λ blank. false≢true (sym v ∙ (eq_iff m.version "").1 blank);
                },
              )
        ]
      ]
    ]

IsManifest-accepted : (m : Manifest) → IsManifest m → check_manifest m ≡ ok m
unfolding check_manifest
IsManifest-accepted m i = elim (Bool-cases (m.version == "")) [
  | inl v ↦ absurd (i.version ((eq_iff m.version "").0 v))
  | inr v ↦ rw ((eq_iff m.api_version pack_api_version).1 i.document_version) (
      rw ((eq_iff m.kind pack_kind).1 i.document_kind)
        (rw ((is_label_iff m.name).1 i.label) (rw v refl)))
]

module _ {F : Type 0} (shelf : Shelf F) where
  checked_manifest_iff :
      (r : Result Manifest) (m : Manifest)
      → (checked_manifest r ≡ ok m) ↔ ((r ≡ ok m) × IsManifest m)
  checked_manifest_iff (err e) m = ((λ h. absurd (err≢ok h)), (λ (h, _). absurd (err≢ok h)))
  checked_manifest_iff (ok d) m = (
    (λ h. let (same, i) = IsManifest-of d m h in (ap ok same, subst IsManifest same i)),
    (λ (h, i). ap check_manifest (ok_injective h) ∙ IsManifest-accepted m i),
  )

  manifest_of_iff :
      (r : Result String) (m : Manifest)
      → (manifest_of shelf r ≡ ok m)
        ↔ ((raw : String) × (r ≡ ok raw) × (shelf.unmarshal_manifest raw ≡ ok m) × IsManifest m)
  manifest_of_iff (err e) m = ((λ h. absurd (err≢ok h)), (λ (raw, h, _, _). absurd (err≢ok h)))
  manifest_of_iff (ok raw) m =
      let (to, from) = checked_manifest_iff (shelf.unmarshal_manifest raw) m in
      (
        (λ h. let (decodes, i) = to h in (raw, refl, decodes, i)),
        (λ (raw', same, decodes, i).
            from (ap shelf.unmarshal_manifest (ok_injective same) ∙ decodes, i)),
      )

  -- A manifest is read from a directory exactly if its pack.yaml can be read and strictly decodes to
  -- it, and it has the header of the format, a version, and as its name a text of lower-case letters,
  -- digits and dashes that neither begins nor ends with a dash.
  pub read_manifest_iff :
      (dir : String) (m : Manifest)
      → (read_manifest shelf dir ≡ ok m) ↔ (
          (raw : String) × (shelf.library.read_file (shelf.library.join dir manifest_name) ≡ ok raw)
          × (shelf.unmarshal_manifest raw ≡ ok m)
          × IsManifest m)
  unfolding read_manifest
  read_manifest_iff dir m =
      manifest_of_iff (shelf.library.read_file (shelf.library.join dir manifest_name)) m

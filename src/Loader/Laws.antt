-- ===== src/Loader/Laws.antt =====
-- Which directories `LoadDir` loads.
use mathlib.Core.Option.{none-ne-some}
use mathlib.Core.Bool.{false≢true}
use kubedrill.Shared.{
  String, false, not, ◌||◌, ◌≡◌, ◌↔◌, inl, inr, refl, sym, ap, subst, ◌∙◌, none, ◌==◌, Bool-cases,
  Option-cases, eq_iff,
}
use kubedrill.Shared.Results.{Result, ok, err, err≢ok, ok_injective}
use kubedrill.Challenge.{Challenge, api_version, kind}
use kubedrill.Validation.Document.Valid.{IsValid}
use kubedrill.Validation.Document.Laws.{validate_challenge_iff}
use kubedrill.Loader.{Library, document_error, accepted, load_document, load_text, load_dir}
use kubedrill.Loader.Loadable.{IsReferenced, IsCompiled}
use kubedrill.Loader.References.{both_iff, check_refs_iff}
use kubedrill.Loader.Compiling.{check_compiles_iff}

module _ {F : Type 0} (lib : Library F) where
  -- The test of the discriminators is a part of validity.
  document_error_iff :
      (dir path : String) (c : Challenge)
      → (document_error lib dir path c ≡ none)
        ↔ (IsValid c × (IsReferenced lib dir c × IsCompiled lib c))
  unfolding document_error
  document_error_iff dir path c =
      let (to, from) =
        both_iff _ _ (validate_challenge_iff lib.show c)
          (both_iff _ _ (check_refs_iff lib dir c) (check_compiles_iff lib c)) in
      elim (Bool-cases (not (c.api_version == api_version) || not (c.kind == kind))) [
        | inl e ↦ rw e (
          (λ h. absurd (none-ne-some _ (sym h))),
          (λ (v, _). absurd (false≢true (sym (matching v) ∙ e))),
        )
        | inr e ↦ rw e (to, from)
      ]
    where
      matching : IsValid c → (not (c.api_version == api_version) || not (c.kind == kind)) ≡ false
      matching v =
          rw ((eq_iff c.api_version api_version).1 v.header.document_version)
            (rw ((eq_iff c.kind kind).1 v.header.document_kind) refl)

  abbrev Loadable : String → Challenge → Type 0
  Loadable dir c = IsValid c × (IsReferenced lib dir c × IsCompiled lib c)

  accepted_iff :
      (dir path : String) (d c : Challenge)
      → (accepted lib d (document_error lib dir path d) ≡ ok c) ↔ ((d ≡ c) × Loadable dir c)
  accepted_iff dir path d c =
      let (to, from) = document_error_iff dir path d in
      elim (Option-cases (document_error lib dir path d)) [
        | inl e ↦ rw e (
          (λ h. let same = ok_injective h in (same, subst (Loadable dir) same (to e))),
          (λ (same, _). ap ok same),
        )
        | inr (t, e) ↦ rw e (
          (λ h. absurd (err≢ok h)),
          (λ (same, loadable).
              absurd (none-ne-some _ (sym (from (subst (Loadable dir) (sym same) loadable)) ∙ e))),
        )
      ]

  load_document_iff :
      (dir path : String) (r : Result Challenge) (c : Challenge)
      → (load_document lib dir path r ≡ ok c) ↔ ((r ≡ ok c) × Loadable dir c)
  load_document_iff dir path (err e) c = ((λ h. absurd (err≢ok h)), (λ (h, _). absurd (err≢ok h)))
  load_document_iff dir path (ok d) c =
      let (to, from) = accepted_iff dir path d c in
      (
        (λ h. let (same, loadable) = to h in (ap ok same, loadable)),
        (λ (same, loadable). from (ok_injective same, loadable)),
      )

  load_text_iff :
      (dir path : String) (r : Result String) (c : Challenge)
      → (load_text lib dir path r ≡ ok c)
        ↔ ((raw : String) × (r ≡ ok raw) × (lib.unmarshal_strict raw ≡ ok c) × Loadable dir c)
  load_text_iff dir path (err e) c =
      ((λ h. absurd (err≢ok h)), (λ (raw, h, _, _). absurd (err≢ok h)))
  load_text_iff dir path (ok raw) c =
      let (to, from) = load_document_iff dir path (lib.unmarshal_strict raw) c in
      (
        (λ h. let (decodes, loadable) = to h in (raw, refl, decodes, loadable)),
        (λ (raw', same, decodes, loadable).
            from (ap lib.unmarshal_strict (ok_injective same) ∙ decodes, loadable)),
      )

  -- A directory is loaded as `c` exactly if its challenge.yaml can be read and strictly decodes to
  -- `c`, which is valid, names only files that are there, and compiles.
  pub load_dir_iff :
      (dir : String) (c : Challenge)
      → (load_dir lib dir ≡ ok c) ↔ (
          (raw : String) × (lib.read_file (lib.join dir "challenge.yaml") ≡ ok raw)
          × (lib.unmarshal_strict raw ≡ ok c)
          × (IsValid c × (IsReferenced lib dir c × IsCompiled lib c)))
  unfolding load_dir
  load_dir_iff dir c =
      load_text_iff dir (lib.join dir "challenge.yaml")
        (lib.read_file (lib.join dir "challenge.yaml")) c

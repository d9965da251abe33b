-- ===== src/Packs/Laws.antt =====
-- What `Resolve` finds.
use mathlib.Core.Bool.{false≢true}
use mathlib.Core.Option.{none-ne-some}
use kubedrill.Shared.{
  String, not, ◌≡◌, ◌⊎◌, inl, inr, refl, sym, ap, ◌∙◌, subst, Option, none, some, List, [], ◌∷◌,
  ◌==◌, eq_iff, Memᴰ, Bool-cases, mem-cons_cases,
}
use kubedrill.Shared.Sorting.{mem-sort_by}
use kubedrill.Packs.{
  Pack, Entry, Listing, listed, missing, failed, Shelf, pack_lt, sort_packs, packs_from,
  installed_listed, installed, resolve_names, resolve_from, resolve_in, resolve,
}
use kubedrill.Packs.Counted.{IsListed, mem-packs_from, packs_from-mem}

some_pair : (x y : String × String) → some x ≡ some y → (y.0 ≡ x.0) × (y.1 ≡ x.1)
some_pair x y h = (cc, cc)

module _ {F : Type 0} (shelf : Shelf F) where
  -- The root lists a directory, which lists one that is not hidden, in which challenges are found.
  abbrev pub IsInstalled : String → Pack → Type 0
  IsInstalled root p =
      (es : List Entry) × (shelf.read_dir root ≡ listed es) × IsListed shelf root es p

  -- The pack gives the challenge, and is what `Resolve` answers.
  pub record Gives (name dir pack : String) (p : Pack) : Type 0 where
    pub listed : Memᴰ name p.challenges
    pub dir_of : dir ≡ shelf.library.join p.dir name
    pub pack_of : pack ≡ p.name

  resolve_names-found :
      (name dir pack : String) (p : Pack) (all cs : List String) (found : Option (String × String))
      → ((c : String) → Memᴰ c cs → Memᴰ c all)
      → resolve_names shelf name p cs found ≡ some (dir, pack)
      → (found ≡ some (dir, pack))
        ⊎ ((dir ≡ shelf.library.join p.dir name) × (pack ≡ p.name) × Memᴰ name all)
  resolve_names-found name dir pack p all [] found sub h = inl h
  resolve_names-found name dir pack p all (c ∷ cs) found sub h = elim (Bool-cases (c == name)) [
    | inl e ↦
        elim (resolve_names-found name dir pack p all cs _ (λ d m. sub d (Memᴰ.tail m))
          (rw e at h)) [
            | inl here ↦
                let is_name : c ≡ name = (eq_iff c name).0 e in
                let (is_dir, is_pack) = some_pair _ _ here in
                inr (
                  is_dir ∙ ap (shelf.library.join p.dir) is_name,
                  is_pack,
                  subst (λ d. Memᴰ d all) is_name (sub c (Memᴰ.head refl)),
                )
            | inr r ↦ inr r
          ]
    | inr e ↦
        resolve_names-found name dir pack p all cs found (λ d m. sub d (Memᴰ.tail m)) (rw e at h)
  ]

  resolve_from-found :
      (name dir pack : String) (ps : List Pack) (found : Option (String × String))
      → resolve_from shelf name ps found ≡ some (dir, pack)
      → (found ≡ some (dir, pack)) ⊎ ((p : Pack) × Memᴰ p ps × Gives name dir pack p)
  resolve_from-found name dir pack [] found h = inl h
  resolve_from-found name dir pack (p ∷ ps) found h =
      elim (resolve_from-found name dir pack ps (resolve_names shelf name p p.challenges found) h) [
        | inl r ↦
            elim (resolve_names-found name dir pack p p.challenges p.challenges found (λ c m. m)
              r) [
                | inl e ↦ inl e
                | inr (d, k, m) ↦
                    inr (p, Memᴰ.head refl, record { listed = m; dir_of = d; pack_of = k })
              ]
        | inr (q, m, g) ↦ inr (q, Memᴰ.tail m, g)
      ]

  resolve_names-none :
      (name : String) (p : Pack) (cs : List String) (found : Option (String × String))
      → resolve_names shelf name p cs found ≡ none
      → (found ≡ none) × (¬ Memᴰ name cs)
  resolve_names-none name p [] found h = (h, (λ m. elim m [ ]))
  resolve_names-none name p (c ∷ cs) found h = elim (Bool-cases (c == name)) [
    | inl e ↦
        let (other, _) = resolve_names-none name p cs _ (rw e at h) in
        absurd (none-ne-some _ (sym other))
    | inr e ↦
        let (none_found, not_later) = resolve_names-none name p cs found (rw e at h) in
        (
          none_found,
          (λ m. elim (mem-cons_cases m) [
            | inl same ↦ absurd (false≢true (sym e ∙ (eq_iff c name).1 (sym same)))
            | inr t ↦ not_later t
          ]),
        )
  ]

  resolve_from-none :
      (name : String) (ps : List Pack) (found : Option (String × String))
      → resolve_from shelf name ps found ≡ none
      → (found ≡ none) × ((p : Pack) → Memᴰ p ps → ¬ Memᴰ name p.challenges)
  resolve_from-none name [] found h = (h, (λ p m. elim m [ ]))
  resolve_from-none name (p ∷ ps) found h =
      let (here, in_rest) =
        resolve_from-none name ps (resolve_names shelf name p p.challenges found) h in
      let (before, not_here) = resolve_names-none name p p.challenges found here in
      (
        before,
        (λ q m. elim (mem-cons_cases m) [
          | inl e ↦ (λ i. not_here (subst (λ (q : Pack). Memᴰ name q.challenges) e i))
          | inr t ↦ in_rest q t
        ]),
      )

  resolve_in-Resolves :
      (root name : String) (l : Listing)
      → shelf.read_dir root ≡ l
      → (resolve_in shelf name (installed_listed shelf root l) ≡ none
          → (p : Pack) → IsInstalled root p
          → ¬ Memᴰ name p.challenges)
        × ((dir pack : String)
            → resolve_in shelf name (installed_listed shelf root l) ≡ some (dir, pack)
            → (p : Pack) × IsInstalled root p × Gives name dir pack p)
  resolve_in-Resolves root name missing e = ((λ _ p (es, r, _). cc), (λ dir pack h. cc))
  resolve_in-Resolves root name (failed t) e = ((λ _ p (es, r, _). cc), (λ dir pack h. cc))
  resolve_in-Resolves root name (listed es) e = (
    (λ h p (es', r, i).
        (resolve_from-none name (sort_packs (packs_from shelf root es)) none h).1 p (
          (mem-sort_by (λ p q. not (pack_lt q p)) p (packs_from shelf root es)).1 (
            packs_from-mem shelf root es p
              (subst (λ l. IsListed shelf root l p) (same_entries (sym r ∙ e)) i)))),
    (λ dir pack h.
        elim (resolve_from-found name dir pack (sort_packs (packs_from shelf root es)) none h) [
          | inl n ↦ absurd (none-ne-some _ n)
          | inr (p, m, g) ↦ (
            p,
            (
              es,
              e,
              mem-packs_from shelf root es p
                  ((mem-sort_by (λ p q. not (pack_lt q p)) p (packs_from shelf root es)).0 m),
            ),
            g,
          )
        ]),
  )
    where
      same_entries : {a b : List Entry} → listed a ≡ listed b → a ≡ b
      same_entries h = cc

  -- `Resolve` fails exactly if no pack that is installed has the challenge, and what it finds is the
  -- directory of the challenge in a pack that is installed and has it, with the name of that pack.
  pub resolve-Resolves :
      (root name : String)
      → (resolve shelf root name ≡ none
          → (p : Pack) → IsInstalled root p
          → ¬ Memᴰ name p.challenges)
        × ((dir pack : String)
            → resolve shelf root name ≡ some (dir, pack)
            → (p : Pack) × IsInstalled root p × Gives name dir pack p)
  unfolding resolve installed
  resolve-Resolves root name = resolve_in-Resolves root name (shelf.read_dir root) refl

-- ===== src/Kind/Ids.antt =====
-- The ids of the clusters that the provider lists.
use Prim.Native.Char.{code}
use text.Mathlib.TextEquality.{Char-path}
use text.Mathlib.TextLemmas.{nil-append, cons-append}
use kubedrill.Shared.{
  String, true, Option, none, some, List, [], ◌∷◌, ◌≡◌, ◌↔◌, refl, sym, ap, ◌∙◌, nat_eq, Memᴰ, map,
  mem-cons_cases, ◌⧺◌, Bool-cases, inl, inr, arith,
}
use kubedrill.Kind.Runtime.{cluster_prefix, cluster_name}
use kubedrill.Kind.Clusters.{EnvInfo, and_info, after_prefix, infos_of}

some_injective : {a b : String} → some a ≡ some b → a ≡ b
some_injective h = cc

after_prefix-append : (p s : String) → after_prefix p (p ⧺ s) ≡ some s
after_prefix-append String.[] s = ap some (nil-append s)
after_prefix-append (String.◌∷◌ c p) s =
    let same : nat_eq (code c) (code c) ≡ true = ground arith in
    ap (after_prefix (String.◌∷◌ c p)) (cons-append c p s) ∙ rw same (after_prefix-append p s)

append-after_prefix : (p s r : String) → after_prefix p s ≡ some r → p ⧺ r ≡ s
append-after_prefix String.[] s r h = nil-append r ∙ sym (some_injective h)
append-after_prefix (String.◌∷◌ c p) String.[] r h = cc
append-after_prefix (String.◌∷◌ c p) (String.◌∷◌ d s) r h =
    elim (Bool-cases (nat_eq (code c) (code d))) [
      | inl e ↦
          let codes : code c ≡ code d = ground arith in
          let one = Char-path c d codes in
          let rest = append-after_prefix p s r (rw e at h) in
          cons-append c p r ∙ (λ i. String.◌∷◌ (one i) (rest i))
      | inr e ↦ let k = rw e at h in cc
    ]

-- The id of a cluster that was listed.
abbrev pub ids_of_infos : List EnvInfo → List String
ids_of_infos = map (λ (i : EnvInfo). i.id)

-- The provider lists an id exactly if the cluster that it would create for that id is there, whatever
-- other clusters are.
pub infos_of_iff :
    (names : List String) (id : String)
    → Memᴰ id (ids_of_infos (infos_of names)) ↔ Memᴰ (cluster_name id) names
unfolding infos_of
infos_of_iff [] id = ((λ m. elim m [ ]), (λ m. elim m [ ]))
infos_of_iff (n ∷ ns) id = either (after_prefix cluster_prefix n) refl (infos_of_iff ns id)
  where
    either :
        (o : Option String)
        → after_prefix cluster_prefix n ≡ o
        → Memᴰ id (ids_of_infos (infos_of ns)) ↔ Memᴰ (cluster_name id) ns
        → Memᴰ id (ids_of_infos (and_info n o (infos_of ns))) ↔ Memᴰ (cluster_name id) (n ∷ ns)
    either none h (to, from) = (
      (λ m. Memᴰ.tail (to m)),
      (λ m. elim (mem-cons_cases m) [
        | inl e ↦
            let found = after_prefix-append cluster_prefix id in
            let k : after_prefix cluster_prefix (cluster_prefix ⧺ id) ≡ none =
              ap (after_prefix cluster_prefix) e ∙ h in
            cc
        | inr t ↦ from t
      ]),
    )
    either (some r) h (to, from) = (
      (λ m. elim (mem-cons_cases m) [
        | inl e ↦ Memᴰ.head (ap cluster_name e ∙ append-after_prefix cluster_prefix n r h)
        | inr t ↦ Memᴰ.tail (to t)
      ]),
      (λ m. elim (mem-cons_cases m) [
        | inl e ↦
            let found = after_prefix-append cluster_prefix id in
            let k : after_prefix cluster_prefix (cluster_prefix ⧺ id) ≡ some r =
              ap (after_prefix cluster_prefix) e ∙ h in
            Memᴰ.head (cc)
        | inr t ↦ Memᴰ.tail (from t)
      ]),
    )

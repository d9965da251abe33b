-- ===== src/Packs/Counted.antt =====
-- The packs that `Installed` counts.
use kubedrill.Shared.{
  String, Bool, true, false, not, ◌||◌, ◌≡◌, inl, inr, refl, sym, ap, ◌∙◌, subst, List, [], ◌∷◌,
  Memᴰ, Bool-cases, is_empty, mem-cons_cases, mem-append_cases, mem-append_left, mem-append_right,
}
use kubedrill.Packs.{
  Pack, Entry, Listing, listed, missing, failed, Shelf, is_hidden, pack_at, versions,
  listed_versions, packs_from,
}

shown_dir : (a b : Bool) → (not a || b) ≡ false → (a ≡ true) × (b ≡ false)
shown_dir true b h = (refl, h)
shown_dir false b h = cc

module _ {F : Type 0} (shelf : Shelf F) where
  -- A version of the pack `name` that counts as installed.
  pub record IsVersion (root name : String) (vs : List Entry) (p : Pack) : Type 0 where
    pub version : Entry
    pub there : Memᴰ version vs
    pub dir : version.is_dir ≡ true
    pub shown : is_hidden version.name ≡ false
    pub found : p ≡ pack_at shelf root name version.name
    pub filled : is_empty p.challenges ≡ false

  later :
      (root name : String) (v : Entry) (vs : List Entry) (p : Pack)
      → IsVersion root name vs p
      → IsVersion root name (v ∷ vs) p
  later root name v vs p i = record {
    version = i.version;
    there = Memᴰ.tail i.there;
    dir = i.dir;
    shown = i.shown;
    found = i.found;
    filled = i.filled;
  }

  mem-versions :
      (root name : String) (vs : List Entry) (p : Pack)
      → Memᴰ p (versions shelf root name vs)
      → IsVersion root name vs p
  mem-versions root name [] p m = elim m [ ]
  mem-versions root name (v ∷ vs) p m = elim (Bool-cases (not v.is_dir || is_hidden v.name)) [
    | inl e ↦ later root name v vs p (mem-versions root name vs p (rw e at m))
    | inr e ↦ elim (Bool-cases (is_empty (pack_at shelf root name v.name).challenges)) [
      | inl k ↦ later root name v vs p (mem-versions root name vs p (rw (e, k) at m))
      | inr k ↦ elim (mem-cons_cases (rw (e, k) at m)) [
        | inl is_p ↦
            let (d, s) = shown_dir v.is_dir (is_hidden v.name) e in
            record {
              version = v;
              there = Memᴰ.head refl;
              dir = d;
              shown = s;
              found = is_p;
              filled = ap (λ q. is_empty q.challenges) is_p ∙ k;
            }
        | inr t ↦ later root name v vs p (mem-versions root name vs p t)
      ]
    ]
  ]

  versions-mem :
      (root name : String) (vs : List Entry) (v : Entry)
      → Memᴰ v vs
      → v.is_dir ≡ true
      → is_hidden v.name ≡ false
      → is_empty (pack_at shelf root name v.name).challenges ≡ false
      → Memᴰ (pack_at shelf root name v.name) (versions shelf root name vs)
  versions-mem root name [] v m d s k = elim m [ ]
  versions-mem root name (u ∷ vs) v (Memᴰ.head e) d s k =
      subst (λ u. Memᴰ (pack_at shelf root name v.name) (versions shelf root name (u ∷ vs))) e
        (rw (d, s, k) (Memᴰ.head refl))
  versions-mem root name (u ∷ vs) v (Memᴰ.tail m) d s k =
      let rest = versions-mem root name vs v m d s k in
      elim (Bool-cases (not u.is_dir || is_hidden u.name)) [
        | inl e ↦ rw e rest
        | inr e ↦ elim (Bool-cases (is_empty (pack_at shelf root name u.name).challenges)) [
          | inl l ↦ rw (e, l) rest
          | inr l ↦ rw (e, l) (Memᴰ.tail rest)
        ]
      ]

  -- A pack that counts as installed, below one of the directories.
  pub record IsListed (root : String) (es : List Entry) (p : Pack) : Type 0 where
    pub entry : Entry
    pub there : Memᴰ entry es
    pub dir : entry.is_dir ≡ true
    pub inside : List Entry
    pub read : shelf.read_dir (shelf.library.join root entry.name) ≡ listed inside
    pub version : IsVersion root entry.name inside p

  later_entry :
      (root : String) (e : Entry) (es : List Entry) (p : Pack)
      → IsListed root es p
      → IsListed root (e ∷ es) p
  later_entry root e es p i = record {
    entry = i.entry;
    there = Memᴰ.tail i.there;
    dir = i.dir;
    inside = i.inside;
    read = i.read;
    version = i.version;
  }

  mem-listed_versions :
      (root name : String) (l : Listing) (p : Pack)
      → Memᴰ p (listed_versions shelf root name l)
      → (vs : List Entry) × (l ≡ listed vs) × IsVersion root name vs p
  mem-listed_versions root name (listed vs) p m = (vs, refl, mem-versions root name vs p m)
  mem-listed_versions root name missing p m = elim m [ ]
  mem-listed_versions root name (failed e) p m = elim m [ ]

  pub mem-packs_from :
      (root : String) (es : List Entry) (p : Pack)
      → Memᴰ p (packs_from shelf root es)
      → IsListed root es p
  mem-packs_from root [] p m = elim m [ ]
  mem-packs_from root (e ∷ es) p m = elim (Bool-cases e.is_dir) [
    | inr n ↦ later_entry root e es p (mem-packs_from root es p (rw n at m))
    | inl d ↦
        elim (mem-append_cases
          (listed_versions shelf root e.name (shelf.read_dir (shelf.library.join root e.name)))
          (rw d at m)) [
            | inl l ↦
                let (vs, r, v) = mem-listed_versions root e.name _ p l in
                record {
                  entry = e;
                  there = Memᴰ.head refl;
                  dir = d;
                  inside = vs;
                  read = r;
                  version = v;
                }
            | inr t ↦ later_entry root e es p (mem-packs_from root es p t)
          ]
  ]

  pub packs_from-mem :
      (root : String) (es : List Entry) (p : Pack)
      → IsListed root es p
      → Memᴰ p (packs_from shelf root es)
  packs_from-mem root es p i = go es i.there
    where
      here : Memᴰ p (
          listed_versions shelf root i.entry.name
            (shelf.read_dir (shelf.library.join root i.entry.name)))
      here =
          let v = i.version in
          rw i.read (
            rw v.found (
              versions-mem root i.entry.name i.inside v.version v.there v.dir v.shown
                (ap (λ q. is_empty q.challenges) (sym v.found) ∙ v.filled)))

      go : (es : List Entry) → Memᴰ i.entry es → Memᴰ p (packs_from shelf root es)
      go [] m = elim m [ ]
      go (e ∷ es) (Memᴰ.head same) =
          subst (λ e. Memᴰ p (packs_from shelf root (e ∷ es))) same
            (rw i.dir (mem-append_left _ here))
      go (e ∷ es) (Memᴰ.tail m) = elim (Bool-cases e.is_dir) [
        | inl d ↦ rw d (mem-append_right _ (go es m))
        | inr d ↦ rw d (go es m)
      ]

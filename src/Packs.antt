-- ===== src/Packs.antt =====
-- internal/sources/file/pack.go: the manifest of a pack, the challenges of a directory, and the packs
-- that are installed, on files that nothing changes meanwhile.
pub mod Counted
pub mod Laws
pub mod Manifests
use Prim.Native.String
use Prim.Native.Char.{Char, code}
use kubedrill.Shared.{
  ℕ, String, Bool, true, false, not, ◌&&◌, ◌||◌, Option, none, some, List, [], ◌∷◌, ◌++◌, ◌==◌,
  is_empty, leb, nat_eq, if◌then◌else◌, ◌⧺◌, quote,
}
use kubedrill.Shared.Sorting.{sort_by}
use kubedrill.Shared.Results.{Result, ok, err}
use kubedrill.Challenge.{Challenge}
use kubedrill.Loader.{Library, load_dir}
use kubedrill.Rules.Policy.{text_lt}

abbrev pub pack_api_version : String
pack_api_version = "kubedrill.dev/v1alpha1"

abbrev pub pack_kind : String
pack_kind = "Pack"

abbrev pub manifest_name : String
manifest_name = "pack.yaml"

pub record Manifest : Type 0 where
  pub api_version : String
  pub kind : String
  pub name : String
  pub version : String
  pub description : String

pub record Pack : Type 0 where
  pub name : String
  pub version : String
  pub description : String
  pub dir : String
  pub challenges : List String

-- An entry of a directory, and whether it is a directory itself.
pub record Entry : Type 0 where
  pub name : String
  pub is_dir : Bool

pub data Listing : Type 0 where
  listed : List Entry → Listing
  missing : Listing
  failed : String → Listing

-- What a look at the packs calls beside the loader: `os.ReadDir`, and `yaml.UnmarshalStrict` of a
-- manifest.
pub record Shelf (F : Type 0) : Type 0 where
  pub library : Library F
  pub read_dir : String → Listing
  pub unmarshal_manifest : String → Result Manifest

abbrev pub is_alnum : Char → Bool
is_alnum c = (leb b'a' (code c) && leb (code c) b'z') || (leb b'0' (code c) && leb (code c) b'9')

abbrev pub is_label_char : Char → Bool
is_label_char c = is_alnum c || nat_eq (code c) b'-'

-- The rest of a label after a character, of which `last` tells whether it may be the last.
unfoldable pub ends_label : Bool → String → Bool
ends_label last String.[] = last
ends_label last (String.◌∷◌ c s) = is_label_char c && ends_label (is_alnum c) s

-- `nameRE.MatchString`, of ^[a-z0-9]([-a-z0-9]*[a-z0-9])?$
unfoldable pub is_label : String → Bool
unfolding ends_label
is_label String.[] = false
is_label (String.◌∷◌ c s) = is_alnum c && ends_label true s

-- The `sort.Strings` of `discoverChallenges`, no name standing twice
abbrev pub sort_texts : List String → List String
sort_texts texts = sort_by (λ t u. text_lt t u) texts

abbrev pub pack_lt : Pack → Pack → Bool
pack_lt p q = if not (p.name == q.name) then text_lt p.name q.name else text_lt p.version q.version

-- The `sort.Slice` of `Installed`
abbrev pub sort_packs : List Pack → List Pack
sort_packs packs = sort_by (λ p q. not (pack_lt q p)) packs

-- The document's checks in `readManifest`
unfoldable pub check_manifest : Manifest → Result Manifest
unfolding is_label quote
check_manifest m =
    if not (m.api_version == pack_api_version) || not (m.kind == pack_kind)
    then err (
        manifest_name
        ⧺ ": want apiVersion="
        ⧺ quote pack_api_version
        ⧺ " kind="
        ⧺ quote pack_kind
        ⧺ ", got "
        ⧺ quote m.api_version
        ⧺ "/"
        ⧺ quote m.kind)
    else if not (is_label m.name)
    then err ("pack name " ⧺ quote m.name ⧺ " must be a DNS-1123 label")
    else if m.version == ""
    then err ("pack " ⧺ quote m.name ⧺ ": metadata.version is required")
    else ok m

abbrev pub checked_manifest : Result Manifest → Result Manifest
checked_manifest (err e) = err (manifest_name ⧺ ": " ⧺ e)
checked_manifest (ok m) = check_manifest m

-- `strings.HasPrefix(name, ".")`
abbrev pub is_hidden : String → Bool
is_hidden String.[] = false
is_hidden (String.◌∷◌ c s) = nat_eq (code c) b'.'

module _ {F : Type 0} (shelf : Shelf F) where
  abbrev pub manifest_of : Result String → Result Manifest
  manifest_of (err e) = err ("read " ⧺ manifest_name ⧺ ": " ⧺ e)
  manifest_of (ok raw) = checked_manifest (shelf.unmarshal_manifest raw)

  -- `readManifest`
  unfoldable pub read_manifest : String → Result Manifest
  unfolding check_manifest
  read_manifest dir = manifest_of (shelf.library.read_file (shelf.library.join dir manifest_name))

  abbrev pub is_challenge : String → Entry → Bool
  is_challenge dir e =
      e.is_dir
      && shelf.library.stat (shelf.library.join (shelf.library.join dir e.name) "challenge.yaml")

  abbrev pub with_name : String → Result Challenge → Result (List String) → Result (List String)
  with_name name (err e) rest = err ("challenge " ⧺ quote name ⧺ " does not load: " ⧺ e)
  with_name name (ok c) (err e) = err e
  with_name name (ok c) (ok names) = ok (name ∷ names)

  -- The loop of `discoverChallenges`
  unfoldable pub discover_from : String → List Entry → Result (List String)
  unfolding load_dir quote
  discover_from dir [] = ok []
  discover_from dir (e ∷ es) =
      let rest = discover_from dir es in
      if is_challenge dir e
      then with_name e.name (load_dir shelf.library (shelf.library.join dir e.name)) rest
      else rest

  abbrev pub sorted_names : Result (List String) → Result (List String)
  sorted_names (err e) = err e
  sorted_names (ok names) = ok (sort_texts names)

  abbrev pub discover_listed : String → Listing → Result (List String)
  discover_listed dir missing = err ("open " ⧺ dir ⧺ ": no such file or directory")
  discover_listed dir (failed e) = err e
  discover_listed dir (listed es) = sorted_names (discover_from dir es)

  -- `discoverChallenges`
  unfoldable pub discover_challenges : String → Result (List String)
  unfolding discover_from
  discover_challenges dir = discover_listed dir (shelf.read_dir dir)

  -- `chs, _ := discoverChallenges(dir)`
  abbrev pub or_no_names : Result (List String) → List String
  or_no_names (ok names) = names
  or_no_names (err e) = []

  abbrev pub pack_at : String → String → String → Pack
  pack_at root name version =
      let dir = shelf.library.join (shelf.library.join root name) version in
      record {
        name = name;
        version = version;
        description = "";
        dir = dir;
        challenges = or_no_names (discover_challenges dir);
      }

  -- The inner loop of `Installed`
  abbrev pub versions : String → String → List Entry → List Pack
  versions root name [] = []
  versions root name (v ∷ vs) =
      let rest = versions root name vs in
      let p = pack_at root name v.name in
      if not v.is_dir || is_hidden v.name
      then rest
      else if is_empty p.challenges
      then rest
      else p ∷ rest

  abbrev pub listed_versions : String → String → Listing → List Pack
  listed_versions root name (listed vs) = versions root name vs
  listed_versions root name _ = []

  -- The outer loop
  abbrev pub packs_from : String → List Entry → List Pack
  packs_from root [] = []
  packs_from root (e ∷ es) =
      let rest = packs_from root es in
      let here = listed_versions root e.name (shelf.read_dir (shelf.library.join root e.name)) in
      if e.is_dir then here ++ rest else rest

  abbrev pub installed_listed : String → Listing → Result (List Pack)
  installed_listed root missing = ok []
  installed_listed root (failed e) = err e
  installed_listed root (listed es) = ok (sort_packs (packs_from root es))

  -- `Installed`
  unfoldable pub installed : String → Result (List Pack)
  unfolding discover_challenges
  installed root = installed_listed root (shelf.read_dir root)

  -- The loops of `Resolve`: the directory and the pack that were found last.
  abbrev pub resolve_names :
      String → Pack → List String → Option (String × String) → Option (String × String)
  resolve_names name p [] found = found
  resolve_names name p (c ∷ cs) found =
      resolve_names name p cs
        (if c == name then some (shelf.library.join p.dir c, p.name) else found)

  abbrev pub resolve_from : String → List Pack → Option (String × String) → Option (String × String)
  resolve_from name [] found = found
  resolve_from name (p ∷ ps) found = resolve_from name ps (resolve_names name p p.challenges found)

  abbrev pub resolve_in : String → Result (List Pack) → Option (String × String)
  resolve_in name (err e) = none
  resolve_in name (ok packs) = resolve_from name packs none

  -- `Resolve`: the directory and the pack; none for `ok` false.
  unfoldable pub resolve : String → String → Option (String × String)
  unfolding installed
  resolve root name = resolve_in name (installed root)

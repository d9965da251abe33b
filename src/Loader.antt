-- ===== src/Loader.antt =====
-- internal/challenge/loader.go, with `decodeTree` of match.go and `CompileCEL` of cel.go: loading a
-- challenge from a directory that nothing changes meanwhile.
pub mod Loadable
pub mod References
pub mod Compiling
pub mod Laws
use kubedrill.Shared.{
  ℕ, ◌+◌, String, Bool, not, ◌||◌, Option, none, some, List, [], ◌∷◌, ◌==◌, if◌then◌else◌, ◌⧺◌,
  quote,
}
use kubedrill.Shared.Int.{Int64}
use kubedrill.Shared.Results.{Result, ok, err}
use kubedrill.Json.{Decoded, decoded, malformed}
use kubedrill.Challenge.{
  Challenge, Objective, Check, check, Checks, nil, cons, Probe, ManifestRef, probe_of, api_version,
  kind,
}
use kubedrill.Validation.Document.{validate_challenge}

-- What the loader calls: `os.ReadFile` on a path, `yaml.UnmarshalStrict`, whether `os.Stat` finds a
-- path, `json.Unmarshal`, and of CEL the errors of `NewEnv` and of `Compile`. `show` is `%d`, `join`
-- is `filepath.Join`.
pub record Library (F : Type 0) : Type 0 where
  pub read_file : String → Result String
  pub unmarshal_strict : String → Result Challenge
  pub stat : String → Bool
  pub unmarshal : String → Decoded F
  pub cel_env_error : Option String
  pub cel_issues : String → Option String
  pub show : Int64 → String
  pub join : String → String → String

-- `if err := …; err != nil { return err }`
abbrev pub first_error : Option String → Option String → Option String
first_error none later = later
first_error (some e) later = some e

module _ {F : Type 0} (lib : Library F) where
  abbrev not_found : String → String → String
  not_found place rel = place ⧺ ": referenced file " ⧺ quote rel ⧺ " not found"

  -- `mustExist`
  abbrev pub must_exist : String → String → String → Option String
  must_exist dir rel place =
      if rel == "" || lib.stat (lib.join dir rel) then none else some (not_found place rel)

  -- The loop over the manifests
  unfoldable pub check_manifests : String → ℕ → List ManifestRef → Option String
  unfolding quote
  check_manifests dir i [] = none
  check_manifests dir i (m ∷ ms) =
      first_error (must_exist dir m.path ("environment.setup.manifests[" ⧺ lib.show i ⧺ "]"))
        (check_manifests dir (i + 1) ms)

  abbrev pub probe_exists : String → String → Option Probe → Option String
  probe_exists dir place none = none
  probe_exists dir place (some p) = must_exist dir p.script place

  -- The loop over the checks of one objective
  unfoldable pub check_probes : String → String → ℕ → List Check → Option String
  unfolding quote
  check_probes dir id j [] = none
  check_probes dir id j (ch ∷ chs) =
      first_error
        (probe_exists dir ("objective " ⧺ quote id ⧺ " checks[" ⧺ lib.show j ⧺ "].probe.script")
          (probe_of ch))
        (check_probes dir id (j + 1) chs)

  unfoldable pub check_objectives : String → List Objective → Option String
  unfolding check_probes
  check_objectives dir [] = none
  check_objectives dir (o ∷ os) =
      first_error (check_probes dir o.id 0 o.checks) (check_objectives dir os)

  -- `checkRefs`
  unfoldable pub check_refs : String → Challenge → Option String
  unfolding check_manifests check_objectives quote
  check_refs dir c = first_error (check_manifests dir 0 c.environment.setup.manifests) (
      first_error (check_objectives dir c.objectives) (
        first_error (must_exist dir c.solution.script "solution.script")
          (must_exist dir c.solution.explanation "solution.explanation")))

  abbrev pub tree_error : String → Decoded F → Option String
  tree_error place (decoded v) = none
  tree_error place (malformed e) = some (place ⧺ ": match.object is not valid: " ⧺ e)

  -- The error of `decodeTree`
  abbrev pub decode_tree : String → String → Option String
  decode_tree raw place =
      if raw == ""
      then some (place ⧺ ": match.object is empty")
      else tree_error place (lib.unmarshal raw)

  abbrev pub labelled : String → Option String → Option String
  labelled label none = none
  labelled label (some e) = some (label ⧺ e)

  -- `CompileCEL`
  abbrev pub compile_cel : String → String → Option String
  compile_cel expr place =
      first_error (labelled "internal: cel env: " lib.cel_env_error)
        (labelled (place ⧺ ": cel does not compile: ") (lib.cel_issues expr))

  -- The closure `walk` at one check, and over the leaves of an anyOf
  unfoldable mutual
    pub compile_check : String → Check → Option String
    compile_check place (check (some m) cel p leaves poll t ts) = decode_tree m.object place
    compile_check place (check none cel p leaves poll t ts) =
        let rest = compile_leaves (place ⧺ ".anyOf") 0 leaves in
        if cel == "" then rest else compile_cel cel place

    pub compile_leaves : String → ℕ → Checks → Option String
    compile_leaves place i nil = none
    compile_leaves place i (cons leaf leaves) =
        let rest = compile_leaves place (i + 1) leaves in
        first_error (compile_check (place ⧺ "[" ⧺ lib.show i ⧺ "]") leaf) rest

  -- `walk` over a list of checks
  unfoldable pub compile_checks : String → ℕ → List Check → Option String
  unfolding compile_check
  compile_checks place i [] = none
  compile_checks place i (ch ∷ chs) =
      first_error (compile_check (place ⧺ "[" ⧺ lib.show i ⧺ "]") ch)
        (compile_checks place (i + 1) chs)

  unfoldable pub compile_objectives : List Objective → Option String
  unfolding compile_checks quote
  compile_objectives [] = none
  compile_objectives (o ∷ os) =
      first_error (compile_checks ("objective " ⧺ quote o.id ⧺ " checks") 0 o.checks)
        (compile_objectives os)

  -- `checkCompiles`
  unfoldable pub check_compiles : Challenge → Option String
  unfolding compile_objectives compile_checks
  check_compiles c =
      first_error (compile_objectives c.objectives)
        (compile_checks "environment.setup.readiness" 0 c.environment.setup.readiness)

  -- The tests of a document that was decoded
  unfoldable pub document_error : String → String → Challenge → Option String
  unfolding check_refs check_compiles validate_challenge quote
  document_error dir path c =
      let later =
        first_error (validate_challenge lib.show c)
          (first_error (check_refs dir c) (check_compiles c)) in
      if not (c.api_version == api_version) || not (c.kind == kind)
      then some (
          path
          ⧺ ": unsupported document (apiVersion="
          ⧺ quote c.api_version
          ⧺ " kind="
          ⧺ quote c.kind
          ⧺ "); want "
          ⧺ quote api_version
          ⧺ "/"
          ⧺ quote kind)
      else later

  abbrev pub accepted : Challenge → Option String → Result Challenge
  accepted c none = ok c
  accepted c (some e) = err e

  abbrev pub load_document : String → String → Result Challenge → Result Challenge
  load_document dir path (err e) = err (path ⧺ ": strict decode failed: " ⧺ e)
  load_document dir path (ok c) = accepted c (document_error dir path c)

  abbrev pub load_text : String → String → Result String → Result Challenge
  load_text dir path (err e) = err ("read " ⧺ path ⧺ ": " ⧺ e)
  load_text dir path (ok raw) = load_document dir path (lib.unmarshal_strict raw)

  -- `LoadDir`, whose result also holds `dir`
  unfoldable pub load_dir : String → Result Challenge
  unfolding document_error
  load_dir dir = let path = lib.join dir "challenge.yaml" in load_text dir path (lib.read_file path)

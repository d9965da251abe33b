-- ===== src/Tests/Documents.antt =====
-- The validation of documents at concrete inputs.
use kubedrill.Shared.{
  ℕ, ◌⧺◌, if◌then◌else◌, ◌==◌, String, false, none, some, List, [], ◌∷◌, ◌≡◌, ◌↔◌, refl,
}
use kubedrill.Challenge.{Objective}
use kubedrill.Validation.Cycle.{depends_on_cycle}
use kubedrill.Validation.Cycle.Graph.{Cycle}
use kubedrill.Validation.Cycle.Laws.{depends_on_cycle_iff}
use kubedrill.Validation.Document.{validate_challenge}
use kubedrill.Validation.Document.Valid.{IsValid}
use kubedrill.Validation.Document.Laws.{validate_challenge_iff}
use kubedrill.Shared.Results.{ok, err}
use kubedrill.Json.{decoded, malformed}
use kubedrill.Loader.{Library, load_dir}
use kubedrill.Loader.Loadable.{IsReferenced, IsCompiled}
use kubedrill.Loader.Laws.{load_dir_iff}
use kubedrill.Tests.Setting.{replicas, objective, never, plain_texts, shop}

abbrev loop : List Objective
loop = objective "a" 1 ("b" ∷ []) false never ∷ objective "b" 1 ("a" ∷ []) false never ∷ []

loop_found : depends_on_cycle loop ≡ some "a -> b -> a"
unfolding depends_on_cycle
loop_found = refl

depends_on_cycle_iff_example :
    (text : String) × (depends_on_cycle loop ≡ some text) × ((text ≡ "") ↔ ¬ Cycle loop)
depends_on_cycle_iff_example = depends_on_cycle_iff loop

shop_accepted : validate_challenge plain_texts.show_int shop ≡ none
unfolding validate_challenge kubedrill.Validation.validate
shop_accepted = refl

validate_challenge_iff_example :
    (validate_challenge plain_texts.show_int shop ≡ none) ↔ IsValid shop
validate_challenge_iff_example = validate_challenge_iff plain_texts.show_int shop

abbrev pub library : Library ℕ
library = record {
  read_file = λ path. if path == "shop/challenge.yaml" then ok "doc" else err "no such file";
  unmarshal_strict = λ raw. ok shop;
  stat = λ path. path == "shop/solve.sh";
  unmarshal = λ s. if s == "three" then decoded (replicas 3) else malformed "no JSON";
  cel_env_error = none;
  cel_issues = λ s. if s == "false" then none else some "undeclared reference";
  show = plain_texts.show_int;
  join = λ a b. a ⧺ "/" ⧺ b;
}

shop_loaded : load_dir library "shop" ≡ ok shop
unfolding load_dir kubedrill.Validation.validate
shop_loaded = refl

load_dir_iff_example : (load_dir library "shop" ≡ ok shop) ↔ (
    (raw : String) × (library.read_file (library.join "shop" "challenge.yaml") ≡ ok raw)
    × (library.unmarshal_strict raw ≡ ok shop)
    × (IsValid shop × (IsReferenced library "shop" shop × IsCompiled library shop)))
load_dir_iff_example = load_dir_iff library "shop" shop

-- ===== src/Tests/Starts.antt =====
-- Setting up, starting and resetting the shop at concrete inputs.
use kubedrill.Shared.{
  ℕ, ◌+◌, ◌≤◌, String, true, false, Option, none, some, [], ◌∷◌, ◌==◌, ◌≡◌, refl, arith,
  if◌then◌else◌, ◌⧺◌,
}
use kubedrill.Shared.Results.{ok}
use kubedrill.Json.{Json, str, obj, Fields, end, field, lookup}
use kubedrill.Challenge.{Challenge}
use kubedrill.Cluster.{created, resource_for, default_api_version}
use kubedrill.Loader.{load_dir}
use kubedrill.Store.Files.{World}
use kubedrill.Store.Sessions.{view}
use kubedrill.Verify.Checks.{eval_check, eval_match, get_target}
use kubedrill.Provision.Calls.{Labels}
use kubedrill.Provision.{Writes, absent, apply, apply_manifests, done}
use kubedrill.Provision.Waiting.{Clock}
use kubedrill.Provision.Laws.{OnwardGates, EndsWith, PassedFrom, broken, apply-EndsWith}
use kubedrill.Provision.Labels.{Marks, Kept, apply_manifests-Keeps}
use kubedrill.Provision.Reset.{reset}
use kubedrill.Provision.Reset.Laws.{Forward, Restored, reset-EndsWith}
use kubedrill.Engine.Guardrails.{Admission, apply_enforcement}
use kubedrill.Engine.Guardrails.Laws.{Accessors}
use kubedrill.Engine.Start.{Wiring, Provider, start}
use kubedrill.Engine.Start.Ends.{Returns, OnwardIn, start-Returns}
use kubedrill.Engine.Reset.{ResetOpts, reset_session}
use kubedrill.Engine.Reset.Laws.{Resumed, reset_session-Resumed}
use kubedrill.Tests.Setting.{api, floats, plain_texts, shop, scaled, deployment, web}
use kubedrill.Tests.Documents.{library}
use kubedrill.Tests.Stores.{codec, os, one, own_id}

-- Labels as an object.
abbrev labels_json : Labels → Fields ℕ
labels_json [] = end
labels_json ((k, v) ∷ ls) = field k (str v) (labels_json ls)

abbrev texts_of : Fields ℕ → Labels
texts_of end = []
texts_of (field k (str v) fs) = (k, v) ∷ texts_of fs
texts_of (field k _ fs) = texts_of fs

abbrev object_labels : Option (Json ℕ) → Option Labels
object_labels (some (obj fs)) = some (texts_of fs)
object_labels _ = none

abbrev text_of : Option (Json ℕ) → String
text_of (some (str s)) = s
text_of _ = ""

abbrev name_in : Option (Json ℕ) → String
name_in (some (obj fs)) = text_of (lookup "name" fs)
name_in _ = ""

-- Every document is the deployment; a patch takes a nanosecond, and deleted objects are gone.
abbrev writes : Writes ℕ ℕ
writes = record {
  split = λ raw sep. raw ∷ [];
  trim_space = λ s. s;
  parse_yaml = λ s. ok deployment;
  marshal = λ o. ok "{}";
  api_version_of = λ o. text_of (lookup "apiVersion" o);
  kind_of = λ o. text_of (lookup "kind" o);
  namespace_of = λ o. "shop";
  name_of = λ o. name_in (lookup "metadata" o);
  labels_of = λ o. object_labels (lookup "labels" o);
  set_labels = λ ls o. field "labels" (obj (labels_json ls)) o;
  patch = λ ri name t content w. (none, w + 1);
  delete = λ ri name w. (absent, w);
  context_error = λ w. ("context canceled", w);
  show_duration = λ d. "1m0s";
}

abbrev ready_shop : Challenge
ready_shop = record shop {
  environment = record shop.environment {
    setup = record {
      manifests = record { path = "setup.yaml" } ∷ [];
      faults =
          (record {
            name = "scaled down";
            patch = some (record { target = web; type = "merge"; content = "{}" });
            exec = none;
            node_exec = none;
          })
          ∷ [];
      readiness = scaled ∷ [];
    };
  };
}

ticking : Clock api (λ w. w)
ticking = record { reads = λ w. refl; reading = λ w. omega arith; waiting = λ d w h. omega arith }

gates_onward :
    OnwardGates floats api plain_texts writes "shop" (λ w. w) ready_shop.environment.setup.readiness
unfolding eval_check eval_match get_target resource_for default_api_version
gates_onward = (λ w. omega arith, tt)

apply-EndsWith_example :
    EndsWith
      (PassedFrom floats api plain_texts writes "shop"
        (λ w. w)
        (broken floats api plain_texts writes "shop" (λ w. w) ticking ready_shop 7)
        ready_shop.environment.setup.readiness)
      (apply floats api plain_texts writes "shop" ready_shop 7)
apply-EndsWith_example =
    apply-EndsWith floats api plain_texts writes "shop" (λ w. w) ticking ready_shop 7 gates_onward

-- The manifest and the fault are patched.
applied : apply floats api plain_texts writes "shop" ready_shop 7 ≡ (done, 9)
unfolding apply eval_check kubedrill.Verify.Checks.decode_match_tree kubedrill.Matching.matches
    kubedrill.Matching.scalar_equal
applied = refl

texts-labels : (ls : Labels) → texts_of (labels_json ls) ≡ ls
texts-labels [] = refl
texts-labels ((k, v) ∷ ls) = λ i. (k, v) ∷ texts-labels ls i

marking : Marks api writes
marking ls o = λ i. some (texts-labels ls i)

-- The clock stays at seven or later.
late_enough : Kept api writes "shop" (λ w. 7 ≤ w)
late_enough = record {
  mapping = λ g k v w h. h;
  reading = λ dir path w h. h;
  applying = λ ri o content m l w h. omega arith;
}

apply_manifests-Keeps_example :
    7 ≤ (apply_manifests api writes "shop" "shop" ready_shop.environment.setup.manifests 7).1
apply_manifests-Keeps_example =
    apply_manifests-Keeps api writes marking "shop" (λ w. 7 ≤ w) late_enough "shop"
      ready_shop.environment.setup.manifests 7 (omega arith)

going : Forward api writes (λ w. w) ticking
going = record {
  mapping = λ g k v w. omega arith;
  deleting = λ ri name w. omega arith;
  getting = λ ri name w. omega arith;
}

reset-EndsWith_example :
    EndsWith
      (Restored floats api plain_texts writes "shop" (λ w. w) ticking going ready_shop 7)
      (reset floats api plain_texts writes "shop" ready_shop 7)
reset-EndsWith_example =
    reset-EndsWith floats api plain_texts writes "shop" (λ w. w) ticking going ready_shop 7
      gates_onward

restored : reset floats api plain_texts writes "shop" ready_shop 7 ≡ (done, 9)
unfolding reset eval_check kubedrill.Verify.Checks.decode_match_tree kubedrill.Matching.matches
    kubedrill.Matching.scalar_equal
restored = refl

abbrev admission : Admission ℕ ℕ
admission = record {
  create = λ ri o w. (created, w);
  server_minor = λ w. (ok "31+", w);
  atoi = λ s. if s == "31" then some 31 else none;
  nested_int = λ o a b. some 1;
}

name_known :
    (o m : Fields ℕ) (s : String)
    → lookup "metadata" o ≡ some (obj m)
    → lookup "name" m ≡ some (str s)
    → writes.name_of o ≡ s
name_known o m s h k = rw h (rw k refl)

accessing : Accessors api writes admission (λ w. w)
accessing = record { kinds = λ o s h. rw h refl; names = name_known }

guarded :
    (apply_enforcement api writes admission ready_shop 7).0
    ≡ some (ok ("kubedrill-enforce-no-delete" ∷ []))
unfolding apply_enforcement kubedrill.Rules.Enforce.enforced_policy_name
    kubedrill.Rules.Enforce.rule_policies kubedrill.Rules.Enforce.validating_admission_policy
    kubedrill.Rules.Enforce.validating_admission_policy_binding
guarded = refl

abbrev provider : Provider ℕ
provider = record {
  name = "kind";
  audit_log = true;
  can_exec = true;
  provision = λ req w. (none, w);
  connect_engine = λ id w. (none, w);
  destroy = λ id w. (none, w);
  node_exec = λ id node cmd w. (none, w);
}

abbrev pub wiring : Wiring ℕ ℕ
wiring = record {
  api = api;
  texts = plain_texts;
  writes = writes;
  admission = admission;
  provider = provider;
  library = record library {
    read_file = λ path. ok "doc";
    stat = λ path. true;
    unmarshal_strict = λ raw. ok ready_shop;
  };
  connect = λ id w. (none, w);
  absolute = λ dir. dir;
  session_dir = λ id. "sessions/" ⧺ id;
  kubeconfig_path = λ id. "sessions/" ⧺ id ⧺ "/kubeconfig";
}

-- A store of sessions without a session.
abbrev pub vacant : World
vacant = record { disk = record { folders = []; current = none; next_current = none }; calls = 0 }

loaded_onward :
    OnwardIn floats wiring os codec "shop" "s1"
      (λ w. w)
      ticking
      (λ ri name w. omega arith)
      accessing
      (load_dir wiring.library "shop")
unfolding load_dir kubedrill.Validation.validate eval_check eval_match get_target resource_for
    default_api_version
loaded_onward = (λ w. omega arith, tt)

start-Returns_example : Returns (start floats wiring os codec "shop" "s1" (7, vacant))
start-Returns_example =
    start-Returns floats wiring os codec "shop" "s1" (λ w. w) ticking (λ ri name w. omega arith)
      accessing 7 vacant loaded_onward

abbrev fast : ResetOpts
fast = record { hard = false; clock = true; hints = true }

reset_session-Resumed_example :
    Resumed floats wiring os codec "s1" fast
      (view codec one.disk)
      (reset_session floats wiring os codec "s1" fast (7, one)).0
      (view codec (reset_session floats wiring os codec "s1" fast (7, one)).1.1.disk)
reset_session-Resumed_example = reset_session-Resumed floats wiring os codec "s1" fast 7 one own_id

-- The reset was in place, without an error.
reset_in_place : (reset_session floats wiring os codec "s1" fast (7, one)).0 ≡ some (false, none)
unfolding reset_session kubedrill.Validation.validate eval_check
    kubedrill.Verify.Checks.decode_match_tree kubedrill.Matching.matches
    kubedrill.Matching.scalar_equal kubedrill.Store.write_state
reset_in_place = refl

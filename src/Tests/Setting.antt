-- ===== src/Tests/Setting.antt =====
-- The concrete cluster, challenge and events of the tests.
use kubedrill.Shared.{
  ℕ, ◌+◌, String, Bool, true, false, none, some, List, [], ◌∷◌, ◌==◌, nat_eq, arith, if◌then◌else◌,
  ◌≡◌,
}
use kubedrill.Shared.Results.{ok}
use kubedrill.Json.{Json, float, str, obj, Fields, end, field, Decoded, decoded, malformed, Float64}
use kubedrill.Challenge as Challenge
use kubedrill.Challenge.{
  Check, check, MatchCheck, Target, Targets, Probe, Objective, Rule, RuleSpec, RuleMatch, Penalty,
  Hint,
}
use kubedrill.Cluster.{Api, found, not_found, program, answer, created}
use kubedrill.Rules.Audit.{AuditEvent}
use kubedrill.Session.{Session, phase_running}
use kubedrill.Verify.Probe.{Texts}

pub nat_eq_refl : (x : ℕ) → nat_eq x x ≡ true
nat_eq_refl x = ground arith

pub nat_eq_symm : (x y : ℕ) → nat_eq x y ≡ true → nat_eq y x ≡ true
nat_eq_symm x y h = ground arith

pub nat_eq_trans : (x y z : ℕ) → nat_eq x y ≡ true → nat_eq y z ≡ true → nat_eq x z ≡ true
nat_eq_trans x y z h k = ground arith

-- Floats that are whole numbers.
abbrev pub floats : Float64
floats = record {
  Float = ℕ;
  of_int = λ n. n;
  eq = nat_eq;
  eq_refl = nat_eq_refl;
  eq_symm = nat_eq_symm;
  eq_trans = nat_eq_trans;
}

abbrev pub replicas : ℕ → Json ℕ
replicas n = obj (field "replicas" (float n) end)

abbrev pub unmarshal : String → Decoded ℕ
unmarshal s =
    if s == "three"
    then decoded (replicas 3)
    else if s == "two"
    then decoded (replicas 2)
    else malformed "no JSON"

-- The object of the cluster: a deployment with three replicas, which no probe made.
abbrev pub deployment : Fields ℕ
deployment = field "kind" (str "Deployment") (field "replicas" (float 3) end)

abbrev pub probe_job : Fields ℕ
probe_job =
    field "metadata" (obj (field "labels" (obj (field "kubedrill.dev/probe" (str "true") end)) end))
      end

-- A cluster whose world is its clock; each listing of pods takes a nanosecond, and a wait its time.
abbrev pub api : Api ℕ ℕ
api = record {
  unmarshal = unmarshal;
  parse_duration = λ s. if s == "4s" then some 4000000000 else none;
  parse_group_version = λ s. ok (record { group = "apps"; version = "v1" });
  cel_compile = λ s. program (λ o os. answer (s == "true"));
  now = λ w. (w, w);
  wait = λ d w. (false, w + d);
  rest_mapping = λ g k v w. (ok (record { resource = "deployments"; namespaced = true }), w);
  get = λ ri name w. (if name == "web" then found deployment else not_found, w);
  list = λ ri l w. (ok (deployment ∷ probe_job ∷ []), w);
  read_file = λ d p w. (ok "exit 1", w);
  random_suffix = λ w. ("abcd", w);
  namespace_missing = λ ns w. (none, w);
  create_namespace = λ ns w. (created, w);
  create_config_map = λ ns n s w. (ok tt, w);
  delete_config_map = λ ns n w. (tt, w);
  create_job = λ ns n i d w. (ok tt, w);
  delete_job = λ ns n w. (tt, w);
  list_pods = λ ns n w. (ok (record { name = "pod"; exit_codes = none ∷ some 1 ∷ [] } ∷ []), w + 1);
  pod_logs = λ ns p w. (ok "not there", w);
}

abbrev pub plain_texts : Texts
plain_texts = record {
  show_int = λ n. if nat_eq n 1 then "1" else "many";
  split_lines = λ s. s ∷ [];
  trim_space = λ s. s;
}

abbrev pub web : Target
web = record { kind = "Deployment"; name = "web"; namespace = "shop"; api_version = "" }

abbrev pub scaled : Check
scaled =
    check (some (record { target = web; object = "three" })) "" none Challenge.nil none none none

abbrev pub never : Check
never = check none "false" none Challenge.nil none (some web) none

abbrev pub objective : String → ℕ → List String → Bool → Check → Objective
objective id points deps initially ch = record {
  id = id;
  title = id;
  points = points;
  depends_on = deps;
  expect_initially_passing = initially;
  checks = ch ∷ [];
}

abbrev pub target : RuleMatch
target = record { kind = "Deployment"; name = "web"; namespace = "shop" }

abbrev pub spec : List String → String → RuleSpec
spec ops fields = record { operations = ops; target = target; fields = fields; description = "" }

abbrev pub deny_delete : Rule
deny_delete = record {
  id = "No Delete!";
  deny = some (spec ("delete" ∷ []) "");
  protect = none;
  require = none;
  penalty = record { fail = false; points = 5 };
  enforce = true;
}

abbrev pub require_three : Rule
require_three = record {
  id = "scale";
  deny = none;
  protect = none;
  require = some (spec [] "three");
  penalty = record { fail = true; points = 0 };
  enforce = false;
}

abbrev pub first_hint : Hint
first_hint = record { id = "h1"; penalty = 2; text = "look at the replicas" }

abbrev pub shop : Challenge.Challenge
shop = record {
  api_version = "kubedrill.dev/v1alpha1";
  kind = "Challenge";
  metadata = record {
    name = "shop";
    version = "1.0.0";
    title = "";
    description = "";
    difficulty = "easy";
    topics = [];
    exam = [];
    time_limit = "";
    node_access = false;
    min_engine_version = "";
  };
  environment = record {
    cluster = record { provider = "kind"; kubernetes_version = ""; nodes = none };
    images = [];
    setup = record { manifests = []; faults = []; readiness = [] };
  };
  objectives =
      objective "scale" 10 [] false scaled ∷ objective "rest" 20 ("scale" ∷ []) false never ∷ [];
  rules = deny_delete ∷ require_three ∷ [];
  hints = first_hint ∷ record { id = "h2"; penalty = 3; text = "scale to three" } ∷ [];
  solution = record { explanation = ""; script = "solve.sh" };
}

-- The player deletes the deployment.
abbrev pub deletion : AuditEvent
deletion = record {
  audit_id = "a1";
  stage = "ResponseComplete";
  level = "Metadata";
  verb = "delete";
  user = record { username = "system:serviceaccount:shop:bot"; groups = [] };
  impersonated_user = none;
  object_ref = record {
    resource = "deployments";
    namespace = "shop";
    name = "web";
    api_group = "apps";
    api_version = "v1";
    subresource = "";
  };
  request_object = "";
}

abbrev pub session : Session
session = record {
  schema_version = 1;
  id = "s1";
  challenge = record { name = "shop"; version = "1.0.0" };
  challenge_dir = "/sessions/s1/challenge";
  provider = "kind";
  cluster = "kubedrill-s1";
  phase = phase_running;
  started_at = 0;
  deadline = some 100;
  hints_used = "h1" ∷ [];
  attempts = [];
  best_score = 0;
  labels = [];
  enforced_policies = [];
}

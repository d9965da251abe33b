-- ===== src/Cluster.antt =====
-- What the program calls outside of its own code: the Kubernetes API, the CEL library, the clock, the
-- file system and the parsers of Go's packages. A call reads and changes a world of type `W`.
-- Also internal/kube/client.go, which resolves kinds over it.
use kubedrill.Shared.{
  ℕ, ◌+◌, ◌-◌, String, Bool, Option, none, some, List, ◌==◌, ◌||◌, if◌then◌else◌, ◌⧺◌, quote,
}
use kubedrill.Shared.Int.{Int64, is_neg, int_mod}
use kubedrill.Shared.Results.{Result, ok, err}
use kubedrill.Shared.State.{M, pure, ◌>>=◌}
use kubedrill.Json.{Json, Fields, Decoded}

pub record GroupVersion : Type 0 where
  pub group : String
  pub version : String

-- `meta.RESTMapping`: the resource, and whether it is namespaced.
pub record Mapping : Type 0 where
  pub resource : String
  pub namespaced : Bool

-- A dynamic resource interface: the resource and the namespace that it is restricted to.
pub record ResourceInterface : Type 0 where
  pub resource : String
  pub namespace : Option String

-- The answer to a `Get`.
pub data Got (F : Type 0) : Type 0 where
  found : Fields F → Got F
  not_found : Got F
  failed : String → Got F

-- A pod as far as the probe reads it: its name, and the exit codes of its containers, where they
-- have terminated.
pub record Pod : Type 0 where
  pub name : String
  pub exit_codes : List (Option Int64)

pub data CelAnswer : Type 0 where
  eval_error : String → CelAnswer
  not_bool : CelAnswer
  answer : Bool → CelAnswer

-- A CEL expression taken through `NewEnv`, `Compile` and `Program`.
pub data Compiled (F : Type 0) : Type 0 where
  env_error compile_error program_error : String → Compiled F
  program : (Json F → List (Json F) → CelAnswer) → Compiled F

-- A `Create`, as far as its callers look at the error.
pub data Created : Type 0 where
  created already_exists : Created
  refused : String → Created

pub record Api (F W : Type 0) : Type 0 where
  pub unmarshal : String → Decoded F
  pub parse_duration : String → Option Int64
  pub parse_group_version : String → Result GroupVersion
  pub cel_compile : String → Compiled F
  pub now : M W ℕ
  -- `select` on `ctx.Done()` and a timer: true if the context ended first.
  pub wait : ℕ → M W Bool
  pub rest_mapping : String → String → String → M W (Result Mapping)
  pub get : ResourceInterface → String → M W (Got F)
  pub list : ResourceInterface → String → M W (Result (List (Fields F)))
  -- `os.ReadFile(filepath.Join(dir, path))`
  pub read_file : String → String → M W (Result String)
  pub random_suffix : M W String
  -- `Namespaces().Get`: none if it is there, else the error and whether it is not-found.
  pub namespace_missing : String → M W (Option (Bool × String))
  pub create_namespace : String → M W Created
  pub create_config_map : String → String → String → M W (Result (Unit {0}))
  pub delete_config_map : String → String → M W (Unit {0})
  pub create_job : String → String → String → Int64 → M W (Result (Unit {0}))
  pub delete_job : String → String → M W (Unit {0})
  pub list_pods : String → String → M W (Result (List Pod))
  pub pod_logs : String → String → M W (Result String)

-- A duration in nanoseconds added to a time; a negative one goes back, to 0 at most.
abbrev pub time_add : ℕ → Int64 → ℕ
time_add t d = if is_neg d then t - (int_mod - d) else t + d

-- `DefaultAPIVersion`
unfoldable pub default_api_version : String → String
default_api_version kind =
    if kind == "Deployment" || kind == "ReplicaSet" || kind == "StatefulSet" || kind == "DaemonSet"
    then "apps/v1"
    else if kind == "Pod"
        || kind == "Service"
        || kind == "ConfigMap"
        || kind == "Secret"
        || kind == "Namespace"
        || kind == "Node"
        || kind == "PersistentVolumeClaim"
        || kind == "PersistentVolume"
        || kind == "ServiceAccount"
        || kind == "Endpoints"
    then "v1"
    else if kind == "Job" || kind == "CronJob"
    then "batch/v1"
    else if kind == "Ingress" || kind == "NetworkPolicy"
    then "networking.k8s.io/v1"
    else if kind == "Role"
        || kind == "RoleBinding"
        || kind == "ClusterRole"
        || kind == "ClusterRoleBinding"
    then "rbac.authorization.k8s.io/v1"
    else ""

abbrev scoped : Mapping → String → ResourceInterface
scoped mapping namespace = record {
  resource = mapping.resource;
  namespace =
      if mapping.namespaced then some (if namespace == "" then "default" else namespace) else none;
}

module _ {F W : Type 0} (api : Api F W) where
  abbrev mapped : String → String → String → Result Mapping → Result ResourceInterface
  mapped api_version kind namespace (ok mapping) = ok (scoped mapping namespace)
  mapped api_version kind namespace (err e) =
      err ("kube: no REST mapping for " ⧺ api_version ⧺ "/" ⧺ kind ⧺ ": " ⧺ e)

  abbrev pub mapping_of :
      String → String → String → Result GroupVersion → M W (Result ResourceInterface)
  mapping_of api_version kind namespace (err e) =
      pure (err ("kube: parse apiVersion " ⧺ quote api_version ⧺ ": " ⧺ e))
  mapping_of api_version kind namespace (ok gv) = do
    mapping ← api.rest_mapping gv.group kind gv.version
    pure (mapped api_version kind namespace mapping)

  -- `ResourceFor`
  unfoldable pub resource_for : String → String → String → M W (Result ResourceInterface)
  resource_for api_version kind namespace =
      mapping_of api_version kind namespace (api.parse_group_version api_version)

-- ===== src/Kind/Runtime.antt =====
-- What internal/providers/kind calls, in a world `W`: kind, docker and the file system. A text stands
-- for its bytes.
use kubedrill.Shared.{ℕ, String, Bool, Option, List, ◌⧺◌}
use kubedrill.Shared.Results.{Result}
use kubedrill.Shared.State.{M}

-- A command that was run: what it wrote, or the error with what it wrote to its error output.
pub data Ran : Type 0 where
  output : String → Ran
  broke : String → String → Ran

-- Of client-go's `Config` what the program looks at: the credentials and the contexts, as the lists of
-- the entries of its maps, in the order in which they are ranged over. The rest is a text.
pub record KubeContext : Type 0 where
  pub auth_info : String
  pub others : String

pub record KubeConfig : Type 0 where
  pub auth_infos : List (String × String)
  pub contexts : List (String × KubeContext)
  pub others : String

-- The calls: kind's clusters and nodes, `tail -c +n` of a file on a node, which counts bytes from 1, a
-- command on a node with what it wrote, or with the error and all its output if it fails
-- (`run_combined`), files, and client-go's reading and writing of a kubeconfig.
pub record Runtime (W : Type 0) : Type 0 where
  pub create : String → String → String → String → M W (Option String)
  pub delete : String → M W (Option String)
  pub list : M W (Result (List String))
  pub list_nodes : String → M W (Result (List String))
  pub control_plane_nodes : List String → M W (Result (List String))
  pub tail : String → ℕ → String → M W Ran
  pub run_combined : String → List String → M W (Option (String × String))
  pub make_dir : String → M W (Option String)
  pub write_file : String → String → M W (Option String)
  pub has_file : String → M W Bool
  pub run : String → List String → M W Ran
  pub read_file : String → M W (Result String)
  pub load_config : String → Result KubeConfig
  pub write_config : KubeConfig → Result String
  pub open_archive : String → M W (Option String)
  pub rewind_archive : String → M W (Option String)
  pub import_archive : String → String → M W (Option String)
  pub join : String → String → String
  pub has_suffix : String → String → Bool

abbrev pub cluster_prefix : String
cluster_prefix = "kubedrill-"

-- `clusterName`
abbrev pub cluster_name : String → String
cluster_name id = cluster_prefix ⧺ id

-- The handle of a cluster: of its fields those that its methods use.
pub record Handle : Type 0 where
  pub player_path : String
  pub engine_path : String
  pub cluster : String
  pub audit : Bool

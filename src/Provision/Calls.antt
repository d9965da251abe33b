-- ===== src/Provision/Calls.antt =====
-- internal/provision: what it calls, and how a part of a setup ends.
use kubedrill.Shared.{String, Option, none, some, List, [], ◌∷◌, ◌==◌, map, if◌then◌else◌}
use kubedrill.Shared.Int.{Int64}
use kubedrill.Shared.Results.{Result}
use kubedrill.Shared.State.{M, pure}
use kubedrill.Json.{Fields}
use kubedrill.Cluster.{ResourceInterface}

abbrev pub challenge_label : String
challenge_label = "kubedrill.dev/challenge"

-- The types of a patch that the program sends; a server-side apply is with the field manager
-- kubedrill, and forced.
pub data PatchType : Type 0 where
  apply_patch strategic_merge_patch json_patch : PatchType

-- A `Delete`, as far as its caller looks at the error.
pub data Deleted : Type 0 where
  deleted absent : Deleted
  refused : String → Deleted

abbrev pub Labels : Type 0
Labels = List (String × String)

-- `labels[key] = value`
abbrev pub with_label : String → String → Labels → Labels
with_label key value [] = (key, value) ∷ []
with_label key value ((k, v) ∷ rest) =
    let after = with_label key value rest in if k == key then (k, value) ∷ rest else (k, v) ∷ after

-- What the package calls besides `Api`: `bytes.Split` at the separator of documents and
-- `bytes.TrimSpace`, `yaml.Unmarshal` into a map, the accessors of unstructured objects, the calls
-- that change the cluster, `ctx.Err()` and the text of a duration.
pub record Writes (F W : Type 0) : Type 0 where
  pub split : String → String → List String
  pub trim_space : String → String
  pub parse_yaml : String → Result (Fields F)
  pub marshal : Fields F → Result String
  pub api_version_of : Fields F → String
  pub kind_of : Fields F → String
  pub namespace_of : Fields F → String
  pub name_of : Fields F → String
  pub labels_of : Fields F → Option Labels
  pub set_labels : Labels → Fields F → Fields F
  pub patch : ResourceInterface → String → PatchType → String → M W (Option String)
  pub delete : ResourceInterface → String → M W Deleted
  pub context_error : M W String
  pub show_duration : Int64 → String

-- How a part of the setup ends: without an error, with one, or out of the rounds of the model.
pub data Finish : Type 0 where
  done unfinished : Finish
  failing : String → Finish

abbrev pub finish_of : Option String → Finish
finish_of none = done
finish_of (some e) = failing e

abbrev pub or_no_labels : Option Labels → Labels
or_no_labels none = []
or_no_labels (some ls) = ls

abbrev pub prefix_error : (String → String) → Option String → Option String
prefix_error label none = none
prefix_error label (some e) = some (label e)

-- The rest of a sequence, unless there was an error.
abbrev pub unless_error :
    {W : Type 0} → (String → String) → M W (Option String) → Option String → M W (Option String)
unless_error label rest none = rest
unless_error label rest (some e) = pure (some (label e))

abbrev pub unless_failing : {W : Type 0} → (String → String) → M W Finish → Finish → M W Finish
unless_failing label rest done = rest
unless_failing label rest unfinished = pure unfinished
unless_failing label rest (failing e) = pure (failing (label e))

abbrev pub as_it_is : String → String
as_it_is e = e

-- `splitYAML`
abbrev pub split_yaml : {F W : Type 0} → Writes F W → String → List String
split_yaml writes raw = map writes.trim_space (writes.split raw "\n---")

-- ===== src/Kind/Images.antt =====
-- `LoadImages` of internal/providers/kind/provider.go.
use kubedrill.Shared.{String, Option, none, some, List, [], ◌∷◌, ◌⧺◌, quote}
use kubedrill.Shared.Results.{Result, ok, err}
use kubedrill.Shared.State.{M, pure, ◌>>=◌}
use kubedrill.Kind.Runtime.{Runtime, cluster_name}

module _ {W : Type 0} (runtime : Runtime W) where
  abbrev unless_import_error : M W (Option String) → Option String → M W (Option String)
  unless_import_error rest none = rest
  unless_import_error rest (some e) = pure (some e)

  abbrev imported : String → String → Option String → Option String
  imported tar node none = none
  imported tar node (some e) = some ("kind: import " ⧺ quote tar ⧺ " into " ⧺ node ⧺ ": " ⧺ e)

  abbrev import_rewound : String → String → Option String → M W (Option String)
  import_rewound tar node (some e) = pure (some ("kind: rewind " ⧺ quote tar ⧺ ": " ⧺ e))
  import_rewound tar node none = do e ← runtime.import_archive tar node; pure (imported tar node e)

  -- The inner loop of `LoadImages`
  unfoldable pub import_into : String → List String → M W (Option String)
  import_into tar [] = pure none
  import_into tar (node ∷ nodes) = do
    r ← runtime.rewind_archive tar
    e ← import_rewound tar node r
    unless_import_error (import_into tar nodes) e

  abbrev import_opened : String → List String → Option String → M W (Option String)
  import_opened tar nodes (some e) =
      pure (some ("kind: open image archive " ⧺ quote tar ⧺ ": " ⧺ e))
  import_opened tar nodes none = import_into tar nodes

  -- Its outer loop
  unfoldable pub import_all : List String → List String → M W (Option String)
  unfolding import_into
  import_all nodes [] = pure none
  import_all nodes (tar ∷ tars) = do
    r ← runtime.open_archive tar
    e ← import_opened tar nodes r
    unless_import_error (import_all nodes tars) e

  abbrev import_listed : String → List String → Result (List String) → M W (Option String)
  import_listed id tars (err e) = pure (some ("kind: list nodes for " ⧺ quote id ⧺ ": " ⧺ e))
  import_listed id tars (ok nodes) = import_all nodes tars

  -- `LoadImages`
  unfoldable pub load_images : String → List String → M W (Option String)
  unfolding import_all
  load_images id tars = do nodes ← runtime.list_nodes (cluster_name id); import_listed id tars nodes

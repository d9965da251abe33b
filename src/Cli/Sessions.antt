-- ===== src/Cli/Sessions.antt =====
-- internal/cli/session.go, and the decisions of play.go: which session a command is about, stopping
-- sessions, and removing what a crash left. The clusters are those of the provider, in a world `W`.
pub mod Ids
pub mod Choosing
pub mod Stopping
pub mod Pruning
use kubedrill.Shared.{
  ℕ, String, Bool, true, false, not, ◌&&◌, ◌||◌, Option, none, some, List, [], ◌∷◌, ◌++◌, ◌==◌, map,
  leb, if◌then◌else◌, ◌⧺◌,
}
use kubedrill.Shared.State.{M, pure, ◌>>=◌}
use kubedrill.Shared.Results.{Result, ok, err}
use kubedrill.Session.{Session}
use kubedrill.Rules.Grade.{contains}
use kubedrill.Store.Files.{World, Os}
use kubedrill.Store as Store
use kubedrill.Store.{Codec, count_live}
use kubedrill.Verify.Score.{Scorecard}
use kubedrill.Engine.Verify.{on_cluster, on_files}

-- The calls of the provider: the ids of its clusters, and the destruction of one.
pub record Clusters (W : Type 0) : Type 0 where
  pub list : M W (Result (List String))
  pub destroy : String → M W (Option String)

abbrev pub resource_pressure_threshold : ℕ
resource_pressure_threshold = 2

-- A line of the table of `list`.
pub record Row : Type 0 where
  pub id : String
  pub is_current : Bool
  pub challenge : String
  pub phase : String
  pub best_score : ℕ

abbrev pub row_of : String → Session → Row
row_of current st = record {
  id = st.id;
  is_current = st.id == current;
  challenge = st.challenge.name;
  phase = st.phase;
  best_score = st.best_score;
}

abbrev current_or_blank : Result String → String
current_or_blank (ok id) = id
current_or_blank (err e) = ""

-- What `verify` makes of a scorecard: none if the command succeeds.
unfoldable pub verify_exit : Scorecard → Option String
verify_exit card =
    if not card.all_passed || (card.failed && not card.advisory)
    then some "objectives still failing"
    else none

-- The check of `start` before a challenge is looked for.
unfoldable pub start_refused : Bool → ℕ → Bool
start_refused force live = leb resource_pressure_threshold live && not force

module _ (os : Os) (codec : Codec) where
  abbrev pub resolved : Result String → Result String
  resolved (err e) = err e
  resolved (ok cur) =
      if cur == "" then err "no session specified and no current session set" else ok cur

  abbrev pub resolve_current : M World (Result String)
  resolve_current = do cur ← Store.current os codec; pure (resolved cur)

  -- `resolveSession`
  unfoldable pub resolve_session : List String → M World (Result String)
  unfolding Store.current
  resolve_session [] = resolve_current
  resolve_session (arg ∷ args) = if not (arg == "") then pure (ok arg) else resolve_current

  -- The table of `list`, and the number of sessions with a cluster where it is noted.
  abbrev pub listing : Result (List Session) → String → Result (List Row × Option ℕ)
  listing (err e) cur = err e
  listing (ok states) cur = ok (
    map (row_of cur) states,
    (let live = count_live states in
        if leb resource_pressure_threshold live then some live else none),
  )

  unfoldable pub list_sessions : M World (Result (List Row × Option ℕ))
  unfolding Store.list Store.current
  list_sessions = do
    states ← Store.list os codec
    cur ← Store.current os codec
    pure (listing states (current_or_blank cur))

  module _ {W : Type 0} (clusters : Clusters W) where
    abbrev pub unless_removed :
        M (W × World) (Option String) → Option String → M (W × World) (Option String)
    unless_removed rest (some e) = pure (some e)
    unless_removed rest none = rest

    -- The loop of `stop`: what destroying a cluster returns is a warning.
    unfoldable pub stop_all : List String → M (W × World) (Option String)
    unfolding Store.remove
    stop_all [] = pure none
    stop_all (id ∷ ids) = do
      _ ← on_cluster (clusters.destroy id)
      e ← on_files (Store.remove os codec id)
      unless_removed (stop_all ids) e

    abbrev pub session_ids : List Session → List String
    session_ids = map (λ (st : Session). st.id)

    abbrev pub stop_listed : Result (List Session) → M (W × World) (Option String)
    stop_listed (err e) = pure (some e)
    stop_listed (ok states) = stop_all (session_ids states)

    abbrev pub stop_loaded : String → Result Session → M (W × World) (Option String)
    stop_loaded id (err e) = pure (some e)
    stop_loaded id (ok st) = stop_all (id ∷ [])

    abbrev pub stop_resolved : Result String → M (W × World) (Option String)
    stop_resolved (err e) = pure (some e)
    stop_resolved (ok id) = do st ← on_files (Store.load os codec id); stop_loaded id st

    abbrev stop_one : List String → M (W × World) (Option String)
    stop_one args = do id ← on_files (resolve_session args); stop_resolved id

    abbrev stop_every : M (W × World) (Option String)
    stop_every = do states ← on_files (Store.list os codec); stop_listed states

    -- `stop`, with its flag `all`
    unfoldable pub stop : Bool → List String → M (W × World) (Option String)
    unfolding stop_all resolve_session Store.list Store.load
    stop all args = if all then stop_every else stop_one args

    abbrev pub ids_listed : Result (List Session) → List String
    ids_listed (err e) = []
    ids_listed (ok states) = session_ids states

    abbrev pub clusters_listed : Result (List String) → List String
    clusters_listed (err e) = []
    clusters_listed (ok ids) = ids

    abbrev done_line : String → String → Option String → List String → List String
    done_line what id none lines = (what ⧺ id) ∷ lines
    done_line what id (some e) lines = lines

    -- The first loop of `pruneOrphans`
    unfoldable pub destroy_orphans : List String → List String → M (W × World) (List String)
    destroy_orphans sessions [] = pure []
    destroy_orphans sessions (id ∷ ids) =
        if contains sessions id then destroy_orphans sessions ids else do
          e ← on_cluster (clusters.destroy id)
          lines ← destroy_orphans sessions ids
          pure (done_line "destroyed orphan cluster " id e lines)

    -- The second loop, over the sessions in the order in which the map is ranged over.
    unfoldable pub remove_stale : List String → List String → M (W × World) (List String)
    unfolding Store.remove
    remove_stale clusters_seen [] = pure []
    remove_stale clusters_seen (id ∷ ids) =
        if contains clusters_seen id then remove_stale clusters_seen ids else do
          e ← on_files (Store.remove os codec id)
          lines ← remove_stale clusters_seen ids
          pure (done_line "removed stale session " id e lines)

    -- `pruneOrphans`; `ranged` is the order of Go's map over the keys that were stored.
    unfoldable pub prune_orphans : (List String → List String) → M (W × World) (List String)
    unfolding destroy_orphans remove_stale Store.list
    prune_orphans ranged = do
      states ← on_files (Store.list os codec)
      infos ← on_cluster clusters.list
      let sessions = ids_listed states
      let seen = clusters_listed infos
      destroyed ← destroy_orphans sessions seen
      removed ← remove_stale seen (ranged sessions)
      pure (destroyed ++ removed)

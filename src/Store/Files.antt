-- ===== src/Store/Files.antt =====
-- The directory of the sessions, and the calls of the operating system that internal/store makes. An
-- id is one component of a path, other than the names of the two files of the directory itself, or it
-- is blank: joined to the path of the directory, a blank id is the directory itself.
-- Locks are not on the disk: operations run one after the other. A directory of sessions that is
-- not there is one without entries.
use kubedrill.Shared.{
  ℕ, suc, String, Bool, Option, none, some, List, [], ◌∷◌, ◌==◌, is_some, if◌then◌else◌,
}
use kubedrill.Shared.State.{M}
use kubedrill.Shared.Results.{Result, ok, err}

-- The directory of a session: state.json, events.log, and the contents of the files .state-*.json,
-- the one that was made last first.
pub record Folder : Type 0 where
  pub state : Option String
  pub events : String
  pub temps : List String

-- The directory above: its directories, and the files current and .current.tmp.
pub record Disk : Type 0 where
  pub folders : List (String × Folder)
  pub current : Option String
  pub next_current : Option String

-- `calls` counts the calls that were made.
pub record World : Type 0 where
  pub disk : Disk
  pub calls : ℕ

-- Which calls fail, with the error's text, and what a removal that fails leaves of the directory of a
-- session, and of the whole directory.
pub record Os : Type 0 where
  pub refuses : ℕ → Option String
  pub left : ℕ → Folder → Folder
  pub left_all : ℕ → Disk → Disk

abbrev pub lookup : String → List (String × Folder) → Option Folder
lookup id [] = none
lookup id ((k, f) ∷ r) = if k == id then some f else lookup id r

abbrev pub put : String → Folder → List (String × Folder) → List (String × Folder)
put id f [] = (id, f) ∷ []
put id f ((k, g) ∷ r) = let rest = put id f r in if k == id then (k, f) ∷ r else (k, g) ∷ rest

abbrev pub delete : String → List (String × Folder) → List (String × Folder)
delete id [] = []
delete id ((k, g) ∷ r) = let rest = delete id r in if k == id then rest else (k, g) ∷ rest

abbrev pub file_of : Option Folder → Option String
file_of none = none
file_of (some f) = f.state

-- What `os.ReadFile` finds at the path of a session's state.
abbrev pub state_file : String → Disk → Option String
state_file id d = file_of (lookup id d.folders)

abbrev pub no_folder : Folder
no_folder = record { state = none; events = ""; temps = [] }

abbrev pub exists : String → Disk → Bool
exists id d = is_some (lookup id d.folders)

abbrev pub make_folder : String → Disk → Disk
make_folder id d = if exists id d then d else record d { folders = put id no_folder d.folders }

abbrev pub with_folder : String → (Folder → Folder) → Option Folder → Disk → Disk
with_folder id change none d = d
with_folder id change (some f) d = record d { folders = put id (change f) d.folders }

abbrev pub tick : (Disk → Disk) → World → World
tick change w = record { disk = change w.disk; calls = suc w.calls }

abbrev pub missing_error : Option Folder → Option String
missing_error none = some "no such file or directory"
missing_error (some f) = none

-- One after the other, the second only if the first succeeds.
abbrev pub then_or :
    M World (Option String)
    → (String → M World (Option String))
    → M World (Option String)
    → M World (Option String)
then_or m on_error rest w = let (e, w') = m w in elim e [ none ↦ rest w' | some t ↦ on_error t w' ]

-- What a removal that succeeds leaves: nothing at all, where the id is blank.
abbrev pub removed : String → Disk → Disk
removed id d =
    if id == ""
    then record { folders = []; current = none; next_current = none }
    else record d { folders = delete id d.folders }

module _ (os : Os) where
  -- A call that changes the disk; none if it succeeds.
  abbrev pub attempt : (Disk → Disk) → M World (Option String)
  attempt change w = elim (os.refuses w.calls) [
    | none ↦ (none, tick change w)
    | some e ↦ (some e, tick (λ d. d) w)
  ]

  -- A call on a file in the directory of a session.
  abbrev pub in_folder : String → (Folder → Folder) → M World (Option String)
  in_folder id change w = elim (os.refuses w.calls) [
    | none ↦ (
      missing_error (lookup id w.disk.folders),
      tick (with_folder id change (lookup id w.disk.folders)) w,
    )
    | some e ↦ (some e, tick (λ d. d) w)
  ]

  abbrev pub read : {A : Type 0} → (Disk → A) → M World (Result A)
  read look w = elim (os.refuses w.calls) [
    | none ↦ (ok (look w.disk), tick (λ d. d) w)
    | some e ↦ (err e, tick (λ d. d) w)
  ]

  abbrev pub left_of : String → ℕ → Disk → Disk
  left_of id n d =
      if id == "" then os.left_all n d else with_folder id (os.left n) (lookup id d.folders) d

  -- `os.RemoveAll`
  abbrev pub remove_folder : String → M World (Option String)
  remove_folder id w = elim (os.refuses w.calls) [
    | none ↦ (none, tick (removed id) w)
    | some e ↦ (some e, tick (left_of id w.calls) w)
  ]

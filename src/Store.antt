-- ===== src/Store.antt =====
-- internal/store/store.go: the sessions in files.
pub mod Files
pub mod Folders
pub mod Writing
pub mod Sessions
pub mod Saving
pub mod Refinement
pub mod Roundtrip
pub mod Listing
pub mod Views
use kubedrill.Shared.{
  ℕ, zero, suc, String, Bool, true, false, Option, none, some, List, [], ◌∷◌, ◌==◌, not, map, ltb,
  nat_eq, if◌then◌else◌, ◌⧺◌, quote,
}
use kubedrill.Shared.State.{M, pure, ◌>>=◌}
use kubedrill.Shared.Sorting.{sort_by}
use kubedrill.Shared.Results.{Result, ok, err}
use kubedrill.Session.{Session, Event, phase_stopped, state_schema_version}
use kubedrill.Store.Files.{
  Folder, Disk, World, Os, state_file, exists, make_folder, then_or, attempt, in_folder, read,
  remove_folder,
}

-- `encoding/json` on the state and on an event.
pub record Codec : Type 0 where
  pub encode : Session → Result String
  pub decode : String → Result Session
  pub encode_event : Event → Result String

abbrev pub filled : ℕ → Session → Session
filled now st = record st {
  schema_version = if nat_eq st.schema_version 0 then state_schema_version else st.schema_version;
  started_at = if nat_eq st.started_at 0 then now else st.started_at;
}

abbrev pub stamped : ℕ → Event → Event
stamped now ev = if nat_eq ev.at 0 then record ev { at = now } else ev

abbrev pub last_temp : List String → Option String
last_temp [] = none
last_temp (t ∷ ts) = some t

abbrev pub rest_of : List String → List String
rest_of [] = []
rest_of (t ∷ ts) = ts

abbrev pub add_temp : Folder → Folder
add_temp f = record f { temps = "" ∷ f.temps }

abbrev pub fill_temp : String → Folder → Folder
fill_temp text f = record f { temps = text ∷ rest_of f.temps }

abbrev pub drop_temp : Folder → Folder
drop_temp f = record f { temps = rest_of f.temps }

-- `os.Rename(tmpPath, …)`
abbrev pub commit : Folder → Folder
commit f = record f { state = last_temp f.temps; temps = rest_of f.temps }

abbrev pub newer : Session → Session → Bool
newer s t = ltb t.started_at s.started_at

-- The `sort.Slice` of `List`
abbrev pub newest_first : List Session → List Session
newest_first states = sort_by newer states

abbrev pub is_live : Session → Bool
is_live s = not (s.phase == phase_stopped)

abbrev pub count_live : List Session → ℕ
count_live [] = 0
count_live (s ∷ ss) = let rest = count_live ss in if is_live s then suc rest else rest

abbrev pub or_blank : Option String → String
or_blank none = ""
or_blank (some s) = s

module _ (os : Os) (codec : Codec) where
  abbrev pub failing : String → String → M World (Option String)
  failing label e = pure (some (label ⧺ e))

  -- The clean-up where the temporary file was made: its own errors are dropped.
  abbrev pub discard : String → String → String → M World (Option String)
  discard id label e w = let (_, w') = in_folder os id drop_temp w in (some (label ⧺ e), w')

  abbrev pub close_and_discard : String → String → String → M World (Option String)
  close_and_discard id label e w = let (_, w') = attempt os (λ d. d) w in discard id label e w'

  -- The stages of `writeState`, the last first.
  abbrev pub rename_temp : String → M World (Option String)
  rename_temp id = then_or (in_folder os id commit) (discard id "store: commit state: ") (pure none)

  abbrev pub close_temp : String → M World (Option String)
  close_temp id = then_or (attempt os (λ d. d)) (discard id "store: close state: ") (rename_temp id)

  abbrev pub write_temp : String → String → M World (Option String)
  write_temp id text =
      then_or (in_folder os id (fill_temp text)) (close_and_discard id "store: write state: ")
        (close_temp id)

  abbrev pub write_text : String → String → M World (Option String)
  write_text id text =
      then_or (in_folder os id add_temp) (failing "store: temp state: ") (write_temp id text)

  abbrev pub write_encoded : String → Result String → M World (Option String)
  write_encoded id (err e) = failing "store: marshal state: " e
  write_encoded id (ok text) = write_text id text

  -- `writeState`
  unfoldable pub write_state : Session → M World (Option String)
  write_state st = write_encoded st.id (codec.encode st)

  -- `err == nil` of `os.Stat`: a call that fails counts as a directory that is not there.
  abbrev pub is_there : Result Bool → Bool
  is_there (ok b) = b
  is_there (err e) = false

  -- `Create` at the time `now`
  unfoldable pub create : ℕ → Session → M World (Option String)
  unfolding write_state
  create now st w =
      let (there, w₁) = read os (exists st.id) w in
      let written =
        then_or (attempt os (make_folder st.id)) (failing "store: create session dir: ")
          (write_state (filled now st)) w₁ in
      if st.id == ""
      then (some "store: session id required", w)
      else if is_there there
      then (some ("store: session " ⧺ quote st.id ⧺ " already exists"), w₁)
      else written

  abbrev pub parsed_state : String → Result Session → Result Session
  parsed_state id (ok st) = ok st
  parsed_state id (err e) = err ("store: parse state for " ⧺ quote id ⧺ ": " ⧺ e)

  abbrev pub read_back : String → Result (Option String) → Result Session
  read_back id (err e) = err ("store: read state: " ⧺ e)
  read_back id (ok none) = err ("session not found: " ⧺ quote id)
  read_back id (ok (some text)) = parsed_state id (codec.decode text)

  -- `Load`
  unfoldable pub load : String → M World (Result Session)
  load id = do text ← read os (state_file id); pure (read_back id text)

  abbrev pub readable : Result Session → List Session → List Session
  readable (ok st) rest = st ∷ rest
  readable (err e) rest = rest

  -- The loop of `List`
  unfoldable pub load_each : List String → M World (List Session)
  unfolding load
  load_each [] = pure []
  load_each (id ∷ ids) = do st ← load id; rest ← load_each ids; pure (readable st rest)

  abbrev pub list_entries : Result (List String) → M World (Result (List Session))
  list_entries (err e) = pure (err ("store: list sessions: " ⧺ e))
  list_entries (ok ids) = do states ← load_each ids; pure (ok (newest_first states))

  -- `List`
  unfoldable pub list : M World (Result (List Session))
  unfolding load_each
  list = do entries ← read os (λ d. map (λ (id, _). id) d.folders); list_entries entries

  abbrev pub persist : Result Session → M World (Option String)
  persist (err e) = pure (some e)
  persist (ok st) = write_state st

  abbrev pub update_loaded : (Session → Result Session) → Result Session → M World (Option String)
  update_loaded mutate (err e) = pure (some e)
  update_loaded mutate (ok st) = persist (mutate st)

  -- `Update` under its locks
  unfoldable pub update_locked : String → (Session → Result Session) → M World (Option String)
  unfolding load
  update_locked id mutate = do st ← load id; update_loaded mutate st

  -- `Update`
  unfoldable pub update : String → (Session → Result Session) → M World (Option String)
  unfolding update_locked
  update id mutate =
      then_or (in_folder os id (λ f. f)) (failing ("store: flock " ⧺ quote id ⧺ ": "))
        (update_locked id mutate)

  abbrev pub append_line : String → Result String → M World (Option String)
  append_line id (err e) = failing "store: marshal event: " e
  append_line id (ok line) =
      then_or (in_folder os id (λ f. record f { events = f.events ⧺ line ⧺ "\n" }))
        (failing "store: append event: ") (pure none)

  -- `AppendEvent` at the time `now`
  unfoldable pub append_event : ℕ → String → Event → M World (Option String)
  append_event now id ev =
      then_or (in_folder os id (λ f. f)) (failing "store: open events.log: ") (
        append_line id (codec.encode_event (if nat_eq ev.at 0 then record ev { at = now } else ev)))

  abbrev pub pointer : Result (Option String) → Result String
  pointer (err e) = err ("store: read current: " ⧺ e)
  pointer (ok id) = ok (or_blank id)

  -- `Current`
  unfoldable pub current : M World (Result String)
  current = do id ← read os (λ d. d.current); pure (pointer id)

  abbrev pub points_to : String → Result String → Bool
  points_to id (err e) = "" == id
  points_to id (ok cur) = cur == id

  abbrev pub clear_pointer : Bool → M World (Option String)
  clear_pointer b w =
      let (_, w') = attempt os (λ d. record d { current = none }) w in (none, if b then w' else w)

  -- `Remove` after the directory
  unfoldable pub forget : String → M World (Option String)
  unfolding current
  forget id = do cur ← current; clear_pointer (points_to id cur)

  -- `Remove`
  unfoldable pub remove : String → M World (Option String)
  unfolding forget
  remove id =
      then_or (remove_folder os id) (failing ("store: remove session " ⧺ quote id ⧺ ": "))
        (forget id)

  abbrev pub discard_pointer : String → M World (Option String)
  discard_pointer e w =
      let (_, w') = attempt os (λ d. record d { next_current = none }) w in
      (some ("store: commit current: " ⧺ e), w')

  -- The last steps of `SetCurrent`
  abbrev pub rename_pointer : M World (Option String)
  rename_pointer =
      then_or (attempt os (λ d. record d { current = d.next_current; next_current = none }))
        discard_pointer (pure none)

  abbrev pub write_pointer : String → M World (Option String)
  write_pointer id =
      then_or (attempt os (λ d. record d { next_current = some id }))
        (failing "store: write current: ") rename_pointer

  -- `SetCurrent`
  unfoldable pub set_current : String → M World (Option String)
  set_current id = then_or (attempt os (λ d. d)) (failing "store: root dir: ") (write_pointer id)

  abbrev pub live_of : Result (List Session) → ℕ
  live_of (err e) = 0
  live_of (ok states) = count_live states

  -- `LiveCount`
  unfoldable pub live_count : M World ℕ
  unfolding list
  live_count = do states ← list; pure (live_of states)

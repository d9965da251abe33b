-- ===== src/Tests/Stores.antt =====
-- The session store at concrete inputs: two texts stand for two states of one session.
use kubedrill.Shared.{
  String, none, some, List, [], ◌∷◌, ◌==◌, ◌≡◌, ◌↔◌, refl, sym, ap, if◌then◌else◌, nat_eq, Memᴰ,
}
use kubedrill.Shared.Results.{Result, ok}
use kubedrill.Session.{Session, phase_running, phase_stopped}
use kubedrill.Store.Files.{World, Os}
use kubedrill.Store.{Codec, filled, create, update, load, list, live_count}
use kubedrill.Store.Sessions.{Operation, Runs, view, run_all}
use kubedrill.Store.Views.{HasOwnId}
use kubedrill.Store.Refinement.{AllFresh, run_all-Runs}
use kubedrill.Store.Roundtrip.{IsHealthy, create-load}
use kubedrill.Store.Listing.{IsNewestFirst, list-IsListing}
use kubedrill.Tests.Setting.{session}

abbrev running : Session
running = filled 5 session

abbrev stop : Session → Result Session
stop s = ok (record s { phase = phase_stopped })

abbrev stopped : Session
stopped = record running { phase = phase_stopped }

abbrev pub codec : Codec
codec = record {
  encode = λ s. ok (if s.phase == phase_running then "running" else "stopped");
  decode = λ t. ok (if t == "running" then running else stopped);
  encode_event = λ e. ok e.kind;
}

abbrev pub os : Os
os = record { refuses = λ n. none; left = λ n f. f; left_all = λ n d. d }

healthy : IsHealthy os
healthy n = refl

-- The fifth call fails.
abbrev bad_os : Os
bad_os = record {
  refuses = λ n. if nat_eq n 4 then some "no space left on device" else none;
  left = λ n f. f;
  left_all = λ n d. d;
}

abbrev empty : World
empty = record { disk = record { folders = []; current = none; next_current = none }; calls = 0 }

abbrev pub one : World
one = record {
  disk = record {
    folders =
        ("s1", record { state = some "running"; events = ""; temps = [] })
        ∷ ("torn", record { state = none; events = ""; temps = "run" ∷ [] })
        ∷ [];
    current = some "s1";
    next_current = none;
  };
  calls = 0;
}

same_session : {s t : Session} → some s ≡ some t → s ≡ t
same_session h = cc

pub own_id : HasOwnId "s1" (view codec one.disk)
own_id st h = ap (λ (x : Session). x.id) (sym (same_session h))

create-load_example :
    ((create os codec 5 session empty).0 ≡ none)
    × ((load os codec "s1" (create os codec 5 session empty).1).0 ≡ ok running)
create-load_example =
    create-load codec os healthy 5 session "running" empty (λ e. cc) refl refl refl

loaded : (load os codec "s1" one).0 ≡ ok running
unfolding load
loaded = refl

abbrev story : List Operation
story = Operation.create 5 session ∷ Operation.update "s1" stop ∷ Operation.remove "s1" ∷ []

run_all-Runs_example :
    Runs codec story
      (view codec empty.disk)
      (run_all codec bad_os story empty).0
      (view codec (run_all codec bad_os story empty).1.disk)
    × AllFresh codec bad_os story empty
run_all-Runs_example = run_all-Runs codec bad_os story empty

list-IsListing_example :
    (states : List Session) × ((list os codec one).0 ≡ ok states)
    × IsNewestFirst states
    × ((s : Session) → Memᴰ s states ↔ ((id : String) × ((load os codec id one).0 ≡ ok s)))
list-IsListing_example = list-IsListing codec os healthy one

-- A creation that is cut short leaves no session, and its directory stays.
cut_short :
    (run_all codec bad_os story empty).0
    ≡ some "store: close state: no space left on device"
      ∷ some "session not found: \"s1\""
      ∷ none
      ∷ []
unfolding create update load kubedrill.Store.remove kubedrill.Shared.quote
cut_short = refl

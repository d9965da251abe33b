-- ===== src/Tests/Engines.antt =====
-- A verify of the shop at concrete inputs.
use kubedrill.Shared.{ℕ, true, none, some, [], ◌∷◌, ◌≡◌, refl, nat_eq, if◌then◌else◌}
use kubedrill.Shared.Results.{ok}
use kubedrill.Store.Sessions.{view}
use kubedrill.Engine.Reading.{AuditLog, read_from}
use kubedrill.Engine.Verify.{Ports, verify}
use kubedrill.Engine.Verify.Laws.{Recorded, verify-Recorded}
use kubedrill.Engine.Reveal.{reveal_hint_of}
use kubedrill.Engine.Reveal.Laws.{RevealedIn, reveal_hint_of-RevealedIn}
use kubedrill.Tests.Setting.{floats, api, plain_texts, deletion}
use kubedrill.Tests.Documents.{library}
use kubedrill.Tests.Stores.{codec, os, one, own_id}

-- A log of ten bytes with one event.
abbrev log : AuditLog ℕ
log = record {
  environment = λ id w. (none, w);
  audit_events =
      λ id cursor w. (ok (if nat_eq cursor 0 then ("{deletion}", 10) else ("", cursor)), w);
  scan_lines = λ s. s ∷ [];
  unmarshal_event = λ s. some deletion;
}

read_once : (read_from log 11 "s1" 0 [] 0).0 ≡ some (ok (deletion ∷ []))
unfolding read_from
read_once = refl

abbrev pub ports : Ports ℕ ℕ
ports = record {
  api = api;
  texts = plain_texts;
  library = record library { read_file = λ path. ok "doc"; stat = λ path. true };
  audit = log;
  connect = λ id w. (none, w);
}

verify-Recorded_example :
    Recorded floats ports 11 os codec "s1"
      (view codec one.disk)
      (verify floats ports 11 os codec "s1" (0, one)).0
      (view codec (verify floats ports 11 os codec "s1" (0, one)).1.1.disk)
verify-Recorded_example = verify-Recorded floats ports 11 os codec "s1" 0 one own_id

reveal_hint_of-RevealedIn_example :
    RevealedIn ports.library os codec "s1"
      (view codec one.disk)
      (reveal_hint_of ports.library os codec 9 "s1" one).0
      (view codec (reveal_hint_of ports.library os codec 9 "s1" one).1.disk)
reveal_hint_of-RevealedIn_example =
    reveal_hint_of-RevealedIn ports.library os codec 9 "s1" one own_id

-- The session has used the first hint.
second_revealed :
    (reveal_hint_of ports.library os codec 9 "s1" one).0
    ≡ ok (record { id = "h2"; penalty = 3; text = "scale to three" })
unfolding reveal_hint_of kubedrill.Validation.validate kubedrill.Store.write_state
second_revealed = refl

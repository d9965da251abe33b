-- ===== src/Session.antt =====
-- pkg/api/session.go: the state of a session. A time is a number, 0
-- for the zero time, a map from ids is its list of
-- entries, the last entry of a key being in force.
use kubedrill.Shared.{ℕ, String, Bool, Option, List}
use kubedrill.Shared.Int.{Int64}

abbrev pub phase_creating : String
phase_creating = "creating"

abbrev pub phase_running : String
phase_running = "running"

abbrev pub phase_verified : String
phase_verified = "verified"

abbrev pub phase_failed : String
phase_failed = "failed"

abbrev pub phase_expired : String
phase_expired = "expired"

abbrev pub phase_stopped : String
phase_stopped = "stopped"

pub record ChallengeRef : Type 0 where
  pub name : String
  pub version : String

pub record Attempt : Type 0 where
  pub n : Int64
  pub at : ℕ
  pub score : Int64
  pub late : Bool
  pub objectives : List (String × Bool)

pub record Session : Type 0 where
  pub schema_version : Int64
  pub id : String
  pub challenge : ChallengeRef
  pub challenge_dir : String
  pub provider : String
  pub cluster : String
  pub phase : String
  pub started_at : ℕ
  pub deadline : Option ℕ
  pub hints_used : List String
  pub attempts : List Attempt
  pub best_score : Int64
  pub labels : List (String × String)
  pub enforced_policies : List String

-- `StateSchemaVersion`
abbrev pub state_schema_version : Int64
state_schema_version = 1

-- A line of events.log.
pub record Event : Type 0 where
  pub at : ℕ
  pub kind : String
  pub note : String

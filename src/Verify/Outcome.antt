-- ===== src/Verify/Outcome.antt =====
-- `Outcome` and `CheckResult` of internal/verify/eval.go.
use kubedrill.Shared.{String, Bool, true, false}

pub data Outcome : Type 0 where
  pass fail errored : Outcome

pub record CheckResult : Type 0 where
  pub outcome : Outcome
  pub reason : String

abbrev pub result : Outcome → String → CheckResult
result o s = record { outcome = o; reason = s }

abbrev pub is_pass : Outcome → Bool
is_pass pass = true
is_pass _ = false

abbrev pub is_fail : Outcome → Bool
is_fail fail = true
is_fail _ = false

abbrev pub is_errored : Outcome → Bool
is_errored errored = true
is_errored _ = false

-- ===== src/Verify.antt =====
-- internal/verify: evaluating a challenge's checks against a cluster, and scoring.
pub mod Outcome
pub mod Probe
pub mod Checks
pub mod Score

-- ===== src/Engine.antt =====
-- internal/engine: what a session's commands do to its state and to the scorecard.
pub mod Hints
pub mod Attempts
pub mod Reading
pub mod Verify
pub mod Reveal
pub mod Guardrails
pub mod Nodes
pub mod Start
pub mod Reset

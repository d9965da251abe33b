-- ===== src/Rules.antt =====
-- internal/rules: grading and live enforcement of a challenge's rules.
pub mod Audit
pub mod Attribution
pub mod Resource
pub mod Grade
pub mod Enforce
pub mod Policy

-- ===== src/Author.antt =====
-- internal/author: what a challenge's author checks before publishing it.
pub mod Lint
pub mod Harness
pub mod Testing

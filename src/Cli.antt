-- ===== src/Cli.antt =====
-- internal/cli: what the commands on sessions decide and do, less flags and the layout of output.
pub mod Sessions

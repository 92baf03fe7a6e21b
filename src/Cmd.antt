-- ===== src/Cmd.antt =====
-- cmd/manager and internal/config: the configuration and the start of the program.
pub mod Config
pub mod Start

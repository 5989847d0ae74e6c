-- ===== src/Config.antt =====
-- internal/config/config.go: the settings of the program.
pub mod Listen
pub mod Ignore
pub mod Env

-- ===== src/Ghostctl.antt =====
-- cmd/ghostctl: the command that rotates the addresses of the configured nodes.
pub mod Config
pub mod Commands

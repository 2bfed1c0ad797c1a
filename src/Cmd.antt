-- ===== src/Cmd.antt =====
-- cmd: the programs.
pub mod Lifecycle
pub mod Api
pub mod Connect
pub mod Consumer
pub mod Simulator

-- ===== src/Cmd.antt =====
-- The command.
pub mod Components
pub mod Config
pub mod Main
pub mod Reload
pub mod Sets
pub mod Usage
pub mod Unused

-- ===== src/Commands.antt =====
-- engine/commands: what a command is, and handlers.
pub mod Registry
pub mod Keyspace
pub mod Strings

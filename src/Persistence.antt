-- ===== src/Persistence.antt =====
-- engine/persistence: the append-only file (aof.py), and the files of a data directory with their rewrites
-- (manager.py, manifest.py).
pub mod Records
pub mod Replay
pub mod Writer
pub mod Manager

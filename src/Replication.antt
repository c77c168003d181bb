-- ===== src/Replication.antt =====
-- The replication stream (replication/stream.py) and a node's place in it (replication/primary.py).
pub mod Backlog
pub mod Commands
pub mod State

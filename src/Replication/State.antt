-- ===== src/Replication/State.antt =====
-- replication/primary.py, `ReplicationState`: which history of the stream a node is on, and whether
-- a replica can go on from an offset of it.
pub mod Fork
use redis_like_data_storage.Prelude.{ℕ, String, Bool, true, false, ◌&&◌, ◌||◌, ite, str_discrete}
use redis_like_data_storage.Prelude.Int.{ℤ, pos, negsuc, leb_ℤ}
use redis_like_data_storage.Replication.Backlog
use redis_like_data_storage.Replication.Backlog.{Backlog}

pub record State : Type 0 where
  pub backlog : Backlog
  pub replid : String
  pub replid2 : String
  pub second_offset : ℤ

-- A state as the constructor leaves it; the id is what `new_replid()` drew.
unfoldable pub init : Backlog → String → State
init backlog fresh = record {
  backlog = backlog;
  replid = fresh;
  replid2 = "0000000000000000000000000000000000000000";
  second_offset = negsuc 0;
}

abbrev pub offset : State → ℕ
offset s = s.backlog.end

abbrev pub same_id : String → String → Bool
same_id a b = ite (str_discrete a b) true false

unfoldable pub can_continue : State → String → ℤ → Bool
can_continue s replid offset =
    (same_id replid s.replid || same_id replid s.replid2 && leb_ℤ offset s.second_offset)
    && Backlog.contains s.backlog offset

-- The new id is what `new_replid()` drew.
unfoldable pub fork : State → String → State
fork s fresh = record s { replid2 = s.replid; second_offset = pos (offset s); replid = fresh }

-- ===== src/Replication/Backlog.antt =====
-- replication/stream.py, `Backlog`: the last `capacity` bytes of the stream, by offset. A byte is
-- a number; an offset that a replica asks for is an integer, since `PSYNC ? -1` is what a new one
-- sends.
pub mod Window
use redis_like_data_storage.Prelude.{
  ℕ, ◌+◌, ◌-◌, Option, none, some, List, [], ◌++◌, Bool, ◌&&◌, leb, ltb, if◌then◌else◌, length,
  drop, Result, ok, raise, value_error,
}
use redis_like_data_storage.Prelude.Int.{ℤ, pos, pos_part, leb_ℤ}

pub record Backlog : Type 0 where
  pub capacity : ℕ
  pub buf : List ℕ
  -- The offset of the first byte held, and the one after the last byte held.
  pub start : ℕ
  pub end : ℕ

-- `Backlog(capacity, offset=offset)`
unfoldable pub init : ℕ → ℕ → Result Backlog
init capacity offset =
    if leb capacity 0
    then raise value_error
    else ok (record { capacity = capacity; buf = []; start = offset; end = offset })

-- `append`, from `excess` on.
unfoldable pub trim_excess : Backlog → Backlog
trim_excess b =
    if ltb b.capacity (length b.buf)
    then record b {
      buf = drop (length b.buf - b.capacity) b.buf;
      start = b.start + (length b.buf - b.capacity);
    }
    else b

unfoldable pub append : Backlog → List ℕ → Backlog
unfolding trim_excess
append b bytes = trim_excess (record b { buf = b.buf ++ bytes; end = b.end + length bytes })

unfoldable pub contains : Backlog → ℤ → Bool
contains b offset = leb_ℤ (pos b.start) offset && leb_ℤ offset (pos b.end)

unfoldable pub since : Backlog → ℤ → Option (List ℕ)
unfolding contains
since b offset = if contains b offset then some (drop (pos_part offset - b.start) b.buf) else none

unfoldable pub reset : Backlog → ℕ → Backlog
reset b offset = record b { buf = []; start = offset; end = offset }

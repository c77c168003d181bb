-- ===== src/Replication/Backlog/Window.antt =====
-- A backlog is a window on the end of the stream: what it holds is the stream's last bytes.
use redis_like_data_storage.Prelude.{
  ℕ, ◌+◌, ◌-◌, ◌≤◌, ◌<◌, ◌≡◌, ◌↔◌, some, List, [], ◌++◌, arith, length, length-append, length-drop,
  drop, take, drop-append, drop-drop, take-append-drop, min, ok,
}
use redis_like_data_storage.Prelude.Int.{ℤ, pos, negsuc, pos_part}
use redis_like_data_storage.Replication.Backlog.{Backlog, init, append, since, reset}

-- `stream` is every byte produced since offset `base`.
pub record IsWindow (base : ℕ) (stream : List ℕ) (b : Backlog) : Type 0 where
  pub positive : 0 < b.capacity
  pub end_at : b.end ≡ base + length stream
  -- The buffer is what is left of the stream behind `start`, ...
  pub start_at : b.start + length b.buf ≡ b.end
  pub from_base : base ≤ b.start
  pub holds : b.buf ≡ drop (b.start - base) stream
  -- ... and as much of it as the capacity allows.
  pub full : length b.buf ≡ min b.capacity (length stream)

pub init-IsWindow :
    (capacity offset : ℕ) (b : Backlog) → init capacity offset ≡ ok b → IsWindow offset [] b
unfolding init
init-IsWindow capacity offset b h = ground arith

pub reset-IsWindow :
    (b : Backlog) (offset : ℕ) → 0 < b.capacity → IsWindow offset [] (reset b offset)
unfolding reset
reset-IsWindow b offset h = ground (arith)

pub append-IsWindow :
    (base : ℕ) (stream bytes : List ℕ) (b : Backlog)
    → IsWindow base stream b
    → IsWindow base (stream ++ bytes) (append b bytes)
unfolding append
append-IsWindow base stream bytes b w =
    let skipped = b.start - base in
    let excess = length (b.buf ++ bytes) - b.capacity in
    ground (
      arith,
      length-append b.buf bytes,
      length-append stream bytes,
      length-drop skipped stream,
      length-drop excess (b.buf ++ bytes),
      drop-append skipped stream bytes,
      drop-drop excess skipped (b.start + excess - base) (stream ++ bytes),
    )

-- A replica that has everything up to `offset` and gets `since` has the whole stream.
pub take-append-since :
    (base : ℕ) (stream bytes : List ℕ) (b : Backlog) (offset : ℤ)
    → IsWindow base stream b
    → since b offset ≡ some bytes
    → take (pos_part offset - base) stream ++ bytes ≡ stream
unfolding since
take-append-since base stream bytes b (pos offset) w h = ground (
  arith,
  drop-drop (offset - b.start) (b.start - base) (offset - base) stream,
  take-append-drop (offset - base) stream,
)
take-append-since base stream bytes b (negsuc n) w h = ground arith

-- `since` answers exactly the offsets from the last `capacity` bytes on.
pub since_iff :
    (base : ℕ) (stream : List ℕ) (b : Backlog) (offset : ℕ)
    → IsWindow base stream b
    → ((bytes : List ℕ) × (since b (pos offset) ≡ some bytes))
      ↔ ((base + (length stream - b.capacity) ≤ offset) × (offset ≤ base + length stream))
unfolding since
since_iff base stream b offset w =
    ((λ (bytes, h). ground arith), λ h. (drop (offset - b.start) b.buf, ground arith))

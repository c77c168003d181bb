-- ===== src/Persistence/Replay.antt =====
-- engine/persistence/aof.py, `replay_aof`, on a file that exists. What a record does to the state of the
-- engine is an argument, with none for a CommandError.
pub mod Steps
pub mod Records
pub mod Crash
use redis_like_data_storage.Prelude.{
  ℕ, zero, suc, ◌+◌, ◌-◌, Option, none, some, List, [], ◌∷◌, ◌++◌, Bool, true, false, ◌&&◌,
  if◌then◌else◌, length, take, drop, Result, ok, raise, ◌>>=◌, value_error, aof_corrupted,
}
use redis_like_data_storage.Prelude.Int.{ℤ, pos, negsuc}
use redis_like_data_storage.Protocol.Bytes.{Bytes, find_byte, starts_with}
use redis_like_data_storage.Protocol.Decimal.{skip_spaces}
use redis_like_data_storage.Protocol.Requests.{Command}
use redis_like_data_storage.Persistence.Records.{Formats, v3_header, decode_record}

abbrev pub is_empty : Bytes → Bool
is_empty [] = true
is_empty (c ∷ cs) = false

-- `f.read(size)`: -1 reads all there is, and a smaller number raises the ValueError that is suppressed.
unfoldable pub read_more : ℤ → Bytes → Bytes
read_more (pos n) bytes = take n bytes
read_more (negsuc zero) bytes = bytes
read_more (negsuc n) bytes = []

-- The line at the start of `input`, without its line feed.
abbrev pub first_line : Bytes → Bytes
first_line input = elim (find_byte 10 input) [ none ↦ input | some eol ↦ take eol input ]

-- `f.readline()`
abbrev pub read_line : Bytes → Bytes
read_line input = elim (find_byte 10 input) [ none ↦ input | some eol ↦ take (eol + 1) input ]

-- What the loop takes off the file for one record.
unfoldable pub next_raw : Bytes → Bytes
unfolding read_more
next_raw input =
    let line = read_line input in
    if starts_with 35 line
    then elim (v3_header (first_line input)) [
      | none ↦ line
      | some (_, size) ↦ line ++ read_more size (drop (length line) input)
    ]
    else line

-- `not raw.strip()`
abbrev pub is_blank : Bytes → Bool
is_blank raw = is_empty (skip_spaces raw)

pub record Progress (S : Type 0) : Type 0 where
  pub state : S
  pub records : ℕ
  pub good_offset : ℕ

module _ {S : Type 0} (f : Formats) (apply : S → Command → Option S) (allow_truncate : Bool) where
  -- A ValueError from `decode_record` stops the loop where nothing follows, if that is allowed.
  unfoldable pub on_error : Bytes → Progress S → Result (Progress S)
  on_error rest p = if allow_truncate && is_empty rest then ok p else raise aof_corrupted

  -- A turn of the loop that took `raw` off `input`, where `go_on` is the turns to come.
  unfoldable pub replay_turn :
      (ℕ → Bytes → Progress S → Result (Progress S))
      → ℕ
      → Bytes
      → Bytes
      → Progress S
      → Result (Progress S)
  unfolding on_error
  replay_turn go_on offset input raw p =
      let rest = drop (length raw) input in
      let end = offset + length raw in
      elim (is_blank raw) [
        | true ↦ go_on end rest (record p { good_offset = end })
        | false ↦ elim (decode_record f raw) [
          | raise value_error ↦ on_error rest p
          | raise error ↦ raise error
          | ok command ↦ elim (apply p.state command) [
            | none ↦ raise aof_corrupted
            | some state ↦
                go_on end rest
                  (record { state = state; records = suc p.records; good_offset = end })
          ]
        ]
      ]

  -- The loop, with what is left of the file from `offset` on. A turn takes a byte at least, so that fuel
  -- for the length is enough.
  unfoldable pub replay_loop : ℕ → ℕ → Bytes → Progress S → Result (Progress S)
  unfolding replay_turn next_raw
  replay_loop zero offset input p = ok p
  replay_loop (suc fuel) offset [] p = ok p
  replay_loop (suc fuel) offset (c ∷ cs) p =
      replay_turn (replay_loop fuel) offset (c ∷ cs) (next_raw (c ∷ cs)) p

-- `ReplayResult`
pub record ReplayResult : Type 0 where
  pub records : ℕ
  pub truncated_bytes : ℕ

-- The state after the replay, the result, and the file, which is cut.
unfoldable pub replay_aof :
    {S : Type 0} (f : Formats) (apply : S → Command → Option S)
    → Bool
    → Bytes
    → S
    → Result (S × ReplayResult × Bytes)
unfolding replay_loop
replay_aof f apply allow file state =
    replay_loop f apply allow (suc (length file)) 0 file
      (record { state = state; records = 0; good_offset = 0 })
    >>= λ p. ok (
      p.state,
      record { records = p.records; truncated_bytes = length file - p.good_offset },
      take p.good_offset file,
    )

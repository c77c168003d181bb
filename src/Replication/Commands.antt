-- ===== src/Replication/Commands.antt =====
-- replication/stream.py, `next_command`: the commands that the stream carries, each an array of bulk
-- strings. Positions are counted from `pos` on.
pub mod RoundTrip
use redis_like_data_storage.Prelude.{
  ℕ, zero, suc, ◌+◌, ◌-◌, Option, none, some, List, [], ◌∷◌, ◌++◌, Bool, true, false, not, ltb,
  ◌==◌, if◌then◌else◌, length, take, drop, Result, ok, raise, ◌>>=◌, protocol_error, value_error,
}
use redis_like_data_storage.Prelude.Int.{ℤ, pos, negsuc, pos_part, ltb_ℤ}
use redis_like_data_storage.Protocol.Bytes.{Bytes, find_crlf, starts_with}
use redis_like_data_storage.Protocol.Codec.{Str, to_str}
use redis_like_data_storage.Protocol.Decimal.{read_int}

-- `int(buf[start:eol])`, which raises ValueError.
unfoldable pub to_int : Bytes → Result ℤ
to_int line = elim (read_int line) [ some i ↦ ok i | none ↦ raise value_error ]

-- One turn of the loop: a bulk string and its end. No primary sends a negative size, on which the code
-- would go back in the buffer; it is answered like one that is no number.
unfoldable pub argument_at : Bytes → Result (Option (Str × ℕ))
unfolding to_int
argument_at [] = ok none
argument_at (c ∷ cs) = if not (c == 36) then raise protocol_error else elim (find_crlf (c ∷ cs)) [
  | none ↦ ok none
  | some eol ↦ to_int (take (eol - 1) cs) >>= λ size.
      let end = eol + 2 + pos_part size in
      if ltb_ℤ size (pos 0)
      then raise value_error
      else if ltb (length (c ∷ cs)) (end + 2)
      then ok none
      else ok (some (to_str (take (pos_part size) (drop (eol + 2) (c ∷ cs))), end + 2))
]

-- The loop, with `args` read up to `cursor`.
unfoldable pub arguments : ℕ → List Str → ℕ → Bytes → Result (Option (List Str × ℕ))
unfolding argument_at
arguments zero args cursor input = ok (some (args, cursor))
arguments (suc n) args cursor input = argument_at (drop cursor input) >>= λ turn. elim turn [
  | none ↦ ok none
  | some (text, size) ↦ arguments n (args ++ text ∷ []) (cursor + size) input
]

-- The command at the start of `input` and where it ends, or none if more has to arrive.
unfoldable pub next_command : Bytes → Result (Option (List Str × ℕ))
unfolding to_int arguments
next_command [] = ok none
next_command (c ∷ cs) = if not (c == 42) then raise protocol_error else elim (find_crlf (c ∷ cs)) [
  | none ↦ ok none
  | some eol ↦
      to_int (take (eol - 1) cs) >>= λ count. arguments (pos_part count) [] (eol + 2) (c ∷ cs)
]

-- ===== src/Protocol/Requests.antt =====
-- protocol/resp.py, `RequestParser`: what has arrived in `buf`, what of it is read up to `pos`, and the
-- strings of a request that has arrived in part. Positions are counted from `pos` on.
pub mod Stream
pub mod RoundTrip
pub mod Pieces
pub mod Oversized
use mathlib.Core.Option
use redis_like_data_storage.Prelude.{
  ℕ, zero, suc, ◌+◌, ◌-◌, Option, none, some, List, [], ◌∷◌, ◌++◌, map, Bool, true, false, not, ltb,
  leb, ◌==◌, if◌then◌else◌, length, take, drop, Result, ok, raise, ◌>>=◌, protocol_error, ◌||◌,
  ◌&&◌,
}
use redis_like_data_storage.Prelude.Int.{ℤ, pos, ltb_ℤ, leb_ℤ, pos_part}
use redis_like_data_storage.Protocol.Bytes.{Bytes, find_crlf, find_byte, starts_with}
use redis_like_data_storage.Protocol.Codec.{Str, to_str}
use redis_like_data_storage.Protocol.Decimal.{read_int, is_space}

pub record RequestParser : Type 0 where
  pub buf : Bytes
  pub pos : ℕ
  pub max_bulk : ℕ
  pub pending : Option (List Str)
  pub remaining : ℕ

abbrev pub Command : Type 0
Command = List Str

-- `MAX_INLINE` and `MAX_ARRAY`
abbrev pub max_inline : ℕ
max_inline = 65536

abbrev pub max_array : ℕ
max_array = 1048576

-- `DEFAULT_MAX_BULK`, which stays shut since a list of so many bytes is better not computed.
unfoldable pub default_max_bulk : ℕ
default_max_bulk = 67108864

-- `RequestParser(max_bulk)`
abbrev pub create : ℕ → RequestParser
create limit = record { buf = []; pos = 0; max_bulk = limit; pending = none; remaining = 0 }

abbrev pub feed : Bytes → RequestParser → RequestParser
feed bytes p = record p { buf = p.buf ++ bytes }

-- `buf[pos:]`
abbrev pub unread : RequestParser → Bytes
unread p = drop p.pos p.buf

unfoldable pub compact : RequestParser → RequestParser
compact p =
    if p.pos == length p.buf
    then record p { buf = []; pos = 0 }
    else if ltb 65536 p.pos
    then record p { buf = drop p.pos p.buf; pos = 0 }
    else p

-- `_check_line_length`, and the return of None behind it.
unfoldable pub wait_for_line {ℓ} : {A : Type ℓ} → Bytes → Result (Option A)
wait_for_line input = if ltb max_inline (length input) then raise protocol_error else ok none

-- `_parse_int`
unfoldable pub parse_int : Bytes → Result ℤ
parse_int line = elim (read_int line) [ some i ↦ ok i | none ↦ raise protocol_error ]

-- The `size` bytes behind a header that ends at `start`, and the end of them.
unfoldable pub bulk_body : Bytes → ℕ → ℕ → Result (Option (Str × ℕ))
bulk_body input start size =
    let end = start + size in
    if ltb (length input) (end + 2)
    then ok none
    else if starts_with 13 (drop end input) && starts_with 10 (drop (end + 1) input)
    then ok (some (to_str (take size (drop start input)), end + 2))
    else raise protocol_error

-- One turn of the loop of `next_command`: the bulk string at the start of what is unread and the number
-- of its bytes, or none if more has to arrive.
unfoldable pub bulk_at : ℕ → Bytes → Result (Option (Str × ℕ))
unfolding wait_for_line parse_int bulk_body
bulk_at limit [] = ok none
bulk_at limit (c ∷ cs) = if not (c == 36) then raise protocol_error else elim (find_crlf (c ∷ cs)) [
  | none ↦ wait_for_line (c ∷ cs)
  | some eol ↦ parse_int (take (eol - 1) cs) >>= λ size.
      if ltb_ℤ size (pos 0) || ltb_ℤ (pos limit) size
      then raise protocol_error
      else bulk_body (c ∷ cs) (eol + 2) (pos_part size)
]

-- The loop `while self._remaining`, and the return behind it.
unfoldable pub bulks : ℕ → RequestParser → Result (Option Command × RequestParser)
unfolding bulk_at compact
bulks zero p = ok (p.pending, compact (record p { pending = none; remaining = 0 }))
bulks (suc r) p = bulk_at p.max_bulk (unread p) >>= λ turn. elim turn [
  | none ↦ ok (none, record p { remaining = suc r })
  | some (text, size) ↦ bulks r (record p {
    pending = Option.map (λ texts. texts ++ text ∷ []) p.pending;
    pos = p.pos + size;
    remaining = r;
  })
]

-- `bytes.split()`, with `word` read so far.
unfoldable pub split_words : Bytes → Bytes → List Bytes
split_words [] [] = []
split_words (c ∷ word) [] = (c ∷ word) ∷ []
split_words word (c ∷ cs) =
    let next = split_words [] cs in
    let longer = split_words (word ++ c ∷ []) cs in
    if is_space c then elim word [ [] ↦ next | w ∷ ws ↦ (w ∷ ws) ∷ next ] else longer

-- `line.rstrip(b"\r")`
unfoldable pub rstrip_cr : Bytes → Bytes
rstrip_cr [] = []
rstrip_cr (c ∷ cs) = elim (rstrip_cr cs) [
  | [] ↦ if c == 13 then [] else c ∷ []
  | x ∷ xs ↦ c ∷ x ∷ xs
]

-- `_parse_inline`: the words of the line and the number of its bytes.
unfoldable pub inline_at : Bytes → Result (Option (Command × ℕ))
unfolding wait_for_line split_words rstrip_cr
inline_at input = elim (find_byte 10 input) [
  | none ↦ wait_for_line input
  | some eol ↦ ok (some (map to_str (split_words [] (rstrip_cr (take eol input))), eol + 1))
]

-- The header of an array: its count and the number of its bytes.
unfoldable pub header_at : Bytes → Result (Option (ℤ × ℕ))
unfolding wait_for_line parse_int
header_at input = elim (find_crlf input) [
  | none ↦ wait_for_line input
  | some eol ↦ parse_int (take (eol - 1) (drop 1 input)) >>= λ n. ok (some (n, eol + 2))
]

-- `next_command` behind the header of an array.
unfoldable pub begin : ℤ → RequestParser → Result (Option Command × RequestParser)
unfolding bulks
begin count p =
    if leb_ℤ count (pos 0)
    then ok (some [], p)
    else if ltb_ℤ (pos max_array) count
    then raise protocol_error
    else bulks (pos_part count) (record p { pending = some []; remaining = pos_part count })

-- `next_command` between two requests.
unfoldable pub start : RequestParser → Result (Option Command × RequestParser)
unfolding begin inline_at header_at compact
start p =
    if leb (length p.buf) p.pos
    then ok (none, compact p)
    else if not (starts_with 42 (unread p))
    then (inline_at (unread p) >>= λ line. elim line [
      | none ↦ ok (none, p)
      | some (words, size) ↦ ok (some words, compact (record p { pos = p.pos + size }))
    ])
    else header_at (unread p) >>= λ header. elim header [
      | none ↦ ok (none, p)
      | some (count, size) ↦ begin count (record p { pos = p.pos + size })
    ]

unfoldable pub next_command : RequestParser → Result (Option Command × RequestParser)
unfolding start bulks
next_command p = elim p.pending [ none ↦ start p | some _ ↦ bulks p.remaining p ]

-- ===== src/Protocol/Replies.antt =====
-- protocol/resp.py, `ReplyParser`, and `KVStoreError.from_resp` of core/exceptions.py. Positions are
-- counted from the one where a reply starts.
pub mod Fuel
pub mod RoundTrip
use redis_like_data_storage.Prelude.{
  ℕ, zero, suc, ◌+◌, ◌-◌, Option, none, some, List, [], ◌∷◌, ◌++◌, Bool, true, false, ◌&&◌, ◌||◌,
  ltb, leb, ◌==◌, if◌then◌else◌, length, take, drop, Result, ok, raise, ◌>>=◌, protocol_error,
}
use redis_like_data_storage.Prelude.Int.{ℤ, pos, ltb_ℤ, pos_part}
use redis_like_data_storage.Protocol.Bytes.{Bytes, find_crlf}
use redis_like_data_storage.Protocol.Codec.{Str, to_str}
use redis_like_data_storage.Protocol.Encoding.{
  Failure, Reply, nil, simple, text, int, array, failure, Replies, no_replies, reply,
}
use redis_like_data_storage.Protocol.Requests.{parse_int}

-- `text.partition(" ")`: what stands before the first space, and what behind it.
unfoldable pub partition : Str → Str × Str
partition [] = ([], [])
partition (c ∷ cs) =
    let (before, behind) = partition cs in if c == 32 then ([], cs) else (c ∷ before, behind)

abbrev pub is_capital : ℕ → Bool
is_capital c = leb 65 c && leb c 90

abbrev is_small : ℕ → Bool
is_small c = leb 97 c && leb c 122

-- `s.isupper()`, where only the letters of ASCII have a case; `seen` when a capital stands before.
unfoldable pub is_upper : Bool → Str → Bool
is_upper seen [] = seen
is_upper seen (c ∷ cs) = if is_small c then false else is_upper (seen || is_capital c) cs

abbrev pub or_else : Str → Str → Str
or_else [] other = other
or_else (c ∷ cs) other = c ∷ cs

-- The prefix of `CommandError`, `ERR`.
abbrev pub err : Str
err = 69 ∷ 82 ∷ 82 ∷ []

-- `own prefix` is the message that the class of that prefix has when none is given.
unfoldable pub from_resp : (Str → Str) → Str → Failure
unfolding partition is_upper
from_resp own line =
    let (prefix, message) = partition line in
    if is_upper false prefix
    then record { prefix = prefix; message = or_else message (own prefix) }
    else record { prefix = err; message = or_else line (own err) }

-- A reply and the number of its bytes, or none for `NOT_READY`.
abbrev pub Parsed : Type 0 → Type 0
Parsed A = Result (Option (A × ℕ))

-- The loop `for _ in range(count)`, from `after` on.
unfoldable pub parse_items : (Bytes → Parsed Reply) → ℕ → ℕ → Bytes → Parsed Replies
parse_items parse zero after input = ok (some (no_replies, after))
parse_items parse (suc n) after input = parse (drop after input) >>= λ first. elim first [
  | none ↦ ok none
  | some (r, size) ↦ parse_items parse n (after + size) input >>= λ others. elim others [
    | none ↦ ok none
    | some (rs, end) ↦ ok (some (reply r rs, end))
  ]
]

-- What follows the header of an array.
unfoldable pub parse_array : (Bytes → Parsed Reply) → ℤ → ℕ → Bytes → Parsed Reply
unfolding parse_items
parse_array parse count after input =
    if ltb_ℤ count (pos 0)
    then ok (some (nil, after))
    else parse_items parse (pos_part count) after input >>= λ items. elim items [
      | none ↦ ok none
      | some (rs, end) ↦ ok (some (array rs, end))
    ]

-- What follows the header of a bulk string.
unfoldable pub parse_bulk : ℤ → ℕ → Bytes → Parsed Reply
parse_bulk size after input =
    let end = after + pos_part size + 2 in
    if ltb_ℤ size (pos 0)
    then ok (some (nil, after))
    else if ltb (length input) end
    then ok none
    else ok (some (text (to_str (take (pos_part size) (drop after input))), end))

-- `_parse` behind the first line, by the first byte of it.
unfoldable pub parse_kind :
    (Str → Str) → (Bytes → Parsed Reply) → ℕ → Bytes → ℕ → Bytes → Parsed Reply
unfolding parse_array parse_bulk from_resp
parse_kind own parse kind line after input =
    if kind == 43
    then ok (some (simple (to_str line), after))
    else if kind == 45
    then ok (some (failure (from_resp own (to_str line)), after))
    else if kind == 58
    then (parse_int line >>= λ i. ok (some (int i, after)))
    else if kind == 36
    then (parse_int line >>= λ size. parse_bulk size after input)
    else if kind == 42
    then (parse_int line >>= λ count. parse_array parse count after input)
    else raise protocol_error

-- `_parse`, with fuel for the depth of the reply.
unfoldable pub parse_reply : (Str → Str) → ℕ → Bytes → Parsed Reply
unfolding parse_kind
parse_reply own zero input = ok none
parse_reply own (suc fuel) [] = ok none
parse_reply own (suc fuel) (kind ∷ rest) =
    let parse = parse_reply own fuel in
    elim (find_crlf (kind ∷ rest)) [
      | none ↦ ok none
      | some eol ↦ parse_kind own parse kind (take (eol - 1) rest) (eol + 2) (kind ∷ rest)
    ]

pub record ReplyParser : Type 0 where
  pub buf : Bytes
  pub pos : ℕ

abbrev pub feed : Bytes → ReplyParser → ReplyParser
feed bytes p = record p { buf = p.buf ++ bytes }

-- The end of `next_reply`, with `pos` moved.
unfoldable pub trim : ReplyParser → ReplyParser
trim p =
    if p.pos == length p.buf
    then record { buf = []; pos = 0 }
    else if ltb 65536 p.pos
    then record { buf = drop p.pos p.buf; pos = 0 }
    else p

-- A nested reply is shorter than what it stands in, so that fuel for the length is enough.
unfoldable pub next_reply : (Str → Str) → ReplyParser → Result (Option Reply × ReplyParser)
unfolding parse_reply trim
next_reply own p =
    let unread = drop p.pos p.buf in
    parse_reply own (suc (length unread)) unread >>= λ result. elim result [
      | none ↦ ok (none, p)
      | some (value, size) ↦ ok (some value, trim (record p { pos = p.pos + size }))
    ]

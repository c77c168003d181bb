-- ===== src/Persistence/Records.antt =====
-- engine/persistence/aof.py, the format of records. The checksum `zlib.crc32` and what `json.loads` makes
-- of the older records are arguments.
pub mod Headers
pub mod RoundTrip
use redis_like_data_storage.Prelude.{
  ℕ, zero, suc, ◌+◌, ◌-◌, ◌*◌, ◌/◌, ◌%◌, Option, none, some, List, [], ◌∷◌, ◌++◌, Bool, true, false,
  not, ◌&&◌, ◌||◌, ltb, leb, ◌==◌, if◌then◌else◌, length, take, drop, Result, ok, raise, ◌>>=◌,
  value_error,
}
use mathlib.Core.Option
use redis_like_data_storage.Prelude.Int.{ℤ, pos, negsuc}
use redis_like_data_storage.Protocol.Bytes.{Bytes, find_byte, starts_with}
use redis_like_data_storage.Protocol.Codec.{Str}
use redis_like_data_storage.Protocol.Decimal.{show_ℕ, read_int, is_digit, is_space, skip_spaces}
use redis_like_data_storage.Protocol.Encoding.{Arg, encode_command}
use redis_like_data_storage.Protocol.Requests
use redis_like_data_storage.Protocol.Requests.{Command, default_max_bulk, next_command, split_words}

-- Code outside of this repository.
pub record Formats : Type 0 where
  pub crc32 : Bytes → ℕ
  -- The command in a v1 line, and in the payload of a v2 line, with none for what is refused.
  pub decode_v1 : Bytes → Option Command
  pub decode_v2 : Bytes → Option Command

abbrev pub hex_digit : ℕ → ℕ
hex_digit d = if ltb d 10 then 48 + d else 87 + d

-- `b"%08x" % n`: the last `width` digits, which are all of a number below 16 ^ width.
unfoldable pub show_hex : ℕ → ℕ → Bytes
show_hex zero n = []
show_hex (suc width) n = show_hex width (n / 16) ++ hex_digit (n % 16) ∷ []

-- `frame_record`
unfoldable pub frame_record : (Bytes → ℕ) → Bytes → Bytes
unfolding show_hex
frame_record crc32 payload =
    35 ∷ (show_hex 8 (crc32 payload) ++ 32 ∷ (show_ℕ (length payload) ++ 10 ∷ payload))

-- `encode_record`, of the command and its arguments together.
unfoldable pub encode_record : (Bytes → ℕ) → List Arg → Bytes
unfolding frame_record
encode_record crc32 args = frame_record crc32 (encode_command args)

abbrev hex_value : ℕ → Option ℕ
hex_value c =
    if is_digit c
    then some (c - 48)
    else if leb 97 c && leb c 102
    then some (c - 87)
    else if leb 65 c && leb c 70
    then some (c - 55)
    else none

-- The digits of a word, with single underscores between them.
unfoldable pub read_hex_digits : Bool → ℕ → Bytes → Option ℕ
read_hex_digits again n [] = if again then some n else none
read_hex_digits again n (c ∷ cs) = elim (hex_value c) [
  | some d ↦ read_hex_digits true (n * 16 + d) cs
  | none ↦ elim (again && c == 95) [ true ↦ read_hex_digits false n cs | false ↦ none ]
]

-- Behind the prefix `0x`, which an underscore may follow.
unfoldable pub read_hex_word : Bytes → Option ℕ
unfolding read_hex_digits
read_hex_word [] = none
read_hex_word (c ∷ []) = read_hex_digits false 0 (c ∷ [])
read_hex_word (c ∷ x ∷ cs) =
    if c == 48 && (x == 120 || x == 88)
    then read_hex_digits (starts_with 95 cs) 0 cs
    else read_hex_digits false 0 (c ∷ x ∷ cs)

minus : ℕ → ℤ
minus zero = pos 0
minus (suc n) = negsuc n

-- `int(word, 16)` of a word without white space.
unfoldable pub read_hex : Bytes → Option ℤ
unfolding read_hex_word minus
read_hex [] = none
read_hex (c ∷ cs) =
    if c == 45
    then Option.map minus (read_hex_word cs)
    else if c == 43
    then Option.map pos (read_hex_word cs)
    else Option.map pos (read_hex_word (c ∷ cs))

-- `_v3_header`, with none for a ValueError.
unfoldable pub v3_words : List Bytes → Option (ℤ × ℤ)
unfolding read_hex
v3_words (crc ∷ size ∷ []) = elim (read_hex crc) [
  | none ↦ none
  | some c ↦ Option.map (λ n. (c, n)) (read_int size)
]
v3_words _ = none

unfoldable pub v3_header : Bytes → Option (ℤ × ℤ)
unfolding v3_words
v3_header line = v3_words (split_words [] (drop 1 line))

abbrev equals : ℤ → ℕ → Bool
equals (pos n) m = n == m
equals (negsuc n) m = false

-- `_decode_v3` behind the header.
unfoldable pub decode_payload : (Bytes → ℕ) → ℤ → ℤ → Bytes → Result Command
decode_payload crc32 expected size payload =
    if not (equals size (length payload))
    then raise value_error
    else if not (equals expected (crc32 payload))
    then raise value_error
    else next_command (Requests.feed payload (Requests.create default_max_bulk)) >>= λ (command, _).
        elim command [
          | none ↦ raise value_error
          | some texts ↦ elim texts [ [] ↦ raise value_error | c ∷ args ↦ ok (c ∷ args) ]
        ]

unfoldable pub decode_v3 : (Bytes → ℕ) → Bytes → Result Command
unfolding v3_header decode_payload
decode_v3 crc32 raw = elim (find_byte 10 raw) [
  | none ↦ raise value_error
  | some eol ↦ elim (v3_header (take eol raw)) [
    | none ↦ raise value_error
    | some (expected, size) ↦ decode_payload crc32 expected size (drop (eol + 1) raw)
  ]
]

-- `payload.rstrip(b"\r\n")`
unfoldable pub rstrip_crlf : Bytes → Bytes
rstrip_crlf [] = []
rstrip_crlf (c ∷ cs) = elim (rstrip_crlf cs) [
  | [] ↦ if c == 13 || c == 10 then [] else c ∷ []
  | x ∷ xs ↦ c ∷ x ∷ xs
]

abbrev ends_with_lf : Bytes → Bool
ends_with_lf [] = false
ends_with_lf (c ∷ []) = c == 10
ends_with_lf (c ∷ x ∷ xs) = ends_with_lf (x ∷ xs)

abbrev decoded : Option Command → Result Command
decoded none = raise value_error
decoded (some command) = ok command

unfoldable pub rstrip_spaces : Bytes → Bytes
rstrip_spaces [] = []
rstrip_spaces (c ∷ cs) = elim (rstrip_spaces cs) [
  | [] ↦ if is_space c then [] else c ∷ []
  | x ∷ xs ↦ c ∷ x ∷ xs
]

-- A v2 line: a checksum, a space, and the payload.
unfoldable pub decode_v2_line : Formats → Bytes → Result Command
unfolding rstrip_crlf read_hex rstrip_spaces skip_spaces
decode_v2_line f raw =
    let payload = rstrip_crlf (drop 9 raw) in
    if ltb (length raw) 11 || not (starts_with 32 (drop 8 raw))
    then raise value_error
    else elim (read_hex (rstrip_spaces (skip_spaces (take 8 raw)))) [
      | none ↦ raise value_error
      | some expected ↦
          if equals expected (f.crc32 payload)
          then decoded (f.decode_v2 payload)
          else raise value_error
    ]

-- `decode_record`: what is refused raises ValueError, a malformed payload ProtocolError.
unfoldable pub decode_record : Formats → Bytes → Result Command
unfolding decode_v3 decode_v2_line
decode_record f raw =
    if starts_with 35 raw
    then decode_v3 f.crc32 raw
    else if not (ends_with_lf raw)
    then raise value_error
    else if starts_with 123 raw
    then decoded (f.decode_v1 raw)
    else decode_v2_line f raw

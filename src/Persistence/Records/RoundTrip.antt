-- ===== src/Persistence/Records/RoundTrip.antt =====
-- engine/persistence/aof.py: `decode_record` reads the command that `encode_record` wrote.
use redis_like_data_storage.Prelude.{
  ℕ, ◌+◌, ◌≤◌, ◌<◌, ◌≡◌, refl, sym, ap, ◌∙◌, Option, some, List, [], ◌∷◌, ◌++◌, map, true, ◌==◌,
  length, drop, drop-drop, arith, Result, ok, raise, protocol_error,
}
use mathlib.Core.List.{append_assoc, append-nil}
use redis_like_data_storage.Prelude.Int.{ℤ, pos}
use redis_like_data_storage.Protocol.Bytes.{
  Bytes, find_byte-line, IsOneLine, IsOneLine-append, take-length, drop-length,
}
use redis_like_data_storage.Protocol.Codec.{Str}
use redis_like_data_storage.Protocol.Decimal.{show_ℕ}
use redis_like_data_storage.Protocol.Encoding.{Arg, encode_command, all_bytes}
use redis_like_data_storage.Protocol.Requests
use redis_like_data_storage.Protocol.Requests.{
  Command, next_command, RequestParser, max_array, default_max_bulk,
}
use redis_like_data_storage.Protocol.Requests.Stream.{Stream, answer_of}
use redis_like_data_storage.Protocol.Requests.RoundTrip.{
  AreTexts, AllFit, next_command-encode_command, between,
}
use redis_like_data_storage.Protocol.Requests.Oversized.{next_command-oversized}
use redis_like_data_storage.Persistence.Records.{
  Formats, frame_record, encode_record, show_hex, v3_header, decode_v3, decode_payload,
  decode_record,
}
use redis_like_data_storage.Persistence.Records.Headers.{
  show_hex-IsWord, show_ℕ-IsWord, word-IsOneLine, v3_header-shown, hex_bound,
}

-- The header line of a record, without its line feed.
abbrev pub header : (Bytes → ℕ) → Bytes → Bytes
header crc32 payload = 35 ∷ (show_hex 8 (crc32 payload) ++ 32 ∷ show_ℕ (length payload))

pub frame_record-split :
    (crc32 : Bytes → ℕ) (payload rest : Bytes)
    → frame_record crc32 payload ++ rest ≡ header crc32 payload ++ 10 ∷ (payload ++ rest)
unfolding frame_record
frame_record-split crc32 payload rest = simp append_assoc refl

pub frame_record-lines :
    (crc32 : Bytes → ℕ) (payload : Bytes)
    → frame_record crc32 payload ≡ header crc32 payload ++ 10 ∷ payload
unfolding frame_record
frame_record-lines crc32 payload = simp append_assoc refl

pub header-IsOneLine : (crc32 : Bytes → ℕ) (payload : Bytes) → IsOneLine (header crc32 payload)
header-IsOneLine crc32 payload = (
  ground arith,
  IsOneLine-append (show_hex 8 (crc32 payload)) (32 ∷ show_ℕ (length payload))
      (word-IsOneLine (show_hex 8 (crc32 payload)) (show_hex-IsWord 8 (crc32 payload)))
      (ground arith, word-IsOneLine (show_ℕ (length payload)) (show_ℕ-IsWord (length payload))),
)

-- What the code relies on of `zlib.crc32`: its values have 32 bits.
abbrev pub IsCrc : (Bytes → ℕ) → Type 0
IsCrc crc32 = (bytes : Bytes) → crc32 bytes < hex_bound 8

-- What the parser that reads a record takes.
abbrev pub AreLoggable : List Str → Type 0
AreLoggable texts =
    (0 < length texts)
    × (length texts ≤ max_array)
    × AreTexts texts
    × AllFit default_max_bulk (all_bytes (map Arg.text texts))

answered :
    (r : Result (Option Command × RequestParser)) (texts : List Str) (s : Stream)
    → answer_of r ≡ ok (some texts, s)
    → (p : RequestParser) × (r ≡ ok (some texts, p))
answered (raise e) texts s h = cc
answered (ok (command, p)) texts s h = (p, cc)

-- A parser that has just been given `payload`.
abbrev reader : Bytes → RequestParser
reader payload = Requests.feed payload (Requests.create default_max_bulk)

equal_self : (n : ℕ) → (n == n) ≡ true
equal_self n = ground arith

decode_payload-encode_command :
    (crc32 : Bytes → ℕ) (texts : List Str)
    → AreLoggable texts
    → let payload = encode_command (map Arg.text texts) in
      decode_payload crc32 (pos (crc32 payload)) (pos (length payload)) payload ≡ ok texts
unfolding decode_payload
decode_payload-encode_command crc32 [] (some_text, few, clean, fit) = absurd (omega arith)
decode_payload-encode_command crc32 (t ∷ ts) (some_text, few, clean, fit) =
    let payload = encode_command (map Arg.text (t ∷ ts)) in
    let (p, e) = answered (next_command (reader payload)) (t ∷ ts) (between []) (
      next_command-encode_command (reader payload) (t ∷ ts) [] refl refl (sym (append-nil payload))
        some_text few clean fit) in
    rw (equal_self (length payload), equal_self (crc32 payload), e) refl

drop-line : (line rest : Bytes) → drop (length line + 1) (line ++ 10 ∷ rest) ≡ rest
drop-line line rest =
    sym (drop-drop 1 (length line) (length line + 1) (line ++ 10 ∷ rest) refl)
    ∙ ap (drop 1) (drop-length line (10 ∷ rest) (length line) refl)

-- Behind a header line, the payload is tested against it.
pub decode_v3-line :
    (crc32 : Bytes → ℕ) (line rest : Bytes) (expected size : ℤ)
    → IsOneLine line
    → v3_header line ≡ some (expected, size)
    → decode_v3 crc32 (line ++ 10 ∷ rest) ≡ decode_payload crc32 expected size rest
unfolding decode_v3
decode_v3-line crc32 line rest expected size h says =
    rw (find_byte-line line rest h, decode_v3)
      (rw (take-length line (10 ∷ rest) (length line) refl, says)
        (ap (decode_payload crc32 expected size) (drop-line line rest)))

decode_v3-header :
    (crc32 : Bytes → ℕ) (payload rest : Bytes)
    → IsCrc crc32
    → decode_v3 crc32 (header crc32 payload ++ 10 ∷ rest)
      ≡ decode_payload crc32 (pos (crc32 payload)) (pos (length payload)) rest
decode_v3-header crc32 payload rest h =
    decode_v3-line crc32 (header crc32 payload) rest (pos (crc32 payload)) (pos (length payload))
      (header-IsOneLine crc32 payload)
      (v3_header-shown (crc32 payload) (length payload) (h payload))

-- `decode_record` reads the command that `encode_record` wrote, for a checksum of 32 bits and a
-- command that the request parser takes with its default limit.
pub decode_record-encode_record :
    (f : Formats) (texts : List Str)
    → IsCrc f.crc32
    → AreLoggable texts
    → decode_record f (encode_record f.crc32 (map Arg.text texts)) ≡ ok texts
unfolding decode_record encode_record
decode_record-encode_record f texts h k =
    let payload = encode_command (map Arg.text texts) in
    ap (decode_record f) (frame_record-lines f.crc32 payload)
    ∙ decode_v3-header f.crc32 payload payload h
    ∙ decode_payload-encode_command f.crc32 texts k

-- A record that was written for a command with a string longer than `DEFAULT_MAX_BULK` cannot be
-- read back: `decode_record` raises a protocol error.
pub decode_record-oversized :
    (f : Formats) (args : List Arg) (front : List Bytes) (big : Bytes) (others : List Bytes)
    → IsCrc f.crc32
    → all_bytes args ≡ front ++ big ∷ others
    → length args ≤ max_array
    → AllFit default_max_bulk front
    → default_max_bulk < length big
    → decode_record f (encode_record f.crc32 args) ≡ raise protocol_error
unfolding decode_record encode_record decode_payload
decode_record-oversized f args front big others h e few fit over =
    let payload = encode_command args in
    let refused =
      next_command-oversized (reader payload) args front big others []
        (ap between (sym (append-nil payload))) e few fit over in
    ap (decode_record f) (frame_record-lines f.crc32 payload)
    ∙ decode_v3-header f.crc32 payload payload h
    ∙ rw (equal_self (length payload), equal_self (f.crc32 payload), refused) refl

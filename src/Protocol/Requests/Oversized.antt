-- ===== src/Protocol/Requests/Oversized.antt =====
-- `RequestParser` (protocol/resp.py) on a string that is longer than its limit.
use redis_like_data_storage.Prelude.{
  ℕ, suc, ◌+◌, ◌≤◌, ◌<◌, ◌≡◌, refl, ap, ◌∙◌, List, [], ◌∷◌, ◌++◌, true, ◌||◌, length, length-append,
  arith, ok, raise, protocol_error,
}
use mathlib.Core.List.{append_assoc}
use redis_like_data_storage.Prelude.Int.{pos, ltb_ℤ}
use redis_like_data_storage.Protocol.Bytes.{Bytes, drop-length}
use redis_like_data_storage.Protocol.Codec.{Str, to_str}
use redis_like_data_storage.Protocol.Decimal.{show_ℕ}
use redis_like_data_storage.Protocol.Encoding
use redis_like_data_storage.Protocol.Encoding.{Arg, encode_command, all_bytes}
use redis_like_data_storage.Protocol.Requests.{bulk_at, RequestParser, next_command, max_array}
use redis_like_data_storage.Protocol.Requests.Stream.{
  read, read_bulks, read_bulks-step, stream_of, answer_of, answer-next_command,
}
use redis_like_data_storage.Protocol.Requests.RoundTrip.{
  header, find_crlf-header, parse_int-header, bulk-split, bulk_at-bulk, AllFit, between, read-array,
  encode_command-split, header_at-header, drop-header, length-all_bytes,
}

refused : (limit n : ℕ) → limit < n → (ltb_ℤ (pos n) (pos 0) || ltb_ℤ (pos limit) (pos n)) ≡ true
refused limit n h = ground arith

bulk_at-oversized :
    (limit : ℕ) (content rest : Bytes)
    → limit < length content
    → bulk_at limit (Encoding.bulk content ++ rest) ≡ raise protocol_error
unfolding bulk_at
bulk_at-oversized limit content rest h =
    let n = length content in
    let tail = content ++ 13 ∷ 10 ∷ rest in
    rw (bulk-split content rest) (
      rw (find_crlf-header 36 n tail (ground arith), parse_int-header n tail)
        (rw (refused limit n h) refl))

-- The strings before it are read first.
read_bulks-oversized :
    (limit : ℕ) (seen : List Str) (front : List Bytes) (big : Bytes) (others : List Bytes)
    (rest : Bytes)
    → AllFit limit front
    → limit < length big
    → read_bulks limit
        (length (front ++ big ∷ others))
        seen
        (Encoding.bulks (front ++ big ∷ others) ++ rest)
      ≡ raise protocol_error
unfolding read_bulks
read_bulks-oversized limit seen [] big others rest h k =
    let turn =
      ap (bulk_at limit) (append_assoc (Encoding.bulk big) (Encoding.bulks others) rest)
      ∙ bulk_at-oversized limit big (Encoding.bulks others ++ rest) k in
    rw turn refl
read_bulks-oversized limit seen (x ∷ xs) big others rest h k =
    let left = xs ++ big ∷ others in
    let later = Encoding.bulks left ++ rest in
    let size = length (Encoding.bulk x) in
    ap (read_bulks limit (suc (length left)) seen)
      (append_assoc (Encoding.bulk x) (Encoding.bulks left) rest)
    ∙ read_bulks-step limit (length left) seen (Encoding.bulk x ++ later) (to_str x) size
        (bulk_at-bulk limit x later h.0)
    ∙ ap (read_bulks limit (length left) (seen ++ to_str x ∷ []))
        (drop-length (Encoding.bulk x) later size refl)
    ∙ read_bulks-oversized limit (seen ++ to_str x ∷ []) xs big others rest h.1 k

raised : (r : _) → answer_of r ≡ raise protocol_error → r ≡ raise protocol_error
raised (raise e) h = cc
raised (ok (command, p)) h = cc

-- A request with a string longer than the limit is refused with a protocol error, after the strings
-- before it were read, if it has not more than `MAX_ARRAY` strings.
pub next_command-oversized :
    (p : RequestParser) (args : List Arg) (front : List Bytes) (big : Bytes) (others : List Bytes)
    (rest : Bytes)
    → stream_of p ≡ between (encode_command args ++ rest)
    → all_bytes args ≡ front ++ big ∷ others
    → length args ≤ max_array
    → AllFit p.max_bulk front
    → p.max_bulk < length big
    → next_command p ≡ raise protocol_error
next_command-oversized p args front big others rest s e few h k =
    let xs = front ++ big ∷ others in
    let n = length xs in
    let body = Encoding.bulks xs ++ rest in
    let split : encode_command args ++ rest ≡ header 42 n body =
      encode_command-split args rest
      ∙ ap (λ ys. header 42 (length ys) (Encoding.bulks ys ++ rest)) e in
    raised (next_command p) (
      answer-next_command p
      ∙ ap (read p.max_bulk) (s ∙ ap between split)
      ∙ read-array p.max_bulk n (suc (length (show_ℕ n)) + 2) (show_ℕ n ++ 13 ∷ 10 ∷ body)
          (header_at-header n body) (omega (arith, length-append front (big ∷ others)))
          (omega (arith, length-all_bytes args, ap (λ (ys : List Bytes). length ys) e))
      ∙ ap (read_bulks p.max_bulk n []) (drop-header 42 n body)
      ∙ read_bulks-oversized p.max_bulk [] front big others rest h k)

-- ===== src/Protocol/Requests/RoundTrip.antt =====
-- What `encode_command` sends, `RequestParser` reads (protocol/resp.py).
use redis_like_data_storage.Prelude.{
  ℕ, suc, ◌+◌, ◌-◌, ◌≤◌, ◌<◌, ◌≡◌, ◌≢◌, refl, sym, ap, ◌∙◌, none, some, List, [], ◌∷◌, ◌++◌, map,
  ◌||◌, false, ltb, length, length-append, take, drop, drop-drop, arith, ok,
}
use mathlib.Core.List.{append_assoc, append-nil}
use redis_like_data_storage.Prelude.Int.{pos, ltb_ℤ, leb_ℤ}
use redis_like_data_storage.Protocol.Bytes.{
  Bytes, crlf, find_crlf, find_crlf-line, take-length, drop-length,
}
use redis_like_data_storage.Protocol.Codec.{Str, to_str, to_bytes, IsText, to_str-to_bytes}
use redis_like_data_storage.Protocol.Decimal.{show_ℕ, show_ℕ-IsLine, read_int-show_ℕ}
use redis_like_data_storage.Protocol.Encoding
use redis_like_data_storage.Protocol.Encoding.{Arg, encode_command, all_bytes}
use redis_like_data_storage.Protocol.Requests.{
  bulk_at, bulk_body, parse_int, header_at, max_array, RequestParser, next_command, unread,
}
use redis_like_data_storage.Protocol.Requests.Stream.{
  Stream, read, read_start, read_count, read_bulks, read_bulks-step, stream_of, answer_of,
  answer-next_command,
}

-- A header: the mark `c`, a number, and the end of the line.
abbrev pub header : ℕ → ℕ → Bytes → Bytes
header c n rest = c ∷ (show_ℕ n ++ 13 ∷ 10 ∷ rest)

pub find_crlf-header :
    (c n : ℕ) (rest : Bytes) → c ≢ 13 → find_crlf (header c n rest) ≡ some (suc (length (show_ℕ n)))
find_crlf-header c n rest h = find_crlf-line (c ∷ show_ℕ n) rest (h, show_ℕ-IsLine n)

pub parse_int-header :
    (n : ℕ) (rest : Bytes)
    → parse_int (take (suc (length (show_ℕ n)) - 1) (show_ℕ n ++ 13 ∷ 10 ∷ rest)) ≡ ok (pos n)
unfolding parse_int
parse_int-header n rest =
    rw (take-length (show_ℕ n) (13 ∷ 10 ∷ rest) (suc (length (show_ℕ n)) - 1) (omega arith))
      (rw (read_int-show_ℕ n, parse_int) refl)

-- A bulk string behind `front`, of which the header says the size.
bulk_body-fits :
    (front content rest : Bytes) (start : ℕ)
    → start ≡ length front
    → bulk_body (front ++ (content ++ 13 ∷ 10 ∷ rest)) start (length content)
      ≡ ok (some (to_str content, start + length content + 2))
unfolding bulk_body
bulk_body-fits front content rest start e =
    let tail = 13 ∷ 10 ∷ rest in
    let inner = content ++ tail in
    let end = start + length content in
    let at_end : drop end (front ++ inner) ≡ tail =
      ap (drop end) (sym (append_assoc front content tail))
      ∙ drop-length (front ++ content) tail end (omega (arith, length-append front content)) in
    let behind : drop (end + 1) (front ++ inner) ≡ 10 ∷ rest =
      sym (drop-drop 1 end (end + 1) (front ++ inner) refl) ∙ ap (drop 1) at_end in
    let enough : ltb (length (front ++ inner)) (end + 2) ≡ false =
      ground (arith, length-append front inner, length-append content tail) in
    let from_start : drop start (front ++ inner) ≡ inner = drop-length front inner start (sym e) in
    rw (enough, at_end, behind, from_start, take-length content tail (length content) refl) refl

pub bulk-split :
    (content rest : Bytes)
    → Encoding.bulk content ++ rest ≡ header 36 (length content) (content ++ 13 ∷ 10 ∷ rest)
unfolding Encoding.bulk
bulk-split content rest = simp append_assoc refl

pub length-bulk :
    (content : Bytes)
    → length (Encoding.bulk content)
      ≡ suc (length (show_ℕ (length content))) + 2 + length content + 2
unfolding Encoding.bulk
length-bulk content = omega (
  arith,
  length-append (show_ℕ (length content)) (13 ∷ 10 ∷ (content ++ crlf)),
  length-append content crlf,
)

allowed : (limit n : ℕ) → n ≤ limit → (ltb_ℤ (pos n) (pos 0) || ltb_ℤ (pos limit) (pos n)) ≡ false
allowed limit n h = ground arith

-- A bulk string is read off the front of whatever follows it.
pub bulk_at-bulk :
    (limit : ℕ) (content rest : Bytes)
    → length content ≤ limit
    → bulk_at limit (Encoding.bulk content ++ rest)
      ≡ ok (some (to_str content, length (Encoding.bulk content)))
unfolding bulk_at
bulk_at-bulk limit content rest h =
    let n = length content in
    let tail = content ++ 13 ∷ 10 ∷ rest in
    let start = suc (length (show_ℕ n)) + 2 in
    let front : start ≡ length (36 ∷ (show_ℕ n ++ crlf)) =
      omega (arith, length-append (show_ℕ n) crlf) in
    rw (bulk-split content rest) (
      rw (find_crlf-header 36 n tail (ground arith), parse_int-header n tail)
        (rw (allowed limit n h) (
          ap (λ xs. bulk_body (36 ∷ xs) start n) (sym (append_assoc (show_ℕ n) crlf tail))
          ∙ bulk_body-fits (36 ∷ (show_ℕ n ++ crlf)) content rest start front
          ∙ ap (λ size. ok (some (to_str content, size))) (sym (length-bulk content)))))

-- The strings of a request as the server has them.
abbrev pub received : List Bytes → List Str
received [] = []
received (x ∷ xs) = to_str x ∷ received xs

abbrev pub AllFit : ℕ → List Bytes → Type 0
AllFit limit [] = Unit
AllFit limit (x ∷ xs) = (length x ≤ limit) × AllFit limit xs

-- Between two requests, with `bytes` not read.
abbrev pub between : Bytes → Stream
between bytes = record { texts = none; missing = 0; rest = bytes }

read_bulks-bulks :
    (limit : ℕ) (seen : List Str) (xs : List Bytes) (rest : Bytes)
    → AllFit limit xs
    → read_bulks limit (length xs) seen (Encoding.bulks xs ++ rest)
      ≡ ok (some (seen ++ received xs), between rest)
unfolding read_bulks
read_bulks-bulks limit seen [] rest h =
    ap (λ texts. ok (some texts, between rest)) (sym (append-nil seen))
read_bulks-bulks limit seen (x ∷ xs) rest h =
    let later = Encoding.bulks xs ++ rest in
    let size = length (Encoding.bulk x) in
    ap (read_bulks limit (suc (length xs)) seen)
      (append_assoc (Encoding.bulk x) (Encoding.bulks xs) rest)
    ∙ read_bulks-step limit (length xs) seen (Encoding.bulk x ++ later) (to_str x) size
        (bulk_at-bulk limit x later h.0)
    ∙ ap (read_bulks limit (length xs) (seen ++ to_str x ∷ []))
        (drop-length (Encoding.bulk x) later size refl)
    ∙ read_bulks-bulks limit (seen ++ to_str x ∷ []) xs rest h.1
    ∙ ap (λ texts. ok (some texts, between rest)) (append_assoc seen (to_str x ∷ []) (received xs))

pub header_at-header :
    (n : ℕ) (rest : Bytes)
    → header_at (header 42 n rest) ≡ ok (some (pos n, suc (length (show_ℕ n)) + 2))
unfolding header_at
header_at-header n rest =
    rw (find_crlf-header 42 n rest (ground arith), header_at) (rw (parse_int-header n rest) refl)

pub drop-header :
    (c n : ℕ) (rest : Bytes) → drop (suc (length (show_ℕ n)) + 2) (header c n rest) ≡ rest
drop-header c n rest =
    ap (λ xs. drop (suc (length (show_ℕ n)) + 2) (c ∷ xs)) (sym (append_assoc (show_ℕ n) crlf rest))
    ∙ drop-length (c ∷ (show_ℕ n ++ crlf)) rest (suc (length (show_ℕ n)) + 2)
        (omega (arith, length-append (show_ℕ n) crlf))

pub length-all_bytes : (args : List Arg) → length (all_bytes args) ≡ length args
length-all_bytes [] = refl
length-all_bytes (arg ∷ args) = ap suc (length-all_bytes args)

counted :
    (n : ℕ)
    → 0 < n
    → n ≤ max_array
    → (leb_ℤ (pos n) (pos 0) ≡ false) × (ltb_ℤ (pos max_array) (pos n) ≡ false)
counted n h k = (ground arith, ground arith)

pub read-array :
    (limit count size : ℕ) (bytes : Bytes)
    → header_at (42 ∷ bytes) ≡ ok (some (pos count, size))
    → 0 < count
    → count ≤ max_array
    → read limit (between (42 ∷ bytes)) ≡ read_bulks limit count [] (drop size (42 ∷ bytes))
unfolding read read_start read_count
read-array limit count size bytes e h k =
    let (some_left, under) = counted count h k in rw e (rw (some_left, under) refl)

pub encode_command-split :
    (args : List Arg) (rest : Bytes)
    → encode_command args ++ rest
      ≡ header 42 (length (all_bytes args)) (Encoding.bulks (all_bytes args) ++ rest)
unfolding encode_command
encode_command-split args rest = rw (length-all_bytes args) (simp append_assoc refl)

pub length-encode_command :
    (args : List Arg)
    → let n = length (all_bytes args) in
      suc (length (show_ℕ n)) + 2 + length (Encoding.bulks (all_bytes args))
      ≡ length (encode_command args)
unfolding encode_command
length-encode_command args = omega (
  arith,
  length-append (show_ℕ (length args)) (13 ∷ 10 ∷ Encoding.bulks (all_bytes args)),
  ap (λ n. length (show_ℕ n)) (length-all_bytes args),
)

-- The reader of the stream gets a request that was sent, and leaves what follows it.
pub read-encode_command :
    (limit : ℕ) (args : List Arg) (rest : Bytes)
    → 0 < length args
    → length args ≤ max_array
    → AllFit limit (all_bytes args)
    → read limit (between (encode_command args ++ rest))
      ≡ ok (some (received (all_bytes args)), between rest)
read-encode_command limit args rest h k fits =
    let xs = all_bytes args in
    let n = length xs in
    let body = Encoding.bulks xs ++ rest in
    let sent = show_ℕ n ++ 13 ∷ 10 ∷ body in
    ap (λ bytes. read limit (between bytes)) (encode_command-split args rest)
    ∙ read-array limit n (suc (length (show_ℕ n)) + 2) sent (header_at-header n body)
        (omega (arith, length-all_bytes args)) (omega (arith, length-all_bytes args))
    ∙ ap (read_bulks limit n []) (drop-header 42 n body)
    ∙ read_bulks-bulks limit [] xs rest fits

abbrev pub AreTexts : List Str → Type 0
AreTexts [] = Unit
AreTexts (s ∷ ss) = IsText s × AreTexts ss

received-texts :
    (texts : List Str) → AreTexts texts → received (all_bytes (map Arg.text texts)) ≡ texts
received-texts [] h = refl
received-texts (s ∷ ss) h =
    ap {A = List Str} {B = List Str} (λ xs. to_str (to_bytes s) ∷ xs) (received-texts ss h.1)
    ∙ ap (λ t. t ∷ ss) (to_str-to_bytes s h.0)

length-texts : (texts : List Str) → length (map Arg.text texts) ≡ length texts
length-texts [] = refl
length-texts (s ∷ ss) = ap suc (length-texts ss)

-- From a request that `encode_command` made of texts without surrogates, and any bytes behind it,
-- `next_command` reads exactly these texts and leaves exactly those bytes, if the texts are at
-- least one, not more than `MAX_ARRAY`, and not longer than the limit.
pub next_command-encode_command :
    (p : RequestParser) (texts : List Str) (rest : Bytes)
    → p.pending ≡ none
    → p.remaining ≡ 0
    → unread p ≡ encode_command (map Arg.text texts) ++ rest
    → 0 < length texts
    → length texts ≤ max_array
    → AreTexts texts
    → AllFit p.max_bulk (all_bytes (map Arg.text texts))
    → answer_of (next_command p) ≡ ok (some texts, between rest)
next_command-encode_command p texts rest e e' u h k t fits =
    let sent = map Arg.text texts in
    let same : stream_of p ≡ between (encode_command sent ++ rest) = cc in
    answer-next_command p
    ∙ ap (read p.max_bulk) same
    ∙ read-encode_command p.max_bulk sent rest (omega (arith, length-texts texts))
        (omega (arith, length-texts texts)) fits
    ∙ ap (λ c. ok (some c, between rest)) (received-texts texts t)

-- ===== src/Protocol/Replies/RoundTrip.antt =====
-- What `encode_reply` sends, `ReplyParser` reads (protocol/resp.py).
use redis_like_data_storage.Prelude.{
  ℕ, zero, suc, ◌+◌, ◌-◌, ◌<◌, ◌≡◌, ◌≢◌, refl, sym, ap, subst, ◌∙◌, some, [], ◌∷◌, ◌++◌, true,
  false, ltb, length, length-append, drop, drop_all, drop-drop, arith, ok,
}
use mathlib.Core.List.{append_assoc}
use redis_like_data_storage.Prelude.Int.{ℤ, pos, negsuc, ltb_ℤ}
use redis_like_data_storage.Protocol.Bytes.{
  Bytes, crlf, find_crlf-line, IsLine, take-length, drop-length,
}
use redis_like_data_storage.Protocol.Codec.{
  Str, to_str, to_bytes, IsText, to_str-to_bytes, to_bytes-IsLine,
}
use redis_like_data_storage.Protocol.Decimal.{
  show_ℕ, show_ℤ, show_ℕ-IsLine, show_ℤ-IsLine, read_int-show_ℕ, read_int-show_ℤ, read_int,
  read_signed, read_digits, skip_spaces,
}
use redis_like_data_storage.Protocol.Encoding
use redis_like_data_storage.Protocol.Encoding.{
  Failure, Reply, Replies, nil, simple, text, int, array, float, raw, failure, no_replies, reply,
  count, encode_reply, encode_replies, encode_error, one_line, to_resp,
}
use redis_like_data_storage.Protocol.Requests.{parse_int}
use redis_like_data_storage.Protocol.Replies.{
  Parsed, parse_items, parse_array, parse_bulk, parse_kind, parse_reply, from_resp, partition,
  is_upper, or_else, ReplyParser, next_reply, trim,
}
use redis_like_data_storage.Protocol.Requests.RoundTrip.{
  header, drop-header, bulk-split, length-bulk,
}

-- A reply as a client has it: what was sent as bytes or as a float is a text.
unfoldable mutual
  pub got : Reply → Reply
  got nil = nil
  got (simple s) = simple s
  got (text s) = text s
  got (int i) = int i
  got (array rs) = array (got_all rs)
  got (float shown) = text shown
  got (raw bytes) = text (to_str bytes)
  got (failure e) = failure e

  pub got_all : Replies → Replies
  got_all no_replies = no_replies
  got_all (reply r rs) = reply (got r) (got_all rs)

abbrev IsWord : Str → Type 0
IsWord [] = Unit
IsWord (c ∷ cs) = (c ≢ 32) × IsWord cs

-- What is sent as one line: Unicode without carriage returns and line feeds.
abbrev pub IsUnbroken : Str → Type 0
IsUnbroken [] = Unit
IsUnbroken (c ∷ cs) = (c ≢ 13) × (c ≢ 10) × IsUnbroken cs

-- An error that has a message, and a prefix which is one word in capitals.
abbrev pub IsClean : Failure → Type 0
IsClean e =
    IsWord e.prefix
    × (is_upper false e.prefix ≡ true)
    × (e.message ≢ [])
    × IsText (to_resp e)
    × IsUnbroken (to_resp e)

unfoldable mutual
  pub IsSendable : Reply → Type 0
  IsSendable nil = Unit
  IsSendable (simple s) = IsText s × IsLine s
  IsSendable (text s) = IsText s
  IsSendable (int i) = Unit
  IsSendable (array rs) = AllSendable rs
  IsSendable (float shown) = IsText shown
  IsSendable (raw bytes) = Unit
  IsSendable (failure e) = IsClean e

  pub AllSendable : Replies → Type 0
  AllSendable no_replies = Unit
  AllSendable (reply r rs) = IsSendable r × AllSendable rs

-- A first line leads to what its first byte says.
parse_reply-line :
    (own : Str → Str) (fuel kind : ℕ) (line rest : Bytes)
    → kind ≢ 13
    → IsLine line
    → let input = kind ∷ (line ++ 13 ∷ 10 ∷ rest) in
      parse_reply own (suc fuel) input
      ≡ parse_kind own (parse_reply own fuel) kind line (suc (length line) + 2) input
unfolding parse_reply
parse_reply-line own fuel kind line rest h k =
    rw (find_crlf-line (kind ∷ line) rest (h, k), parse_reply)
      (rw (take-length line (13 ∷ 10 ∷ rest) (suc (length line) - 1) (omega arith)) refl)

unbroken-IsLine : (s : Str) → IsUnbroken s → IsLine s
unbroken-IsLine [] h = tt
unbroken-IsLine (c ∷ cs) h = (h.0, unbroken-IsLine cs (ground arith))

one_line-unbroken : (s : Str) → IsUnbroken s → one_line s ≡ s
unfolding one_line
one_line-unbroken [] h = refl
one_line-unbroken (c ∷ cs) h = ground (arith, one_line-unbroken cs)

partition-word :
    (prefix message : Str) → IsWord prefix → partition (prefix ++ 32 ∷ message) ≡ (prefix, message)
unfolding partition
partition-word [] message h = refl
partition-word (c ∷ cs) message h = ground (arith, partition-word cs message)

from_resp-to_resp : (own : Str → Str) (e : Failure) → IsClean e → from_resp own (to_resp e) ≡ e
unfolding from_resp
from_resp-to_resp own e (word, upper, says, clean, line) =
    rw (partition-word e.prefix e.message word)
      (rw upper (ap (λ m. record e { message = m }) (or_else-says e.message says)))
  where
    or_else-says : (m : Str) → m ≢ [] → or_else m (own e.prefix) ≡ m
    or_else-says [] h = absurd (h refl)
    or_else-says (c ∷ cs) h = refl

parse_int-show_ℤ : (i : ℤ) → parse_int (show_ℤ i) ≡ ok i
unfolding parse_int
parse_int-show_ℤ i = rw (read_int-show_ℤ i, parse_int) refl

parse_int-show_ℕ : (n : ℕ) → parse_int (show_ℕ n) ≡ ok (pos n)
unfolding parse_int
parse_int-show_ℕ n = rw (read_int-show_ℕ n, parse_int) refl

minus_one : parse_int (45 ∷ 49 ∷ []) ≡ ok (negsuc 0)
unfolding parse_int read_int read_signed read_digits skip_spaces
minus_one = refl

count-got_all : (rs : Replies) → count (got_all rs) ≡ count rs
unfolding got_all
count-got_all no_replies = refl
count-got_all (reply r rs) = ap suc (count-got_all rs)

not_negative : (n : ℕ) → ltb_ℤ (pos n) (pos 0) ≡ false
not_negative n = ground arith

module _ (own : Str → Str) where
  -- With fuel for it, `r` is read off what was sent, whatever follows.
  abbrev Reads : Reply → Bytes → Type 0
  Reads r sent =
      (fuel : ℕ) (rest : Bytes)
      → length sent < fuel
      → parse_reply own fuel (sent ++ rest) ≡ ok (some (r, length sent))

  length-line : (kind : ℕ) (line : Bytes) → length (kind ∷ (line ++ crlf)) ≡ suc (length line) + 2
  length-line kind line = omega (arith, length-append line crlf)

  -- A reply of one line.
  line-Reads :
      (r : Reply) (kind : ℕ) (line : Bytes)
      → kind ≢ 13
      → IsLine line
      → ((parse : Bytes → Parsed Reply) (after : ℕ) (input : Bytes)
          → parse_kind own parse kind line after input ≡ ok (some (r, after)))
      → Reads r (kind ∷ (line ++ crlf))
  line-Reads r kind line h k says zero rest enough = absurd (omega arith)
  line-Reads r kind line h k says (suc fuel) rest enough =
      ap (λ bytes. parse_reply own (suc fuel) (kind ∷ bytes)) (append_assoc line crlf rest)
      ∙ parse_reply-line own fuel kind line rest h k
      ∙ says (parse_reply own fuel) (suc (length line) + 2) (kind ∷ (line ++ 13 ∷ 10 ∷ rest))
      ∙ ap (λ size. ok (some (r, size))) (sym (length-line kind line))

  bulk_parsed :
      (content rest : Bytes)
      → let n = length content in
        let start = suc (length (show_ℕ n)) + 2 in
        parse_bulk (pos n) start (header 36 n (content ++ 13 ∷ 10 ∷ rest))
        ≡ ok (some (text (to_str content), start + n + 2))
  unfolding parse_bulk
  bulk_parsed content rest =
      let n = length content in
      let tail = content ++ 13 ∷ 10 ∷ rest in
      let start = suc (length (show_ℕ n)) + 2 in
      let enough : ltb (length (header 36 n tail)) (start + n + 2) ≡ false = ground (
        arith,
        length-append (show_ℕ n) (13 ∷ 10 ∷ tail),
        length-append content (13 ∷ 10 ∷ rest),
      ) in
      rw
        (not_negative n, enough, drop-header 36 n tail, take-length content (13 ∷ 10 ∷ rest) n refl)
        refl

  bulk-Reads : (content : Bytes) → Reads (text (to_str content)) (Encoding.bulk content)
  unfolding parse_kind
  bulk-Reads content zero rest enough = absurd (omega arith)
  bulk-Reads content (suc fuel) rest enough =
      let n = length content in
      ap (parse_reply own (suc fuel)) (bulk-split content rest)
      ∙ parse_reply-line own fuel 36 (show_ℕ n) (content ++ 13 ∷ 10 ∷ rest) (ground arith)
          (show_ℕ-IsLine n)
      ∙ rw (parse_int-show_ℕ n) (bulk_parsed content rest)
      ∙ ap (λ size. ok (some (text (to_str content), size))) (sym (length-bulk content))

  -- The items of an array, behind `front`.
  abbrev AllRead : Replies → Bytes → Type 0
  AllRead rs sent =
      (fuel after : ℕ) (front rest : Bytes)
      → after ≡ length front
      → length sent < fuel
      → parse_items (parse_reply own fuel) (count rs) after (front ++ (sent ++ rest))
        ≡ ok (some (rs, after + length sent))

  array-Reads :
      (rs : Replies) (sent : Bytes)
      → AllRead rs sent
      → Reads (array rs) (42 ∷ (show_ℕ (count rs) ++ 13 ∷ 10 ∷ sent))
  unfolding parse_kind parse_array
  array-Reads rs sent h zero rest enough = absurd (omega arith)
  array-Reads rs sent h (suc fuel) rest enough =
      let n = count rs in
      let front = 42 ∷ (show_ℕ n ++ crlf) in
      let here = suc (length (show_ℕ n)) + 2 in
      let size : length (42 ∷ (show_ℕ n ++ 13 ∷ 10 ∷ sent)) ≡ here + length sent =
        omega (arith, length-append (show_ℕ n) (13 ∷ 10 ∷ sent)) in
      let items =
        ap (λ bytes. parse_items (parse_reply own fuel) n here (42 ∷ bytes))
          (sym (append_assoc (show_ℕ n) crlf (sent ++ rest)))
        ∙ h fuel here front rest (sym (length-line 42 (show_ℕ n))) (omega arith) in
      ap (λ bytes. parse_reply own (suc fuel) (42 ∷ bytes))
        (append_assoc (show_ℕ n) (13 ∷ 10 ∷ sent) rest)
      ∙ parse_reply-line own fuel 42 (show_ℕ n) (sent ++ rest) (ground arith) (show_ℕ-IsLine n)
      ∙ rw (parse_int-show_ℕ n)
          (rw (not_negative n) (rw items (ap (λ end. ok (some (array rs, end))) (sym size))))

  item-Reads :
      (r : Reply) (rs : Replies) (first others : Bytes)
      → Reads r first
      → AllRead rs others
      → AllRead (reply r rs) (first ++ others)
  unfolding parse_items
  item-Reads r rs first others h k fuel after front rest at_front enough =
      let later = others ++ rest in
      let sizes = length-append first others in
      let here : drop after (front ++ (first ++ others ++ rest)) ≡ first ++ later =
        drop-length front (first ++ others ++ rest) after (sym at_front)
        ∙ append_assoc first others rest in
      let next =
        ap (parse_items (parse_reply own fuel) (count rs) (after + length first))
          (ap (◌++◌ front) (append_assoc first others rest) ∙ sym (append_assoc front first later))
        ∙ k fuel (after + length first) (front ++ first) rest
            (omega (arith, length-append front first)) (omega (arith, sizes)) in
      rw here (
        rw (h fuel later (omega (arith, sizes)))
          (rw next (ap (λ end. ok (some (reply r rs, end))) (omega (arith, sizes)))))

  empty-AllRead : AllRead no_replies []
  unfolding parse_items
  empty-AllRead fuel after front rest at_front enough =
      ap (λ end. ok (some (no_replies, end))) (omega arith)

  failure-Reads : (e : Failure) → IsClean e → Reads (failure e) (encode_error e)
  unfolding encode_error parse_kind
  failure-Reads e h =
      let (word, upper, says, clean, whole) = h in
      let line = to_resp e in
      subst (λ t. Reads (failure e) (45 ∷ (to_bytes t ++ crlf)))
        (sym (one_line-unbroken line whole))
        (line-Reads (failure e) 45 (to_bytes line) (ground arith)
          (to_bytes-IsLine line (unbroken-IsLine line whole))
          (λ parse after input.
            rw (to_str-to_bytes line clean) (rw (from_resp-to_resp own e h) refl)))

  mutual
    unfolding encode_reply encode_replies encode_error parse_kind got got_all IsSendable AllSendable

    encode_reply-Reads : (r : Reply) → IsSendable r → Reads (got r) (encode_reply r)
    encode_reply-Reads nil h =
        line-Reads nil 36 (45 ∷ 49 ∷ []) (ground arith) (ground arith)
          (λ parse after input. rw minus_one refl)
    encode_reply-Reads (simple s) h =
        line-Reads (simple s) 43 (to_bytes s) (ground arith) (to_bytes-IsLine s h.1)
          (λ parse after input. rw (to_str-to_bytes s h.0) refl)
    encode_reply-Reads (text s) h =
        subst (λ t. Reads (text t) (Encoding.bulk (to_bytes s))) (to_str-to_bytes s h)
          (bulk-Reads (to_bytes s))
    encode_reply-Reads (int i) h =
        line-Reads (int i) 58 (show_ℤ i) (ground arith) (show_ℤ-IsLine i)
          (λ parse after input. rw (parse_int-show_ℤ i) refl)
    encode_reply-Reads (array rs) h =
        subst (λ n. Reads (array (got_all rs)) (42 ∷ (show_ℕ n ++ 13 ∷ 10 ∷ encode_replies rs)))
          (count-got_all rs)
          (array-Reads (got_all rs) (encode_replies rs) (encode_replies-AllRead rs h))
    encode_reply-Reads (float shown) h =
        subst (λ t. Reads (text t) (Encoding.bulk (to_bytes shown))) (to_str-to_bytes shown h)
          (bulk-Reads (to_bytes shown))
    encode_reply-Reads (raw bytes) h = bulk-Reads bytes
    encode_reply-Reads (failure e) h = failure-Reads e h

    encode_replies-AllRead :
        (rs : Replies) → AllSendable rs → AllRead (got_all rs) (encode_replies rs)
    encode_replies-AllRead no_replies h = empty-AllRead
    encode_replies-AllRead (reply r rs) h =
        item-Reads (got r) (got_all rs) (encode_reply r) (encode_replies rs)
          (encode_reply-Reads r h.0) (encode_replies-AllRead rs h.1)

unread-trim : (p : ReplyParser) → drop (trim p).pos (trim p).buf ≡ drop p.pos p.buf
unfolding trim
unread-trim p = ground (arith, drop_all p.pos p.buf)

-- From what `encode_reply` made of a reply, nested arrays included, and any bytes behind it,
-- `next_reply` reads the same reply, with bytes and floats as texts, and leaves exactly those
-- bytes; texts are without surrogates, simple strings without carriage returns, and errors have a
-- prefix of one word in capitals and a message of one line.
pub next_reply-encode_reply :
    (own : Str → Str) (p : ReplyParser) (r : Reply) (rest : Bytes)
    → IsSendable r
    → drop p.pos p.buf ≡ encode_reply r ++ rest
    → (q : ReplyParser) × (next_reply own p ≡ ok (some (got r), q)) × (drop q.pos q.buf ≡ rest)
unfolding next_reply
next_reply-encode_reply own p r rest h u =
    let size = length (encode_reply r) in
    let moved : ReplyParser = record p { pos = p.pos + size } in
    let enough : size < suc (length (drop p.pos p.buf)) =
      omega (arith, ap (λ (xs : Bytes). length xs) u, length-append (encode_reply r) rest) in
    let parsed =
      ap (parse_reply own (suc (length (drop p.pos p.buf)))) u
      ∙ encode_reply-Reads own r h (suc (length (drop p.pos p.buf))) rest enough in
    (
      trim moved,
      rw parsed refl,
      unread-trim moved
          ∙ sym (drop-drop size p.pos (p.pos + size) p.buf refl)
          ∙ ap (drop size) u
          ∙ drop-length (encode_reply r) rest size refl,
    )

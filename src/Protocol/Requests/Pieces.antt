-- ===== src/Protocol/Requests/Pieces.antt =====
-- `RequestParser` (protocol/resp.py) on a stream that arrives in pieces.
use redis_like_data_storage.Prelude.{
  ℕ, zero, suc, ◌+◌, ◌-◌, ◌≤◌, ◌<◌, ◌≡◌, refl, sym, ap, ◌∙◌, Option, none, some, List, [], ◌∷◌,
  ◌++◌, true, false, ◌==◌, length, length-append, take, drop, drop-append, length-drop,
  take-append_left, arith, Result, ok, raise, Option-cases, inl, inr, Turn-cases, Result-cases,
  Bool-cases,
}
use redis_like_data_storage.Prelude.Int.{ℤ, pos, ltb_ℤ, leb_ℤ, pos_part}
use redis_like_data_storage.Protocol.Bytes.{
  Bytes, starts_with, find_crlf, find_crlf-append, find_crlf-fits, find_byte, find_byte-append,
  find_byte-lt,
}
use redis_like_data_storage.Protocol.Codec.{Str}
use redis_like_data_storage.Protocol.Requests.{
  RequestParser, Command, bulk_at, bulk_body, inline_at, header_at, wait_for_line, parse_int,
  next_command, feed, unread, max_array, compact, bulks, begin, start,
}
use redis_like_data_storage.Protocol.Requests.Stream.{
  Stream, read, read_bulks-step, read_start, read_count, read_bulks, stream_of, answer_of,
  answer-next_command, advance, next-start, next-bulks,
}

starts_with-append :
    (c : ℕ) (xs ys : Bytes) → 0 < length xs → starts_with c (xs ++ ys) ≡ starts_with c xs
starts_with-append c [] ys h = absurd (omega arith)
starts_with-append c (x ∷ xs) ys h = refl

bulk_body-append :
    (input more : Bytes) (start size : ℕ) (text : Str) (end : ℕ)
    → bulk_body input start size ≡ ok (some (text, end))
    → (bulk_body (input ++ more) start size ≡ ok (some (text, end))) × (end ≤ length input)
unfolding bulk_body
bulk_body-append input more start size text end e = ground (
  arith,
  length-append input more,
  drop-append (start + size) input more,
  drop-append (start + size + 1) input more,
  drop-append start input more,
  starts_with-append 13 (drop (start + size) input) more,
  starts_with-append 10 (drop (start + size + 1) input) more,
  length-drop (start + size) input,
  length-drop (start + size + 1) input,
  length-drop start input,
  take-append_left size (drop start input) more,
)

bulk_at-append :
    (limit : ℕ) (bytes more : Bytes) (text : Str) (size : ℕ)
    → bulk_at limit bytes ≡ ok (some (text, size))
    → (bulk_at limit (bytes ++ more) ≡ ok (some (text, size))) × (size ≤ length bytes)
unfolding bulk_at wait_for_line
bulk_at-append limit [] more text size e = ground arith
bulk_at-append limit (c ∷ cs) more text size e = elim (Option-cases (find_crlf (c ∷ cs))) [
  | inl no_line ↦ ground arith
  | inr (eol, line) ↦ elim (Result-cases (parse_int (take (eol - 1) cs))) [
    | inl (error, bad) ↦ ground arith
    | inr (n, number) ↦ ground (
      arith,
      find_crlf-append (c ∷ cs) more eol line,
      find_crlf-fits (c ∷ cs) eol line,
      take-append_left (eol - 1) cs more,
      bulk_body-append (c ∷ cs) more (eol + 2) (pos_part n) text size,
    )
  ]
]

header_at-append :
    (bytes more : Bytes) (count : ℤ) (size : ℕ)
    → header_at bytes ≡ ok (some (count, size))
    → (header_at (bytes ++ more) ≡ ok (some (count, size))) × (size ≤ length bytes)
unfolding header_at wait_for_line
header_at-append bytes more count size e = elim (Option-cases (find_crlf bytes)) [
  | inl no_line ↦ ground arith
  | inr (eol, line) ↦ elim (Result-cases (parse_int (take (eol - 1) (drop 1 bytes)))) [
    | inl (error, bad) ↦ ground arith
    | inr (n, number) ↦ ground (
      arith,
      find_crlf-append bytes more eol line,
      find_crlf-fits bytes eol line,
      drop-append 1 bytes more,
      length-drop 1 bytes,
      take-append_left (eol - 1) (drop 1 bytes) more,
    )
  ]
]

inline_at-append :
    (bytes more : Bytes) (words : Command) (size : ℕ)
    → inline_at bytes ≡ ok (some (words, size))
    → (inline_at (bytes ++ more) ≡ ok (some (words, size))) × (size ≤ length bytes)
unfolding inline_at wait_for_line
inline_at-append bytes more words size e = elim (Option-cases (find_byte 10 bytes)) [
  | inl no_line ↦ ground arith
  | inr (eol, line) ↦ ground (
    arith,
    find_byte-append 10 bytes more eol line,
    find_byte-lt 10 bytes eol line,
    take-append_left eol bytes more,
  )
]

abbrev pub receive : Bytes → Stream → Stream
receive more s = record s { rest = s.rest ++ more }

-- What an answer turns into once `more` has arrived behind it.
abbrev Answer : Type 0
Answer = Result (Option Command × Stream)

unfoldable pub resume : ℕ → Bytes → Answer → Answer
resume limit more (raise e) = raise e
resume limit more (ok (none, s)) = read limit (receive more s)
resume limit more (ok (some command, s)) = ok (some command, receive more s)

resume-read_bulks :
    (limit r : ℕ) (seen : List Str) (bytes more : Bytes) (answer : Option Command × Stream)
    → read_bulks limit r seen bytes ≡ ok answer
    → resume limit more (read_bulks limit r seen bytes) ≡ read_bulks limit r seen (bytes ++ more)
unfolding resume read read_bulks
resume-read_bulks limit zero seen bytes more answer e = refl
resume-read_bulks limit (suc r) seen bytes more answer e = elim (Turn-cases (bulk_at limit bytes)) [
  | inl (error, turn) ↦ ground arith
  | inr (inl turn) ↦ rw turn refl
  | inr (inr ((text, size), turn)) ↦
      let (same, fits) = bulk_at-append limit bytes more text size turn in
      let step = read_bulks-step limit r seen bytes text size turn in
      ap (resume limit more) step
      ∙ resume-read_bulks limit r (seen ++ text ∷ []) (drop size bytes) more answer (sym step ∙ e)
      ∙ ap (read_bulks limit r (seen ++ text ∷ [])) (sym (drop-append size bytes more fits))
      ∙ sym (read_bulks-step limit r seen (bytes ++ more) text size same)
]

resume-read_count :
    (limit n : ℕ) (count : ℤ) (bytes more : Bytes) (answer : Option Command × Stream)
    → read_count limit n count bytes ≡ ok answer
    → resume limit more (read_count limit n count bytes) ≡ read_count limit n count (bytes ++ more)
unfolding resume read_count
resume-read_count limit n count bytes more answer e = elim (Bool-cases (leb_ℤ count (pos 0))) [
  | inl none_left ↦ rw none_left refl
  | inr some_left ↦ elim (Bool-cases (ltb_ℤ (pos max_array) count)) [
    | inl over ↦ ground arith
    | inr under ↦
        rw (some_left, under)
          (resume-read_bulks limit (pos_part count) [] bytes more answer (ground arith))
  ]
]

resume-header :
    (limit n : ℕ) (c : ℕ) (cs more : Bytes) (answer : Option Command × Stream)
    → (c == 42) ≡ true
    → read_start limit n (c ∷ cs) ≡ ok answer
    → resume limit more (read_start limit n (c ∷ cs)) ≡ read_start limit n (c ∷ (cs ++ more))
unfolding resume read read_start
resume-header limit n c cs more answer array e = elim (Turn-cases (header_at (c ∷ cs))) [
  | inl (error, turn) ↦ ground arith
  | inr (inl turn) ↦ rw (array, turn) (rw array refl)
  | inr (inr ((count, size), turn)) ↦
      let (same, fits) = header_at-append (c ∷ cs) more count size turn in
      rw (array, turn, same)
        (resume-read_count limit n count (drop size (c ∷ cs)) more answer (ground arith)
          ∙ ap (read_count limit n count) (sym (drop-append size (c ∷ cs) more fits)))
]

resume-inline :
    (limit n : ℕ) (c : ℕ) (cs more : Bytes) (answer : Option Command × Stream)
    → (c == 42) ≡ false
    → read_start limit n (c ∷ cs) ≡ ok answer
    → resume limit more (read_start limit n (c ∷ cs)) ≡ read_start limit n (c ∷ (cs ++ more))
unfolding resume read read_start
resume-inline limit n c cs more answer line e = elim (Turn-cases (inline_at (c ∷ cs))) [
  | inl (error, turn) ↦ ground arith
  | inr (inl turn) ↦ rw (line, turn) (rw line refl)
  | inr (inr ((words, size), turn)) ↦
      let (same, fits) = inline_at-append (c ∷ cs) more words size turn in
      rw (line, turn, same)
        (ap (λ bytes. ok (some words, record { texts = none; missing = n; rest = bytes }))
          (sym (drop-append size (c ∷ cs) more fits)))
]

resume-start :
    (limit n : ℕ) (bytes more : Bytes) (answer : Option Command × Stream)
    → read_start limit n bytes ≡ ok answer
    → resume limit more (read_start limit n bytes) ≡ read_start limit n (bytes ++ more)
unfolding resume read read_start
resume-start limit n [] more answer e = refl
resume-start limit n (c ∷ cs) more answer e = elim (Bool-cases (c == 42)) [
  | inl array ↦ resume-header limit n c cs more answer array e
  | inr line ↦ resume-inline limit n c cs more answer line e
]

resume-fields :
    (limit : ℕ) (texts : Option (List Str)) (n : ℕ) (bytes more : Bytes)
    (answer : Option Command × Stream)
    → let s : Stream = record { texts = texts; missing = n; rest = bytes } in
      read limit s ≡ ok answer → resume limit more (read limit s) ≡ read limit (receive more s)
unfolding read
resume-fields limit none n bytes more answer e = resume-start limit n bytes more answer e
resume-fields limit (some seen) n bytes more answer e =
    resume-read_bulks limit n seen bytes more answer e

-- An answer stays right when more arrives: reading on gives what reading all at once gives.
pub resume-read :
    (limit : ℕ) (s : Stream) (more : Bytes) (answer : Option Command × Stream)
    → read limit s ≡ ok answer
    → resume limit more (ok answer) ≡ read limit (receive more s)
resume-read limit s more answer e =
    ap (resume limit more) (sym e) ∙ resume-fields limit s.texts s.missing s.rest more answer e

-- A parser never reads past what it has.
abbrev pub IsValid : RequestParser → Type 0
IsValid p = p.pos ≤ length p.buf

-- What a call keeps of the parser `p`.
abbrev Keeps : RequestParser → RequestParser → Type 0
Keeps p q = IsValid q × (q.max_bulk ≡ p.max_bulk)

compact-Keeps : (p : RequestParser) → IsValid p → Keeps p (compact p)
unfolding compact
compact-Keeps p h = ground (arith, length-drop p.pos p.buf)

bulks-Keeps :
    (r : ℕ) (p q : RequestParser) (command : Option Command)
    → IsValid p
    → bulks r p ≡ ok (command, q)
    → Keeps p q
unfolding bulks
bulks-Keeps zero p q command h e =
    ground (arith, compact-Keeps (record p { pending = none; remaining = 0 }) h)
bulks-Keeps (suc r) p q command h e = elim (Turn-cases (bulk_at p.max_bulk (unread p))) [
  | inl (error, turn) ↦ ground arith
  | inr (inl turn) ↦ ground arith
  | inr (inr ((text, size), turn)) ↦ ground (
    arith,
    bulk_at-append p.max_bulk (unread p) [] text size turn,
    length-drop p.pos p.buf,
    bulks-Keeps r (advance r text size p) q command,
  )
]

begin-Keeps :
    (count : ℤ) (p q : RequestParser) (command : Option Command)
    → IsValid p
    → begin count p ≡ ok (command, q)
    → Keeps p q
unfolding begin
begin-Keeps count p q command h e = ground (
  arith,
  bulks-Keeps (pos_part count) (record p { pending = some []; remaining = pos_part count }) q
      command,
)

start-Keeps :
    (p q : RequestParser) (command : Option Command)
    → IsValid p
    → start p ≡ ok (command, q)
    → Keeps p q
unfolding start
start-Keeps p q command h e = elim (Bool-cases (starts_with 42 (unread p))) [
  | inl array ↦ elim (Turn-cases (header_at (unread p))) [
    | inl (error, turn) ↦ ground (arith, compact-Keeps p h)
    | inr (inl turn) ↦ ground (arith, compact-Keeps p h)
    | inr (inr ((count, size), turn)) ↦ ground (
      arith,
      compact-Keeps p h,
      header_at-append (unread p) [] count size turn,
      length-drop p.pos p.buf,
      begin-Keeps count (record p { pos = p.pos + size }) q command,
    )
  ]
  | inr line ↦ elim (Turn-cases (inline_at (unread p))) [
    | inl (error, turn) ↦ ground (arith, compact-Keeps p h)
    | inr (inl turn) ↦ ground (arith, compact-Keeps p h)
    | inr (inr ((words, size), turn)) ↦ ground (
      arith,
      compact-Keeps p h,
      inline_at-append (unread p) [] words size turn,
      length-drop p.pos p.buf,
      compact-Keeps (record p { pos = p.pos + size }),
    )
  ]
]

-- A call keeps the parser well formed, and its limit the same.
pub next_command-IsValid :
    (p q : RequestParser) (command : Option Command)
    → IsValid p
    → next_command p ≡ ok (command, q)
    → IsValid q × (q.max_bulk ≡ p.max_bulk)
next_command-IsValid p q command h e = elim (Option-cases p.pending) [
  | inl idle ↦ start-Keeps p q command h (sym (next-start p idle) ∙ e)
  | inr (seen, busy) ↦ bulks-Keeps p.remaining p q command h (sym (next-bulks p seen busy) ∙ e)
]

-- Where a call that returned goes on when more arrives.
unfoldable pub continue :
    Bytes → Option Command × RequestParser → Result (Option Command × RequestParser)
continue more (none, p) = next_command (feed more p)
continue more (some command, p) = ok (some command, feed more p)

stream_of-feed :
    (more : Bytes) (p : RequestParser)
    → IsValid p
    → stream_of (feed more p) ≡ receive more (stream_of p)
stream_of-feed more p h =
    ap (λ bytes. record { texts = p.pending; missing = p.remaining; rest = bytes })
      (drop-append p.pos p.buf more h)

answer-continue :
    (more : Bytes) (q : RequestParser) (command : Option Command)
    → IsValid q
    → answer_of (continue more (command, q)) ≡ resume q.max_bulk more (ok (command, stream_of q))
unfolding continue resume
answer-continue more q none h =
    answer-next_command (feed more q) ∙ ap (read q.max_bulk) (stream_of-feed more q h)
answer-continue more q (some texts) h = ap (λ s. ok (some texts, s)) (stream_of-feed more q h)

-- Once `next_command` has returned, it makes no difference to what the parser answers and keeps
-- whether more bytes had arrived before the call or arrive after it: if it returned none, the next
-- call with them answers what one call with all of them would, and a command that it returned stays
-- the same.
pub continue-feed :
    (p : RequestParser) (more : Bytes) (answer : Option Command × RequestParser)
    → IsValid p
    → next_command p ≡ ok answer
    → answer_of (continue more answer) ≡ answer_of (next_command (feed more p))
continue-feed p more (command, q) h e =
    let (valid, limit) = next_command-IsValid p q command h e in
    let answered : read p.max_bulk (stream_of p) ≡ ok (command, stream_of q) =
      sym (answer-next_command p) ∙ ap answer_of e in
    answer-continue more q command valid
    ∙ ap (λ m. resume m more (ok (command, stream_of q))) limit
    ∙ resume-read p.max_bulk (stream_of p) more (command, stream_of q) answered
    ∙ sym (answer-next_command (feed more p) ∙ ap (read p.max_bulk) (stream_of-feed more p h))

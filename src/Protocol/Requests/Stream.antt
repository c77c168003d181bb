-- ===== src/Protocol/Requests/Stream.antt =====
-- `RequestParser` (protocol/resp.py) without its buffer: a reader of a stream of bytes that remembers
-- only what it has not read, and the parser as an implementation of it.
use mathlib.Core.Option
use redis_like_data_storage.Prelude.{
  ℕ, zero, suc, ◌+◌, ◌-◌, ◌≡◌, refl, sym, ap, ◌∙◌, Option, none, some, List, [], ◌∷◌, ◌++◌, true,
  false, not, leb, ◌==◌, if◌then◌else◌, length, drop, drop-drop, drop_all, length-drop, arith,
  Turn-cases, Result, ok, raise, ◌>>=◌, protocol_error, Option-cases, Bool-cases, inl, inr, ◌⊎◌,
}
use redis_like_data_storage.Prelude.Int.{ℤ, pos, ltb_ℤ, leb_ℤ, pos_part}
use redis_like_data_storage.Protocol.Bytes.{Bytes}
use redis_like_data_storage.Protocol.Codec.{Str}
use redis_like_data_storage.Protocol.Requests.{
  RequestParser, Command, unread, compact, bulk_at, bulks, inline_at, header_at, begin, start,
  next_command, max_array,
}

-- The strings read of an unfinished request, how many are missing, and the bytes not read.
pub record Stream : Type 0 where
  pub texts : Option (List Str)
  pub missing : ℕ
  pub rest : Bytes

unfoldable pub read_bulks : ℕ → ℕ → List Str → Bytes → Result (Option Command × Stream)
read_bulks limit zero seen bytes =
    ok (some seen, record { texts = none; missing = 0; rest = bytes })
read_bulks limit (suc r) seen bytes = bulk_at limit bytes >>= λ turn. elim turn [
  | none ↦ ok (none, record { texts = some seen; missing = suc r; rest = bytes })
  | some (text, size) ↦ read_bulks limit r (seen ++ text ∷ []) (drop size bytes)
]

pub read_bulks-step :
    (limit r : ℕ) (seen : List Str) (bytes : Bytes) (text : Str) (size : ℕ)
    → bulk_at limit bytes ≡ ok (some (text, size))
    → read_bulks limit (suc r) seen bytes ≡ read_bulks limit r (seen ++ text ∷ []) (drop size bytes)
unfolding read_bulks
read_bulks-step limit r seen bytes text size e = rw e refl

-- Behind the header of an array.
unfoldable pub read_count : ℕ → ℕ → ℤ → Bytes → Result (Option Command × Stream)
unfolding read_bulks
read_count limit n count bytes =
    if leb_ℤ count (pos 0)
    then ok (some [], record { texts = none; missing = n; rest = bytes })
    else if ltb_ℤ (pos max_array) count
    then raise protocol_error
    else read_bulks limit (pos_part count) [] bytes

unfoldable pub read_start : ℕ → ℕ → Bytes → Result (Option Command × Stream)
unfolding read_count
read_start limit n [] = ok (none, record { texts = none; missing = n; rest = [] })
read_start limit n (c ∷ cs) =
    if not (c == 42)
    then (inline_at (c ∷ cs) >>= λ line. elim line [
      | none ↦ ok (none, record { texts = none; missing = n; rest = c ∷ cs })
      | some (words, size) ↦
          ok (some words, record { texts = none; missing = n; rest = drop size (c ∷ cs) })
    ])
    else header_at (c ∷ cs) >>= λ header. elim header [
      | none ↦ ok (none, record { texts = none; missing = n; rest = c ∷ cs })
      | some (count, size) ↦ read_count limit n count (drop size (c ∷ cs))
    ]

unfoldable pub read : ℕ → Stream → Result (Option Command × Stream)
unfolding read_start read_bulks
read limit s = elim s.texts [
  | none ↦ read_start limit s.missing s.rest
  | some seen ↦ read_bulks limit s.missing seen s.rest
]

-- What a parser has not used up.
abbrev pub stream_of : RequestParser → Stream
stream_of p = record { texts = p.pending; missing = p.remaining; rest = unread p }

abbrev pub answer_of : Result (Option Command × RequestParser) → Result (Option Command × Stream)
answer_of (raise e) = raise e
answer_of (ok (command, p)) = ok (command, stream_of p)

pub stream_of-compact : (p : RequestParser) → stream_of (compact p) ≡ stream_of p
unfolding compact
stream_of-compact p = ground (arith, drop_all p.pos p.buf)

answer-ok :
    (command : Option Command) (p : RequestParser)
    → answer_of (ok (command, compact p)) ≡ ok (command, stream_of p)
answer-ok command p = ap (λ s. ok (command, s)) (stream_of-compact p)

-- A parser that has read `text`, which took `size` bytes.
abbrev pub advance : ℕ → Str → ℕ → RequestParser → RequestParser
advance r text size p = record p {
  pending = Option.map (λ texts. texts ++ text ∷ []) p.pending;
  pos = p.pos + size;
  remaining = r;
}

answer-bulks :
    (r : ℕ) (seen : List Str) (p : RequestParser)
    → p.pending ≡ some seen
    → answer_of (bulks r p) ≡ read_bulks p.max_bulk r seen (unread p)
unfolding bulks read_bulks
answer-bulks zero seen p e =
    rw e (answer-ok (some seen) (record p { pending = none; remaining = 0 }))
answer-bulks (suc r) seen p e = elim (Turn-cases (bulk_at p.max_bulk (unread p))) [
  | inl (error, turn) ↦ rw turn refl
  | inr (inl turn) ↦ rw turn (rw e refl)
  | inr (inr ((text, size), turn)) ↦ rw turn (
      rw (drop-drop size p.pos (p.pos + size) p.buf refl)
        (answer-bulks r (seen ++ text ∷ []) (advance r text size p) (rw e refl)))
]

answer-begin :
    (count : ℤ) (p : RequestParser)
    → p.pending ≡ none
    → answer_of (begin count p) ≡ read_count p.max_bulk p.remaining count (unread p)
unfolding begin read_count
answer-begin count p e = elim (Bool-cases (leb_ℤ count (pos 0))) [
  | inl none_left ↦ rw none_left (rw e refl)
  | inr some_left ↦ elim (Bool-cases (ltb_ℤ (pos max_array) count)) [
    | inl over ↦ rw (some_left, over) refl
    | inr under ↦
        rw (some_left, under)
          (answer-bulks (pos_part count) []
            (record p { pending = some []; remaining = pos_part count }) refl)
  ]
]

unread-cases :
    (p : RequestParser)
    → ((unread p ≡ []) × (leb (length p.buf) p.pos ≡ true))
      ⊎ ((c : ℕ) × (cs : Bytes) × (unread p ≡ c ∷ cs) × (leb (length p.buf) p.pos ≡ false))
unread-cases p = go (unread p) (length-drop p.pos p.buf)
  where
    go :
        (bytes : Bytes)
        → length bytes ≡ length p.buf - p.pos
        → ((bytes ≡ []) × (leb (length p.buf) p.pos ≡ true))
          ⊎ ((c : ℕ) × (cs : Bytes) × (bytes ≡ c ∷ cs) × (leb (length p.buf) p.pos ≡ false))
    go [] e = inl (refl, ground arith)
    go (c ∷ cs) e = inr (c, cs, refl, ground arith)

unread-advance :
    (p : RequestParser) (n : ℕ) (bytes : Bytes)
    → unread p ≡ bytes
    → unread (record p { pos = p.pos + n }) ≡ drop n bytes
unread-advance p n bytes u = sym (drop-drop n p.pos (p.pos + n) p.buf refl) ∙ ap (drop n) u

answer-header :
    (p : RequestParser) (c : ℕ) (cs : Bytes)
    → p.pending ≡ none
    → unread p ≡ c ∷ cs
    → leb (length p.buf) p.pos ≡ false
    → (c == 42) ≡ true
    → answer_of (start p) ≡ read_start p.max_bulk p.remaining (c ∷ cs)
unfolding start read_start
answer-header p c cs e u more array = elim (Turn-cases (header_at (c ∷ cs))) [
  | inl (error, turn) ↦ rw (more, u, array, turn) refl
  | inr (inl turn) ↦ rw (more, u, array, turn) (rw (e, u) refl)
  | inr (inr ((count, size), turn)) ↦
      rw (more, u, array, turn)
        (answer-begin count (record p { pos = p.pos + size }) e
          ∙ ap (read_count p.max_bulk p.remaining count) (unread-advance p size (c ∷ cs) u))
]

answer-inline :
    (p : RequestParser) (c : ℕ) (cs : Bytes)
    → p.pending ≡ none
    → unread p ≡ c ∷ cs
    → leb (length p.buf) p.pos ≡ false
    → (c == 42) ≡ false
    → answer_of (start p) ≡ read_start p.max_bulk p.remaining (c ∷ cs)
unfolding start read_start
answer-inline p c cs e u more array = elim (Turn-cases (inline_at (c ∷ cs))) [
  | inl (error, turn) ↦ rw (more, u, array, turn) refl
  | inr (inl turn) ↦ rw (more, u, array, turn) (rw (e, u) refl)
  | inr (inr ((words, size), turn)) ↦
      rw (more, u, array, turn)
        (answer-ok (some words) (record p { pos = p.pos + size })
          ∙ rw (unread-advance p size (c ∷ cs) u) (rw e refl))
]

answer-first :
    (p : RequestParser) (c : ℕ) (cs : Bytes)
    → p.pending ≡ none
    → unread p ≡ c ∷ cs
    → leb (length p.buf) p.pos ≡ false
    → answer_of (start p) ≡ read_start p.max_bulk p.remaining (c ∷ cs)
answer-first p c cs e u more = elim (Bool-cases (c == 42)) [
  | inl array ↦ answer-header p c cs e u more array
  | inr line ↦ answer-inline p c cs e u more line
]

answer-start :
    (p : RequestParser)
    → p.pending ≡ none
    → answer_of (start p) ≡ read_start p.max_bulk p.remaining (unread p)
unfolding start read_start
answer-start p e = elim (unread-cases p) [
  | inl (u, done) ↦ rw done (answer-ok none p ∙ rw (e, u) refl)
  | inr (c, cs, u, more) ↦
      answer-first p c cs e u more ∙ ap (read_start p.max_bulk p.remaining) (sym u)
]

pub next-start : (p : RequestParser) → p.pending ≡ none → next_command p ≡ start p
unfolding next_command
next-start p e =
    ap {A = Option (List Str)} {B = Result (Option Command × RequestParser)}
      (λ o. elim o [ none ↦ start p | some _ ↦ bulks p.remaining p ]) e

pub next-bulks :
    (p : RequestParser) (seen : List Str)
    → p.pending ≡ some seen
    → next_command p ≡ bulks p.remaining p
unfolding next_command
next-bulks p seen e =
    ap {A = Option (List Str)} {B = Result (Option Command × RequestParser)}
      (λ o. elim o [ none ↦ start p | some _ ↦ bulks p.remaining p ]) e

-- The parser answers what the reader of the stream does, however it keeps its buffer.
pub answer-next_command :
    (p : RequestParser) → answer_of (next_command p) ≡ read p.max_bulk (stream_of p)
unfolding read
answer-next_command p = elim (Option-cases p.pending) [
  | inl e ↦ rw (next-start p e) (simp e (answer-start p e))
  | inr (seen, e) ↦ rw (next-bulks p seen e) (simp e (answer-bulks p.remaining seen p e))
]

-- ===== src/Persistence/Replay/Crash.antt =====
-- `replay_aof` of engine/persistence/aof.py on a log that a crash has cut off, and on one with a damaged
-- header.
use redis_like_data_storage.Prelude.{
  ℕ, zero, suc, ◌+◌, ◌-◌, ◌<◌, ◌≡◌, ◌≢◌, ◌⊎◌, inl, inr, refl, sym, ap, subst, ◌∙◌, Option, some,
  List, [], ◌∷◌, ◌++◌, true, false, ◌==◌, length, length-append, take_all, drop_all, arith, Result,
  ok, raise, value_error, Option-cases,
}
use mathlib.Core.List.{append_assoc, append-nil}
use redis_like_data_storage.Prelude.Int.{ℤ, pos, negsuc}
use redis_like_data_storage.Protocol.Bytes.{
  Bytes, starts_with, IsOneLine, find_byte-none, take-length,
}
use redis_like_data_storage.Protocol.Encoding.{Arg, encode_command}
use redis_like_data_storage.Protocol.Requests.{Command}
use redis_like_data_storage.Persistence.Records.{
  Formats, encode_record, frame_record, v3_header, decode_v3, decode_payload, decode_record,
}
use redis_like_data_storage.Persistence.Records.RoundTrip.{
  IsCrc, header, header-IsOneLine, decode_v3-line, frame_record-lines,
}
use redis_like_data_storage.Persistence.Records.Headers.{v3_header-shown}
use redis_like_data_storage.Persistence.Replay.{
  Progress, ReplayResult, replay_loop, replay_aof, next_raw, read_more, read_line, first_line,
}
use redis_like_data_storage.Persistence.Replay.Steps.{next_raw-header, starts_with-line, turn_torn}
use redis_like_data_storage.Persistence.Replay.Records.{
  log, AllLoggable, apply_all, at, log-length, replay_loop-log,
}

unequal : (m n : ℕ) → m ≢ n → (m == n) ≡ false
unequal m n h = ground arith

-- A header that asks for more bytes than there are.
module _ (f : Formats) (line tail : Bytes) (crc : ℤ) (size : ℕ) (whole : IsOneLine line)
    (mark : starts_with 35 line ≡ true) (says : v3_header line ≡ some (crc, pos size))
    (short : length tail < size) where
  next_raw-short : next_raw (line ++ 10 ∷ tail) ≡ line ++ 10 ∷ tail
  next_raw-short =
      next_raw-header line tail crc size whole mark says
      ∙ ap (◌++◌ (line ++ 10 ∷ [])) (take_all size tail (omega arith))
      ∙ append_assoc line (10 ∷ []) tail

  decode_record-short : decode_record f (line ++ 10 ∷ tail) ≡ raise value_error
  unfolding decode_record decode_v3 decode_payload
  decode_record-short = rw (starts_with-line line (10 ∷ tail) mark) (
      decode_v3-line f.crc32 line tail crc (pos size) whole says
      ∙ rw (unequal size (length tail) (ground arith), decode_payload) refl)

read_line-cut : (line : Bytes) → IsOneLine line → read_line line ≡ line
read_line-cut line h = rw (find_byte-none line h, read_line) refl

first_line-cut : (line : Bytes) → IsOneLine line → first_line line ≡ line
first_line-cut line h = rw (find_byte-none line h, first_line) refl

read_more-nil : (size : ℤ) → read_more size [] ≡ []
unfolding read_more
read_more-nil (pos zero) = refl
read_more-nil (pos (suc n)) = refl
read_more-nil (negsuc zero) = refl
read_more-nil (negsuc (suc n)) = refl

-- A header that has not been written to its end.
module _ (f : Formats) (line : Bytes) (whole : IsOneLine line)
    (mark : starts_with 35 line ≡ true) where
  next_raw-cut : next_raw line ≡ line
  unfolding next_raw read_more
  next_raw-cut = elim (Option-cases (v3_header line)) [
    | inl refused ↦
        rw (read_line-cut line whole, first_line-cut line whole, mark, refused)
          (read_line-cut line whole)
    | inr ((crc, size), says) ↦
        rw (read_line-cut line whole, first_line-cut line whole, mark, says)
          (rw
            (
              read_line-cut line whole,
              drop_all (length line) line (omega arith),
              read_more-nil size,
            )
            (append-nil line))
  ]

  decode_record-cut : decode_record f line ≡ raise value_error
  unfolding decode_record decode_v3
  decode_record-cut = rw mark (rw (find_byte-none line whole, decode_v3) refl)

-- A beginning of two lines ends in the first line or in the second.
cut_lines :
    (torn more line rest : Bytes)
    → torn ++ more ≡ line ++ 10 ∷ rest
    → ((others : Bytes) × (line ≡ torn ++ others))
      ⊎ ((part : Bytes) × (torn ≡ line ++ 10 ∷ part) × (part ++ more ≡ rest))
cut_lines [] more line rest e = inl (line, refl)
cut_lines (c ∷ torn) more [] rest e = inr (torn, cc, cc)
cut_lines (c ∷ torn) more (d ∷ line) rest e = elim (cut_lines torn more line rest cc) [
  | inl (others, same) ↦ inl (others, cc)
  | inr (part, same, left) ↦ inr (part, cc, left)
]

first_part-IsOneLine : (xs ys : Bytes) → IsOneLine (xs ++ ys) → IsOneLine xs
first_part-IsOneLine [] ys h = tt
first_part-IsOneLine (x ∷ xs) ys h = (h.0, first_part-IsOneLine xs ys h.1)

-- Bytes at which the loop stops, keeping what it has.
abbrev pub IsEnd : {S : Type 0} → Formats → (S → Command → Option S) → Bytes → Type 0
IsEnd {S = S} f apply tail =
    (fuel offset : ℕ) (p : Progress S) → replay_loop f apply true (suc fuel) offset tail p ≡ ok p

-- What a crash may leave of a record: less than the whole.
abbrev pub IsTorn : Bytes → Bytes → Type 0
IsTorn torn record_ = (more : Bytes) × (more ≢ []) × (torn ++ more ≡ record_)

abbrev Replayed : Type 0 → Type 0
Replayed S = Result (S × ReplayResult × Bytes)

abbrev replayed : {S : Type 0} → S → ℕ → ℕ → Bytes → Replayed S
replayed state records cut file =
    ok (state, record { records = records; truncated_bytes = cut }, file)

replayed_same :
    {S : Type 0} (t : S) {m m' n n' : ℕ} {file file' : Bytes}
    → m ≡ m'
    → n ≡ n'
    → file ≡ file'
    → replayed t m n file ≡ replayed t m' n' file'
replayed_same t a b c = rw (a, b, c) refl

module _ {S : Type 0} (f : Formats) (apply : S → Command → Option S) (h : IsCrc f.crc32) where
  first_line-IsEnd :
      (torn others payload : Bytes) → header f.crc32 payload ≡ torn ++ others → IsEnd f apply torn
  unfolding replay_loop
  first_line-IsEnd [] others payload e fuel offset p = refl
  first_line-IsEnd (c ∷ cs) others payload e fuel offset p =
      let whole =
        first_part-IsOneLine (c ∷ cs) others
          (subst (λ xs. IsOneLine xs) e (header-IsOneLine f.crc32 payload)) in
      let mark : starts_with 35 (c ∷ cs) ≡ true = ap (λ xs. starts_with 35 xs) (sym e) in
      turn_torn f apply true fuel offset (c ∷ cs) p mark (next_raw-cut f (c ∷ cs) whole mark)
        (decode_record-cut f (c ∷ cs) whole mark)

  short-IsEnd :
      (line tail : Bytes) (crc : ℤ) (size : ℕ)
      → IsOneLine line
      → starts_with 35 line ≡ true
      → v3_header line ≡ some (crc, pos size)
      → length tail < size
      → IsEnd f apply (line ++ 10 ∷ tail)
  short-IsEnd line tail crc size whole mark says short fuel offset p =
      turn_torn f apply true fuel offset (line ++ 10 ∷ tail) p
        (starts_with-line line (10 ∷ tail) mark)
        (next_raw-short f line tail crc size whole mark says short)
        (decode_record-short f line tail crc size whole mark says short)

  torn-IsEnd :
      (torn payload : Bytes) → IsTorn torn (frame_record f.crc32 payload) → IsEnd f apply torn
  torn-IsEnd torn payload (more, some_more, e) =
      elim (cut_lines torn more (header f.crc32 payload) payload
        (e ∙ frame_record-lines f.crc32 payload)) [
          | inl (others, same) ↦ first_line-IsEnd torn others payload same
          | inr (part, same, left) ↦
              subst (λ xs. IsEnd f apply xs) (sym same)
                (short-IsEnd (header f.crc32 payload) part (pos (f.crc32 payload)) (length payload)
                  (header-IsOneLine f.crc32 payload) refl
                  (v3_header-shown (f.crc32 payload) (length payload) (h payload))
                  (shorter part more payload some_more left))
        ]
    where
      shorter :
          (part more payload : Bytes)
          → more ≢ []
          → part ++ more ≡ payload
          → length part < length payload
      shorter part [] payload some_more left = absurd (some_more refl)
      shorter part (x ∷ xs) payload some_more left =
          omega (arith, length-append part (x ∷ xs), ap (λ (bytes : Bytes). length bytes) left)

  -- The records before the end are applied, and the file is cut behind them.
  replay_aof-IsEnd :
      (cs : List Command) (tail : Bytes) (s t : S)
      → AllLoggable cs
      → apply_all apply s cs ≡ some t
      → IsEnd f apply tail
      → replay_aof f apply true (log f.crc32 cs ++ tail) s
        ≡ ok (t, record { records = length cs; truncated_bytes = length tail }, log f.crc32 cs)
  unfolding replay_aof
  replay_aof-IsEnd cs tail s t k e stops =
      let file = log f.crc32 cs ++ tail in
      let sizes = length-append (log f.crc32 cs) tail in
      let more = length file - length cs in
      let fuel : suc (length file) ≡ length cs + suc more =
        omega (arith, sizes, log-length f.crc32 cs) in
      let end = length (log f.crc32 cs) in
      let looped =
        ap (λ n. replay_loop f apply true n 0 file (at s 0 0)) fuel
        ∙ replay_loop-log f apply true h cs (suc more) 0 0 tail s t k e
        ∙ stops more (0 + end) (at t (0 + length cs) (0 + end)) in
      rw looped (
        replayed_same t (omega arith) (omega (arith, sizes))
          (take-length (log f.crc32 cs) tail (0 + end) (omega arith)))

  -- The replay of a log of commands behind which a crash has left less than a whole record, or
  -- nothing, applies exactly these commands in order, reports as truncated the bytes of the rest,
  -- and leaves the file with the whole records only; this assumes checksums of 32 bits, commands
  -- that the request parser takes, and that none of them is refused.
  pub replay_aof-torn :
      (cs : List Command) (args : List Arg) (torn : Bytes) (s t : S)
      → AllLoggable cs
      → apply_all apply s cs ≡ some t
      → IsTorn torn (encode_record f.crc32 args)
      → replay_aof f apply true (log f.crc32 cs ++ torn) s
        ≡ ok (t, record { records = length cs; truncated_bytes = length torn }, log f.crc32 cs)
  unfolding encode_record
  replay_aof-torn cs args torn s t k e cut =
      replay_aof-IsEnd cs torn s t k e (torn-IsEnd torn (encode_command args) cut)

  -- If the header of a record in the middle of a log asks for more bytes than the file has behind
  -- it, the replay succeeds with the commands before it, reports the rest as truncated, and cuts it
  -- off, whatever whole records it holds.
  pub replay_aof-overlong :
      (cs : List Command) (line others : Bytes) (crc : ℤ) (size : ℕ) (s t : S)
      → AllLoggable cs
      → apply_all apply s cs ≡ some t
      → IsOneLine line
      → starts_with 35 line ≡ true
      → v3_header line ≡ some (crc, pos size)
      → length others < size
      → replay_aof f apply true (log f.crc32 cs ++ (line ++ 10 ∷ others)) s
        ≡ ok (
          t,
          record { records = length cs; truncated_bytes = length (line ++ 10 ∷ others) },
          log f.crc32 cs,
        )
  replay_aof-overlong cs line others crc size s t k e whole mark says short =
      replay_aof-IsEnd cs (line ++ 10 ∷ others) s t k e
        (short-IsEnd line others crc size whole mark says short)

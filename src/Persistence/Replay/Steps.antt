-- ===== src/Persistence/Replay/Steps.antt =====
-- `replay_aof` of engine/persistence/aof.py: one turn of its loop, on a whole record and on a damaged one.
use redis_like_data_storage.Prelude.{
  ℕ, suc, ◌+◌, ◌≡◌, refl, sym, ap, ◌∙◌, Option, some, [], ◌∷◌, ◌++◌, Bool, true, false, length,
  length-append, take, drop, drop_all, arith, ok, raise, value_error,
}
use mathlib.Core.List.{append_assoc}
use redis_like_data_storage.Prelude.Int.{ℤ, pos}
use redis_like_data_storage.Protocol.Bytes.{
  Bytes, find_byte-line, starts_with, IsOneLine, take-length, drop-length,
}
use redis_like_data_storage.Protocol.Decimal.{skip_spaces}
use redis_like_data_storage.Protocol.Requests.{Command}
use redis_like_data_storage.Persistence.Records.{Formats, frame_record, v3_header, decode_record}
use redis_like_data_storage.Persistence.Records.Headers.{v3_header-shown}
use redis_like_data_storage.Persistence.Records.RoundTrip.{
  header, header-IsOneLine, frame_record-lines, frame_record-split, IsCrc,
}
use redis_like_data_storage.Persistence.Replay.{
  next_raw, read_more, first_line, read_line, Progress, replay_turn, replay_loop, on_error,
  is_blank,
}

first_line-line : (line tail : Bytes) → IsOneLine line → first_line (line ++ 10 ∷ tail) ≡ line
first_line-line line tail h =
    rw (find_byte-line line tail h, first_line) (take-length line (10 ∷ tail) (length line) refl)

read_line-line :
    (line tail : Bytes) → IsOneLine line → read_line (line ++ 10 ∷ tail) ≡ line ++ 10 ∷ []
read_line-line line tail h =
    rw (find_byte-line line tail h, read_line)
      (ap (take (length line + 1)) (sym (append_assoc line (10 ∷ []) tail))
        ∙ take-length (line ++ 10 ∷ []) tail (length line + 1)
            (omega (arith, length-append line (10 ∷ []))))

pub starts_with-line :
    (line more : Bytes) → starts_with 35 line ≡ true → starts_with 35 (line ++ more) ≡ true
starts_with-line [] more h = cc
starts_with-line (c ∷ cs) more h = h

-- A header line makes the loop take as many bytes as it says, or what there is.
pub next_raw-header :
    (line tail : Bytes) (crc : ℤ) (size : ℕ)
    → IsOneLine line
    → starts_with 35 line ≡ true
    → v3_header line ≡ some (crc, pos size)
    → next_raw (line ++ 10 ∷ tail) ≡ (line ++ 10 ∷ []) ++ take size tail
unfolding next_raw read_more
next_raw-header line tail crc size h mark says =
    let behind : drop (length (line ++ 10 ∷ [])) (line ++ 10 ∷ tail) ≡ tail =
      ap (drop (length (line ++ 10 ∷ []))) (sym (append_assoc line (10 ∷ []) tail))
      ∙ drop-length (line ++ 10 ∷ []) tail (length (line ++ 10 ∷ [])) refl in
    rw
      (
        read_line-line line tail h,
        first_line-line line tail h,
        starts_with-line line (10 ∷ []) mark,
        says,
      )
      (rw (read_line-line line tail h, behind) refl)

pub next_raw-frame_record :
    (crc32 : Bytes → ℕ) (payload rest : Bytes)
    → IsCrc crc32
    → next_raw (frame_record crc32 payload ++ rest) ≡ frame_record crc32 payload
next_raw-frame_record crc32 payload rest h =
    let line = header crc32 payload in
    ap next_raw (frame_record-split crc32 payload rest)
    ∙ next_raw-header line (payload ++ rest) (pos (crc32 payload)) (length payload)
        (header-IsOneLine crc32 payload) refl
        (v3_header-shown (crc32 payload) (length payload) (h payload))
    ∙ ap (◌++◌ (line ++ 10 ∷ [])) (take-length payload rest (length payload) refl)
    ∙ append_assoc line (10 ∷ []) payload
    ∙ sym (frame_record-lines crc32 payload)

-- A line that begins with `#` is not blank.
marked-is_blank : (raw : Bytes) → starts_with 35 raw ≡ true → is_blank raw ≡ false
unfolding skip_spaces
marked-is_blank [] h = cc
marked-is_blank (c ∷ cs) h = ground arith

module _ {S : Type 0} (f : Formats) (apply : S → Command → Option S) (allow : Bool) where
  -- A turn that takes a record which is read and applied.
  pub turn_applied :
      (fuel offset : ℕ) (raw rest : Bytes) (p : Progress S) (command : Command) (state : S)
      → starts_with 35 raw ≡ true
      → next_raw (raw ++ rest) ≡ raw
      → decode_record f raw ≡ ok command
      → apply p.state command ≡ some state
      → replay_loop f apply allow (suc fuel) offset (raw ++ rest) p
        ≡ replay_loop f apply allow fuel
            (offset + length raw)
            rest
            (record { state = state; records = suc p.records; good_offset = offset + length raw })
  unfolding replay_loop replay_turn
  turn_applied fuel offset [] rest p command state mark whole reads applies = cc
  turn_applied fuel offset (c ∷ cs) rest p command state mark whole reads applies =
      ap
        (λ raw.
          replay_turn f apply allow (replay_loop f apply allow fuel) offset (c ∷ (cs ++ rest)) raw
            p)
        whole
      ∙ rw (replay_turn, marked-is_blank (c ∷ cs) mark, reads, applies)
          (rw (drop-length (c ∷ cs) rest (length (c ∷ cs)) refl) refl)

  -- A turn that takes everything there is and cannot read it.
  pub turn_torn :
      (fuel offset : ℕ) (raw : Bytes) (p : Progress S)
      → starts_with 35 raw ≡ true
      → next_raw raw ≡ raw
      → decode_record f raw ≡ raise value_error
      → replay_loop f apply true (suc fuel) offset raw p ≡ ok p
  unfolding replay_loop replay_turn on_error
  turn_torn fuel offset [] p mark whole fails = refl
  turn_torn fuel offset (c ∷ cs) p mark whole fails =
      ap (λ raw. replay_turn f apply true (replay_loop f apply true fuel) offset (c ∷ cs) raw p)
        whole
      ∙ rw (replay_turn, marked-is_blank (c ∷ cs) mark, fails)
          (rw (drop_all (length (c ∷ cs)) (c ∷ cs) (omega arith)) refl)

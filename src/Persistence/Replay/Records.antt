-- ===== src/Persistence/Replay/Records.antt =====
-- `replay_aof` of engine/persistence/aof.py on the records that `AOFWriter` wrote.
use redis_like_data_storage.Prelude.{
  ℕ, suc, ◌+◌, ◌≤◌, ◌≡◌, refl, ◌∙◌, Option, none, some, List, [], ◌∷◌, ◌++◌, map, Bool, true,
  length, length-append, arith, Result, Option-cases, inl, inr,
}
use mathlib.Core.List.{append_assoc}
use redis_like_data_storage.Protocol.Bytes.{Bytes, starts_with}
use redis_like_data_storage.Protocol.Encoding.{Arg, encode_command}
use redis_like_data_storage.Protocol.Requests.{Command}
use redis_like_data_storage.Persistence.Records.{Formats, encode_record, frame_record}
use redis_like_data_storage.Persistence.Records.RoundTrip.{
  IsCrc, AreLoggable, decode_record-encode_record,
}
use redis_like_data_storage.Persistence.Replay.{Progress, replay_loop}
use redis_like_data_storage.Persistence.Replay.Steps.{next_raw-frame_record, turn_applied}

-- The file that holds these commands.
abbrev pub log : (Bytes → ℕ) → List Command → Bytes
log crc32 [] = []
log crc32 (c ∷ cs) = encode_record crc32 (map Arg.text c) ++ log crc32 cs

abbrev pub AllLoggable : List Command → Type 0
AllLoggable [] = Unit
AllLoggable (c ∷ cs) = AreLoggable c × AllLoggable cs

-- The effect of commands one after the other.
abbrev pub apply_all : {S : Type 0} → (S → Command → Option S) → S → List Command → Option S
apply_all apply s [] = some s
apply_all apply s (c ∷ cs) = elim (apply s c) [ none ↦ none | some t ↦ apply_all apply t cs ]

pub log-length : (crc32 : Bytes → ℕ) (cs : List Command) → length cs ≤ length (log crc32 cs)
unfolding encode_record frame_record
log-length crc32 [] = omega arith
log-length crc32 (c ∷ cs) = omega (
  arith,
  log-length crc32 cs,
  length-append (encode_record crc32 (map Arg.text c)) (log crc32 cs),
)

pub encode_record-mark :
    (crc32 : Bytes → ℕ) (payload : Bytes) → starts_with 35 (frame_record crc32 payload) ≡ true
unfolding frame_record
encode_record-mark crc32 payload = refl

abbrev pub at : {S : Type 0} → S → ℕ → ℕ → Progress S
at state records offset = record { state = state; records = records; good_offset = offset }

module _ {S : Type 0} (f : Formats) (apply : S → Command → Option S) (allow : Bool)
    (h : IsCrc f.crc32) where
  abbrev pub Loop : Type 0
  Loop = Result (Progress S)

  abbrev pub loop : ℕ → ℕ → Bytes → S → ℕ → ℕ → Loop
  loop fuel offset input s n good = replay_loop f apply allow fuel offset input (at s n good)

  pub same_loop :
      {fuel fuel' offset offset' n n' good good' : ℕ} {input input' : Bytes} {s s' : S}
      → fuel ≡ fuel'
      → offset ≡ offset'
      → input ≡ input'
      → s ≡ s'
      → n ≡ n'
      → good ≡ good'
      → loop fuel offset input s n good ≡ loop fuel' offset' input' s' n' good'
  same_loop a b c d e g = rw (a, b, c, d, e, g) refl

  -- The loop applies the records one by one, whatever follows them.
  pub replay_loop-log :
      (cs : List Command) (fuel offset n : ℕ) (tail : Bytes) (s t : S)
      → AllLoggable cs
      → apply_all apply s cs ≡ some t
      → loop (length cs + fuel) offset (log f.crc32 cs ++ tail) s n offset
        ≡ loop fuel
            (offset + length (log f.crc32 cs))
            tail
            t
            (n + length cs)
            (offset + length (log f.crc32 cs))
  unfolding encode_record
  replay_loop-log [] fuel offset n tail s t k e =
      same_loop (omega arith) (omega arith) refl (ground arith) (omega arith) (omega arith)
  replay_loop-log (c ∷ cs) fuel offset n tail s t k e = elim (Option-cases (apply s c)) [
    | inl refused ↦ absurd (ground arith)
    | inr (u, applied) ↦
        let payload = encode_command (map Arg.text c) in
        let raw = encode_record f.crc32 (map Arg.text c) in
        let later = log f.crc32 cs ++ tail in
        let sizes = length-append raw (log f.crc32 cs) in
        same_loop {fuel' = suc (length cs + fuel)} (omega arith) refl
          (append_assoc raw (log f.crc32 cs) tail) refl refl refl
        ∙ turn_applied f apply allow (length cs + fuel) offset raw later (at s n offset) c u
            (encode_record-mark f.crc32 payload) (next_raw-frame_record f.crc32 payload later h)
            (decode_record-encode_record f c h k.0) applied
        ∙ replay_loop-log cs fuel (offset + length raw) (suc n) tail u t k.1 (ground arith)
        ∙ same_loop refl (omega (arith, sizes)) refl refl (omega arith) (omega (arith, sizes))
  ]

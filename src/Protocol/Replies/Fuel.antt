-- ===== src/Protocol/Replies/Fuel.antt =====
-- `_parse` of protocol/resp.py calls itself on shorter input only, so that its recursion ends: with fuel
-- above the length of what is unread, its answer does not depend on the fuel.
use redis_like_data_storage.Prelude.{
  ℕ, zero, suc, ◌+◌, ◌-◌, ◌<◌, ◌≡◌, refl, [], ◌∷◌, length, length-drop, take, drop, arith, inl, inr,
  Turn-cases, Result-cases, Option-cases,
}
use redis_like_data_storage.Prelude.Int.{ℤ, pos_part}
use redis_like_data_storage.Protocol.Bytes.{Bytes, find_crlf}
use redis_like_data_storage.Protocol.Codec.{Str}
use redis_like_data_storage.Protocol.Encoding.{Reply}
use redis_like_data_storage.Protocol.Requests.{parse_int}
use redis_like_data_storage.Protocol.Replies.{
  Parsed, parse_items, parse_array, parse_kind, parse_reply,
}

-- Two parsers that agree on everything shorter than `input`.
abbrev Agree : (Bytes → Parsed Reply) → (Bytes → Parsed Reply) → Bytes → Type 0
Agree parse other input = (x : Bytes) → length x < length input → parse x ≡ other x

module _ (parse other : Bytes → Parsed Reply) (input : Bytes) (h : Agree parse other input) where
  parse_items-Agree :
      (n after : ℕ)
      → 0 < after
      → 0 < length input
      → parse_items parse n after input ≡ parse_items other n after input
  unfolding parse_items
  parse_items-Agree zero after k l = refl
  parse_items-Agree (suc n) after k l =
      let same = h (drop after input) (omega (arith, length-drop after input)) in
      elim (Turn-cases (other (drop after input))) [
        | inl (error, turn) ↦ rw (same, turn) refl
        | inr (inl turn) ↦ rw (same, turn) refl
        | inr (inr ((r, size), turn)) ↦
            rw (same, turn) (rw (parse_items-Agree n (after + size) (omega arith) l) refl)
      ]

  parse_array-Agree :
      (count : ℤ) (after : ℕ)
      → 0 < after
      → 0 < length input
      → parse_array parse count after input ≡ parse_array other count after input
  unfolding parse_array
  parse_array-Agree count after k l = rw (parse_items-Agree (pos_part count) after k l) refl

  parse_kind-Agree :
      (own : Str → Str) (kind : ℕ) (line : Bytes) (after : ℕ)
      → 0 < after
      → 0 < length input
      → parse_kind own parse kind line after input ≡ parse_kind own other kind line after input
  unfolding parse_kind
  parse_kind-Agree own kind line after k l = elim (Result-cases (parse_int line)) [
    | inl (error, bad) ↦ rw bad refl
    | inr (n, number) ↦ rw number (rw (parse_array-Agree n after k l) refl)
  ]

-- The recursion of the reply parser ends: with fuel above the length of the input its answer does
-- not depend on the fuel.
pub parse_reply-fuel :
    (own : Str → Str) (f g : ℕ) (input : Bytes)
    → length input < f
    → length input < g
    → parse_reply own f input ≡ parse_reply own g input
unfolding parse_reply
parse_reply-fuel own zero g input h k = absurd (omega arith)
parse_reply-fuel own (suc f) zero input h k = absurd (omega arith)
parse_reply-fuel own (suc f) (suc g) [] h k = refl
parse_reply-fuel own (suc f) (suc g) (kind ∷ rest) h k =
    let agree : Agree (parse_reply own f) (parse_reply own g) (kind ∷ rest) =
      λ x l. parse_reply-fuel own f g x (omega arith) (omega arith) in
    elim (Option-cases (find_crlf (kind ∷ rest))) [
      | inl no_line ↦ rw (no_line, parse_reply) refl
      | inr (eol, line) ↦
          rw (line, parse_reply)
            (parse_kind-Agree (parse_reply own f) (parse_reply own g) (kind ∷ rest) agree own kind
              (take (eol - 1) rest) (eol + 2) (omega arith) (omega arith))
    ]

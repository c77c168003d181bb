-- ===== src/Persistence/Records/Headers.antt =====
-- engine/persistence/aof.py: the header line of a v3 record is read as it was written.
use redis_like_data_storage.Prelude.{
  ℕ, zero, suc, ◌+◌, ◌*◌, ◌/◌, ◌%◌, ◌<◌, ◌≡◌, ◌≢◌, refl, sym, ap, ◌∙◌, subst, some, [], ◌∷◌, ◌++◌,
  Bool, true, false, ◌==◌, ◌&&◌, length, length-append, arith,
}
use mathlib.Core.List.{append_assoc, append-nil}
use redis_like_data_storage.Prelude.Int.{pos}
use redis_like_data_storage.Protocol.Bytes.{Bytes, IsOneLine}
use redis_like_data_storage.Protocol.Decimal.{
  show_ℕ, digits, read_int, read_signed, skip_spaces, read_int-show_ℕ, is_space,
}
use redis_like_data_storage.Protocol.Requests.{split_words}
use redis_like_data_storage.Persistence.Records.{
  show_hex, hex_digit, read_hex_digits, read_hex_word, read_hex, v3_words, v3_header,
}

-- A word of a header: no white space in it.
abbrev pub IsWord : Bytes → Type 0
IsWord [] = Unit
IsWord (c ∷ cs) = (is_space c ≡ false) × IsWord cs

IsWord-append : (xs ys : Bytes) → IsWord xs → IsWord ys → IsWord (xs ++ ys)
IsWord-append [] ys h k = k
IsWord-append (x ∷ xs) ys h k = (h.0, IsWord-append xs ys h.1 k)

digits-IsWord : (fuel n : ℕ) → IsWord (digits fuel n)
unfolding digits
digits-IsWord zero n = tt
digits-IsWord (suc fuel) n =
    ground (
      arith,
      digits-IsWord fuel (n / 10),
      IsWord-append (digits fuel (n / 10)) ((48 + n % 10) ∷ []),
    )

pub show_ℕ-IsWord : (n : ℕ) → IsWord (show_ℕ n)
unfolding show_ℕ
show_ℕ-IsWord n = digits-IsWord (suc n) n

pub show_hex-IsWord : (width n : ℕ) → IsWord (show_hex width n)
unfolding show_hex
show_hex-IsWord zero n = tt
show_hex-IsWord (suc width) n =
    IsWord-append (show_hex width (n / 16)) (hex_digit (n % 16) ∷ [])
      (show_hex-IsWord width (n / 16)) (ground arith)

-- A line feed is white space, so that a word has none.
pub word-IsOneLine : (xs : Bytes) → IsWord xs → IsOneLine xs
word-IsOneLine [] h = tt
word-IsOneLine (x ∷ xs) h = (ground arith, word-IsOneLine xs h.1)

split_words-word :
    (word xs rest : Bytes)
    → IsWord xs
    → split_words word (xs ++ rest) ≡ split_words (word ++ xs) rest
unfolding split_words
split_words-word word [] rest h = ap (λ w. split_words w rest) (sym (append-nil word))
split_words-word word (x ∷ xs) rest h = rw h.0 (
    split_words-word (word ++ x ∷ []) xs rest h.1
    ∙ ap (λ w. split_words w rest) (append_assoc word (x ∷ []) xs))

split_words-last : (c : ℕ) (cs : Bytes) → IsWord (c ∷ cs) → split_words [] (c ∷ cs) ≡ (c ∷ cs) ∷ []
unfolding split_words
split_words-last c cs h =
    ap (split_words []) (sym (append-nil (c ∷ cs))) ∙ split_words-word [] (c ∷ cs) [] h

split_words-space :
    (c : ℕ) (cs rest : Bytes) → split_words (c ∷ cs) (32 ∷ rest) ≡ (c ∷ cs) ∷ split_words [] rest
unfolding split_words
split_words-space c cs rest = refl

-- Two words with a space between them.
split_words-two :
    (first second : Bytes)
    → IsWord first
    → IsWord second
    → first ≢ []
    → second ≢ []
    → split_words [] (first ++ 32 ∷ second) ≡ first ∷ second ∷ []
split_words-two [] second h k p q = absurd (p refl)
split_words-two (c ∷ cs) [] h k p q = absurd (q refl)
split_words-two (c ∷ cs) (d ∷ ds) h k p q =
    split_words-word [] (c ∷ cs) (32 ∷ d ∷ ds) h
    ∙ split_words-space c cs (d ∷ ds)
    ∙ ap (◌∷◌ (c ∷ cs)) (split_words-last d ds k)

-- 16 ^ width
abbrev pub hex_bound : ℕ → ℕ
hex_bound zero = 1
hex_bound (suc width) = hex_bound width * 16

hex-step :
    (again : Bool) (n d : ℕ) (rest : Bytes)
    → d < 16
    → read_hex_digits again n (hex_digit d ∷ rest) ≡ read_hex_digits true (n * 16 + d) rest
unfolding read_hex_digits
hex-step again n d rest h = ground arith

-- Reading the digits of `n` scales what was read before by some power of 16.
abbrev ReadsBack : Bytes → ℕ → ℕ → Type 0
ReadsBack text n scale =
    (again : Bool) (seen : ℕ) (rest : Bytes)
    → read_hex_digits again seen (text ++ rest) ≡ read_hex_digits true (seen * scale + n) rest

last_digit :
    (width n scale : ℕ)
    → ReadsBack (show_hex width (n / 16)) (n / 16) scale
    → ReadsBack (show_hex (suc width) n) n (scale * 16)
unfolding show_hex
last_digit width n scale before again seen rest =
    rw
      (
        append_assoc (show_hex width (n / 16)) (hex_digit (n % 16) ∷ []) rest,
        before again seen (hex_digit (n % 16) ∷ rest),
        hex-step true (seen * scale + n / 16) (n % 16) rest (omega arith),
      )
      (ap (λ m. read_hex_digits true m rest) (omega arith))

show_hex-ReadsBack :
    (width n : ℕ)
    → n < hex_bound (suc width)
    → (scale : ℕ) × ReadsBack (show_hex (suc width) n) n scale
unfolding show_hex
show_hex-ReadsBack zero n h = (
  16,
  λ again seen rest.
      hex-step again seen (n % 16) rest (omega arith)
      ∙ ap (λ m. read_hex_digits true m rest) (omega arith),
)
show_hex-ReadsBack (suc width) n h =
    let (scale, before) = show_hex-ReadsBack width (n / 16) (omega arith) in
    (scale * 16, last_digit (suc width) n scale before)

read_hex_digits-show_hex :
    (width n : ℕ)
    → n < hex_bound (suc width)
    → read_hex_digits false 0 (show_hex (suc width) n) ≡ some n
unfolding read_hex_digits
read_hex_digits-show_hex width n h =
    let (scale, back) = show_hex-ReadsBack width n h in
    subst (λ text. read_hex_digits false 0 text ≡ some n) (append-nil (show_hex (suc width) n))
      (rw (back false 0 []) (ap some (omega arith)))

-- The digits are hexadecimal ones, so that there is neither a sign nor the `x` of a prefix.
abbrev AreHex : Bytes → Type 0
AreHex [] = Unit
AreHex (c ∷ cs) = (47 < c) × (c < 103) × (c ≢ 88) × AreHex cs

AreHex-append : (xs ys : Bytes) → AreHex xs → AreHex ys → AreHex (xs ++ ys)
AreHex-append [] ys h k = k
AreHex-append (x ∷ xs) ys h k = ground (arith, AreHex-append xs ys)

show_hex-AreHex : (width n : ℕ) → AreHex (show_hex width n)
unfolding show_hex
show_hex-AreHex zero n = tt
show_hex-AreHex (suc width) n =
    AreHex-append (show_hex width (n / 16)) (hex_digit (n % 16) ∷ [])
      (show_hex-AreHex width (n / 16)) (ground arith)

differs : (a b : ℕ) → a ≢ b → (a == b) ≡ false
differs a b h = ground arith

no_prefix : (b : Bool) → (b && false) ≡ false
no_prefix true = refl
no_prefix false = refl

read_hex-word :
    (word : Bytes) (n : ℕ)
    → AreHex word
    → read_hex_digits false 0 word ≡ some n
    → read_hex word ≡ some (pos n)
unfolding read_hex read_hex_word
read_hex-word [] n h e = empty e
  where
    empty : read_hex_digits false 0 [] ≡ some n → read_hex [] ≡ some (pos n)
    empty e = ground arith
read_hex-word (c ∷ []) n h e =
    rw (differs c 45 (omega arith), differs c 43 (omega arith)) (rw e refl)
read_hex-word (c ∷ x ∷ cs) n h e =
    rw
      (
        differs c 45 (omega arith),
        differs c 43 (omega arith),
        differs x 120 (omega arith),
        differs x 88 (ground arith),
        no_prefix (c == 48),
      )
      (rw e refl)

pub read_hex-show_hex : (n : ℕ) → n < hex_bound 8 → read_hex (show_hex 8 n) ≡ some (pos n)
read_hex-show_hex n h =
    read_hex-word (show_hex 8 n) n (show_hex-AreHex 8 n) (read_hex_digits-show_hex 7 n h)

length-show_hex : (width n : ℕ) → length (show_hex width n) ≡ width
unfolding show_hex
length-show_hex zero n = refl
length-show_hex (suc width) n = omega (
  arith,
  length-append (show_hex width (n / 16)) (hex_digit (n % 16) ∷ []),
  length-show_hex width (n / 16),
)

show_hex-nonempty : (n : ℕ) → show_hex 8 n ≢ []
show_hex-nonempty n e =
    absurd (omega (arith, length-show_hex 8 n, ap (λ (xs : Bytes). length xs) e))

show_ℕ-nonempty : (n : ℕ) → show_ℕ n ≢ []
unfolding read_int read_signed skip_spaces
show_ℕ-nonempty n e = cc (read_int-show_ℕ n)

-- The header that the writer prints is read as its two numbers.
pub v3_header-shown :
    (crc size : ℕ)
    → crc < hex_bound 8
    → v3_header (35 ∷ (show_hex 8 crc ++ 32 ∷ show_ℕ size)) ≡ some (pos crc, pos size)
unfolding v3_header v3_words
v3_header-shown crc size h =
    rw
      (split_words-two (show_hex 8 crc) (show_ℕ size) (show_hex-IsWord 8 crc) (show_ℕ-IsWord size)
        (show_hex-nonempty crc) (show_ℕ-nonempty size))
      (rw (read_hex-show_hex crc h, v3_words) (rw (read_int-show_ℕ size) refl))

-- ===== src/Protocol/Codec.antt =====
-- core/codec.py: UTF-8 with `surrogateescape`, as Python documents it. A str is the list of its code
-- points. A byte that is not part of valid UTF-8 decodes to U+DC00 and the byte; the other surrogates,
-- which Python refuses to encode, do not stand in a str here.
use redis_like_data_storage.Prelude.{
  ℕ, zero, suc, ◌+◌, ◌-◌, ◌*◌, ◌/◌, ◌%◌, ◌≤◌, ◌<◌, ◌≡◌, ◌≢◌, ◌⊎◌, refl, Option, none, some, List,
  [], ◌∷◌, ◌++◌, Bool, not, ◌&&◌, ltb, leb, if◌then◌else◌, arith, length, drop, inl, inr,
  Option-cases, ap,
}
use redis_like_data_storage.Protocol.Bytes.{Bytes, IsLine, IsLine-append}

abbrev pub Str : Type 0
Str = List ℕ

unfoldable pub encode_char : ℕ → Bytes
encode_char c =
    if ltb c 128
    then c ∷ []
    else if ltb c 2048
    then (192 + c / 64) ∷ (128 + c % 64) ∷ []
    else if leb 56448 c && leb c 56575
    then (c - 56320) ∷ []
    else if ltb c 65536
    then (224 + c / 4096) ∷ (128 + c / 64 % 64) ∷ (128 + c % 64) ∷ []
    else (240 + c / 262144) ∷ (128 + c / 4096 % 64) ∷ (128 + c / 64 % 64) ∷ (128 + c % 64) ∷ []

unfoldable pub to_bytes : Str → Bytes
to_bytes [] = []
to_bytes (c ∷ cs) = encode_char c ++ to_bytes cs

abbrev is_continuation : ℕ → Bool
is_continuation b = leb 128 b && leb b 191

-- The code point in the bytes `a` and those behind it, if they are its UTF-8 in so many bytes.
unfoldable pub decode_two : ℕ → Bytes → Option ℕ
decode_two a [] = none
decode_two a (b ∷ _) =
    if leb 194 a && leb a 223 && is_continuation b then some ((a - 192) * 64 + (b - 128)) else none

abbrev is_plane_zero : ℕ → Bool
is_plane_zero c = leb 2048 c && ltb c 65536 && not (leb 55296 c && leb c 57343)

unfoldable pub decode_three : ℕ → Bytes → Option ℕ
decode_three a [] = none
decode_three a (b ∷ []) = none
decode_three a (b ∷ c ∷ _) =
    let code = (a - 224) * 4096 + (b - 128) * 64 + (c - 128) in
    if leb 224 a && is_continuation b && is_continuation c && is_plane_zero code
    then some code
    else none

unfoldable pub decode_four : ℕ → Bytes → Option ℕ
decode_four a [] = none
decode_four a (b ∷ []) = none
decode_four a (b ∷ c ∷ []) = none
decode_four a (b ∷ c ∷ d ∷ _) =
    let code = (a - 240) * 262144 + (b - 128) * 4096 + (c - 128) * 64 + (d - 128) in
    if leb 240 a
      && is_continuation b
      && is_continuation c
      && is_continuation d
      && leb 65536 code
      && ltb code 1114112
    then some code
    else none

-- The first code point, and how many bytes it has behind `a`.
unfoldable pub decode_char : ℕ → Bytes → ℕ × ℕ
decode_char a rest = if ltb a 128 then (a, 0) else elim (decode_two a rest) [
  | some c ↦ (c, 1)
  | none ↦ elim (decode_three a rest) [
    | some c ↦ (c, 2)
    | none ↦ elim (decode_four a rest) [ some c ↦ (c, 3) | none ↦ (56320 + a, 0) ]
  ]
]

-- The first `skip` bytes belong to a code point that is decoded already.
unfoldable pub decode : ℕ → Bytes → Str
unfolding decode_char decode_two decode_three decode_four
decode skip [] = []
decode zero (a ∷ rest) = let (c, more) = decode_char a rest in c ∷ decode more rest
decode (suc skip) (a ∷ rest) = decode skip rest

unfoldable pub to_str : Bytes → Str
unfolding decode
to_str bytes = decode 0 bytes

abbrev pub AreBytes : Bytes → Type 0
AreBytes [] = Unit
AreBytes (b ∷ bs) = (b < 256) × AreBytes bs

two-bytes :
    (a c : ℕ) (rest : Bytes)
    → decode_two a rest ≡ some c
    → (encode_char c ++ drop 1 rest ≡ a ∷ rest) × (1 ≤ length rest)
unfolding decode_two encode_char
two-bytes a c [] h = cc
two-bytes a c (b ∷ rest) h = ground arith

three-bytes :
    (a c : ℕ) (rest : Bytes)
    → decode_three a rest ≡ some c
    → (encode_char c ++ drop 2 rest ≡ a ∷ rest) × (2 ≤ length rest)
unfolding decode_three encode_char
three-bytes a c [] h = cc
three-bytes a c (b ∷ []) h = cc
three-bytes a c (b ∷ b' ∷ rest) h = ground arith

four-bytes :
    (a c : ℕ) (rest : Bytes)
    → decode_four a rest ≡ some c
    → (encode_char c ++ drop 3 rest ≡ a ∷ rest) × (3 ≤ length rest)
unfolding decode_four encode_char
four-bytes a c [] h = cc
four-bytes a c (b ∷ []) h = cc
four-bytes a c (b ∷ b' ∷ []) h = cc
four-bytes a c (b ∷ b' ∷ b'' ∷ rest) h = ground arith

escaped : (a : ℕ) → 128 ≤ a → a < 256 → encode_char (56320 + a) ≡ a ∷ []
unfolding encode_char
escaped a low high = ground arith

one-byte : (a : ℕ) → a < 128 → encode_char a ≡ a ∷ []
unfolding encode_char
one-byte a h = ground arith

char-bytes :
    (a : ℕ) (rest : Bytes)
    → a < 256
    → (encode_char (decode_char a rest).0 ++ drop (decode_char a rest).1 rest ≡ a ∷ rest)
      × ((decode_char a rest).1 ≤ length rest)
unfolding decode_char
char-bytes a rest h = elim (Option-cases (decode_two a rest)) [
  | inr (c, two) ↦ ground (arith, one-byte a, two-bytes a c rest)
  | inl two ↦ elim (Option-cases (decode_three a rest)) [
    | inr (c, three) ↦ ground (arith, one-byte a, three-bytes a c rest)
    | inl three ↦ elim (Option-cases (decode_four a rest)) [
      | inr (c, four) ↦ ground (arith, one-byte a, four-bytes a c rest)
      | inl four ↦ ground (arith, one-byte a, escaped a)
    ]
  ]
]

to_bytes-decode :
    (skip : ℕ) (bytes : Bytes)
    → AreBytes bytes
    → skip ≤ length bytes
    → to_bytes (decode skip bytes) ≡ drop skip bytes
unfolding decode to_bytes
to_bytes-decode zero [] h k = refl
to_bytes-decode (suc skip) [] h k = absurd (omega arith)
to_bytes-decode zero (a ∷ rest) h k =
    let (same, fits) = char-bytes a rest h.0 in
    rw (to_bytes-decode (decode_char a rest).1 rest h.1 fits) same
to_bytes-decode (suc skip) (a ∷ rest) h k = to_bytes-decode skip rest h.1 (omega arith)

-- Any bytes survive being decoded and encoded again, valid UTF-8 or not.
pub to_bytes-to_str : (bytes : Bytes) → AreBytes bytes → to_bytes (to_str bytes) ≡ bytes
unfolding to_str
to_bytes-to_str bytes h = to_bytes-decode 0 bytes h (omega arith)

-- A code point of Unicode that is no surrogate.
abbrev pub IsScalar : ℕ → Type 0
IsScalar c = (c < 55296) ⊎ ((57344 ≤ c) × (c < 1114112))

abbrev pub IsText : Str → Type 0
IsText [] = Unit
IsText (c ∷ cs) = IsScalar c × IsText cs

decode-encode_char :
    (c : ℕ) (rest : Bytes) → IsScalar c → decode 0 (encode_char c ++ rest) ≡ c ∷ decode 0 rest
unfolding decode encode_char decode_char decode_two decode_three decode_four
decode-encode_char c rest h = ground arith

-- A str without surrogates is decoded as it was.
pub to_str-to_bytes : (s : Str) → IsText s → to_str (to_bytes s) ≡ s
unfolding to_str to_bytes
to_str-to_bytes [] h = refl
to_str-to_bytes (c ∷ cs) h =
    rw (decode-encode_char c (to_bytes cs) h.0) (ap (◌∷◌ c) (to_str-to_bytes cs h.1))

encode_char-IsLine : (c : ℕ) → c ≢ 13 → IsLine (encode_char c)
unfolding encode_char
encode_char-IsLine c h = ground arith

-- A str without carriage returns has none in its bytes.
pub to_bytes-IsLine : (s : Str) → IsLine s → IsLine (to_bytes s)
unfolding to_bytes
to_bytes-IsLine [] h = tt
to_bytes-IsLine (c ∷ cs) h =
    IsLine-append (encode_char c) (to_bytes cs) (encode_char-IsLine c h.0) (to_bytes-IsLine cs h.1)

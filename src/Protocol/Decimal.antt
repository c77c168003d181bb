-- ===== src/Protocol/Decimal.antt =====
-- The decimal text of an integer, as `%d` prints it and `int()` reads it: optional white space, an
-- optional sign, digits with single underscores between them, and white space again.
use mathlib.Core.Option
use redis_like_data_storage.Prelude.{
  ℕ, zero, suc, ◌+◌, ◌-◌, ◌*◌, ◌/◌, ◌%◌, ◌≤◌, ◌<◌, ◌≡◌, refl, Option, none, some, [], ◌∷◌, ◌++◌,
  Bool, true, false, ◌&&◌, ◌||◌, ◌==◌, ltb, leb, if◌then◌else◌, arith, Bool-cases, inl, inr, ap,
  subst,
}
use mathlib.Core.List.{append_assoc, append-nil}
use redis_like_data_storage.Prelude.Int.{ℤ, pos, negsuc}
use redis_like_data_storage.Protocol.Bytes.{Bytes, IsLine, IsLine-append}

-- The last `fuel` digits of `n`.
unfoldable pub digits : ℕ → ℕ → Bytes
digits zero n = []
digits (suc fuel) n = if ltb n 10 then (48 + n) ∷ [] else digits fuel (n / 10) ++ (48 + n % 10) ∷ []

-- `b"%d" % n`: a number has fewer digits than `n + 1`.
unfoldable pub show_ℕ : ℕ → Bytes
show_ℕ n = digits (suc n) n

unfoldable pub show_ℤ : ℤ → Bytes
show_ℤ (pos n) = show_ℕ n
show_ℤ (negsuc n) = 45 ∷ show_ℕ (suc n)

abbrev pub is_digit : ℕ → Bool
is_digit c = leb 48 c && leb c 57

-- Space, and tab to carriage return.
abbrev pub is_space : ℕ → Bool
is_space c = c == 32 || (leb 9 c && leb c 13)

unfoldable pub skip_spaces : Bytes → Bytes
skip_spaces [] = []
skip_spaces (c ∷ cs) = elim (is_space c) [ true ↦ skip_spaces cs | false ↦ c ∷ cs ]

-- The digits from here on, with `n` read so far and `again` when a digit stands before.
unfoldable pub read_digits : Bool → ℕ → Bytes → Option ℕ
unfolding skip_spaces
read_digits again n [] = if again then some n else none
read_digits again n (c ∷ cs) = elim (is_digit c) [
  | true ↦ read_digits true (n * 10 + (c - 48)) cs
  | false ↦ elim again [
    | false ↦ none
    | true ↦ elim (c == 95) [
      | true ↦ read_digits false n cs
      | false ↦ elim (skip_spaces (c ∷ cs)) [ [] ↦ some n | _ ∷ _ ↦ none ]
    ]
  ]
]

neg : ℕ → ℤ
neg zero = pos 0
neg (suc n) = negsuc n

-- Behind the leading white space.
unfoldable pub read_signed : Bytes → Option ℤ
unfolding read_digits neg
read_signed [] = none
read_signed (c ∷ cs) =
    if c == 45
    then Option.map neg (read_digits false 0 cs)
    else if c == 43
    then Option.map pos (read_digits false 0 cs)
    else Option.map pos (read_digits false 0 (c ∷ cs))

-- `int(data)`, with none for a ValueError.
unfoldable pub read_int : Bytes → Option ℤ
unfolding skip_spaces read_signed
read_int text = read_signed (skip_spaces text)

digit-step :
    (again : Bool) (n d : ℕ) (rest : Bytes)
    → d < 10
    → read_digits again n ((48 + d) ∷ rest) ≡ read_digits true (n * 10 + d) rest
unfolding read_digits
digit-step again n d rest h = ground arith

digits-split :
    (fuel n : ℕ)
    → ltb n 10 ≡ false
    → digits (suc fuel) n ≡ digits fuel (n / 10) ++ (48 + n % 10) ∷ []
unfolding digits
digits-split fuel n e = ground arith

-- Reading the digits of `n` scales what was read before by some power of ten.
abbrev ReadsBack : Bytes → ℕ → ℕ → Type 0
ReadsBack text n scale =
    (again : Bool) (seen : ℕ) (rest : Bytes)
    → read_digits again seen (text ++ rest) ≡ read_digits true (seen * scale + n) rest

last_digit :
    (fuel n scale : ℕ)
    → ltb n 10 ≡ false
    → ReadsBack (digits fuel (n / 10)) (n / 10) scale
    → ReadsBack (digits (suc fuel) n) n (scale * 10)
last_digit fuel n scale e before again seen rest =
    rw
      (
        digits-split fuel n e,
        append_assoc (digits fuel (n / 10)) ((48 + n % 10) ∷ []) rest,
        before again seen ((48 + n % 10) ∷ rest),
        digit-step true (seen * scale + n / 10) (n % 10) rest (omega arith),
      )
      (ap (λ m. read_digits true m rest) (omega arith))

digits-ReadsBack : (fuel n : ℕ) → n < fuel → (scale : ℕ) × ReadsBack (digits fuel n) n scale
unfolding digits
digits-ReadsBack zero n h = absurd (omega arith)
digits-ReadsBack (suc fuel) n h = elim (Bool-cases (ltb n 10)) [
  | inl e ↦ (10, λ again seen rest. ground (arith, digit-step again seen n rest))
  | inr e ↦
      let (scale, before) = digits-ReadsBack fuel (n / 10) (ground arith) in
      (scale * 10, last_digit fuel n scale e before)
]

digits-IsLine : (fuel n : ℕ) → IsLine (digits fuel n)
unfolding digits
digits-IsLine zero n = tt
digits-IsLine (suc fuel) n =
    ground (
      arith,
      digits-IsLine fuel (n / 10),
      IsLine-append (digits fuel (n / 10)) ((48 + n % 10) ∷ []),
    )

pub show_ℕ-IsLine : (n : ℕ) → IsLine (show_ℕ n)
unfolding show_ℕ
show_ℕ-IsLine n = digits-IsLine (suc n) n

pub show_ℤ-IsLine : (i : ℤ) → IsLine (show_ℤ i)
unfolding show_ℤ
show_ℤ-IsLine (pos n) = show_ℕ-IsLine n
show_ℤ-IsLine (negsuc n) = (ground arith, show_ℕ-IsLine (suc n))

read_digits-show_ℕ : (again : Bool) (n : ℕ) → read_digits again 0 (show_ℕ n) ≡ some n
unfolding show_ℕ read_digits
read_digits-show_ℕ again n =
    let (scale, back) = digits-ReadsBack (suc n) n (omega arith) in
    subst (λ text. read_digits again 0 text ≡ some n) (append-nil (digits (suc n) n))
      (rw (back again 0 []) (ap some (omega arith)))

-- A number begins with a digit, so that neither white space nor a sign is taken off it.
digits-first :
    (fuel n : ℕ)
    → n < fuel
    → (c : ℕ) × (rest : Bytes) × (digits fuel n ≡ c ∷ rest) × (48 ≤ c) × (c ≤ 57)
unfolding digits
digits-first zero n h = absurd (omega arith)
digits-first (suc fuel) n h = elim (Bool-cases (ltb n 10)) [
  | inl e ↦ (48 + n, [], ground arith, omega arith, ground arith)
  | inr e ↦
      let (c, rest, same, low, high) = digits-first fuel (n / 10) (ground arith) in
      (c, rest ++ (48 + n % 10) ∷ [], ground arith, low, high)
]

read_int-digits :
    (text : Bytes) (c : ℕ) (rest : Bytes) (n : ℕ)
    → text ≡ c ∷ rest
    → 48 ≤ c
    → c ≤ 57
    → read_digits false 0 text ≡ some n
    → read_int text ≡ some (pos n)
unfolding read_int read_signed skip_spaces
read_int-digits text c rest n e low high r = ground arith

-- `int()` reads what `%d` prints.
pub read_int-show_ℤ : (i : ℤ) → read_int (show_ℤ i) ≡ some i
unfolding show_ℤ read_int read_signed skip_spaces show_ℕ digits
read_int-show_ℤ (pos n) =
    let (c, rest, same, low, high) = digits-first (suc n) n (omega arith) in
    read_int-digits (show_ℕ n) c rest n same low high (read_digits-show_ℕ false n)
read_int-show_ℤ (negsuc n) = rw (read_digits-show_ℕ false (suc n)) refl

pub read_int-show_ℕ : (n : ℕ) → read_int (show_ℕ n) ≡ some (pos n)
unfolding show_ℤ
read_int-show_ℕ n = read_int-show_ℤ (pos n)

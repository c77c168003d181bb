-- ===== src/Protocol/Bytes.antt =====
-- Python's `bytes` and `bytearray` as lists of numbers: search for the end of a line.
use mathlib.Core.Option
use redis_like_data_storage.Prelude.{
  ℕ, zero, suc, ◌+◌, ◌≤◌, ◌<◌, ◌≡◌, ◌≢◌, refl, Option, none, some, List, [], ◌∷◌, ◌++◌, Bool, true,
  false, ◌&&◌, ◌==◌, arith, length, take, drop,
}

abbrev pub Bytes : Type 0
Bytes = List ℕ

-- `CRLF`
abbrev pub crlf : Bytes
crlf = 13 ∷ 10 ∷ []

abbrev pub starts_with : ℕ → Bytes → Bool
starts_with byte [] = false
starts_with byte (x ∷ xs) = x == byte

-- `buf.find(CRLF)`, with none for -1.
unfoldable pub find_crlf : Bytes → Option ℕ
find_crlf [] = none
find_crlf (x ∷ xs) = elim (x == 13 && starts_with 10 xs) [
  | true ↦ some 0
  | false ↦ Option.map suc (find_crlf xs)
]

-- `buf.find(byte)`
unfoldable pub find_byte : ℕ → Bytes → Option ℕ
find_byte byte [] = none
find_byte byte (x ∷ xs) = elim (x == byte) [
  | true ↦ some 0
  | false ↦ Option.map suc (find_byte byte xs)
]

-- A line that the protocol can carry has no carriage return.
abbrev pub IsLine : Bytes → Type 0
IsLine [] = Unit
IsLine (x ∷ xs) = (x ≢ 13) × IsLine xs

pub find_crlf-line :
    (xs rest : Bytes) → IsLine xs → find_crlf (xs ++ 13 ∷ 10 ∷ rest) ≡ some (length xs)
unfolding find_crlf
find_crlf-line [] rest h = refl
find_crlf-line (x ∷ xs) rest h = ground (arith, find_crlf-line xs rest)

-- What is found stays where it is when more bytes arrive.
pub find_crlf-append :
    (xs ys : Bytes) (i : ℕ) → find_crlf xs ≡ some i → find_crlf (xs ++ ys) ≡ some i
unfolding find_crlf
find_crlf-append [] ys i h = cc
find_crlf-append (x ∷ []) ys i h = ground arith
find_crlf-append (x ∷ x' ∷ xs) ys zero h = ground (arith)
find_crlf-append (x ∷ x' ∷ xs) ys (suc i) h = ground (arith, find_crlf-append (x' ∷ xs) ys i)

pub find_crlf-fits : (xs : Bytes) (i : ℕ) → find_crlf xs ≡ some i → i + 2 ≤ length xs
unfolding find_crlf
find_crlf-fits [] i h = ground arith
find_crlf-fits (x ∷ []) i h = ground arith
find_crlf-fits (x ∷ x' ∷ xs) zero h = ground arith
find_crlf-fits (x ∷ x' ∷ xs) (suc i) h = ground (arith, find_crlf-fits (x' ∷ xs) i)

pub find_byte-append :
    (byte : ℕ) (xs ys : Bytes) (i : ℕ)
    → find_byte byte xs ≡ some i
    → find_byte byte (xs ++ ys) ≡ some i
unfolding find_byte
find_byte-append byte [] ys i h = cc
find_byte-append byte (x ∷ xs) ys zero h = ground arith
find_byte-append byte (x ∷ xs) ys (suc i) h = ground (arith, find_byte-append byte xs ys i)

pub find_byte-lt : (byte : ℕ) (xs : Bytes) (i : ℕ) → find_byte byte xs ≡ some i → i < length xs
unfolding find_byte
find_byte-lt byte [] i h = ground arith
find_byte-lt byte (x ∷ xs) zero h = ground arith
find_byte-lt byte (x ∷ xs) (suc i) h = ground (arith, find_byte-lt byte xs i)

pub IsLine-append : (xs ys : Bytes) → IsLine xs → IsLine ys → IsLine (xs ++ ys)
IsLine-append [] ys h k = k
IsLine-append (x ∷ xs) ys h k = (h.0, IsLine-append xs ys h.1 k)

-- What stands before and behind a prefix of known length.
pub take-length : (xs ys : Bytes) (n : ℕ) → length xs ≡ n → take n (xs ++ ys) ≡ xs
take-length [] ys zero h = refl
take-length [] ys (suc n) h = absurd (omega arith)
take-length (x ∷ xs) ys zero h = absurd (omega arith)
take-length (x ∷ xs) ys (suc n) h = rw (take-length xs ys n (omega arith))

pub drop-length : (xs ys : Bytes) (n : ℕ) → length xs ≡ n → drop n (xs ++ ys) ≡ ys
drop-length [] ys zero h = refl
drop-length [] ys (suc n) h = absurd (omega arith)
drop-length (x ∷ xs) ys zero h = absurd (omega arith)
drop-length (x ∷ xs) ys (suc n) h = drop-length xs ys n (omega arith)

abbrev pub IsOneLine : Bytes → Type 0
IsOneLine [] = Unit
IsOneLine (x ∷ xs) = (x ≢ 10) × IsOneLine xs

pub IsOneLine-append : (xs ys : Bytes) → IsOneLine xs → IsOneLine ys → IsOneLine (xs ++ ys)
IsOneLine-append [] ys h k = k
IsOneLine-append (x ∷ xs) ys h k = (h.0, IsOneLine-append xs ys h.1 k)

pub find_byte-line :
    (xs rest : Bytes) → IsOneLine xs → find_byte 10 (xs ++ 10 ∷ rest) ≡ some (length xs)
unfolding find_byte
find_byte-line [] rest h = refl
find_byte-line (x ∷ xs) rest h = ground (arith, find_byte-line xs rest)

pub find_byte-none : (xs : Bytes) → IsOneLine xs → find_byte 10 xs ≡ none
unfolding find_byte
find_byte-none [] h = refl
find_byte-none (x ∷ xs) h = ground (arith, find_byte-none xs)

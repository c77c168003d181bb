-- ===== src/Datatypes/ListValue/Range.antt =====
-- `range` of `ListValue` walks in from the end that is closer, and gives the same from either.
use mathlib.Core.List.{reverse-cons, reverse-append, reverse-reverse, append_assoc}
use redis_like_data_storage.Prelude.{
  ℕ, zero, suc, ◌+◌, ◌-◌, ◌≤◌, ◌<◌, String, none, some, List, [], ◌∷◌, ◌++◌, ltb, leb, max, ◌&&◌,
  if◌then◌else◌, length, take, drop, reverse, length-take, length-drop, length-append,
  take-append-drop, drop-drop, ◌≡◌, refl, arith, sym, ap, ◌∙◌, Bool-cases, false, inl, inr,
  Option-cases,
}
use redis_like_data_storage.Prelude.Int.{ℤ, pos, negsuc, ◌+ℤ◌, ◌-ℤ◌, leb_ℤ}
use redis_like_data_storage.Datatypes.ListValue.{ListValue, islice, range_in, range, clamp}

module _ {A : Type 0} where
  pub length-reverse : (xs : List A) → length (reverse xs) ≡ length xs
  length-reverse [] = refl
  length-reverse (x ∷ xs) =
      ap length (reverse-cons x xs)
      ∙ length-append (reverse xs) (x ∷ [])
      ∙ omega (arith, length-reverse xs)

  drop-append_length : (xs ys : List A) (n : ℕ) → length xs ≡ n → drop n (xs ++ ys) ≡ ys
  drop-append_length [] ys zero h = refl
  drop-append_length [] ys (suc n) h = absurd (omega arith)
  drop-append_length (x ∷ xs) ys zero h = absurd (omega arith)
  drop-append_length (x ∷ xs) ys (suc n) h = drop-append_length xs ys n (omega arith)

  take-append_length : (xs ys : List A) (n : ℕ) → length xs ≡ n → take n (xs ++ ys) ≡ xs
  take-append_length [] ys zero h = refl
  take-append_length [] ys (suc n) h = absurd (omega arith)
  take-append_length (x ∷ xs) ys zero h = absurd (omega arith)
  take-append_length (x ∷ xs) ys (suc n) h =
      ap (λ zs. x ∷ zs) (take-append_length xs ys n (omega arith))

  -- The middle of three parts, read from the right end.
  reverse-middle :
      (xs ys zs : List A) (c b : ℕ)
      → length zs ≡ c
      → length ys ≡ b
      → reverse (take b (drop c (reverse (xs ++ (ys ++ zs))))) ≡ ys
  reverse-middle xs ys zs c b hc hb =
      ap reverse (
        ap (take b) (
          ap (drop c) (
            reverse-append xs (ys ++ zs)
            ∙ ap (λ l. l ++ reverse xs) (reverse-append ys zs)
            ∙ append_assoc (reverse zs) (reverse ys) (reverse xs))
          ∙ drop-append_length (reverse zs) (reverse ys ++ reverse xs) c (length-reverse zs ∙ hc))
        ∙ take-append_length (reverse ys) (reverse xs) b (length-reverse ys ∙ hb))
      ∙ reverse-reverse ys

  -- A list around the items from `lo` to `hi`.
  around :
      (xs : List A) (lo hi : ℕ)
      → lo ≤ hi
      → xs ≡ take lo xs ++ (islice xs lo (hi + 1) ++ drop (hi + 1) xs)
  around xs lo hi h =
      sym (take-append-drop lo xs)
      ∙ ap (λ l. take lo xs ++ l)
          (sym (take-append-drop (hi + 1 - lo) (drop lo xs))
            ∙ ap (λ l. islice xs lo (hi + 1) ++ l)
                (drop-drop (hi + 1 - lo) lo (hi + 1) xs (omega arith)))

range_in-islice :
    (xs : List String) (lo hi : ℕ)
    → lo ≤ hi
    → hi < length xs
    → range_in xs lo hi ≡ islice xs lo (hi + 1)
unfolding range_in
range_in-islice xs lo hi h fits = elim (Bool-cases (ltb (length xs - 1 - hi) lo)) [
  | inr front ↦ rw (front, range_in)
  | inl back ↦
      let n = length xs in
      rw (back, range_in)
        (ap (λ l. reverse (islice (reverse l) (n - 1 - hi) (n - lo))) (around xs lo hi h)
          ∙ reverse-middle (take lo xs) (islice xs lo (hi + 1)) (drop (hi + 1) xs) (n - 1 - hi)
              (n - lo - (n - 1 - hi)) (length-drop (hi + 1) xs ∙ omega arith)
              (length-take (hi + 1 - lo) (drop lo xs) ∙ omega (arith, length-drop lo xs)))
]

-- Bounds that are given lie in the list.
clamp_bounds :
    (start stop : ℤ) (n lo hi : ℕ) → clamp start stop n ≡ some (lo, hi) → (lo ≤ hi) × (hi < n)
unfolding clamp ◌-ℤ◌
clamp_bounds start stop n lo hi h = ground arith

-- A position of LRANGE in a list of `n` items: those below 0 count from the end, -1 being the last.
abbrev pub position : ℕ → ℤ → ℤ
position n (pos i) = pos i
position n (negsuc i) = pos n -ℤ pos (suc i)

-- The items whose positions are from `lo` to `hi`, both included, where `i` is the first one's.
unfoldable pub between : ℤ → ℤ → ℕ → List String → List String
between lo hi i [] = []
between lo hi i (x ∷ xs) =
    let rest = between lo hi (suc i) xs in
    if leb_ℤ lo (pos i) && leb_ℤ (pos i) hi then x ∷ rest else rest

take_nil : (m n : ℕ) → take {A = String} m (drop n []) ≡ []
take_nil zero zero = refl
take_nil zero (suc n) = refl
take_nil (suc m) zero = refl
take_nil (suc m) (suc n) = refl

minus_zero : (n : ℕ) → n - 0 ≡ n
minus_zero n = omega arith

max_zero : (n : ℕ) → max n 0 ≡ n
max_zero n = omega arith

-- The same where a position is read off a range of natural numbers.
between-islice :
    (xs : List String) (a b : ℤ) (lo hi i : ℕ)
    → ((j : ℕ) → j < i + length xs → (leb_ℤ a (pos j) && leb_ℤ (pos j) b) ≡ (leb lo j && leb j hi))
    → between a b i xs ≡ take (hi + 1 - max lo i) (drop (lo - i) xs)
unfolding between
between-islice [] a b lo hi i h = ground (arith, take_nil (hi + 1 - max lo i) (lo - i))
between-islice (x ∷ xs) a b lo hi i h =
    let rest = between-islice xs a b lo hi (suc i) (λ j l. h j (omega (arith, l))) in
    let here = h i (omega arith) in
    elim (Bool-cases (ltb i lo)) [
      | inl below ↦
          let n : lo - i ≡ suc (lo - suc i) = ground arith in
          let m : max lo i ≡ max lo (suc i) = ground arith in ground (arith, here, rest, n, m)
      | inr reached ↦
          let n : lo - i ≡ 0 = ground arith in
          let n' : lo - suc i ≡ 0 = ground arith in
          elim (Bool-cases (leb i hi)) [
            | inl inside ↦
                let m : hi + 1 - max lo i ≡ suc (hi + 1 - max lo (suc i)) = ground arith in
                ground (arith, here, rest, n, n', m)
            | inr beyond ↦
                let m : hi + 1 - max lo i ≡ 0 = ground arith in
                let m' : hi + 1 - max lo (suc i) ≡ 0 = ground arith in
                ground (arith, here, rest, n, n', m, m')
          ]
    ]

between-none :
    (xs : List String) (a b : ℤ) (i : ℕ)
    → ((j : ℕ) → j < i + length xs → (leb_ℤ a (pos j) && leb_ℤ (pos j) b) ≡ false)
    → between a b i xs ≡ []
unfolding between
between-none [] a b i h = refl
between-none (x ∷ xs) a b i h =
    ground (arith, h i (omega arith), between-none xs a b (suc i) (λ j l. h j (omega (arith, l))))

from_start_of :
    (xs : List String) (lo hi : ℕ)
    → take (hi + 1 - max lo 0) (drop (lo - 0) xs) ≡ islice xs lo (hi + 1)
from_start_of xs lo hi = rw (max_zero lo, minus_zero lo) refl

-- Bounds that are not given hold no position of the list, ...
clamp-none :
    (start stop : ℤ) (n j : ℕ)
    → clamp start stop n ≡ none
    → j < n
    → (leb_ℤ (position n start) (pos j) && leb_ℤ (pos j) (position n stop)) ≡ false
unfolding clamp ◌-ℤ◌ ◌+ℤ◌
clamp-none start stop n j h l = ground arith

-- ... and those that are hold the same positions as what was asked for.
clamp-some :
    (start stop : ℤ) (n lo hi j : ℕ)
    → clamp start stop n ≡ some (lo, hi)
    → j < n
    → (leb_ℤ (position n start) (pos j) && leb_ℤ (pos j) (position n stop)) ≡ (leb lo j && leb j hi)
unfolding clamp ◌-ℤ◌ ◌+ℤ◌
clamp-some start stop n lo hi j h l = ground arith

-- LRANGE gives, in order, the items whose positions lie between the two bounds, both included,
-- where a negative bound counts from the end, -1 being the last item, and bounds beyond the list or
-- in the wrong order are no error.
pub range-between :
    (v : ListValue) (start stop : ℤ)
    → let n = length v.items in
      range v start stop ≡ between (position n start) (position n stop) 0 v.items
unfolding range
range-between v start stop =
    let n = length v.items in
    elim (Option-cases (clamp start stop n)) [
      | inl empty ↦
          rw (empty, range)
            (sym (
              between-none v.items (position n start) (position n stop) 0
                (λ j l. clamp-none start stop n j empty (omega (arith, l)))))
      | inr ((lo, hi), found) ↦
          let (ordered, fits) = clamp_bounds start stop n lo hi found in
          rw (found, range)
            (range_in-islice v.items lo hi ordered fits
              ∙ sym (from_start_of v.items lo hi)
              ∙ sym (
                  between-islice v.items (position n start) (position n stop) lo hi 0
                    (λ j l. clamp-some start stop n lo hi j found (omega (arith, l)))))
    ]

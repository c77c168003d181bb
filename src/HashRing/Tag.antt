-- ===== src/HashRing/Tag.antt =====
-- `hash_slot_key` of cluster/hash_ring.py: the part of a key that is hashed. A key is the list of
-- its code points here.
use redis_like_data_storage.Prelude.{
  ℕ, zero, suc, ◌+◌, ◌-◌, ◌≤◌, Option, none, some, List, [], ◌∷◌, ◌++◌, ◌≡◌, ◌≢◌, refl, arith, Bool,
  true, false, ltb, ◌==◌, if◌then◌else◌, length, take, drop, Option-cases, Bool-cases, ◌⊎◌, inl,
  inr, ap,
}

abbrev pub open_brace : ℕ
open_brace = 0x7b

abbrev pub close_brace : ℕ
close_brace = 0x7d

-- The first `c` of `xs`, whose first position is `n`.
find_at : ℕ → List ℕ → ℕ → Option ℕ
find_at c [] n = none
find_at c (x ∷ xs) n = if x == c then some n else find_at c xs (suc n)

-- `s.find(c, start)`, with `none` for -1.
find : ℕ → List ℕ → ℕ → Option ℕ
unfolding find_at
find c s start = find_at c (drop start s) start

-- `s[a:b]`
abbrev slice : List ℕ → ℕ → ℕ → List ℕ
slice s a b = take (b - a) (drop a s)

unfoldable pub hash_slot_key : List ℕ → List ℕ
unfolding find
hash_slot_key key = elim (find open_brace key 0) [
  | none ↦ key
  | some start ↦ elim (find close_brace key (start + 1)) [
    | none ↦ key
    | some stop ↦ if ltb (start + 1) stop then slice key (start + 1) stop else key
  ]
]

-- `c in s`
unfoldable pub has_code : ℕ → List ℕ → Bool
has_code c [] = false
has_code c (x ∷ xs) = if x == c then true else has_code c xs

find_at-append :
    (c : ℕ) (xs ys : List ℕ) (n : ℕ)
    → has_code c xs ≡ false
    → find_at c (xs ++ c ∷ ys) n ≡ some (n + length xs)
unfolding find_at has_code
find_at-append c [] ys n h = ground arith
find_at-append c (x ∷ xs) ys n h = ground (arith, find_at-append c xs ys (suc n))

find_at-none : (c : ℕ) (xs : List ℕ) (n : ℕ) → has_code c xs ≡ false → find_at c xs n ≡ none
unfolding find_at has_code
find_at-none c [] n h = refl
find_at-none c (x ∷ xs) n h = ground (arith, find_at-none c xs (suc n))

find_at-le : (c : ℕ) (xs : List ℕ) (n m : ℕ) → find_at c xs n ≡ some m → n ≤ m
unfolding find_at
find_at-le c [] n m h = cc
find_at-le c (x ∷ xs) n m h = ground (arith, find_at-le c xs (suc n) m)

-- Up to what `find` finds there is no other.
has_code-take :
    (c : ℕ) (xs : List ℕ) (n m : ℕ) → find_at c xs n ≡ some m → has_code c (take (m - n) xs) ≡ false
unfolding find_at has_code
has_code-take c [] n m h = cc
has_code-take c (x ∷ xs) n m h = elim (Bool-cases (x == c)) [
  | inl here ↦ let e : m - n ≡ 0 = ground arith in ap (λ k. has_code c (take k (x ∷ xs))) e
  | inr later ↦
      let h' : find_at c xs (suc n) ≡ some m = ground arith in
      let e : m - n ≡ suc (m - suc n) = omega (arith, find_at-le c xs (suc n) m h') in
      rw e (rw later (has_code-take c xs (suc n) m h'))
]

has_code-drop :
    (c : ℕ) (n : ℕ) (xs : List ℕ) → has_code c xs ≡ false → has_code c (drop n xs) ≡ false
unfolding has_code
has_code-drop c zero xs h = h
has_code-drop c (suc n) [] h = refl
has_code-drop c (suc n) (x ∷ xs) h = has_code-drop c n xs (ground arith)

drop-append-cons :
    (xs : List ℕ) (c : ℕ) (ys : List ℕ) (n : ℕ) → n ≡ length xs + 1 → drop n (xs ++ c ∷ ys) ≡ ys
drop-append-cons [] c ys zero e = absurd (omega arith)
drop-append-cons [] c ys (suc n) e = ap (λ k. drop k ys) {x = n} {y = 0} (omega arith)
drop-append-cons (x ∷ xs) c ys zero e = absurd (omega arith)
drop-append-cons (x ∷ xs) c ys (suc n) e = drop-append-cons xs c ys n (omega arith)

take-length-append : (xs ys : List ℕ) (n : ℕ) → n ≡ length xs → take n (xs ++ ys) ≡ xs
take-length-append [] ys zero e = refl
take-length-append [] ys (suc n) e = absurd (omega arith)
take-length-append (x ∷ xs) ys zero e = absurd (omega arith)
take-length-append (x ∷ xs) ys (suc n) e = ap (◌∷◌ x) (take-length-append xs ys n (omega arith))

-- A key with a tag, the first `{` up to the next `}`, hashes as the tag.
pub hash_slot_key-tag :
    (front tag rest : List ℕ)
    → has_code open_brace front ≡ false
    → has_code close_brace tag ≡ false
    → tag ≢ []
    → hash_slot_key (front ++ open_brace ∷ (tag ++ close_brace ∷ rest)) ≡ tag
unfolding hash_slot_key
hash_slot_key-tag front [] rest no_open no_close some_tag = absurd (some_tag refl)
hash_slot_key-tag front (t ∷ ts) rest no_open no_close some_tag =
    let tag = t ∷ ts in
    let inside = tag ++ close_brace ∷ rest in
    let start = 0 + length front in
    ground (
      arith,
      find_at-append open_brace front inside 0,
      find_at-append close_brace tag rest (start + 1),
      drop-append-cons front open_brace inside (start + 1),
      take-length-append tag (close_brace ∷ rest) (start + 1 + length tag - (start + 1)),
    )

untagged : (key : List ℕ) → has_code close_brace key ≡ false → hash_slot_key key ≡ key
unfolding hash_slot_key
untagged key h = elim (Option-cases (find open_brace key 0)) [
  | inl e ↦ rw (e, hash_slot_key)
  | inr (start, e) ↦ rw (
    e,
    hash_slot_key,
    find_at-none close_brace (drop (start + 1) key) (start + 1)
        (has_code-drop close_brace (start + 1) key h),
  )
]

hash_slot_key-cases :
    (key : List ℕ) → (hash_slot_key key ≡ key) ⊎ (has_code close_brace (hash_slot_key key) ≡ false)
unfolding hash_slot_key
hash_slot_key-cases key = elim (Option-cases (find open_brace key 0)) [
  | inl e ↦ inl (rw (e, hash_slot_key))
  | inr (start, e) ↦ elim (Option-cases (find close_brace key (start + 1))) [
    | inl f ↦ inl (rw (e, hash_slot_key, f))
    | inr (stop, f) ↦ elim (Bool-cases (ltb (start + 1) stop)) [
      | inl g ↦ inr (
          rw (e, hash_slot_key, f, g)
            (has_code-take close_brace (drop (start + 1) key) (start + 1) stop f))
      | inr g ↦ inl (rw (e, hash_slot_key, f, g))
    ]
  ]
]

-- What is hashed of a key hashes as itself.
pub hash_slot_key_idem : (key : List ℕ) → hash_slot_key (hash_slot_key key) ≡ hash_slot_key key
hash_slot_key_idem key = elim (hash_slot_key-cases key) [
  | inl same ↦ ap hash_slot_key same
  | inr plain ↦ untagged (hash_slot_key key) plain
]

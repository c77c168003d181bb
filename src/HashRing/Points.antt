-- ===== src/HashRing/Points.antt =====
-- The sorted list of points: membership and order under insertion and removal.
use redis_like_data_storage.Prelude.{
  ℕ, ◌≤◌, ◌<◌, String, none, some, List, [], ◌∷◌, ◌≡◌, arith, Bool, true, false, ◌==◌,
  if◌then◌else◌,
}
use redis_like_data_storage.HashRing.{owner_of, insort}
use redis_like_data_storage.HashRing.Clockwise.{next_point}

-- `p in points`
unfoldable pub has_point : List ℕ → ℕ → Bool
has_point [] p = false
has_point (x ∷ xs) p = if x == p then true else has_point xs p

abbrev pub IsAbove : ℕ → List ℕ → Type 0
IsAbove x [] = Unit
IsAbove x (y ∷ ys) = (x < y) × IsAbove x ys

abbrev pub IsSorted : List ℕ → Type 0
IsSorted [] = Unit
IsSorted (x ∷ xs) = IsAbove x xs × IsSorted xs

pub IsAbove-trans : (x y : ℕ) (ys : List ℕ) → x < y → IsAbove y ys → IsAbove x ys
IsAbove-trans x y [] h a = tt
IsAbove-trans x y (z ∷ ys) h a = (omega arith, IsAbove-trans x y ys h a.1)

pub IsAbove-lt : (x p : ℕ) (xs : List ℕ) → IsAbove x xs → has_point xs p ≡ true → x < p
unfolding has_point
IsAbove-lt x p [] a h = cc
IsAbove-lt x p (y ∷ ys) a h = ground (arith, IsAbove-lt x p ys a.1)

pub has_point-insort :
    (p q : ℕ) (xs : List ℕ) → has_point (insort p xs) q ≡ (if p == q then true else has_point xs q)
unfolding has_point insort
has_point-insort p q [] = ground arith
has_point-insort p q (x ∷ xs) = ground (arith, has_point-insort p q xs)

IsAbove-insort : (x p : ℕ) (xs : List ℕ) → x < p → IsAbove x xs → IsAbove x (insort p xs)
unfolding insort
IsAbove-insort x p [] h a = ground arith
IsAbove-insort x p (y ∷ ys) h a = ground (arith, IsAbove-insort x p ys h a.1)

-- A new point keeps the list strictly sorted.
pub insort-IsSorted :
    (p : ℕ) (xs : List ℕ) → has_point xs p ≡ false → IsSorted xs → IsSorted (insort p xs)
unfolding has_point insort
insort-IsSorted p [] h s = ground arith
insort-IsSorted p (x ∷ xs) h s =
    ground (arith, IsAbove-insort x p xs, IsAbove-trans p x xs, insort-IsSorted p xs)

-- The point that the search finds is the least beyond the hash.
pub next_point_least :
    (xs : List ℕ) (h p q : ℕ)
    → IsSorted xs
    → next_point xs h ≡ some p
    → has_point xs q ≡ true
    → h < q
    → p ≤ q
unfolding next_point has_point
next_point_least [] h p q s e m b = cc
next_point_least (x ∷ xs) h p q s e m b =
    ground (arith, IsAbove-lt x q xs s.0, next_point_least xs h p q s.1)

pub next_point-lt : (xs : List ℕ) (h p : ℕ) → next_point xs h ≡ some p → h < p
unfolding next_point
next_point-lt [] h p e = cc
next_point-lt (x ∷ xs) h p e = ground (arith, next_point-lt xs h p)

pub next_point-has_point :
    (xs : List ℕ) (h p : ℕ) → next_point xs h ≡ some p → has_point xs p ≡ true
unfolding next_point has_point
next_point-has_point [] h p e = cc
next_point-has_point (x ∷ xs) h p e = ground (arith, next_point-has_point xs h p)

pub next_point-none :
    (xs : List ℕ) (h q : ℕ) → next_point xs h ≡ none → has_point xs q ≡ true → q ≤ h
unfolding next_point has_point
next_point-none [] h q e m = cc
next_point-none (x ∷ xs) h q e m = ground (arith, next_point-none xs h q)

unfoldable pub has_owner : List (ℕ × String) → ℕ → Bool
has_owner owners p = elim (owner_of owners p) [ none ↦ false | some _ ↦ true ]

-- No point stands twice among the owners, as in a `dict`.
abbrev pub IsKeyed : List (ℕ × String) → Type 0
IsKeyed [] = Unit
IsKeyed ((p, n) ∷ owners) = (owner_of owners p ≡ none) × IsKeyed owners

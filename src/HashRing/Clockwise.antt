-- ===== src/HashRing/Clockwise.antt =====
-- The lookup of `get_node` on the sorted points: the next point clockwise from a hash.
use redis_like_data_storage.Prelude.{
  ℕ, ◌<◌, String, Option, none, some, List, [], ◌∷◌, ◌≡◌, ◌⊎◌, inl, inr, refl, arith, ltb,
  if◌then◌else◌, length, get_elem?, ok, ap, Option-cases,
}
use redis_like_data_storage.HashRing.{
  Ring, owner_of, insort, bisect, point_index, owner_at, get_node,
}

-- The first point of the list beyond `h`.
unfoldable pub next_point : List ℕ → ℕ → Option ℕ
next_point [] h = none
next_point (x ∷ xs) h = if ltb h x then some x else next_point xs h

-- That point, or the first of all: around the ring.
unfoldable pub clockwise : List ℕ → ℕ → Option ℕ
clockwise points h = elim (next_point points h) [ none ↦ get_elem? points 0 | some p ↦ some p ]

get_elem?-bisect :
    (points : List ℕ) (h : ℕ) → get_elem? points (bisect points h) ≡ next_point points h
unfolding bisect next_point
get_elem?-bisect [] h = refl
get_elem?-bisect (x ∷ xs) h = ground (arith, get_elem?-bisect xs h)

bisect-length :
    (points : List ℕ) (h : ℕ) → next_point points h ≡ none → bisect points h ≡ length points
unfolding bisect next_point
bisect-length [] h e = refl
bisect-length (x ∷ xs) h e = ground (arith, bisect-length xs h)

bisect-lt :
    (points : List ℕ) (h p : ℕ) → next_point points h ≡ some p → bisect points h < length points
unfolding bisect next_point
bisect-lt [] h p e = cc
bisect-lt (x ∷ xs) h p e = ground (arith, bisect-lt xs h p)

-- The binary search with its wrap-around finds the next point clockwise.
pub point_index-clockwise :
    (points : List ℕ) (h : ℕ) → get_elem? points (point_index points h) ≡ clockwise points h
unfolding point_index clockwise
point_index-clockwise points h = elim (Option-cases (next_point points h)) [
  | inl e ↦ ground (arith, bisect-length points h)
  | inr (p, e) ↦ ground (arith, bisect-lt points h p, get_elem?-bisect points h)
]

next_point-insort :
    (p : ℕ) (points : List ℕ) (h : ℕ)
    → (next_point (insort p points) h ≡ some p)
      ⊎ (next_point (insort p points) h ≡ next_point points h)
unfolding next_point insort
next_point-insort p [] h = ground arith
next_point-insort p (x ∷ xs) h = ground (arith, next_point-insort p xs h)

first-insort :
    (p : ℕ) (points : List ℕ)
    → (get_elem? (insort p points) 0 ≡ some p)
      ⊎ (get_elem? (insort p points) 0 ≡ get_elem? points 0)
unfolding insort
first-insort p [] = ground arith
first-insort p (x ∷ xs) = ground arith

pub clockwise-insort :
    (p : ℕ) (points : List ℕ) (h : ℕ)
    → (clockwise (insort p points) h ≡ some p)
      ⊎ (clockwise (insort p points) h ≡ clockwise points h)
unfolding clockwise
clockwise-insort p points h = ground (arith, next_point-insort p points h, first-insort p points)

-- The owner of a key is the owner of the point that comes next after its hash.
pub get_node-clockwise :
    (hash : String → ℕ) (r : Ring) (key : String)
    → get_node hash r key ≡ owner_at r (clockwise r.points (hash key))
unfolding get_node
get_node-clockwise hash r key = ap (owner_at r) (point_index-clockwise r.points (hash key))

-- What owned a key is a point with that owner.
pub owner_at-eq-ok :
    (r : Ring) (c : Option ℕ) (n : String)
    → owner_at r c ≡ ok n
    → (p : ℕ) × (c ≡ some p) × (owner_of r.owners p ≡ some n)
unfolding owner_at
owner_at-eq-ok r none n h = cc
owner_at-eq-ok r (some p) n h = (p, refl, ground arith)

pub owner_at_of :
    (r : Ring) (p : ℕ) (n : String) → owner_of r.owners p ≡ some n → owner_at r (some p) ≡ ok n
unfolding owner_at
owner_at_of r p n h = rw (h, owner_at)

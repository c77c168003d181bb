-- ===== src/HashRing/Removed.antt =====
-- Removing a node moves only the keys that it had.
use redis_like_data_storage.Prelude.{
  ℕ, String, Option, none, some, List, [], ◌∷◌, ◌≡◌, ◌≢◌, refl, arith, ite, str_discrete, get_elem?,
  Result, ok, raise, ◌∙◌, sym,
}
use redis_like_data_storage.HashRing.{
  Ring, owner_of, owner_at, get_node, kept_points, kept_owners, remove_node,
}
use redis_like_data_storage.HashRing.Clockwise.{
  next_point, clockwise, get_node-clockwise, owner_at-eq-ok, owner_at_of,
}

owner_of-kept :
    (node : String) (owners : List (ℕ × String)) (p : ℕ) (n : String)
    → n ≢ node
    → owner_of owners p ≡ some n
    → owner_of (kept_owners node owners) p ≡ some n
unfolding owner_of kept_owners
owner_of-kept node [] p n other h = cc
owner_of-kept node ((q, m) ∷ owners) p n other h =
    ground (arith, owner_of-kept node owners p n other)

module _ (owners : List (ℕ × String)) (node : String) where
  -- How one point fares in the removal.
  kept_points-cons :
      (x : ℕ) (xs ys : List ℕ)
      → kept_points owners node (x ∷ xs) ≡ ok ys
      → (m : String) × (rest : List ℕ) × (owner_of owners x ≡ some m)
        × (kept_points owners node xs ≡ ok rest)
        × (ys ≡ ite (str_discrete m node) rest (x ∷ rest))
  unfolding kept_points
  kept_points-cons x xs ys h = go (owner_of owners x) (kept_points owners node xs) refl refl
    where
      go :
          (o : Option String) (k : Result (List ℕ))
          → owner_of owners x ≡ o
          → kept_points owners node xs ≡ k
          → (m : String) × (rest : List ℕ) × (owner_of owners x ≡ some m)
            × (kept_points owners node xs ≡ ok rest)
            × (ys ≡ ite (str_discrete m node) rest (x ∷ rest))
      go none k e f = absurd (ground arith)
      go (some m) (raise error) e f = absurd (ground arith)
      go (some m) (ok rest) e f = (m, rest, e, f, ground arith)

  next_point-kept :
      (xs ys : List ℕ) (h p : ℕ) (n : String)
      → kept_points owners node xs ≡ ok ys
      → owner_of owners p ≡ some n
      → n ≢ node
      → next_point xs h ≡ some p
      → next_point ys h ≡ some p
  unfolding next_point
  next_point-kept [] ys h p n kept owned other e = cc
  next_point-kept (x ∷ xs) ys h p n kept owned other e =
      let (m, rest, found, kept', ys_eq) = kept_points-cons x xs ys kept in
      ground (arith, next_point-kept xs rest h p n kept' owned other)

  next_point-kept_none :
      (xs ys : List ℕ) (h : ℕ)
      → kept_points owners node xs ≡ ok ys
      → next_point xs h ≡ none
      → next_point ys h ≡ none
  unfolding next_point kept_points
  next_point-kept_none [] ys h kept e = ground arith
  next_point-kept_none (x ∷ xs) ys h kept e =
      let (m, rest, found, kept', ys_eq) = kept_points-cons x xs ys kept in
      ground (arith, next_point-kept_none xs rest h kept')

  first-kept :
      (xs ys : List ℕ) (p : ℕ) (n : String)
      → kept_points owners node xs ≡ ok ys
      → owner_of owners p ≡ some n
      → n ≢ node
      → get_elem? xs 0 ≡ some p
      → get_elem? ys 0 ≡ some p
  first-kept [] ys p n kept owned other e = cc
  first-kept (x ∷ xs) ys p n kept owned other e =
      let (m, rest, found, kept', ys_eq) = kept_points-cons x xs ys kept in ground arith

  clockwise-kept :
      (xs ys : List ℕ) (h p : ℕ) (n : String)
      → kept_points owners node xs ≡ ok ys
      → owner_of owners p ≡ some n
      → n ≢ node
      → clockwise xs h ≡ some p
      → clockwise ys h ≡ some p
  unfolding clockwise
  clockwise-kept xs ys h p n kept owned other e = ground (
    arith,
    next_point-kept xs ys h p n kept owned other,
    next_point-kept_none xs ys h kept,
    first-kept xs ys p n kept owned other,
  )

-- What a removal that does not raise computes.
remove_node-eq-ok :
    (r r' : Ring) (node : String)
    → remove_node r node ≡ ok r'
    → (points : List ℕ) × (kept_points r.owners node r.points ≡ ok points)
      × (r'.points ≡ points)
      × (r'.owners ≡ kept_owners node r.owners)
unfolding remove_node
remove_node-eq-ok r r' node h = go (kept_points r.owners node r.points) refl
  where
    go :
        (k : Result (List ℕ))
        → kept_points r.owners node r.points ≡ k
        → (points : List ℕ) × (kept_points r.owners node r.points ≡ ok points)
          × (r'.points ≡ points)
          × (r'.owners ≡ kept_owners node r.owners)
    go (raise error) e = absurd (ground arith)
    go (ok points) e = (points, e, ground arith, ground arith)

-- Removing a node moves no key that another node has.
pub remove_node-moves :
    (hash : String → ℕ) (r r' : Ring) (node key n : String)
    → remove_node r node ≡ ok r'
    → get_node hash r key ≡ ok n
    → n ≢ node
    → get_node hash r' key ≡ ok n
unfolding owner_at
remove_node-moves hash r r' node key n removed h other =
    let (p, found, owned) =
      owner_at-eq-ok r (clockwise r.points (hash key)) n
        (sym (get_node-clockwise hash r key) ∙ h) in
    let (points, kept, e, f) = remove_node-eq-ok r r' node removed in
    simp get_node-clockwise (
      rw (e, clockwise-kept r.owners node r.points points (hash key) p n kept owned other found)
        (owner_at_of r' p n (rw f (owner_of-kept node r.owners p n other owned))))

-- ===== src/HashRing/Invariant.antt =====
-- The ring's points are sorted and are the keys of its owners, who are its nodes. Every operation
-- keeps that, and with it neither a lookup nor a removal meets a point without an owner.
use redis_like_data_storage.Prelude.{
  ℕ, zero, suc, ◌≤◌, ◌<◌, String, some, List, [], ◌∷◌, ◌≡◌, ◌≢◌, ◌⊎◌, inl, inr, refl, arith, true,
  false, ok, ap, ◌∙◌, sym, Option-cases, Bool-cases, subst, >>=-ok,
}
use Prim.Native.String.{◌++◌}
use redis_like_data_storage.HashRing.{
  Ring, owner_of, owner_at, add_point, add_points, add_node, add_nodes, init, get_node, has_node,
  decimal,
}
use redis_like_data_storage.HashRing.Clockwise.{
  next_point, clockwise, get_node-clockwise, owner_at_of,
}
use redis_like_data_storage.HashRing.Points.{
  has_point, has_owner, IsSorted, insort-IsSorted, has_point-insort, next_point-has_point,
  next_point-lt, next_point_least, next_point-none, IsAbove-lt, IsKeyed,
}

-- No node stands twice.
abbrev pub IsDistinct : List String → Type 0
IsDistinct [] = Unit
IsDistinct (x ∷ xs) = (has_node xs x ≡ false) × IsDistinct xs

pub record IsValid (r : Ring) : Type 0 where
  pub sorted : IsSorted r.points
  pub keyed : IsKeyed r.owners
  pub owned : (p : ℕ) → has_point r.points p ≡ has_owner r.owners p
  pub live : (p : ℕ) (n : String) → owner_of r.owners p ≡ some n → has_node r.nodes n ≡ true
  pub distinct : IsDistinct r.nodes

module _ (hash : String → ℕ) where
  pub add_point-IsValid :
      (r : Ring) (node : String) (i : ℕ)
      → has_node r.nodes node ≡ true
      → IsValid r
      → IsValid (add_point hash r node i)
  unfolding add_point
  add_point-IsValid r node i member v =
      let p = hash (node ++ "#" ++ decimal i) in
      elim (Option-cases (owner_of r.owners p)) [
        | inr (m, taken) ↦ rw (taken, add_point) v
        | inl free ↦
            let unused : has_point r.points p ≡ false =
              v.owned p ∙ (unfold has_owner in rw (free, has_owner) refl) in
            rw (free, add_point)
              (record {
                sorted = insort-IsSorted p r.points unused v.sorted;
                keyed = (free, v.keyed);
                owned = λ q.
                    unfold has_owner owner_of in
                    ground (arith, has_point-insort p q r.points, v.owned q);
                live = λ q n h. unfold owner_of in ground (arith, v.live q n);
                distinct = v.distinct;
              })
      ]

  nodes-add_point : (r : Ring) (node : String) (i : ℕ) → (add_point hash r node i).nodes ≡ r.nodes
  unfolding add_point
  nodes-add_point r node i = ground arith

  add_points-IsValid :
      (rounds i : ℕ) (r : Ring) (node : String)
      → has_node r.nodes node ≡ true
      → IsValid r
      → IsValid (add_points hash rounds i r node)
  unfolding add_points
  add_points-IsValid zero i r node member v = v
  add_points-IsValid (suc rounds) i r node member v =
      add_points-IsValid rounds (suc i) (add_point hash r node i) node (rw nodes-add_point member)
        (add_point-IsValid r node i member v)

  -- Adding a node that is not on the ring keeps the ring valid.
  pub add_node-IsValid :
      (r r' : Ring) (node : String) → IsValid r → add_node hash r node ≡ ok r' → IsValid r'
  unfolding add_node
  add_node-IsValid r r' node v h = elim (Bool-cases (has_node r.nodes node)) [
    | inl old ↦ absurd (ground arith)
    | inr new ↦
        let r₀ = record r { nodes = node ∷ r.nodes } in
        let v₀ : IsValid r₀ = record {
          sorted = v.sorted;
          keyed = v.keyed;
          owned = v.owned;
          live = λ q n e. unfold has_node in ground (arith, v.live q n);
          distinct = (new, v.distinct);
        } in
        let member : has_node (node ∷ r.nodes) node ≡ true = unfold has_node in ground arith in
        let e : add_points hash r.virtual_nodes 0 r₀ node ≡ r' = ground arith in
        subst IsValid e (add_points-IsValid r.virtual_nodes 0 r₀ node member v₀)
  ]

  add_nodes-IsValid :
      (nodes : List String) (r r' : Ring) → IsValid r → add_nodes hash r nodes ≡ ok r' → IsValid r'
  unfolding add_nodes
  add_nodes-IsValid [] r r' v h = subst IsValid (ground arith) v
  add_nodes-IsValid (node ∷ rest) r r' v h =
      let (r₁, added, h') = >>=-ok (λ r₁. add_nodes hash r₁ rest) r' (add_node hash r node) h in
      add_nodes-IsValid rest r₁ r' (add_node-IsValid r r₁ node v added) h'

  pub init-IsValid :
      (nodes : List String) (virtual_nodes : ℕ) (r : Ring)
      → init hash nodes virtual_nodes ≡ ok r
      → IsValid r
  unfolding init
  init-IsValid nodes virtual_nodes r h =
      add_nodes-IsValid nodes
        (record { virtual_nodes = virtual_nodes; owners = []; points = []; nodes = [] }) r
        (unfold has_point has_owner owner_of in
          record { sorted = tt; keyed = tt; owned = λ p. refl; live = λ p n e. cc; distinct = tt })
        (ground arith)

has_owner-owner_of :
    (owners : List (ℕ × String)) (p : ℕ)
    → has_owner owners p ≡ true
    → (n : String) × (owner_of owners p ≡ some n)
has_owner-owner_of owners p h = elim (Option-cases (owner_of owners p)) [
  | inl e ↦ absurd (unfold has_owner in ground arith)
  | inr (n, e) ↦ (n, e)
]

-- Which point a key belongs to: the least beyond its hash, or the least of all if none is.
abbrev pub IsNext : ℕ → ℕ → List ℕ → Type 0
IsNext h p points =
    ((h < p) × ((q : ℕ) → has_point points q ≡ true → h < q → p ≤ q))
    ⊎ ((q : ℕ) → has_point points q ≡ true → (q ≤ h) × (p ≤ q))

clockwise-IsNext :
    (x : ℕ) (xs : List ℕ) (h : ℕ)
    → IsSorted (x ∷ xs)
    → (p : ℕ) × (clockwise (x ∷ xs) h ≡ some p)
      × (has_point (x ∷ xs) p ≡ true)
      × IsNext h p (x ∷ xs)
unfolding clockwise
clockwise-IsNext x xs h s = elim (Option-cases (next_point (x ∷ xs) h)) [
  | inr (p, e) ↦ (
    p,
    rw (e, clockwise),
    next_point-has_point (x ∷ xs) h p e,
    inl (next_point-lt (x ∷ xs) h p e, λ q m b. next_point_least (x ∷ xs) h p q s e m b),
  )
  | inl e ↦ (
    x,
    rw (e, clockwise),
    unfold has_point in ground arith,
    inr (λ q m. (
      next_point-none (x ∷ xs) h q e m,
      unfold has_point in ground (arith, IsAbove-lt x q xs s.0),
    )),
  )
]

-- On a valid ring that has a point every key has an owner, a node of the ring: the owner of the
-- least point beyond the hash of the key, or of the least point of all.
pub get_node_total :
    (hash : String → ℕ) (r : Ring) (key : String)
    → IsValid r
    → r.points ≢ []
    → (p : ℕ) × (n : String) × (get_node hash r key ≡ ok n)
      × (owner_of r.owners p ≡ some n)
      × (has_node r.nodes n ≡ true)
      × IsNext (hash key) p r.points
get_node_total hash r key v some_point = go r.points refl
  where
    go :
        (points : List ℕ)
        → r.points ≡ points
        → (p : ℕ) × (n : String) × (get_node hash r key ≡ ok n)
          × (owner_of r.owners p ≡ some n)
          × (has_node r.nodes n ≡ true)
          × IsNext (hash key) p r.points
    go [] e = absurd (some_point e)
    go (x ∷ xs) e =
        let (p, found, held, next) = clockwise-IsNext x xs (hash key) (subst IsSorted e v.sorted) in
        let (n, owner) =
          has_owner-owner_of r.owners p (sym (v.owned p) ∙ ap (λ l. has_point l p) e ∙ held) in
        (
          p,
          n,
          get_node-clockwise hash r key
              ∙ ap (λ l. owner_at r (clockwise l (hash key))) e
              ∙ ap (owner_at r) found
              ∙ owner_at_of r p n owner,
          owner,
          v.live p n owner,
          subst (IsNext (hash key) p) (sym e) next,
        )

-- ===== src/HashRing/Added.antt =====
-- Adding a node moves keys only to the new node.
use redis_like_data_storage.Prelude.{
  ℕ, zero, suc, String, Option, none, some, ◌∷◌, ◌≡◌, ◌⊎◌, inl, inr, arith, ok, ◌∙◌, sym,
  Option-cases,
}
use Prim.Native.String.{◌++◌}
use redis_like_data_storage.HashRing.{
  Ring, owner_of, insort, owner_at, add_point, add_points, add_node, get_node, decimal,
}
use redis_like_data_storage.HashRing.Clockwise.{clockwise, clockwise-insort, get_node-clockwise}

abbrev with_point : Ring → ℕ → String → Ring
with_point r p node = record r { owners = (p, node) ∷ r.owners; points = insort p r.points }

owner_at-with_point :
    (r : Ring) (p : ℕ) (node : String) (c : Option ℕ) (n : String)
    → owner_of r.owners p ≡ none
    → owner_at r c ≡ ok n
    → owner_at (with_point r p node) c ≡ ok n
unfolding owner_at owner_of
owner_at-with_point r p node none n free h = cc
owner_at-with_point r p node (some q) n free h = ground arith

owner_at_self :
    (r : Ring) (p : ℕ) (node : String) → owner_at (with_point r p node) (some p) ≡ ok node
unfolding owner_at owner_of
owner_at_self r p node = ground arith

owner_at-moves :
    (r : Ring) (p : ℕ) (node : String) (h : ℕ) (n : String)
    → owner_of r.owners p ≡ none
    → owner_at r (clockwise r.points h) ≡ ok n
    → (owner_at (with_point r p node) (clockwise (insort p r.points) h) ≡ ok n)
      ⊎ (owner_at (with_point r p node) (clockwise (insort p r.points) h) ≡ ok node)
owner_at-moves r p node h n free e = elim (clockwise-insort p r.points h) [
  | inl new ↦ inr (rw new (owner_at_self r p node))
  | inr old ↦ inl (rw old (owner_at-with_point r p node (clockwise r.points h) n free e))
]

module _ (hash : String → ℕ) where
  -- After the addition the key is where it was, or on the new node.
  abbrev Moved : Ring → String → String → String → Type 0
  Moved r node key n = (get_node hash r key ≡ ok n) ⊎ (get_node hash r key ≡ ok node)

  add_point-moves :
      (r : Ring) (node : String) (i : ℕ) (key n : String)
      → get_node hash r key ≡ ok n
      → Moved (add_point hash r node i) node key n
  unfolding add_point
  add_point-moves r node i key n h =
      let p = hash (node ++ "#" ++ decimal i) in
      elim (Option-cases (owner_of r.owners p)) [
        | inl free ↦
            rw (free, add_point)
              (simp (get_node-clockwise hash) (
                owner_at-moves r p node (hash key) n free
                  (sym (get_node-clockwise hash r key) ∙ h)))
        | inr (m, taken) ↦ rw (taken, add_point) (inl h)
      ]

  add_points-moves :
      (rounds i : ℕ) (r : Ring) (node key n : String)
      → Moved r node key n
      → Moved (add_points hash rounds i r node) node key n
  unfolding add_points
  add_points-moves zero i r node key n h = h
  add_points-moves (suc rounds) i r node key n h =
      add_points-moves rounds (suc i) (add_point hash r node i) node key n (elim h [
        | inl old ↦ add_point-moves r node i key n old
        | inr new ↦ elim (add_point-moves r node i key node new) [ inl e ↦ inr e | inr e ↦ inr e ]
      ])

  -- Adding a node moves a key to the new node or leaves it where it was.
  pub add_node-moves :
      (r r' : Ring) (node key n : String)
      → add_node hash r node ≡ ok r'
      → get_node hash r key ≡ ok n
      → (get_node hash r' key ≡ ok n) ⊎ (get_node hash r' key ≡ ok node)
  unfolding add_node
  add_node-moves r r' node key n added h =
      let r₀ = record r { nodes = node ∷ r.nodes } in
      let h₀ : get_node hash r₀ key ≡ ok n = unfold get_node owner_at in h in
      let moved = add_points-moves r.virtual_nodes 0 r₀ node key n (inl h₀) in ground arith

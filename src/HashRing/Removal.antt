-- ===== src/HashRing/Removal.antt =====
-- A removal from a valid ring never meets a point without an owner, keeps the ring valid, and
-- leaves no key to the removed node.
use redis_like_data_storage.Prelude.{
  ℕ, String, Option, none, some, List, [], ◌∷◌, ◌≡◌, inl, inr, refl, arith, Bool, true, false, ◌&&◌,
  ite, str_discrete, ok, ◌∙◌, sym, Option-cases,
}
use redis_like_data_storage.HashRing.{
  Ring, owner_of, kept_points, kept_owners, without_node, remove_node, has_node,
}
use redis_like_data_storage.HashRing.Points.{has_point, has_owner, IsSorted, IsKeyed, IsAbove}
use redis_like_data_storage.HashRing.Invariant.{IsValid, IsDistinct}

module _ (node : String) where
  -- Whether a point with this owner stays, and the owner if so.
  abbrev stays : Option String → Bool
  stays none = false
  stays (some n) = ite (str_discrete n node) false true

  abbrev keep : Option String → Option String
  keep none = none
  keep (some n) = ite (str_discrete n node) none (some n)

  owner_of-kept_owners :
      (owners : List (ℕ × String)) (q : ℕ)
      → IsKeyed owners
      → owner_of (kept_owners node owners) q ≡ keep (owner_of owners q)
  unfolding owner_of kept_owners
  owner_of-kept_owners [] q k = refl
  owner_of-kept_owners ((p, n) ∷ owners) q k = ground (arith, owner_of-kept_owners owners q k.1)

  kept_owners-IsKeyed :
      (owners : List (ℕ × String)) → IsKeyed owners → IsKeyed (kept_owners node owners)
  unfolding owner_of kept_owners
  kept_owners-IsKeyed [] k = tt
  kept_owners-IsKeyed ((p, n) ∷ owners) k =
      ground (arith, owner_of-kept_owners owners p k.1, kept_owners-IsKeyed owners k.1)

  has_node-without :
      (nodes : List String) (n : String)
      → IsDistinct nodes
      → has_node (without_node node nodes) n ≡ ite (str_discrete n node) false (has_node nodes n)
  unfolding has_node without_node
  has_node-without [] n d = ground arith
  has_node-without (x ∷ xs) n d = ground (arith, has_node-without xs n d.1)

  without_node-IsDistinct :
      (nodes : List String) → IsDistinct nodes → IsDistinct (without_node node nodes)
  unfolding has_node without_node
  without_node-IsDistinct [] d = tt
  without_node-IsDistinct (x ∷ xs) d =
      ground (arith, has_node-without xs x d.1, without_node-IsDistinct xs d.1)

  module _ (owners : List (ℕ × String)) where
    -- What the points of the removal are.
    record Survivors (xs ys : List ℕ) : Type 0 where
      result : kept_points owners node xs ≡ ok ys
      sorted : IsSorted ys
      above : (x : ℕ) → IsAbove x xs → IsAbove x ys
      members : (q : ℕ) → has_point ys q ≡ has_point xs q && stays (owner_of owners q)

    kept_points_total :
        (xs : List ℕ)
        → ((p : ℕ) → has_point xs p ≡ true → has_owner owners p ≡ true)
        → IsSorted xs
        → (ys : List ℕ) × Survivors xs ys
    unfolding kept_points has_point
    kept_points_total [] all s =
        ([], record { result = refl; sorted = tt; above = λ x a. tt; members = λ q. refl })
    kept_points_total (x ∷ xs) all s = elim (Option-cases (owner_of owners x)) [
      | inl e ↦ absurd (unfold has_owner in ground (arith, all x))
      | inr (n, e) ↦
          let (rest, k) = kept_points_total xs (λ p h. all p (ground arith)) s.1 in
          (
            ite (str_discrete n node) rest (x ∷ rest),
            record {
              result = rw (e, kept_points, k.result);
              sorted = ground (arith, k.sorted, k.above x s.0);
              above = λ y a. ground (arith, k.above y a.1);
              members = λ q. ground (arith, k.members q);
            },
          )
    ]

has_owner-keep :
    (node : String) (owners : List (ℕ × String)) (q : ℕ)
    → IsKeyed owners
    → has_owner (kept_owners node owners) q ≡ has_owner owners q && stays node (owner_of owners q)
unfolding has_owner
has_owner-keep node owners q k = ground (arith, owner_of-kept_owners node owners q k)

-- Removing a node of a valid ring succeeds, and leaves a valid ring without it.
pub remove_node_total :
    (r : Ring) (node : String)
    → IsValid r
    → has_node r.nodes node ≡ true
    → (r' : Ring) × (remove_node r node ≡ ok r') × IsValid r' × (has_node r'.nodes node ≡ false)
unfolding remove_node
remove_node_total r node v member =
    let (points, k) =
      kept_points_total node r.owners r.points (λ p h. sym (v.owned p) ∙ h) v.sorted in
    let r' = record r {
      nodes = without_node node r.nodes;
      points = points;
      owners = kept_owners node r.owners;
    } in
    (
      r',
      rw (member, k.result),
      record {
        sorted = k.sorted;
        keyed = kept_owners-IsKeyed node r.owners v.keyed;
        owned = λ q. ground (arith, k.members q, has_owner-keep node r.owners q v.keyed, v.owned q);
        live = λ q n e. ground (
          arith,
          owner_of-kept_owners node r.owners q v.keyed,
          has_node-without node r.nodes n v.distinct,
          v.live q n,
        );
        distinct = without_node-IsDistinct node r.nodes v.distinct;
      },
      ground (arith, has_node-without node r.nodes node v.distinct),
    )

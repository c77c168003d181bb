-- ===== src/Examples/Rings.antt =====
-- The ring of cluster/hash_ring.py with two nodes and a toy hash.
use Prim.Native.Char.{code}
use redis_like_data_storage.Prelude.{
  ℕ, ◌+◌, ◌*◌, String, [], ◌∷◌, ◌≡◌, ◌≢◌, ◌⊎◌, refl, str_discrete, true, List, ok, some, raise,
  value_error, key_error, arith,
}
use text.Mathlib.TextEquality.{eq_iff}
use redis_like_data_storage.HashRing
use redis_like_data_storage.HashRing.Invariant.{IsValid, IsNext, init-IsValid, get_node_total}
use redis_like_data_storage.HashRing.Added.{add_node-moves}
use redis_like_data_storage.HashRing.Removed.{remove_node-moves}
use redis_like_data_storage.HashRing.{
  Ring, init, add_node, remove_node, get_node, owner_of, has_node,
}

abbrev weight : String → ℕ
weight String.[] = 7
weight (String.◌∷◌ c s) = code c + 31 * weight s

abbrev codes : String → List ℕ
codes String.[] = []
codes (String.◌∷◌ c s) = code c ∷ codes s

ring_runs : Unit {0}
unfolding init HashRing.add_nodes add_node HashRing.add_points HashRing.add_point HashRing.insort
    HashRing.owner_of HashRing.has_node HashRing.decimal str_discrete remove_node
    HashRing.kept_points HashRing.kept_owners HashRing.without_node get_node HashRing.point_index
    HashRing.bisect HashRing.owner_at
ring_runs = tt

abbrev two : Ring
two = record {
  virtual_nodes = 2;
  owners = (256809, "b") ∷ (255848, "b") ∷ (256808, "a") ∷ (255847, "a") ∷ [];
  points = 255847 ∷ 255848 ∷ 256808 ∷ 256809 ∷ [];
  nodes = "b" ∷ "a" ∷ [];
}

two_runs : init weight ("a" ∷ "b" ∷ []) 2 ≡ ok two
unfolding ring_runs
two_runs = refl

abbrev three : Ring
three = record {
  virtual_nodes = 2;
  owners = (256810, "c") ∷ (255849, "c") ∷ two.owners;
  points = 255847 ∷ 255848 ∷ 255849 ∷ 256808 ∷ 256809 ∷ 256810 ∷ [];
  nodes = "c" ∷ "b" ∷ "a" ∷ [];
}

three_runs : add_node weight two "c" ≡ ok three
unfolding ring_runs
three_runs = refl

abbrev one : Ring
one = record {
  virtual_nodes = 2;
  owners = (256809, "b") ∷ (255848, "b") ∷ [];
  points = 255848 ∷ 256809 ∷ [];
  nodes = "b" ∷ [];
}

one_runs : remove_node two "a" ≡ ok one
unfolding ring_runs
one_runs = refl

-- The hash of "z" is below every point, that of "zzzz" beyond all: both go to the first.
wraps : (get_node weight two "z" ≡ ok "a") × (get_node weight two "zzzz" ≡ ok "a")
unfolding ring_runs
wraps = (refl, refl)

-- "a#0" hashes to the first point of "a", and belongs to the next one, of "b".
key_of_b : get_node weight two "a#0" ≡ ok "b"
unfolding ring_runs
key_of_b = refl

add_twice : add_node weight two "a" ≡ raise value_error
unfolding ring_runs
add_twice = refl

remove_absent : remove_node two "c" ≡ raise key_error
unfolding ring_runs
remove_absent = refl

two-IsValid : IsValid two
two-IsValid = init-IsValid weight ("a" ∷ "b" ∷ []) 2 two two_runs

add_node-moves_example :
    (get_node weight three "a#0" ≡ ok "b") ⊎ (get_node weight three "a#0" ≡ ok "c")
add_node-moves_example = add_node-moves weight two three "c" "a#0" "b" three_runs key_of_b

a_not_b : ◌≢◌ {A = String} "b" "a"
a_not_b = ground (arith, eq_iff "b" "a")

remove_node-moves_example : get_node weight one "a#0" ≡ ok "b"
remove_node-moves_example = remove_node-moves weight two one "a" "a#0" "b" one_runs key_of_b a_not_b

two_has_a : has_node two.nodes "a" ≡ true
unfolding ring_runs
two_has_a = refl

get_node_total_example :
    (p : ℕ) × (n : String) × (get_node weight two "a#0" ≡ ok n)
    × (owner_of two.owners p ≡ some n)
    × (has_node two.nodes n ≡ true)
    × IsNext (weight "a#0") p two.points
get_node_total_example = get_node_total weight two "a#0" two-IsValid (λ e. cc)

-- ===== src/HashRing.antt =====
-- cluster/hash_ring.py: consistent hashing with virtual nodes. MD5 is Python's `hashlib`: the ring
-- takes the hash of a text as the argument `hash`.
pub mod Tag
pub mod Points
pub mod Invariant
pub mod Clockwise
pub mod Added
pub mod Removed
pub mod Removal
use redis_like_data_storage.Prelude.{
  ℕ, zero, suc, ◌+◌, ◌/◌, ◌%◌, String, Option, none, some, List, [], ◌∷◌, Bool, true, false, not,
  ltb, leb, ◌==◌, if◌then◌else◌, ite, str_discrete, length, get_elem?, get_or, Result, ok, raise,
  value_error, key_error, lookup_error, ◌>>=◌,
}
use Prim.Native.String.{◌++◌}

-- `str(n)`, with one round for each digit; `n + 1` rounds are always enough.
abbrev digit : ℕ → String
digit n = get_or ("0" ∷ "1" ∷ "2" ∷ "3" ∷ "4" ∷ "5" ∷ "6" ∷ "7" ∷ "8" ∷ "9" ∷ []) n ""

decimal_from : ℕ → ℕ → String
decimal_from zero n = ""
decimal_from (suc f) n =
    let front = decimal_from f (n / 10) in if ltb n 10 then digit n else front ++ digit (n % 10)

unfoldable pub decimal : ℕ → String
unfolding decimal_from
decimal n = decimal_from (suc n) n

pub record Ring : Type 0 where
  pub virtual_nodes : ℕ
  -- Point to owner, a `dict` keyed by numbers.
  pub owners : List (ℕ × String)
  pub points : List ℕ
  pub nodes : List String

unfoldable pub owner_of : List (ℕ × String) → ℕ → Option String
owner_of [] p = none
owner_of ((q, n) ∷ l) p = if q == p then some n else owner_of l p

-- `bisect.insort(points, p)` on a sorted list.
unfoldable pub insort : ℕ → List ℕ → List ℕ
insort p [] = p ∷ []
insort p (x ∷ xs) = if ltb p x then p ∷ x ∷ xs else x ∷ insort p xs

-- `bisect.bisect(points, h)` on a sorted list: how many points stand at `h` or before it.
unfoldable pub bisect : List ℕ → ℕ → ℕ
bisect [] h = 0
bisect (x ∷ xs) h = let rest = bisect xs h in if ltb h x then 0 else suc rest

unfoldable pub has_node : List String → String → Bool
has_node [] node = false
has_node (x ∷ xs) node = ite (str_discrete x node) true (has_node xs node)

unfoldable pub point_index : List ℕ → ℕ → ℕ
point_index points h = let idx = bisect points h in if idx == length points then 0 else idx

unfoldable pub owner_at : Ring → Option ℕ → Result String
owner_at r none = raise lookup_error
owner_at r (some p) = elim (owner_of r.owners p) [ none ↦ raise key_error | some n ↦ ok n ]

module _ (hash : String → ℕ) where
  -- One round of the loop of `add_node`.
  unfoldable pub add_point : Ring → String → ℕ → Ring
  add_point r node i =
      let point = hash (node ++ "#" ++ decimal i) in
      elim (owner_of r.owners point) [
        | some _ ↦ r
        | none ↦ record r { owners = (point, node) ∷ r.owners; points = insort point r.points }
      ]

  -- `for i in range(i, i + rounds)`
  unfoldable pub add_points : ℕ → ℕ → Ring → String → Ring
  add_points zero i r node = r
  add_points (suc rounds) i r node = add_points rounds (suc i) (add_point r node i) node

  unfoldable pub add_node : Ring → String → Result Ring
  add_node r node =
      if has_node r.nodes node
      then raise value_error
      else ok (add_points r.virtual_nodes 0 (record r { nodes = node ∷ r.nodes }) node)

  -- `for node in nodes: self.add_node(node)`
  unfoldable pub add_nodes : Ring → List String → Result Ring
  add_nodes r [] = ok r
  add_nodes r (node ∷ rest) = do r' ← add_node r node; add_nodes r' rest

  unfoldable pub init : List String → ℕ → Result Ring
  init nodes virtual_nodes =
      if leb virtual_nodes 0
      then raise value_error
      else add_nodes
          (record { virtual_nodes = virtual_nodes; owners = []; points = []; nodes = [] }) nodes

  unfoldable pub get_node : Ring → String → Result String
  get_node r key = owner_at r (get_elem? r.points (point_index r.points (hash key)))

-- The points that the removal of `node` keeps; a point with no owner is a `KeyError`.
unfoldable pub kept_points : List (ℕ × String) → String → List ℕ → Result (List ℕ)
kept_points owners node [] = ok []
kept_points owners node (p ∷ points) = elim (owner_of owners p) [
  | none ↦ raise key_error
  | some n ↦ do
    rest ← kept_points owners node points
    ok (ite (str_discrete n node) rest (p ∷ rest))
]

unfoldable pub kept_owners : String → List (ℕ × String) → List (ℕ × String)
kept_owners node [] = []
kept_owners node ((p, n) ∷ owners) =
    ite (str_discrete n node) (kept_owners node owners) ((p, n) ∷ kept_owners node owners)

unfoldable pub without_node : String → List String → List String
without_node node [] = []
without_node node (x ∷ xs) = ite (str_discrete x node) xs (x ∷ without_node node xs)

unfoldable pub remove_node : Ring → String → Result Ring
remove_node r node =
    if has_node r.nodes node
    then (do
      points ← kept_points r.owners node r.points
      ok (record r {
        nodes = without_node node r.nodes;
        points = points;
        owners = kept_owners node r.owners;
      }))
    else raise key_error

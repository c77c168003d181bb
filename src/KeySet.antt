-- ===== src/KeySet.antt =====
-- engine/keyset.py, `SampleableKeySet`: keys in a dense array beside a map from key to index. The
-- removal swaps the last key into the hole.
pub mod Invariant
pub mod Sets
use redis_like_data_storage.Prelude.{
  ℕ, String, Option, none, some, List, [], ◌∷◌, ◌++◌, Bool, true, false, ltb, if◌then◌else◌, set,
  length, min, Result, ok, raise, index_error, ◌>>=◌,
}
use redis_like_data_storage.Dict
use redis_like_data_storage.Dict.{Dict}

-- `l.pop()` on a list: the last element and the rest.
unfoldable pub pop_last {ℓ} : {A : Type ℓ} → List A → Result (A × List A)
pop_last [] = raise index_error
pop_last (x ∷ []) = ok (x, [])
pop_last (x ∷ y ∷ xs) = do (z, rest) ← pop_last (y ∷ xs); ok (z, x ∷ rest)

pub record KeySet : Type 0 where
  pub items : List String
  pub index : Dict ℕ

abbrev pub empty : KeySet
empty = record { items = []; index = [] }

unfoldable pub add : KeySet → String → KeySet
add s key = elim (Dict.get s.index key) [
  | none ↦ record { items = s.items ++ key ∷ []; index = Dict.put s.index key (length s.items) }
  | some _ ↦ s
]

-- The last key takes the hole at `idx`, unless it was the one removed.
unfoldable pub fill_hole : ℕ → String → List String → Dict ℕ → KeySet
fill_hole idx last items index =
    if ltb idx (length items)
    then record { items = set items idx last; index = Dict.put index last idx }
    else record { items = items; index = index }

unfoldable pub discard : KeySet → String → Result KeySet
unfolding fill_hole
discard s key = elim (Dict.get s.index key) [
  | none ↦ ok s
  | some idx ↦ do
    (last, items) ← pop_last s.items
    ok (fill_hole idx last items (Dict.remove s.index key))
]

-- `rng.sample(population, k)` of Python's `random` is the argument `rng`.
unfoldable pub sample : KeySet → ℕ → (List String → ℕ → List String) → List String
sample s k rng = rng s.items (min k (length s.items))

-- `key in s`
unfoldable pub contains : KeySet → String → Bool
contains s key = elim (Dict.get s.index key) [ none ↦ false | some _ ↦ true ]

-- `len(s)`
abbrev pub size : KeySet → ℕ
size s = length s.items

-- ===== src/Examples/Collections.antt =====
-- The collections on small inputs, with texts of 50 bytes.
use redis_like_data_storage.Prelude.{String, some, [], ◌∷◌, not, ◌≡◌, refl, ite, str_discrete}
use redis_like_data_storage.Prelude.Int.{ℤ, pos, negsuc, ◌+ℤ◌, ◌-ℤ◌}
use redis_like_data_storage.Dict
use redis_like_data_storage.Dict.{has}
use redis_like_data_storage.KeySet
use redis_like_data_storage.KeySet.Invariant
use redis_like_data_storage.Datatypes.ListValue
use redis_like_data_storage.Datatypes.ListValue.{ListValue, range, clamp, pop}
use redis_like_data_storage.Datatypes.ListValue.Range.{position, between, range-between}
use redis_like_data_storage.Datatypes.ListValue.Sizes
use redis_like_data_storage.Datatypes.ListValue.Sizes.{IsPop, IsRemoved, pop_total, lrem-IsRemoved}
use redis_like_data_storage.Datatypes.HashValue
use redis_like_data_storage.Datatypes.HashValue.{HashValue, hset_total}
use redis_like_data_storage.Datatypes.SetValue
use redis_like_data_storage.Datatypes.SetValue.{SetValue, srem_total}

abbrev fifty : String → ℤ
fifty s = pos 50

abbrev queue : ListValue
queue = record { items = "a" ∷ "b" ∷ "a" ∷ "c" ∷ []; nbytes = pos 432 }

collection_runs : Unit {0}
unfolding range clamp ListValue.range_in ListValue.normalize ListValue.get pop ListValue.pop_left
    ListValue.remove ListValue.strip ListValue.times ListValue.init ListValue.push_right
    HashValue.set HashValue.get SetValue.remove SetValue.add KeySet.add KeySet.contains
    KeySet.discard KeySet.pop_last KeySet.fill_hole Dict.get Dict.put Dict.remove ◌+ℤ◌ ◌-ℤ◌
    str_discrete has
collection_runs = tt

queue-IsSized : Sizes.IsSized fifty queue
unfolding collection_runs
queue-IsSized = refl

range_runs :
    (range queue (negsuc 2) (negsuc 0) ≡ "b" ∷ "a" ∷ "c" ∷ [])
    × (range queue (pos 0) (pos 1) ≡ "a" ∷ "b" ∷ [])
    × (range queue (pos 3) (pos 100) ≡ "c" ∷ [])
    × (range queue (pos 2) (pos 1) ≡ [])
unfolding collection_runs
range_runs = (refl, refl, refl, refl)

-- From the tail, one of the two.
remove_runs :
    ListValue.remove fifty queue (negsuc 0) "a"
    ≡ (1, record { items = "a" ∷ "b" ∷ "c" ∷ []; nbytes = pos 374 })
unfolding collection_runs
remove_runs = refl

range-between_example :
    range queue (negsuc 2) (negsuc 0)
    ≡ between (position 4 (negsuc 2)) (position 4 (negsuc 0)) 0 queue.items
range-between_example = range-between queue (negsuc 2) (negsuc 0)

empty_hash-IsSized : HashValue.IsSized fifty HashValue.init
unfolding collection_runs
empty_hash-IsSized = record { is_dict = tt; bytes = refl }

hset_total_example :
    HashValue.IsSized fifty (HashValue.set fifty HashValue.init "f" "x").1
    × ((HashValue.set fifty HashValue.init "f" "x").0 ≡ not (has HashValue.init.fields "f"))
    × ((k : String)
        → HashValue.get (HashValue.set fifty HashValue.init "f" "x").1 k
          ≡ ite (str_discrete "f" k) (some "x") (HashValue.get HashValue.init k))
hset_total_example = hset_total fifty HashValue.init "f" "x" empty_hash-IsSized

abbrev single : SetValue
single = (SetValue.add fifty SetValue.init "m").1

empty_set-IsSized : SetValue.IsSized fifty SetValue.init
unfolding collection_runs
empty_set-IsSized = record { valid = Invariant.empty-IsValid; bytes = refl }

single-IsSized : SetValue.IsSized fifty single
single-IsSized = (SetValue.sadd_total fifty SetValue.init "m" empty_set-IsSized).0

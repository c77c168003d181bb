-- ===== src/Examples/KeySets.antt =====
-- The key set of engine/keyset.py on three keys.
use redis_like_data_storage.Prelude.{[], ◌∷◌, ◌≡◌, refl, str_discrete, ok}
use redis_like_data_storage.Dict
use redis_like_data_storage.KeySet
use redis_like_data_storage.KeySet.{KeySet, add, discard, contains, size, empty}
use redis_like_data_storage.KeySet.Invariant.{IsValid, empty-IsValid, add-IsValid}

abbrev three : KeySet
three = add (add (add empty "a") "b") "c"

three-IsValid : IsValid three
three-IsValid = add-IsValid "c" (add-IsValid "b" (add-IsValid "a" empty-IsValid))

-- The last key takes the place of the one removed.
discard_swaps :
    discard three "a" ≡ ok (record { items = "c" ∷ "b" ∷ []; index = ("b", 1) ∷ ("c", 0) ∷ [] })
unfolding discard add KeySet.pop_last Dict.get Dict.put Dict.remove str_discrete
discard_swaps = refl

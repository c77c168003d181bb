-- ===== src/Eviction/Lru.antt =====
-- engine/eviction/lru.py, `LRUPolicy`: an `OrderedDict` as the list of its keys, oldest first.
pub mod Recency
use redis_like_data_storage.Prelude.{
  ℕ, String, Option, none, some, List, [], ◌∷◌, ◌++◌, Bool, true, false, ◌||◌, if◌then◌else◌, ite,
  str_discrete, is_in, first_free, length, ◌≡◌, arith, is_in-append, IsDistinct, length-append, ◌+◌,
  refl,
}

pub record Lru : Type 0 where
  pub order : List String

abbrev pub empty : Lru
empty = record { order = [] }

-- The order without a key.
unfoldable pub without : String → List String → List String
without key [] = []
without key (x ∷ xs) = ite (str_discrete x key) xs (x ∷ without key xs)

-- `move_to_end`
abbrev pub move_to_end : List String → String → List String
move_to_end order key = without key order ++ key ∷ []

unfoldable pub on_insert : Lru → String → Lru
on_insert p key = record { order = move_to_end p.order key }

unfoldable pub on_access : Lru → String → Lru
on_access p key = if is_in p.order key then record { order = move_to_end p.order key } else p

unfoldable pub on_remove : Lru → String → Lru
on_remove p key = record { order = without key p.order }

unfoldable pub victim : Lru → List String → Option String
victim p protect = first_free protect p.order

pub is_in-without :
    (key : String) (xs : List String) (s : String)
    → IsDistinct xs
    → is_in (without key xs) s ≡ ite (str_discrete key s) false (is_in xs s)
unfolding without is_in
is_in-without key [] s d = ground arith
is_in-without key (x ∷ xs) s d = ground (arith, is_in-without key xs s d.1)

pub without-IsDistinct :
    (key : String) (xs : List String) → IsDistinct xs → IsDistinct (without key xs)
unfolding without is_in
without-IsDistinct key [] d = tt
without-IsDistinct key (x ∷ xs) d =
    ground (arith, is_in-without key xs x d.1, without-IsDistinct key xs d.1)

snoc-IsDistinct :
    (xs : List String) (s : String) → is_in xs s ≡ false → IsDistinct xs → IsDistinct (xs ++ s ∷ [])
unfolding is_in
snoc-IsDistinct [] s h d = ground arith
snoc-IsDistinct (x ∷ xs) s h d = ground (arith, is_in-append xs (s ∷ []) x, snoc-IsDistinct xs s)

pub move_to_end-IsDistinct :
    (xs : List String) (key : String) → IsDistinct xs → IsDistinct (move_to_end xs key)
move_to_end-IsDistinct xs key d =
    snoc-IsDistinct (without key xs) key (ground (arith, is_in-without key xs key d))
      (without-IsDistinct key xs d)

pub is_in-move_to_end :
    (xs : List String) (key s : String)
    → IsDistinct xs
    → is_in (move_to_end xs key) s ≡ ite (str_discrete key s) true (is_in xs s)
unfolding is_in
is_in-move_to_end xs key s d =
    ground (arith, is_in-append (without key xs) (key ∷ []) s, is_in-without key xs s d)

-- ===== src/Datatypes/ListValue.antt =====
-- engine/datatypes/containers.py, `ListValue`: a deque with its byte estimate. The size of a text,
-- `sys.getsizeof`, is a parameter.
pub mod Range
pub mod Sizes
use redis_like_data_storage.Prelude.{
  ℕ, zero, suc, ◌+◌, ◌-◌, String, Option, none, some, List, [], ◌∷◌, ◌++◌, Bool, true, false, ◌&&◌,
  ◌||◌, ltb, leb, ◌==◌, if◌then◌else◌, length, min, take, drop, reverse, get_elem?, set,
  str_discrete, ite,
}
use redis_like_data_storage.Prelude.Int.{ℤ, pos, negsuc, ◌+ℤ◌, ◌-ℤ◌, ltb_ℤ}

-- `LIST_ITEM_OVERHEAD` and `EMPTY_CONTAINER` of sizing.py
abbrev pub list_item_overhead : ℕ
list_item_overhead = 8

abbrev pub empty_container : ℕ
empty_container = 200

pub record ListValue : Type 0 where
  pub items : List String
  pub nbytes : ℤ

-- `normalize`: a negative index counts from the end.
unfoldable pub normalize : ListValue → ℤ → Option ℕ
normalize v (pos i) = if ltb i (length v.items) then some i else none
normalize v (negsuc i) = if ltb i (length v.items) then some (length v.items - suc i) else none

unfoldable pub get : ListValue → ℤ → Option String
get v index = elim (normalize v index) [ none ↦ none | some i ↦ get_elem? v.items i ]

-- `start` and `stop` of `_clamp`, once those that count from the end are added to the length.
abbrev pub from_start : ℤ → ℕ → ℕ
from_start (pos i) n = i
from_start (negsuc i) n = n - suc i

abbrev pub from_end : ℤ → ℕ → ℤ
from_end (pos i) n = pos i
from_end (negsuc i) n = negsuc i +ℤ pos n

abbrev pub min_ℤ : ℤ → ℤ → ℤ
min_ℤ a b = if ltb_ℤ b a then b else a

-- `_clamp`: once it is not below `start`, the bound is a natural number.
unfoldable pub clamp : ℤ → ℤ → ℕ → Option (ℕ × ℕ)
clamp start stop n =
    let lo = from_start start n in
    elim (min_ℤ (from_end stop n) (pos n -ℤ pos 1)) [
      | negsuc _ ↦ none
      | pos hi ↦ if ltb hi lo || leb n lo then none else some (lo, hi)
    ]

-- `islice(xs, lo, hi)`
abbrev pub islice : {A : Type 0} → List A → ℕ → ℕ → List A
islice xs lo hi = take (hi - lo) (drop lo xs)

-- `range`, from the end that is closer.
unfoldable pub range_in : List String → ℕ → ℕ → List String
range_in items lo hi =
    let n = length items in
    if ltb (n - 1 - hi) lo
    then reverse (islice (reverse items) (n - 1 - hi) (n - lo))
    else islice items lo (hi + 1)

unfoldable pub range : ListValue → ℤ → ℤ → List String
range v start stop = elim (clamp start stop (length v.items)) [
  | none ↦ []
  | some (lo, hi) ↦ range_in v.items lo hi
]

-- The loop of `remove`: `limit` is how many to remove, if not all. It gives the items that are kept,
-- and how many were removed.
unfoldable pub strip : Option ℕ → String → List String → ℕ → List String × ℕ
strip limit value [] removed = ([], removed)
strip limit value (x ∷ xs) removed =
    elim (ite (str_discrete x value) (elim limit [ none ↦ true | some n ↦ ltb removed n ]) false) [
      | true ↦ strip limit value xs (removed + 1)
      | false ↦ let (kept, count) = strip limit value xs removed in (x ∷ kept, count)
    ]

-- What `count` says of how many and from where.
abbrev pub limit_of : ℤ → Option ℕ
limit_of (pos zero) = none
limit_of (pos (suc n)) = some (suc n)
limit_of (negsuc n) = some (suc n)

abbrev pub is_negative : ℤ → Bool
is_negative (pos n) = false
is_negative (negsuc n) = true

-- A number of times an integer.
unfoldable pub times : ℕ → ℤ → ℤ
times zero z = pos 0
times (suc n) z = z +ℤ times n z

module _ (str_size : String → ℤ) where
  abbrev pub item_size : String → ℤ
  item_size value = str_size value +ℤ pos list_item_overhead

  unfoldable pub push_left : ListValue → List String → ListValue
  push_left v [] = v
  push_left v (x ∷ xs) =
      push_left (record { items = x ∷ v.items; nbytes = v.nbytes +ℤ item_size x }) xs

  unfoldable pub push_right : ListValue → List String → ListValue
  push_right v [] = v
  push_right v (x ∷ xs) =
      push_right (record { items = v.items ++ x ∷ []; nbytes = v.nbytes +ℤ item_size x }) xs

  unfoldable pub init : List String → ListValue
  init xs = push_right (record { items = []; nbytes = pos empty_container }) xs

  -- The turns of `pop` at the left end: the values popped, in order, before `popped`.
  unfoldable pub pop_left : ℕ → List String → ℤ → List String × ListValue
  pop_left zero items nbytes = ([], record { items = items; nbytes = nbytes })
  pop_left (suc n) [] nbytes = ([], record { items = []; nbytes = nbytes })
  pop_left (suc n) (x ∷ xs) nbytes =
      let (popped, v) = pop_left n xs (nbytes -ℤ item_size x) in (x ∷ popped, v)

  -- `pop`: at the right end it is the left end of the list reversed.
  unfoldable pub pop : ListValue → ℕ → Bool → List String × ListValue
  pop v count left =
      let n = min count (length v.items) in
      if left
      then pop_left n v.items v.nbytes
      else (let (popped, w) = pop_left n (reverse v.items) v.nbytes in
          (popped, record { items = reverse w.items; nbytes = w.nbytes }))

  unfoldable pub set_at : ListValue → ℕ → String → String → ListValue
  set_at v i old value = record {
    items = set v.items i value;
    nbytes = v.nbytes +ℤ (str_size value -ℤ str_size old);
  }

  unfoldable pub set_index : ListValue → ℤ → String → Bool × ListValue
  set_index v index value = elim (normalize v index) [
    | none ↦ (false, v)
    | some i ↦ elim (get_elem? v.items i) [
      | none ↦ (false, v)
      | some old ↦ (true, set_at v i old value)
    ]
  ]

  unfoldable pub trim : ListValue → ℤ → ℤ → ListValue
  trim v start stop = init (range v start stop)

  unfoldable pub remove : ListValue → ℤ → String → ℕ × ListValue
  remove v count value =
      let items = if is_negative count then reverse v.items else v.items in
      let (kept, removed) = strip (limit_of count) value items 0 in
      if removed == 0 then (0, v) else (
        removed,
        record {
          items = if is_negative count then reverse kept else kept;
          nbytes = v.nbytes -ℤ times removed (item_size value);
        },
      )

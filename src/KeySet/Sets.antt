-- ===== src/KeySet/Sets.antt =====
-- A key set is a set: what each operation does to membership, to the size and to the array's keys.
use redis_like_data_storage.Prelude.{
  IsDistinct, refl, ℕ, ◌+◌, String, none, some, List, [], ◌∷◌, ◌≡◌, ◌↔◌, arith, length,
  length-append, length-set, get_elem?, is_in, Bool-cases, ap, sym, ◌∙◌, zero, suc, ite, true,
  false, ok, str_discrete, get_elem?-snoc, if◌then◌else◌, Option-cases, inl, inr,
}
use redis_like_data_storage.Dict
use redis_like_data_storage.Dict.{Dict, IsDict}
use redis_like_data_storage.Dict.Laws.{get-put, get-remove}
use redis_like_data_storage.KeySet.{KeySet, add, discard, fill_hole, contains, size}
use redis_like_data_storage.KeySet.Invariant.{
  IsValid, add-IsValid, discard_total, Removal, discard-cases, split-IsValid,
}

contains_absent : (s : KeySet) (key : String) → Dict.get s.index key ≡ none → contains s key ≡ false
unfolding contains
contains_absent s key h = rw (h, contains)

pub contains-add :
    (s : KeySet) (key k : String)
    → contains (add s key) k ≡ ite (str_discrete key k) true (contains s k)
unfolding contains add
contains-add s key k = ground (arith, get-put s.index key k (length s.items))

contains-fill_hole :
    {s : KeySet} {key : String} (r : Removal s key) (k : String)
    → IsValid s
    → contains (fill_hole r.idx r.last r.items (Dict.remove s.index key)) k
      ≡ ite (str_discrete key k) false (contains s k)
unfolding contains fill_hole
contains-fill_hole {s} {key} r k v =
    let v' = split-IsValid r v in
    ground (
      arith,
      get-put (Dict.remove s.index key) r.last k r.idx,
      get-remove s.index key k v.is_dict,
      get_elem?-snoc r.items r.last (length r.items),
      get_elem?-snoc r.items r.last r.idx,
      v'.agree r.last (length r.items),
      v'.agree key r.idx,
    )

-- After `discard` of a key exactly that key is gone.
pub contains-discard :
    {s s' : KeySet} (key k : String)
    → IsValid s
    → discard s key ≡ ok s'
    → contains s' k ≡ ite (str_discrete key k) false (contains s k)
contains-discard {s} {s'} key k v h = elim (discard-cases key v) [
  | inl (absent, same) ↦ ground (arith, contains_absent s key absent)
  | inr r ↦ ground (arith, contains-fill_hole r k v, r.result)
]

size-fill_hole :
    (idx : ℕ) (last : String) (items : List String) (index : Dict ℕ)
    → size (fill_hole idx last items index) ≡ length items
unfolding fill_hole
size-fill_hole idx last items index = ground (arith, length-set items idx last)

-- The size counts the keys: `add` of a new key adds one, `discard` of a present key takes one.
pub size-add :
    (s : KeySet) (key : String) → size (add s key) ≡ size s + (if contains s key then 0 else 1)
unfolding contains add
size-add s key = ground (arith, length-append s.items (key ∷ []))

pub size-discard :
    {s s' : KeySet} (key : String)
    → IsValid s
    → discard s key ≡ ok s'
    → size s' + (if contains s key then 1 else 0) ≡ size s
unfolding contains
size-discard {s} {s'} key v h = elim (discard-cases key v) [
  | inl (absent, same) ↦ ground arith
  | inr r ↦ ground (
    arith,
    r.result,
    r.split,
    r.found,
    size-fill_hole r.idx r.last r.items (Dict.remove s.index key),
    length-append r.items (r.last ∷ []),
  )
]

-- The array holds a key exactly when the set contains it, and at one place only.
pub items_iff_contains :
    {s : KeySet} (k : String)
    → IsValid s
    → ((i : ℕ) × (get_elem? s.items i ≡ some k)) ↔ (contains s k ≡ true)
unfolding contains
items_iff_contains {s} k v = ((λ (i, h). ground (arith, v.agree k i)), located)
  where
    located : contains s k ≡ true → (i : ℕ) × (get_elem? s.items i ≡ some k)
    located h = elim (Option-cases (Dict.get s.index k)) [
      | inl absent ↦ absurd (cc (h, contains_absent s k absent))
      | inr (i, found) ↦ (i, (v.agree k i).0 found)
    ]

pub items_distinct :
    {s : KeySet} (k : String) (i j : ℕ)
    → IsValid s
    → get_elem? s.items i ≡ some k
    → get_elem? s.items j ≡ some k
    → i ≡ j
items_distinct k i j v p q = ground (arith, v.agree k i, v.agree k j)

-- `discard` never raises on a key set whose array and map agree. The result agrees again, lacks
-- exactly the key, and is one key smaller if the key was there.
pub discard_removes :
    {s : KeySet} (key : String)
    → IsValid s
    → (s' : KeySet) × (discard s key ≡ ok s')
      × IsValid s'
      × ((k : String) → contains s' k ≡ ite (str_discrete key k) false (contains s k))
      × (size s' + (if contains s key then 1 else 0) ≡ size s)
discard_removes key v =
    let (s', result, v') = discard_total key v in
    (s', result, v', λ k. contains-discard key k v result, size-discard key v result)

-- `add` keeps array and map in agreement, brings in exactly the key, and is one key larger if the
-- key is new.
pub add_inserts :
    {s : KeySet} (key : String)
    → IsValid s
    → IsValid (add s key)
      × ((k : String) → contains (add s key) k ≡ ite (str_discrete key k) true (contains s k))
      × (size (add s key) ≡ size s + (if contains s key then 0 else 1))
add_inserts {s} key v = (add-IsValid key v, contains-add s key, size-add s key)

-- In the array, from which samples are drawn, each member stands at exactly one place, and nothing
-- but members.
pub items_enumerate :
    {s : KeySet} (k : String)
    → IsValid s
    → (((i : ℕ) × (get_elem? s.items i ≡ some k)) ↔ (contains s k ≡ true))
      × ((i j : ℕ) → get_elem? s.items i ≡ some k → get_elem? s.items j ≡ some k → i ≡ j)
items_enumerate k v = (items_iff_contains k v, λ i j. items_distinct k i j v)

is_in-get_elem? :
    (xs : List String) (k : String) → is_in xs k ≡ true → (i : ℕ) × (get_elem? xs i ≡ some k)
unfolding is_in
is_in-get_elem? [] k h = cc
is_in-get_elem? (x ∷ xs) k h = elim (str_discrete x k) [
  | yes e ↦ (0, ap some e)
  | no e ↦ let (i, f) = is_in-get_elem? xs k (ground arith) in (suc i, f)
]

get_elem?-is_in :
    (xs : List String) (k : String) (i : ℕ) → get_elem? xs i ≡ some k → is_in xs k ≡ true
unfolding is_in
get_elem?-is_in [] k i h = cc
get_elem?-is_in (x ∷ xs) k zero h = ground arith
get_elem?-is_in (x ∷ xs) k (suc i) h = ground (arith, get_elem?-is_in xs k i)

-- The keys of the array are the members.
pub is_in-items : {s : KeySet} (k : String) → IsValid s → is_in s.items k ≡ contains s k
is_in-items {s} k v = elim (Bool-cases (contains s k)) [
  | inl held ↦
      let (i, e) = (items_iff_contains k v).1 held in get_elem?-is_in s.items k i e ∙ sym held
  | inr absent ↦ elim (Bool-cases (is_in s.items k)) [
    | inl found ↦ absurd (cc (absent, (items_iff_contains k v).0 (is_in-get_elem? s.items k found)))
    | inr missing ↦ missing ∙ sym absent
  ]
]

get_elem?-IsDistinct :
    (xs : List String)
    → ((k : String) (i j : ℕ) → get_elem? xs i ≡ some k → get_elem? xs j ≡ some k → i ≡ j)
    → IsDistinct xs
unfolding is_in
get_elem?-IsDistinct [] one = tt
get_elem?-IsDistinct (x ∷ xs) one = (
  elim (Bool-cases (is_in xs x)) [
    | inl again ↦
        let (i, e) = is_in-get_elem? xs x again in absurd (omega (arith, one x 0 (suc i) refl e))
    | inr alone ↦ alone
  ],
  get_elem?-IsDistinct xs (λ k i j e f. omega (arith, one k (suc i) (suc j) e f)),
)

-- No key stands twice in the array.
pub items-IsDistinct : {s : KeySet} → IsValid s → IsDistinct s.items
items-IsDistinct {s} v = get_elem?-IsDistinct s.items (λ k i j. items_distinct k i j v)

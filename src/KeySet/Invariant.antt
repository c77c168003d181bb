-- ===== src/KeySet/Invariant.antt =====
-- The array and the map of a key set agree, and every operation keeps that.
use redis_like_data_storage.Prelude.{
  ℕ, ◌<◌, String, none, some, List, [], ◌∷◌, ◌++◌, ◌≡◌, refl, ◌↔◌, ap, arith, length, get_elem?,
  get_elem?-snoc, get_elem?-lt, get_elem?-set, ok, Option-cases, inl, inr, ◌⊎◌, subst,
}
use redis_like_data_storage.Dict
use redis_like_data_storage.Dict.{Dict, IsDict}
use redis_like_data_storage.Dict.Laws.{get-put, get-remove, put-IsDict, remove-IsDict}
use redis_like_data_storage.KeySet.{KeySet, empty, pop_last, add, discard, fill_hole}

pub record IsValid (s : KeySet) : Type 0 where
  pub is_dict : IsDict s.index
  -- The map sends a key to `i` exactly when the array holds it at `i`.
  pub agree : (k : String) (i : ℕ) → (Dict.get s.index k ≡ some i) ↔ (get_elem? s.items i ≡ some k)

pub empty-IsValid : IsValid empty
unfolding Dict.get
empty-IsValid = record { is_dict = tt; agree = λ k i. ((λ h. cc), (λ h. cc)) }

pub add-IsValid : {s : KeySet} (key : String) → IsValid s → IsValid (add s key)
unfolding add
add-IsValid {s} key v = record {
  is_dict = ground (arith, put-IsDict s.index key (length s.items));
  agree = λ k i. ground (
    arith,
    get-put s.index key k (length s.items),
    get_elem?-snoc s.items key i,
    get_elem?-lt s.items i k,
    v.agree k i,
    v.agree key i,
  );
}

-- `l.pop()` takes the last element off.
pub pop-last {ℓ} :
    {A : Type ℓ} (x : A) (xs : List A)
    → (y : A) × (rest : List A) × (pop_last (x ∷ xs) ≡ ok (y, rest)) × (x ∷ xs ≡ rest ++ y ∷ [])
unfolding pop_last
pop-last x [] = (x, [], refl, refl)
pop-last x (x' ∷ xs) =
    let (y, rest, popped, e) = pop-last x' xs in (y, x ∷ rest, rw popped, ap (◌∷◌ x) e)

-- On a list that has an element `l.pop()` does not raise.
pub pop-last_of_pos {ℓ} :
    {A : Type ℓ} (xs : List A)
    → 0 < length xs
    → (y : A) × (rest : List A) × (pop_last xs ≡ ok (y, rest)) × (xs ≡ rest ++ y ∷ [])
pop-last_of_pos [] h = elim h [ ]
pop-last_of_pos (x ∷ xs) h = pop-last x xs

module _ (items : List String) (last : String) (index : Dict ℕ) (key : String) (idx : ℕ) where
  abbrev whole : KeySet
  whole = record { items = items ++ last ∷ []; index = index }

  fill_hole-IsValid :
      IsValid whole
      → Dict.get index key ≡ some idx
      → IsValid (fill_hole idx last items (Dict.remove index key))
  unfolding fill_hole
  fill_hole-IsValid v h = record {
    is_dict =
        ground
          (arith, remove-IsDict index key v.is_dict, put-IsDict (Dict.remove index key) last idx);
    agree = λ k i. ground (
      arith,
      get-remove index key k v.is_dict,
      get-remove index key last v.is_dict,
      get-put (Dict.remove index key) last k idx,
      get_elem?-set items idx i last,
      get_elem?-snoc items last i,
      get_elem?-snoc items last idx,
      get_elem?-snoc items last (length items),
      get_elem?-lt items i k,
      get_elem?-lt items idx key,
      v.agree k i,
      v.agree key i,
      v.agree key idx,
      v.agree last idx,
      v.agree last i,
      v.agree last (length items),
    );
  }

-- What `discard` computes on a present key: the array loses its last key, which takes the hole.
pub record Removal (s : KeySet) (key : String) : Type 0 where
  pub idx : ℕ
  pub last : String
  pub items : List String
  pub found : Dict.get s.index key ≡ some idx
  pub split : s.items ≡ items ++ last ∷ []
  pub result : discard s key ≡ ok (fill_hole idx last items (Dict.remove s.index key))

pub discard-cases :
    {s : KeySet} (key : String)
    → IsValid s
    → ((Dict.get s.index key ≡ none) × (discard s key ≡ ok s)) ⊎ Removal s key
unfolding discard
discard-cases {s} key v = elim (Option-cases (Dict.get s.index key)) [
  | inl absent ↦ inl (absent, rw (absent, discard))
  | inr (idx, found) ↦
      let inside = get_elem?-lt s.items idx key ((v.agree key idx).0 found) in
      let (last, items, popped, e) = pop-last_of_pos s.items (omega arith) in
      inr (record {
        idx = idx;
        last = last;
        items = items;
        found = found;
        split = e;
        result = rw (found, discard, popped);
      })
]

-- The key set before the removal, with its array split at the last key.
pub split-IsValid :
    {s : KeySet} {key : String} (r : Removal s key)
    → IsValid s
    → IsValid (record { items = r.items ++ r.last ∷ []; index = s.index })
split-IsValid {s} r v = subst (λ xs. IsValid (record { items = xs; index = s.index })) r.split v

-- `discard` never raises on a key set whose array and map agree, and the result agrees again.
pub discard_total :
    {s : KeySet} (key : String) → IsValid s → (s' : KeySet) × (discard s key ≡ ok s') × IsValid s'
discard_total {s} key v = elim (discard-cases key v) [
  | inl (_, same) ↦ (s, same, v)
  | inr r ↦ (
    fill_hole r.idx r.last r.items (Dict.remove s.index key),
    r.result,
    fill_hole-IsValid r.items r.last s.index key r.idx (split-IsValid r v) r.found,
  )
]

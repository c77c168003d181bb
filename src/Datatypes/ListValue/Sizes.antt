-- ===== src/Datatypes/ListValue/Sizes.antt =====
-- The byte estimate of `ListValue` is right after every operation: that of an empty container, and for
-- each item its size and the overhead.
use mathlib.Core.List.{reverse-cons, reverse-append, reverse-reverse, append_assoc, append-nil}
use redis_like_data_storage.Prelude.{
  ℕ, zero, suc, ◌+◌, ◌≤◌, String, Option, none, some, List, [], ◌∷◌, ◌++◌, Bool, true, false, ltb,
  ◌==◌, if◌then◌else◌, length, min, reverse, set, get_elem?, ◌≡◌, refl, arith, sym, ap, ◌∙◌,
  Bool-cases, inl, inr, Option-cases, str_discrete, ite,
}
use redis_like_data_storage.Prelude.Int.{ℤ, pos, ◌+ℤ◌, ◌-ℤ◌, int_laws, pos_part, neg_part}
use redis_like_data_storage.Datatypes.ListValue.Range.{length-reverse}
use redis_like_data_storage.Datatypes.ListValue.{
  ListValue, range, item_size, push_left, push_right, init, pop_left, pop, set_at, set_index, trim,
  strip, times, remove, limit_of, is_negative, normalize,
}

module _ (str_size : String → ℤ) where
  abbrev pub weight : List String → ℤ
  weight [] = pos 0
  weight (x ∷ xs) = item_size str_size x +ℤ weight xs

  abbrev pub IsSized : ListValue → Type 0
  IsSized v = v.nbytes ≡ pos 200 +ℤ weight v.items

  weight-append : (xs ys : List String) → weight (xs ++ ys) ≡ weight xs +ℤ weight ys
  weight-append [] ys = omega int_laws
  weight-append (x ∷ xs) ys =
      ap (λ n. item_size str_size x +ℤ n) (weight-append xs ys) ∙ omega int_laws

  weight-reverse : (xs : List String) → weight (reverse xs) ≡ weight xs
  weight-reverse [] = refl
  weight-reverse (x ∷ xs) =
      ap weight (reverse-cons x xs)
      ∙ weight-append (reverse xs) (x ∷ [])
      ∙ ap (λ n. n +ℤ weight (x ∷ [])) (weight-reverse xs)
      ∙ omega int_laws

  move_in : (n a w : ℤ) → n ≡ pos 200 +ℤ w → n +ℤ a ≡ pos 200 +ℤ (a +ℤ w)
  move_in n a w h = ap (λ m. m +ℤ a) h ∙ omega int_laws

  push_right_total :
      (v : ListValue) (xs : List String)
      → IsSized v
      → IsSized (push_right str_size v xs) × ((push_right str_size v xs).items ≡ v.items ++ xs)
  unfolding push_right
  push_right_total v [] s = (s, sym (append-nil v.items))
  push_right_total v (x ∷ xs) s =
      let v' : ListValue = record {
        items = v.items ++ x ∷ [];
        nbytes = v.nbytes +ℤ item_size str_size x;
      } in
      let (sized, same) = push_right_total v' xs (
        move_in v.nbytes (item_size str_size x) (weight v.items) s
        ∙ ap (λ n. pos 200 +ℤ n) (omega int_laws ∙ sym (weight-append v.items (x ∷ [])))) in
      (sized, same ∙ append_assoc v.items (x ∷ []) xs)

  push_left_total :
      (v : ListValue) (xs : List String)
      → IsSized v
      → IsSized (push_left str_size v xs)
        × ((push_left str_size v xs).items ≡ reverse xs ++ v.items)
  unfolding push_left
  push_left_total v [] s = (s, refl)
  push_left_total v (x ∷ xs) s =
      let v' : ListValue = record {
        items = x ∷ v.items;
        nbytes = v.nbytes +ℤ item_size str_size x;
      } in
      let (sized, same) =
        push_left_total v' xs (move_in v.nbytes (item_size str_size x) (weight v.items) s) in
      (
        sized,
        same
            ∙ sym (
                ap (λ l. l ++ v.items) (reverse-cons x xs)
                ∙ append_assoc (reverse xs) (x ∷ []) v.items),
      )

  -- RPUSH and LPUSH keep the estimate right, and put the values at their end, the last one outermost.
  pub push_total :
      (v : ListValue) (xs : List String)
      → IsSized v
      → IsSized (push_right str_size v xs)
        × IsSized (push_left str_size v xs)
        × ((push_right str_size v xs).items ≡ v.items ++ xs)
        × ((push_left str_size v xs).items ≡ reverse xs ++ v.items)
  push_total v xs s =
      let (right, after) = push_right_total v xs s in
      let (left, before) = push_left_total v xs s in (right, left, after, before)

  pop_left_total :
      (n : ℕ) (xs : List String) (bytes : ℤ)
      → n ≤ length xs
      → bytes ≡ pos 200 +ℤ weight xs
      → IsSized (pop_left str_size n xs bytes).1
        × ((pop_left str_size n xs bytes).0 ++ (pop_left str_size n xs bytes).1.items ≡ xs)
        × (length (pop_left str_size n xs bytes).0 ≡ n)
  unfolding pop_left
  pop_left_total zero xs bytes h s = (s, refl, refl)
  pop_left_total (suc n) [] bytes h s = absurd (omega arith)
  pop_left_total (suc n) (x ∷ xs) bytes h s =
      let (sized, same, count) =
        pop_left_total n xs (bytes -ℤ item_size str_size x) (omega arith)
          (ap (λ m. m -ℤ item_size str_size x) s ∙ omega int_laws) in
      (sized, ap (λ l. x ∷ l) same, ap suc count)

  -- What a pop leaves and what it gives make up the list again, at the end it was called for.
  abbrev pub IsPop : ListValue → ℕ → Bool → List String × ListValue → Type 0
  IsPop v count left (popped, v') =
      IsSized v'
      × ((if left then popped ++ v'.items else v'.items ++ reverse popped) ≡ v.items)
      × (length popped ≡ min count (length v.items))

  -- LPOP and RPOP keep the estimate right. The values popped and the list left make up the list, and
  -- there are as many of them as asked for, or all.
  pub pop_total :
      (v : ListValue) (count : ℕ) (left : Bool)
      → IsSized v
      → IsPop v count left (pop str_size v count left)
  unfolding pop
  pop_total v count true s =
      pop_left_total (min count (length v.items)) v.items v.nbytes (omega arith) s
  pop_total v count false s =
      let n = min count (length v.items) in
      let r = pop_left str_size n (reverse v.items) v.nbytes in
      let (sized, same, counted) =
        pop_left_total n (reverse v.items) v.nbytes (omega (arith, length-reverse v.items))
          (s ∙ ap (λ w. pos 200 +ℤ w) (sym (weight-reverse v.items))) in
      (
        sized ∙ ap (λ w. pos 200 +ℤ w) (sym (weight-reverse r.1.items)),
        sym (reverse-append r.0 r.1.items) ∙ ap reverse same ∙ reverse-reverse v.items,
        counted,
      )

  weight-set :
      (xs : List String) (i : ℕ) (old value : String)
      → get_elem? xs i ≡ some old
      → weight (set xs i value) ≡ weight xs +ℤ (str_size value -ℤ str_size old)
  weight-set [] i old value h = cc
  weight-set (x ∷ xs) zero old value h = let same : x ≡ old = cc h in rw (← same) (omega int_laws)
  weight-set (x ∷ xs) (suc i) old value h =
      ap (λ w. item_size str_size x +ℤ w) (weight-set xs i old value h) ∙ omega int_laws

  -- LTRIM leaves the items of the range, with their estimate.
  pub trim_total :
      (v : ListValue) (start stop : ℤ)
      → IsSized (trim str_size v start stop)
        × ((trim str_size v start stop).items ≡ range v start stop)
  unfolding trim init ◌+ℤ◌
  trim_total v start stop =
      push_right_total (record { items = []; nbytes = pos 200 }) (range v start stop) refl

  -- What a removal of `value` leaves: `m` occurrences fewer, as many as the limit allows, and the other
  -- items.
  abbrev pub IsStripped : Option ℕ → String → List String → ℕ → List String → ℕ → Type 0
  IsStripped limit value xs r kept count =
      (m : ℕ) × (count ≡ r + m)
      × (length kept + m ≡ length xs)
      × (weight xs ≡ weight kept +ℤ times m (item_size str_size value))

  abbrev is_hit : Option ℕ → String → String → ℕ → Bool
  is_hit limit value x r =
      ite (str_discrete x value) (elim limit [ none ↦ true | some n ↦ ltb r n ]) false

  strip_total :
      (limit : Option ℕ) (value : String) (xs : List String) (r : ℕ)
      → IsStripped limit value xs r (strip limit value xs r).0 (strip limit value xs r).1
  unfolding strip times
  strip_total limit value [] r = (0, omega arith, omega arith, omega int_laws)
  strip_total limit value (x ∷ xs) r = elim (Bool-cases (is_hit limit value x r)) [
    | inl hit ↦
        let same : x ≡ value = ground arith in
        let (m, counted, fewer, lighter) = strip_total limit value xs (r + 1) in
        rw (hit, strip)
          (
            suc m,
            omega (arith, counted),
            omega (arith, fewer),
            rw same (ap (λ w. item_size str_size value +ℤ w) lighter ∙ omega int_laws),
          )
    | inr miss ↦
        let (m, counted, fewer, lighter) = strip_total limit value xs r in
        rw (miss, strip)
          (
            m,
            counted,
            omega (arith, fewer),
            ap (λ w. item_size str_size x +ℤ w) lighter ∙ omega int_laws,
          )
  ]

  -- LSET keeps the estimate right.
  pub set_index-IsSized :
      (v : ListValue) (index : ℤ) (value : String)
      → IsSized v
      → IsSized (set_index str_size v index value).1
  unfolding set_index set_at
  set_index-IsSized v index value s = elim (Option-cases (normalize v index)) [
    | inl outside ↦ rw (outside, set_index) s
    | inr (i, inside) ↦ elim (Option-cases (get_elem? v.items i)) [
      | inl absent ↦ rw (inside, set_index, absent) s
      | inr (old, found) ↦
          rw (inside, set_index, found)
            (ap (λ n. n +ℤ (str_size value -ℤ str_size old)) s
              ∙ omega (
                int_laws,
                ap pos_part (weight-set v.items i old value found),
                ap neg_part (weight-set v.items i old value found),
              ))
    ]
  ]

  -- What LREM leaves: the estimate right, and as many items fewer as it says.
  abbrev pub IsRemoved : ListValue → ℕ × ListValue → Type 0
  IsRemoved v (removed, v') = IsSized v' × (length v'.items + removed ≡ length v.items)

  strip-IsRemoved :
      (v : ListValue) (count : ℤ) (value : String) (items : List String)
      → IsSized v
      → weight items ≡ weight v.items
      → length items ≡ length v.items
      → (kept : List String) (removed : ℕ) → IsStripped (limit_of count) value items 0 kept removed
      → (weight (if is_negative count then reverse kept else kept) ≡ weight kept)
      → (length (if is_negative count then reverse kept else kept) ≡ length kept)
      → IsRemoved v (
        removed,
        record {
          items = if is_negative count then reverse kept else kept;
          nbytes = v.nbytes -ℤ times removed (item_size str_size value);
        },
      )
  strip-IsRemoved v count value items s same long kept removed (m, counted, fewer, lighter) w l =
      let n : removed ≡ m = omega (arith, counted) in
      (
        rw n (
            ap (λ b. b -ℤ times m (item_size str_size value))
              (s ∙ ap (λ x. pos 200 +ℤ x) (sym same ∙ lighter))
            ∙ omega int_laws
            ∙ ap (λ x. pos 200 +ℤ x) (sym w)),
        omega (arith, l, fewer, counted, long),
      )

  weight_turned : (b : Bool) (xs : List String) → weight (if b then reverse xs else xs) ≡ weight xs
  weight_turned true xs = weight-reverse xs
  weight_turned false xs = refl

  length_turned : (b : Bool) (xs : List String) → length (if b then reverse xs else xs) ≡ length xs
  length_turned true xs = length-reverse xs
  length_turned false xs = refl

  -- LREM keeps the estimate right, and says how many items it removed.
  pub lrem-IsRemoved :
      (v : ListValue) (count : ℤ) (value : String)
      → IsSized v
      → IsRemoved v (remove str_size v count value)
  unfolding remove
  lrem-IsRemoved v count value s =
      let turned = is_negative count in
      let items = if turned then reverse v.items else v.items in
      let kept = (strip (limit_of count) value items 0).0 in
      let removed = (strip (limit_of count) value items 0).1 in
      elim (Bool-cases (removed == 0)) [
        | inl nothing ↦ rw (nothing, remove) (s, omega arith)
        | inr something ↦
            rw (something, remove)
              (strip-IsRemoved v count value items s (weight_turned turned v.items)
                (length_turned turned v.items) kept removed
                (strip_total (limit_of count) value items 0) (weight_turned turned kept)
                (length_turned turned kept))
      ]

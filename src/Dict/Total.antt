-- ===== src/Dict/Total.antt =====
-- The sum of an integer over the entries of a dict, and how an assignment or a removal changes it.
use redis_like_data_storage.Prelude.{
  ℕ, ◌+◌, String, Option, none, some, [], ◌∷◌, ◌≡◌, arith, length, str_discrete, if_pos, if_neg, ap,
  sym, ◌∙◌,
}
use redis_like_data_storage.Prelude.Int.{ℤ, pos, pos_part, neg_part, ◌+ℤ◌, ◌-ℤ◌, int_laws}
use redis_like_data_storage.Dict.{Dict, get, put, remove}

module _ {ℓ} {V : Type ℓ} (f : String → V → ℤ) where
  abbrev pub total : Dict V → ℤ
  total [] = pos 0
  total ((k, v) ∷ d) = f k v +ℤ total d

  -- What the entry of a key adds to the sum.
  abbrev pub share : String → Option V → ℤ
  share k none = pos 0
  share k (some v) = f k v

  pub total-put :
      (d : Dict V) (k : String) (v : V) → total (put d k v) +ℤ share k (get d k) ≡ total d +ℤ f k v
  unfolding get put
  total-put [] k v = omega int_laws
  total-put ((j, w) ∷ d) k v = elim (str_discrete j k) [
    | yes p ↦ rw (if_pos _ p, if_pos _ p, p) (omega int_laws)
    | no p ↦
        rw (if_neg _ p, if_neg _ p)
          (omega (int_laws, ap pos_part (total-put d k v), ap neg_part (total-put d k v)))
  ]

  pub total-remove : (d : Dict V) (k : String) → total (remove d k) +ℤ share k (get d k) ≡ total d
  unfolding get remove
  total-remove [] k = omega int_laws
  total-remove ((j, w) ∷ d) k = elim (str_discrete j k) [
    | yes p ↦ rw (if_pos _ p, if_pos _ p, p) (omega int_laws)
    | no p ↦
        rw (if_neg _ p, if_neg _ p)
          (omega (int_laws, ap pos_part (total-remove d k), ap neg_part (total-remove d k)))
  ]

module _ {ℓ} {V : Type ℓ} (f : String → V → ℤ) (d : Dict V) (k : String) where
  -- The same as equations for the new sum.
  pub total-put_new : (v : V) → get d k ≡ none → total f (put d k v) ≡ total f d +ℤ f k v
  total-put_new v absent =
      let e = ap (λ o. total f (put d k v) +ℤ share f k o) (sym absent) ∙ total-put f d k v in
      omega (int_laws, ap pos_part e, ap neg_part e)

  pub total-put_old :
      (v w : V) → get d k ≡ some w → total f (put d k v) ≡ total f d -ℤ f k w +ℤ f k v
  total-put_old v w found =
      let e = ap (λ o. total f (put d k v) +ℤ share f k o) (sym found) ∙ total-put f d k v in
      omega (int_laws, ap pos_part e, ap neg_part e)

  pub total-remove_old : (w : V) → get d k ≡ some w → total f (remove d k) ≡ total f d -ℤ f k w
  total-remove_old w found =
      let e = ap (λ o. total f (remove d k) +ℤ share f k o) (sym found) ∙ total-remove f d k in
      omega (int_laws, ap pos_part e, ap neg_part e)

module _ {ℓ} {V : Type ℓ} where
  abbrev pub presence : Option V → ℕ
  presence none = 0
  presence (some v) = 1

  pub length-put :
      (d : Dict V) (k : String) (v : V) → length (put d k v) + presence (get d k) ≡ length d + 1
  unfolding get put
  length-put [] k v = omega arith
  length-put ((j, w) ∷ d) k v = ground (arith, length-put d k v)

  pub length-remove :
      (d : Dict V) (k : String) → length (remove d k) + presence (get d k) ≡ length d
  unfolding get remove
  length-remove [] k = omega arith
  length-remove ((j, w) ∷ d) k = ground (arith, length-remove d k)

-- ===== src/Dict/Laws.antt =====
-- What a lookup gives after an assignment or a removal, and that both keep the keys distinct.
use redis_like_data_storage.Prelude.{
  true, false, is_in, Option-cases, inl, inr, String, none, some, [], ◌∷◌, ite, str_discrete, ◌≡◌,
  refl, arith,
}
use redis_like_data_storage.Dict.{Dict, get, put, remove, IsDict, has, keys}

module _ {ℓ} {V : Type ℓ} where
  pub get-put :
      (d : Dict V) (k j : String) (v : V)
      → get (put d k v) j ≡ ite (str_discrete k j) (some v) (get d j)
  unfolding get put
  get-put [] k j v = ground arith
  get-put ((i, w) ∷ d) k j v = ground (arith, get-put d k j v)

  pub get-remove :
      (d : Dict V) (k j : String)
      → IsDict d
      → get (remove d k) j ≡ ite (str_discrete k j) none (get d j)
  unfolding get remove
  get-remove [] k j h = ground arith
  get-remove ((i, w) ∷ d) k j h = ground (arith, get-remove d k j)

  pub put-IsDict : (d : Dict V) (k : String) (v : V) → IsDict d → IsDict (put d k v)
  unfolding get put
  put-IsDict [] k v h = ground arith
  put-IsDict ((i, w) ∷ d) k v h = ground (arith, get-put d k i v, put-IsDict d k v)

  pub remove-IsDict : (d : Dict V) (k : String) → IsDict d → IsDict (remove d k)
  unfolding get remove
  remove-IsDict [] k h = ground arith
  remove-IsDict ((i, w) ∷ d) k h = ground (arith, get-remove d k i, remove-IsDict d k)

  pub remove_absent : (d : Dict V) (k : String) → get d k ≡ none → remove d k ≡ d
  unfolding get remove
  remove_absent [] k h = refl
  remove_absent ((i, w) ∷ d) k h = ground (arith, remove_absent d k)

  pub has-put :
      (d : Dict V) (k j : String) (v : V)
      → has (put d k v) j ≡ ite (str_discrete k j) true (has d j)
  unfolding has
  has-put d k j v = ground (arith, get-put d k j v)

  pub has-remove :
      (d : Dict V) (k j : String)
      → IsDict d
      → has (remove d k) j ≡ ite (str_discrete k j) false (has d j)
  unfolding has
  has-remove d k j h = ground (arith, get-remove d k j h)

  pub get_of_has : (d : Dict V) (k : String) → has d k ≡ true → (v : V) × (get d k ≡ some v)
  unfolding has
  get_of_has d k h = elim (Option-cases (get d k)) [
    | inl e ↦ absurd (ground arith)
    | inr found ↦ found
  ]

  pub has_of_get : (d : Dict V) (k : String) (v : V) → get d k ≡ some v → has d k ≡ true
  unfolding has
  has_of_get d k v h = ground arith

  pub is_in-keys : (d : Dict V) (k : String) → is_in (keys d) k ≡ has d k
  unfolding is_in has get
  is_in-keys [] k = refl
  is_in-keys ((i, w) ∷ d) k = ground (arith, is_in-keys d k)

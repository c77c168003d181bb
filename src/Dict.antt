-- ===== src/Dict.antt =====
-- Python's `dict` with string keys, in insertion order: assignment to a key that is there keeps its
-- place, a new key goes to the end. Every component that keeps a `dict` uses this model.
pub mod Laws
pub mod Total
use redis_like_data_storage.Prelude.{
  ℕ, String, Option, none, some, List, [], ◌∷◌, map, ite, str_discrete, ◌≡◌, Bool, true, false,
}

abbrev pub Dict {ℓ} : Type ℓ → Type ℓ
Dict V = List (String × V)

module _ {ℓ} {V : Type ℓ} where
  -- d.get(k)
  unfoldable pub get : Dict V → String → Option V
  get [] k = none
  get ((j, v) ∷ d) k = ite (str_discrete j k) (some v) (get d k)

  -- d[k] = v
  unfoldable pub put : Dict V → String → V → Dict V
  put [] k v = (k, v) ∷ []
  put ((j, w) ∷ d) k v = ite (str_discrete j k) ((j, v) ∷ d) ((j, w) ∷ put d k v)

  -- d.pop(k, None)
  unfoldable pub remove : Dict V → String → Dict V
  remove [] k = []
  remove ((j, w) ∷ d) k = ite (str_discrete j k) d ((j, w) ∷ remove d k)

  -- list(d)
  abbrev pub keys : Dict V → List String
  keys = map (λ e. e.0)

  -- No key stands twice.
  abbrev pub IsDict : Dict V → Type ℓ
  IsDict [] = Unit
  IsDict ((k, v) ∷ d) = (get d k ≡ none) × IsDict d

  -- `k in d`
  unfoldable pub has : Dict V → String → Bool
  has d k = elim (get d k) [ none ↦ false | some _ ↦ true ]

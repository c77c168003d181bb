-- ===== src/Store/Snapshot/Records.antt =====
-- What a snapshot of engine/store.py records of one key.
use redis_like_data_storage.Prelude.{
  ℕ, String, Option, none, some, List, [], ◌∷◌, ◌++◌, if◌then◌else◌, ite, str_discrete, ◌≡◌, refl,
  arith,
}
use redis_like_data_storage.Dict
use redis_like_data_storage.Dict.{Dict, IsDict}
use redis_like_data_storage.Store.{Entry, Record, is_expired, to_record}
use redis_like_data_storage.Store.Snapshot.{live_records}
use redis_like_data_storage.Store.Snapshot.{live_records}

module _ {V : Type 0} where
  -- The records of one key.
  unfoldable pub records_of : String → List (Record V) → List (Record V)
  records_of k [] = []
  records_of k (r ∷ rs) = let rest = records_of k rs in ite (str_discrete r.key k) (r ∷ rest) rest

  pub records_of-append :
      (k : String) (xs ys : List (Record V))
      → records_of k (xs ++ ys) ≡ records_of k xs ++ records_of k ys
  unfolding records_of
  records_of-append k [] ys = refl
  records_of-append k (r ∷ xs) ys = ground (arith, records_of-append k xs ys)

  -- What a snapshot that began at `t` records of an entry.
  unfoldable pub taken : ℕ → String → Option (Entry V) → List (Record V)
  taken t k none = []
  taken t k (some e) = if is_expired e t then [] else to_record k e ∷ []

  pub records_of-taken :
      (t : ℕ) (key k : String) (o : Option (Entry V))
      → records_of k (taken t key o) ≡ ite (str_discrete key k) (taken t key o) []
  unfolding records_of taken
  records_of-taken t key k none = ground arith
  records_of-taken t key k (some e) = ground arith

  -- Of each key a plain snapshot has what is recorded of the key's entry.
  pub records_of-live_records :
      (t : ℕ) (d : Dict (Entry V)) (k : String)
      → IsDict d
      → records_of k (live_records t d) ≡ taken t k (Dict.get d k)
  unfolding records_of live_records taken Dict.get
  records_of-live_records t [] k h = refl
  records_of-live_records t ((i, e) ∷ d) k h =
      ground (arith, records_of-live_records t d k h.1, h.0)

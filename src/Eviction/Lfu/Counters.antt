-- ===== src/Eviction/Lfu/Counters.antt =====
-- The keys of `LFUPolicy` and their counters agree, no counter passes 255, and no operation
-- raises.
use redis_like_data_storage.Prelude.{
  ℕ, ◌+◌, ◌≤◌, String, none, some, [], Bool, true, false, ok, ◌≡◌, ite, str_discrete, arith, refl,
  Option-cases, inl, inr,
}
use redis_like_data_storage.Dict
use redis_like_data_storage.Dict.{Dict, IsDict}
use redis_like_data_storage.Dict.Laws.{get-put, get-remove, put-IsDict, remove-IsDict}
use redis_like_data_storage.KeySet
use redis_like_data_storage.KeySet.{KeySet}
use redis_like_data_storage.KeySet.Invariant.{empty-IsValid}
use redis_like_data_storage.KeySet.Invariant
use redis_like_data_storage.KeySet.Sets.{add_inserts, discard_removes}
use redis_like_data_storage.Eviction.Env.{Env}
use redis_like_data_storage.Eviction.Lfu.{
  Lfu, Meta, max_counter, minutes, decayed, counter, increment, on_insert, on_access, on_remove,
}

-- `key in self._meta`
unfoldable pub has_meta : Dict Meta → String → Bool
has_meta d key = elim (Dict.get d key) [ none ↦ false | some _ ↦ true ]

pub record IsValid (p : Lfu) : Type 0 where
  pub keys_valid : Invariant.IsValid p.keys
  pub meta_dict : IsDict p.meta
  pub agree : (k : String) → KeySet.contains p.keys k ≡ has_meta p.meta k
  pub bounded : (k : String) (m : Meta) → Dict.get p.meta k ≡ some m → m.counter ≤ max_counter

pub cleared-IsValid : (p : Lfu) → IsValid (record p { keys = KeySet.empty; meta = [] })
unfolding has_meta KeySet.contains Dict.get
cleared-IsValid p = record {
  keys_valid = empty-IsValid;
  meta_dict = tt;
  agree = λ k. refl;
  bounded = λ k m h. cc;
}

-- One access moves a counter up by one at most, and never beyond 255.
pub increment_bounds :
    (env : Env) (p : Lfu) (c : ℕ) → (increment env p c ≤ max_counter) × (increment env p c ≤ c + 1)
unfolding increment
increment_bounds env p c = ground arith

pub on_insert-IsValid :
    (env : Env) (p : Lfu) (key : String) → IsValid p → IsValid (on_insert env p key)
unfolding on_insert has_meta
on_insert-IsValid env p key v =
    let m : Meta = record { counter = 5; last = minutes env } in
    let (keys', has, _) = add_inserts key v.keys_valid in
    record {
      keys_valid = keys';
      meta_dict = put-IsDict p.meta key m v.meta_dict;
      agree = λ k. ground (arith, has k, get-put p.meta key k m, v.agree k);
      bounded = λ k m' h. ground (arith, get-put p.meta key k m, v.bounded k m');
    }

pub counter_found :
    (env : Env) (p : Lfu) (key : String) (m : Meta)
    → Dict.get p.meta key ≡ some m
    → counter env p key ≡ ok (decayed p.decay_minutes (minutes env) m)
unfolding counter
counter_found env p key m found = rw (found, counter)

-- An access never raises.
pub on_access_total :
    (env : Env) (p : Lfu) (key : String)
    → IsValid p
    → (p' : Lfu) × (on_access env p key ≡ ok p') × IsValid p' × (p'.keys ≡ p.keys)
unfolding on_access
on_access_total env p key v = elim (Option-cases (Dict.get p.meta key)) [
  | inl absent ↦ (p, rw (absent, on_access), v, refl)
  | inr (m, found) ↦
      let c = decayed p.decay_minutes (minutes env) m in
      let m' : Meta = record { counter = increment env p c; last = minutes env } in
      (
        record p { meta = Dict.put p.meta key m' },
        rw (found, on_access, counter_found env p key m found),
        record {
          keys_valid = v.keys_valid;
          meta_dict = put-IsDict p.meta key m' v.meta_dict;
          agree = λ k. unfold has_meta in ground (arith, get-put p.meta key k m', v.agree k);
          bounded = λ k m'' h.
              ground (arith, get-put p.meta key k m', v.bounded k m'', increment_bounds env p c);
        },
        refl,
      )
]

-- A removal never raises, and takes exactly the key out.
pub on_remove_total :
    (p : Lfu) (key : String)
    → IsValid p
    → (p' : Lfu) × (on_remove p key ≡ ok p')
      × IsValid p'
      × ((k : String)
          → KeySet.contains p'.keys k ≡ ite (str_discrete key k) false (KeySet.contains p.keys k))
unfolding on_remove
on_remove_total p key v = elim (Option-cases (Dict.get p.meta key)) [
  | inl absent ↦ (p, rw (absent, on_remove), v, λ k. unfold has_meta in ground (arith, v.agree k))
  | inr (m, found) ↦
      let (keys', removed, valid', has, _) = discard_removes key v.keys_valid in
      (
        record p { meta = Dict.remove p.meta key; keys = keys' },
        rw (found, on_remove, removed),
        record {
          keys_valid = valid';
          meta_dict = remove-IsDict p.meta key v.meta_dict;
          agree = λ k.
              unfold has_meta in
              ground (arith, has k, get-remove p.meta key k v.meta_dict, v.agree k);
          bounded = λ k m' h. ground (arith, get-remove p.meta key k v.meta_dict, v.bounded k m');
        },
        has,
      )
]

-- ===== src/Store/Calls.antt =====
-- engine/store.py: which methods call `on_expire`, and for which keys.
use redis_like_data_storage.Prelude.{
  ℕ, zero, suc, ◌+◌, String, Option, none, some, List, [], ◌∷◌, ◌++◌, ok, ◌≡◌, arith, Option-cases,
  Bool-cases, inl, inr, ◌∙◌, Result-cases, length,
}
use redis_like_data_storage.Dict
use redis_like_data_storage.Eviction.Env.{Env}
use redis_like_data_storage.Eviction.Policy
use redis_like_data_storage.Store.{Store, copy_once, snapshot_barrier, drop_entry, remove}
use redis_like_data_storage.Store.Limits.{evict_one, evict, evict_if_needed}
use redis_like_data_storage.Store.Interface.{Values, is_hollow}
use redis_like_data_storage.Store.Keyspace.{refresh}

module _ {V : Type 0} where
  calls-snapshot_barrier :
      (s : Store V) (key : String) → (snapshot_barrier s key).expired_calls ≡ s.expired_calls
  unfolding snapshot_barrier copy_once
  calls-snapshot_barrier s key = ground arith

  calls-drop_entry :
      (s s' : Store V) (key : String)
      → drop_entry s key ≡ ok s'
      → s'.expired_calls ≡ s.expired_calls
  unfolding drop_entry
  calls-drop_entry s s' key e = ground arith

  -- `_remove` calls nothing.
  pub calls-remove :
      (s s' : Store V) (key : String) → remove s key ≡ ok s' → s'.expired_calls ≡ s.expired_calls
  unfolding remove
  calls-remove s s' key e =
      calls-drop_entry (snapshot_barrier s key) s' key e ∙ calls-snapshot_barrier s key

  -- Nor does `evict_if_needed`.
  calls-evict_one :
      (env : Env) (s s' : Store V) (protect : List String) (o : Option String)
      → evict_one env s protect ≡ ok (o, s')
      → s'.expired_calls ≡ s.expired_calls
  unfolding evict_one
  calls-evict_one env s s' protect o e =
      elim (Result-cases (Policy.victim env s.eviction protect)) [
        | inl (error, faulty) ↦ ground (arith, faulty)
        | inr (none, named) ↦ ground (arith, named)
        | inr (some key, named) ↦ elim (Result-cases (remove s key)) [
          | inl (error, faulty) ↦ ground (arith, named, faulty)
          | inr (s₁, removed) ↦ ground (arith, named, removed, calls-remove s s₁ key removed)
        ]
      ]

  calls-evict :
      (fuel : ℕ) (envs : ℕ → Env) (s s' : Store V) (protect evicted more : List String)
      → evict fuel envs s protect evicted ≡ ok (more, s')
      → s'.expired_calls ≡ s.expired_calls
  unfolding evict
  calls-evict zero envs s s' protect evicted more e = ground arith
  calls-evict (suc fuel) envs s s' protect evicted more e =
      elim (Result-cases (evict_one (envs 0) s protect)) [
        | inl (error, faulty) ↦ ground (arith, faulty)
        | inr ((none, s₁), turned) ↦
            ground (arith, turned, calls-evict_one (envs 0) s s₁ protect none)
        | inr ((some key, s₁), turned) ↦ ground (
          arith,
          turned,
          calls-evict_one (envs 0) s s₁ protect (some key) turned,
          calls-evict fuel (λ i. envs (suc i)) s₁ s' protect (evicted ++ key ∷ []) more,
        )
      ]

  pub calls-evict_if_needed :
      (envs : ℕ → Env) (s s' : Store V) (protect evicted : List String)
      → evict_if_needed envs s protect ≡ ok (evicted, s')
      → s'.expired_calls ≡ s.expired_calls
  unfolding evict_if_needed
  calls-evict_if_needed envs s s' protect evicted e =
      ground (arith, calls-evict (length s.entries + 1) envs s s' protect [] evicted)

pub calls-refresh :
    (vs : Values) (s s' : Store vs.Value) (key : String)
    → refresh vs s key ≡ ok s'
    → s'.expired_calls ≡ s.expired_calls
unfolding refresh
calls-refresh vs s s' key e = elim (Option-cases (Dict.get s.entries key)) [
  | inl absent ↦ ground (arith, absent)
  | inr (entry, found) ↦ elim (Bool-cases (is_hollow vs entry.value)) [
    | inl hollow ↦ calls-remove s s' key (ground (arith, found, hollow))
    | inr full ↦ ground (arith, found, full)
  ]
]

-- ===== src/Store/Limits.antt =====
-- The limits and the expiry cycles of engine/store.py. `evict` is the loop of `evict_if_needed`: its
-- i-th call of `victim` draws on `envs i`.
pub mod Evict
pub mod Expiry
use redis_like_data_storage.Prelude.{
  ℕ, zero, suc, ◌+◌, ◌*◌, String, Option, none, some, List, [], ◌∷◌, ◌++◌, Bool, true, false, not,
  ◌&&◌, ◌||◌, leb, ltb, ◌==◌, if◌then◌else◌, length, Result, ok, raise, key_error, ◌>>=◌, min,
}
use redis_like_data_storage.Prelude.Int.{ℤ, pos, ltb_ℤ}
use redis_like_data_storage.Dict
use redis_like_data_storage.KeySet
use redis_like_data_storage.Eviction.Env.{Env}
use redis_like_data_storage.Eviction.Policy
use redis_like_data_storage.Store.{Store, is_expired, remove, expire}

module _ {V : Type 0} where
  unfoldable pub over_limit : Store V → ℕ → Bool
  over_limit s extra_keys =
      (not (s.max_keys == 0) && ltb s.max_keys (length s.entries + extra_keys))
      || (not (s.maxmemory == 0) && ltb_ℤ (pos s.maxmemory) s.used_memory)

  -- One turn of the loop: the key that it evicted, if it did.
  unfoldable pub evict_one : Env → Store V → List String → Result (Option String × Store V)
  evict_one env s protect = do
    victim ← Policy.victim env s.eviction protect
    elim victim [
      | none ↦ ok (none, s)
      | some key ↦ do
        s' ← remove s key
        ok (some key, record s' { evicted_keys = s'.evicted_keys + 1 })
    ]

  -- Out of fuel the loop stops as it stands: `evict_if_needed` gives it more than it needs.
  unfoldable pub evict :
      ℕ → (ℕ → Env) → Store V → List String → List String → Result (List String × Store V)
  evict zero envs s protect evicted = ok (evicted, s)
  evict (suc fuel) envs s protect evicted =
      if over_limit s 0
      then (do
        (victim, s') ← evict_one (envs 0) s protect
        elim victim [
          | none ↦ ok (evicted, s')
          | some key ↦ evict fuel (λ i. envs (suc i)) s' protect (evicted ++ key ∷ [])
        ])
      else ok (evicted, s)

  unfoldable pub evict_if_needed :
      (ℕ → Env) → Store V → List String → Result (List String × Store V)
  evict_if_needed envs s protect =
      if not s.eviction_enabled || not (Policy.evicts s.eviction)
      then ok ([], s)
      else evict (length s.entries + 1) envs s protect []

  -- The keys of a sample that are expired at `now`, deleted in order, and how many they were.
  unfoldable pub expire_sample : ℕ → Store V → List String → Result (ℕ × Store V)
  expire_sample now s [] = ok (0, s)
  expire_sample now s (key ∷ keys) = elim (Dict.get s.entries key) [
    | none ↦ raise key_error
    | some e ↦
        if is_expired e now
        then (do
          s' ← expire s key
          (expired, s'') ← expire_sample now s' keys
          ok (expired + 1, s''))
        else expire_sample now s keys
  ]

  -- Rounds of `expire_cycle`, the i-th on the i-th sample of the call.
  unfoldable pub expire_rounds : ℕ → Env → ℕ → Store V → ℕ → ℕ → Result (ℕ × Store V)
  expire_rounds zero env i s sample_size total = ok (total, s)
  expire_rounds (suc rounds) env i s sample_size total =
      let sample = KeySet.sample s.volatile sample_size (env.sample i) in
      if length sample == 0 then ok (total, s) else (do
        (expired, s') ← expire_sample env.now s sample
        (if leb (expired * 4) (length sample)
            then ok (total + expired, s')
            else expire_rounds rounds env (suc i) s' sample_size (total + expired)))

  -- `expire_cycle`, with `_MAX_EXPIRY_ROUNDS`.
  unfoldable pub expire_cycle : Env → Store V → ℕ → Result (ℕ × Store V)
  expire_cycle env s sample_size =
      if s.expiry_deletes then expire_rounds 16 env 0 s sample_size 0 else ok (0, s)

  -- The keys with a deadline that are expired at `now`.
  unfoldable pub stale_keys : ℕ → Store V → List String → Result (List String)
  stale_keys now s [] = ok []
  stale_keys now s (key ∷ keys) = elim (Dict.get s.entries key) [
    | none ↦ raise key_error
    | some e ↦ do
      stale ← stale_keys now s keys
      ok (if is_expired e now then key ∷ stale else stale)
  ]

  unfoldable pub remove_all : Store V → List String → Result (Store V)
  remove_all s [] = ok s
  remove_all s (key ∷ keys) = do s' ← remove s key; remove_all s' keys

  unfoldable pub purge_expired : Env → Store V → Result (ℕ × Store V)
  purge_expired env s = do
    stale ← stale_keys env.now s s.volatile.items
    s' ← remove_all s stale
    ok (length stale, record s' { expired_keys = s'.expired_keys + length stale })

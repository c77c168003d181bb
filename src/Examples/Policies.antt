-- ===== src/Examples/Policies.antt =====
-- The eviction policies on three keys, with a source of randomness that draws from the front.
use redis_like_data_storage.Prelude.{
  ℕ, zero, suc, ◌≤◌, ◌+◌, first_free, all_free, String, Option, none, some, List, [], ◌∷◌, true,
  false, ◌≡◌, refl, arith, take, length-take, is_in, IsDistinct, ok, ◌==◌, raise, value_error,
  str_discrete,
}
use redis_like_data_storage.Dict
use redis_like_data_storage.Dict.{Dict, IsDict}
use redis_like_data_storage.KeySet
use redis_like_data_storage.Eviction.Env.{Env, IsRandom}
use redis_like_data_storage.Eviction.Lru
use redis_like_data_storage.Eviction.Lru.{Lru}
use redis_like_data_storage.Eviction.Lru.Recency
use redis_like_data_storage.Eviction.Lru.Recency.{Use, last_uses, victim_least_recent}
use redis_like_data_storage.Eviction.Lfu
use redis_like_data_storage.Eviction.Lfu.{Lfu}
use redis_like_data_storage.Eviction.Lfu.Counters
use redis_like_data_storage.Eviction.Lfu.Victim
use redis_like_data_storage.Eviction.Simple
use redis_like_data_storage.Eviction.Simple.{RandomPolicy}
use redis_like_data_storage.Eviction.Policy
use redis_like_data_storage.Eviction.Policy.{Policy, lru, lfu, random, noeviction}
use redis_like_data_storage.Eviction.Policy.Tracking.{
  IsTracking, IsVictim, clear-IsTracking, on_insert-IsTracking, victim_total,
}

abbrev pub front : Env
front = record { now = 1000; draw = λ d. d == 1; sample = λ i xs k. take k xs }

is_in-take :
    (k : ℕ) (xs : List String) (s : String) → is_in (take k xs) s ≡ true → is_in xs s ≡ true
unfolding is_in
is_in-take zero xs s h = cc
is_in-take (suc k) [] s h = cc
is_in-take (suc k) (x ∷ xs) s h = ground (arith, is_in-take k xs s)

take-IsDistinct : (k : ℕ) (xs : List String) → IsDistinct xs → IsDistinct (take k xs)
take-IsDistinct zero xs d = tt
take-IsDistinct (suc k) [] d = tt
take-IsDistinct (suc k) (x ∷ xs) d =
    (ground (arith, is_in-take k xs x, d.0), take-IsDistinct k xs d.1)

pub front-IsRandom : IsRandom front
front-IsRandom = record {
  draws_below_one = refl;
  members = λ i xs k s h. is_in-take k xs s;
  sizes = λ i xs k h. omega (arith, length-take k xs, h);
  distinct = λ i xs k h. take-IsDistinct k xs;
}

policy_runs : Unit {0}
unfolding Recency.apply Recency.run Recency.stamp last_uses Policy.create Policy.on_insert
    Policy.on_access Policy.on_remove Policy.victim Policy.clear Policy.size Policy.evicts
    Lru.on_insert Lru.on_access Lru.on_remove Lru.victim Lfu.on_insert Lfu.on_access Lfu.on_remove
    Lfu.victim Lfu.increment Lfu.counter Lfu.decayed Simple.on_insert Simple.on_remove Simple.victim
    KeySet.add KeySet.discard KeySet.sample KeySet.contains str_discrete is_in first_free all_free
    Dict.get Dict.put Lru.without Lfu.choose Lfu.least Lfu.min_by
policy_runs = tt

abbrev uses : List Use
uses = Recency.insert "a" ∷ Recency.insert "b" ∷ Recency.access "a" ∷ []

oldest : Lru.victim (Recency.run Lru.empty uses) [] ≡ some "b"
unfolding policy_runs
oldest = refl

abbrev warm : Lfu
warm = Lfu.on_insert front (Lfu.on_insert front Lfu.empty "a") "b"

victim_least_recent_example :
    (is_in (Recency.run Lru.empty uses).order "b" ≡ true)
    × (is_in ("c" ∷ []) "b" ≡ false)
    × ((s : String)
        → is_in (Recency.run Lru.empty uses).order s ≡ true
        → is_in ("c" ∷ []) s ≡ false
        → last_uses 1 (λ _. 0) uses "b" ≤ last_uses 1 (λ _. 0) uses s)
unfolding policy_runs
victim_least_recent_example = victim_least_recent uses ("c" ∷ []) "b" refl

warm-IsValid : Counters.IsValid warm
warm-IsValid =
    Counters.on_insert-IsValid front (Lfu.on_insert front Lfu.empty "a") "b"
      (Counters.on_insert-IsValid front Lfu.empty "a" (Counters.cleared-IsValid Lfu.empty))

lfu_victim_total_example :
    (o : Option String) × (Lfu.victim front warm ("a" ∷ []) ≡ ok o)
    × Victim.IsChoice front warm ("a" ∷ []) (Victim.candidates_of front warm ("a" ∷ [])) o
lfu_victim_total_example = Victim.lfu_victim_total front warm ("a" ∷ []) warm-IsValid front-IsRandom

-- Only protected keys are left, and then no key at all.
warm_runs :
    (Lfu.victim front warm ("a" ∷ []) ≡ ok (some "b"))
    × (Lfu.victim front warm ("a" ∷ "b" ∷ []) ≡ ok none)
unfolding policy_runs
warm_runs = (refl, refl)

unknown_policy : Policy.create "fifo" ≡ raise value_error
unfolding policy_runs
unknown_policy = refl

abbrev one : Dict ℕ
one = Dict.put [] "a" 1

abbrev tracked : Policy
tracked = Policy.on_insert front (random (record { keys = KeySet.empty })) "a"

tracked-IsTracking : IsTracking tracked one
unfolding policy_runs
tracked-IsTracking =
    on_insert-IsTracking front (random (record { keys = KeySet.empty })) [] "a" 1 refl
      (clear-IsTracking ℕ (random (record { keys = KeySet.empty })))

victim_total_example :
    (o : Option String) × (Policy.victim front tracked [] ≡ ok o) × IsVictim one [] o
unfolding policy_runs
victim_total_example = victim_total front tracked one [] front-IsRandom refl tracked-IsTracking

increment_bounds_example :
    (Lfu.increment front warm 255 ≤ Lfu.max_counter) × (Lfu.increment front warm 255 ≤ 255 + 1)
increment_bounds_example = Counters.increment_bounds front warm 255

-- ===== src/Eviction/Policy/Tracking.antt =====
-- A policy tracks exactly the keys of a dict. Every call that the store makes keeps that, and none
-- raises; this is the contract that the store uses.
use redis_like_data_storage.Prelude.{
  IsDistinct, subst, String, Option, none, some, List, [], true, false, ok, length, is_in,
  first_free, ◌≡◌, refl, arith, first_free-is_in, first_free-none, ap, sym, ◌∙◌,
}
use redis_like_data_storage.Prelude.Int.{pos, ◌+ℤ◌, ◌-ℤ◌}
use redis_like_data_storage.Dict
use redis_like_data_storage.Dict.{Dict, IsDict, has}
use redis_like_data_storage.Dict.Laws.{has-put, has-remove, has_of_get}
use redis_like_data_storage.Dict.Total.{length-put, length-remove}
use redis_like_data_storage.KeySet
use redis_like_data_storage.KeySet.Invariant
use redis_like_data_storage.KeySet.Sets.{add_inserts, discard_removes}
use redis_like_data_storage.Eviction.Env.{Env, IsRandom}
use redis_like_data_storage.Eviction.Lru
use redis_like_data_storage.Eviction.Lru.{
  is_in-without, without-IsDistinct, is_in-move_to_end, move_to_end-IsDistinct,
}
use redis_like_data_storage.Eviction.Lfu
use redis_like_data_storage.Eviction.Lfu.{Lfu}
use redis_like_data_storage.Eviction.Lfu.Counters
use redis_like_data_storage.Eviction.Lfu.Victim
use redis_like_data_storage.Eviction.Simple
use redis_like_data_storage.Eviction.Simple.{RandomPolicy}
use redis_like_data_storage.Eviction.Policy.{
  Policy, lru, lfu, random, noeviction, evicts, on_insert, on_access, on_remove, victim, clear,
  create,
}

module _ {V : Type 0} where
  abbrev pub IsTracking : Policy → Dict V → Type 0
  IsTracking (lru p) d = IsDistinct p.order × ((k : String) → is_in p.order k ≡ has d k)
  IsTracking (lfu p) d = Counters.IsValid p × ((k : String) → KeySet.contains p.keys k ≡ has d k)
  IsTracking (random p) d =
      Invariant.IsValid p.keys × ((k : String) → KeySet.contains p.keys k ≡ has d k)
  IsTracking (noeviction n) d = n ≡ pos (length d)

  pub on_insert-IsTracking :
      (env : Env) (p : Policy) (d : Dict V) (key : String) (v : V)
      → Dict.get d key ≡ none
      → IsTracking p d
      → IsTracking (on_insert env p key) (Dict.put d key v)
  unfolding on_insert Lru.on_insert Lfu.on_insert Simple.on_insert
  on_insert-IsTracking env (lru p) d key v new (distinct, same) = (
    move_to_end-IsDistinct p.order key distinct,
    λ k. ground (arith, is_in-move_to_end p.order key k distinct, has-put d key k v, same k),
  )
  on_insert-IsTracking env (lfu p) d key v new (valid, same) =
      let (_, has', _) = add_inserts key valid.keys_valid in
      (
        Counters.on_insert-IsValid env p key valid,
        λ k. ground (arith, has' k, has-put d key k v, same k),
      )
  on_insert-IsTracking env (random p) d key v new (valid, same) =
      let (valid', has', _) = add_inserts key valid in
      (valid', λ k. ground (arith, has' k, has-put d key k v, same k))
  on_insert-IsTracking env (noeviction n) d key v new count =
      rw count (unfold ◌+ℤ◌ in ground (arith, length-put d key v))

  -- A new value at a key that is there changes nothing for the policy.
  pub overwrite-IsTracking :
      (p : Policy) (d : Dict V) (key : String) (v w : V)
      → Dict.get d key ≡ some w
      → IsTracking p d
      → IsTracking p (Dict.put d key v)
  overwrite-IsTracking (lru p) d key v w old (distinct, same) =
      (distinct, λ k. ground (arith, has-put d key k v, has_of_get d key w old, same k))
  overwrite-IsTracking (lfu p) d key v w old (valid, same) =
      (valid, λ k. ground (arith, has-put d key k v, has_of_get d key w old, same k))
  overwrite-IsTracking (random p) d key v w old (valid, same) =
      (valid, λ k. ground (arith, has-put d key k v, has_of_get d key w old, same k))
  overwrite-IsTracking (noeviction n) d key v w old count =
      count ∙ ap pos (ground (arith, length-put d key v))

  pub on_access_total :
      (env : Env) (p : Policy) (d : Dict V) (key : String)
      → IsTracking p d
      → (p' : Policy) × (on_access env p key ≡ ok p') × IsTracking p' d
  unfolding on_access Lru.on_access
  on_access_total env (lru p) d key (distinct, same) = (
    lru (Lru.on_access p key),
    refl,
    (
      ground (arith, move_to_end-IsDistinct p.order key distinct),
      λ k. ground (arith, is_in-move_to_end p.order key k distinct, same k),
    ),
  )
  on_access_total env (lfu p) d key (valid, same) =
      let (p', result, valid', keys) = Counters.on_access_total env p key valid in
      (lfu p', rw result, (valid', λ k. ap (λ s. KeySet.contains s k) keys ∙ same k))
  on_access_total env (random p) d key t = (random p, refl, t)
  on_access_total env (noeviction n) d key t = (noeviction n, refl, t)

  pub on_remove_total :
      (p : Policy) (d : Dict V) (key : String) (v : V)
      → IsDict d
      → Dict.get d key ≡ some v
      → IsTracking p d
      → (p' : Policy) × (on_remove p key ≡ ok p') × IsTracking p' (Dict.remove d key)
  unfolding on_remove Lru.on_remove Simple.on_remove
  on_remove_total (lru p) d key v h old (distinct, same) = (
    lru (Lru.on_remove p key),
    refl,
    (
      without-IsDistinct key p.order distinct,
      λ k. ground (arith, is_in-without key p.order k distinct, has-remove d key k h, same k),
    ),
  )
  on_remove_total (lfu p) d key v h old (valid, same) =
      let (p', result, valid', has') = Counters.on_remove_total p key valid in
      (lfu p', rw result, (valid', λ k. ground (arith, has' k, has-remove d key k h, same k)))
  on_remove_total (random p) d key v h old (valid, same) =
      let (keys, result, valid', has', _) = discard_removes key valid in
      (
        random (record { keys = keys }),
        rw result,
        (valid', λ k. ground (arith, has' k, has-remove d key k h, same k)),
      )
  on_remove_total (noeviction n) d key v h old count =
      (noeviction (n -ℤ pos 1), refl, rw count (unfold ◌-ℤ◌ in ground (arith, length-remove d key)))

  -- A victim is a key of the dict outside `protect`, and there is one unless all are protected.
  abbrev pub IsVictim : Dict V → List String → Option String → Type 0
  IsVictim d protect none = (k : String) → has d k ≡ true → is_in protect k ≡ true
  IsVictim d protect (some k) = (has d k ≡ true) × (is_in protect k ≡ false)

  lru-IsVictim :
      (protect order : List String) (d : Dict V) (o : Option String)
      → ((k : String) → is_in order k ≡ has d k)
      → first_free protect order ≡ o
      → IsVictim d protect o
  lru-IsVictim protect order d none same e = λ k h. first_free-none protect order k e (same k ∙ h)
  lru-IsVictim protect order d (some k) same e =
      let (held, free) = first_free-is_in protect order k e in (sym (same k) ∙ held, free)

  lfu-IsVictim :
      (env : Env) (p : Lfu) (protect candidates : List String) (d : Dict V) (o : Option String)
      → ((k : String) → KeySet.contains p.keys k ≡ has d k)
      → Victim.IsChoice env p protect candidates o
      → IsVictim d protect o
  lfu-IsVictim env p protect candidates d none same c = λ k h. c k (same k ∙ h)
  lfu-IsVictim env p protect candidates d (some k) same (held, free, _) =
      (sym (same k) ∙ held, free)

  random-IsVictim :
      (p : RandomPolicy) (protect : List String) (d : Dict V) (o : Option String)
      → ((k : String) → KeySet.contains p.keys k ≡ has d k)
      → Simple.IsChoice p protect o
      → IsVictim d protect o
  random-IsVictim p protect d none same c = λ k h. c k (same k ∙ h)
  random-IsVictim p protect d (some k) same (held, free) = (sym (same k) ∙ held, free)

  -- A policy that evicts never raises when it is asked for a victim. It names a key of the dict
  -- outside `protect`, or no key if all keys are protected.
  pub victim_total :
      (env : Env) (p : Policy) (d : Dict V) (protect : List String)
      → IsRandom env
      → evicts p ≡ true
      → IsTracking p d
      → (o : Option String) × (victim env p protect ≡ ok o) × IsVictim d protect o
  unfolding victim evicts Lru.victim
  victim_total env (lru p) d protect r e (distinct, same) =
      (Lru.victim p protect, refl, lru-IsVictim protect p.order d (Lru.victim p protect) same refl)
  victim_total env (lfu p) d protect r e (valid, same) =
      let (o, result, c) = Victim.lfu_victim_total env p protect valid r in
      (o, result, lfu-IsVictim env p protect (Victim.candidates_of env p protect) d o same c)
  victim_total env (random p) d protect r e (valid, same) = (
    Simple.victim env p protect,
    refl,
    random-IsVictim p protect d (Simple.victim env p protect) same
        (Simple.victim-IsChoice env p protect valid r),
  )
  victim_total env (noeviction n) d protect r e t = cc

pub clear-IsTracking : (V : Type 0) (p : Policy) → IsTracking {V = V} (clear p) []
unfolding clear has Dict.get is_in KeySet.contains
clear-IsTracking V (lru p) = (tt, λ k. refl)
clear-IsTracking V (lfu p) = (Counters.cleared-IsValid p, λ k. refl)
clear-IsTracking V (random p) = (Invariant.empty-IsValid, λ k. refl)
clear-IsTracking V (noeviction n) = refl

-- What `create_policy` makes is as cleared.
clear-create : (name : String) (p : Policy) → create name ≡ ok p → clear p ≡ p
unfolding create clear
clear-create name p made = ground arith

-- What `create_policy` makes tracks the empty store.
pub create-IsTracking :
    (V : Type 0) (name : String) (p : Policy) → create name ≡ ok p → IsTracking {V = V} p []
create-IsTracking V name p made =
    subst (λ q. IsTracking {V = V} q []) (clear-create name p made) (clear-IsTracking V p)

-- ===== src/Eviction/Policy.antt =====
-- engine/eviction/__init__.py and base.py: one of the four policies, and the calls on it.
pub mod Tracking
use redis_like_data_storage.Prelude.{
  ℕ, String, Option, none, some, List, [], Bool, true, false, Result, ok, raise, value_error, ◌>>=◌,
  ite, str_discrete, length, ◌≡◌, refl, >>=-ok, arith,
}
use redis_like_data_storage.Prelude.Int.{ℤ, pos, ◌+ℤ◌, ◌-ℤ◌}
use redis_like_data_storage.KeySet
use redis_like_data_storage.Eviction.Env.{Env}
use redis_like_data_storage.Eviction.Lru
use redis_like_data_storage.Eviction.Lru.{Lru}
use redis_like_data_storage.Eviction.Lfu
use redis_like_data_storage.Eviction.Lfu.{Lfu}
use redis_like_data_storage.Eviction.Simple
use redis_like_data_storage.Eviction.Simple.{RandomPolicy}

-- `noeviction` holds its count.
pub data Policy : Type 0 where
  lru : Lru → Policy
  lfu : Lfu → Policy
  random : RandomPolicy → Policy
  noeviction : ℤ → Policy

unfoldable pub create : String → Result Policy
create name = ite (str_discrete name "lru") (ok (lru Lru.empty)) (
    ite (str_discrete name "lfu") (ok (lfu Lfu.empty)) (
      ite (str_discrete name "random") (ok (random (record { keys = KeySet.empty })))
        (ite (str_discrete name "noeviction") (ok (noeviction (pos 0))) (raise value_error))))

unfoldable pub evicts : Policy → Bool
evicts (noeviction n) = false
evicts _ = true

unfoldable pub on_insert : Env → Policy → String → Policy
on_insert env (lru p) key = lru (Lru.on_insert p key)
on_insert env (lfu p) key = lfu (Lfu.on_insert env p key)
on_insert env (random p) key = random (Simple.on_insert p key)
on_insert env (noeviction n) key = noeviction (n +ℤ pos 1)

unfoldable pub on_access : Env → Policy → String → Result Policy
on_access env (lru p) key = ok (lru (Lru.on_access p key))
on_access env (lfu p) key = do p' ← Lfu.on_access env p key; ok (lfu p')
on_access env (random p) key = ok (random p)
on_access env (noeviction n) key = ok (noeviction n)

unfoldable pub on_remove : Policy → String → Result Policy
on_remove (lru p) key = ok (lru (Lru.on_remove p key))
on_remove (lfu p) key = do p' ← Lfu.on_remove p key; ok (lfu p')
on_remove (random p) key = do p' ← Simple.on_remove p key; ok (random p')
on_remove (noeviction n) key = ok (noeviction (n -ℤ pos 1))

unfoldable pub victim : Env → Policy → List String → Result (Option String)
victim env (lru p) protect = ok (Lru.victim p protect)
victim env (lfu p) protect = Lfu.victim env p protect
victim env (random p) protect = ok (Simple.victim env p protect)
victim env (noeviction n) protect = ok none

unfoldable pub clear : Policy → Policy
clear (lru p) = lru Lru.empty
clear (lfu p) = lfu (record p { keys = KeySet.empty; meta = [] })
clear (random p) = random (record { keys = KeySet.empty })
clear (noeviction n) = noeviction (pos 0)

-- `len(policy)`
unfoldable pub size : Policy → ℤ
size (lru p) = pos (length p.order)
size (lfu p) = pos (length p.meta)
size (random p) = pos (length p.keys.items)
size (noeviction n) = n

pub evicts-on_insert :
    (env : Env) (p : Policy) (key : String) → evicts (on_insert env p key) ≡ evicts p
unfolding evicts on_insert
evicts-on_insert env (lru p) key = refl
evicts-on_insert env _ key = refl

pub evicts-on_access :
    (env : Env) (p p' : Policy) (key : String) → on_access env p key ≡ ok p' → evicts p' ≡ evicts p
unfolding evicts on_access
evicts-on_access env (lfu p) p' key h =
    let (q, _, e) = >>=-ok (λ q. ok (lfu q)) p' (Lfu.on_access env p key) h in ground arith
evicts-on_access env (lru p) p' key h = ground arith
evicts-on_access env (random p) p' key h = ground arith
evicts-on_access env (noeviction n) p' key h = ground arith

pub evicts-on_remove :
    (p p' : Policy) (key : String) → on_remove p key ≡ ok p' → evicts p' ≡ evicts p
unfolding evicts on_remove
evicts-on_remove (lfu p) p' key h =
    let (q, _, e) = >>=-ok (λ q. ok (lfu q)) p' (Lfu.on_remove p key) h in ground arith
evicts-on_remove (random p) p' key h =
    let (q, _, e) = >>=-ok (λ q. ok (random q)) p' (Simple.on_remove p key) h in ground arith
evicts-on_remove (lru p) p' key h = ground arith
evicts-on_remove (noeviction n) p' key h = ground arith

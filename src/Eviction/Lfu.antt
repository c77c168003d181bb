-- ===== src/Eviction/Lfu.antt =====
-- engine/eviction/lfu.py, `LFUPolicy`: a logarithmic counter per key that decays while the key is
-- idle. Minutes are integers in the code; a clock that has gone back makes the floor division
-- negative, which is written out.
pub mod Counters
pub mod Victim
use redis_like_data_storage.Prelude.{
  ℕ, zero, suc, ◌+◌, ◌-◌, ◌*◌, ◌/◌, ◌≤◌, ◌<◌, String, Option, none, some, List, [], ◌∷◌, Bool, true,
  false, if◌then◌else◌, ltb, leb, length, min, Result, ok, raise, key_error, ◌>>=◌, is_in, all_free,
}
use redis_like_data_storage.Dict
use redis_like_data_storage.Dict.{Dict}
use redis_like_data_storage.KeySet
use redis_like_data_storage.KeySet.{KeySet}
use redis_like_data_storage.Eviction.Env.{Env}

abbrev pub init_counter : ℕ
init_counter = 5

abbrev pub max_counter : ℕ
max_counter = 255

-- The counter and the minute of the last decrement.
pub record Meta : Type 0 where
  pub counter : ℕ
  pub last : ℕ

pub record Lfu : Type 0 where
  pub samples : ℕ
  pub log_factor : ℕ
  pub decay_minutes : ℕ
  pub keys : KeySet
  pub meta : Dict Meta

abbrev pub empty : Lfu
empty = record { samples = 10; log_factor = 10; decay_minutes = 1; keys = KeySet.empty; meta = [] }

-- `int(self._clock() // 60)`, from milliseconds.
abbrev pub minutes : Env → ℕ
minutes env = env.now / 60000

-- `max(0, counter - idle // decay)` with `idle = minutes - last`; for `minutes < last` the
-- quotient is minus the distance, divided and rounded up.
unfoldable pub decayed : ℕ → ℕ → Meta → ℕ
decayed decay now m =
    if ltb 0 decay
    then (if leb m.last now
        then m.counter - (now - m.last) / decay
        else m.counter + (m.last - now + decay - 1) / decay)
    else m.counter

unfoldable pub counter : Env → Lfu → String → Result ℕ
counter env p key = elim (Dict.get p.meta key) [
  | none ↦ raise key_error
  | some m ↦ ok (decayed p.decay_minutes (minutes env) m)
]

unfoldable pub increment : Env → Lfu → ℕ → ℕ
increment env p c =
    if leb max_counter c
    then max_counter
    else if env.draw ((c - init_counter) * p.log_factor + 1)
    then c + 1
    else c

unfoldable pub on_insert : Env → Lfu → String → Lfu
on_insert env p key = record p {
  keys = KeySet.add p.keys key;
  meta = Dict.put p.meta key (record { counter = init_counter; last = minutes env });
}

unfoldable pub on_access : Env → Lfu → String → Result Lfu
on_access env p key = elim (Dict.get p.meta key) [
  | none ↦ ok p
  | some _ ↦ do
    c ← counter env p key
    ok (record p {
      meta = Dict.put p.meta key (record { counter = increment env p c; last = minutes env });
    })
]

unfoldable pub on_remove : Lfu → String → Result Lfu
on_remove p key = elim (Dict.get p.meta key) [
  | none ↦ ok p
  | some _ ↦ do
    keys ← KeySet.discard p.keys key
    ok (record p { meta = Dict.remove p.meta key; keys = keys })
]

-- `min(candidates, key=self.counter)`: the first of the least.
unfoldable pub min_by : Env → Lfu → String → ℕ → List String → Result String
min_by env p best c [] = ok best
min_by env p best c (x ∷ xs) = do
  d ← counter env p x
  let better = min_by env p x d xs
  let same = min_by env p best c xs
  if ltb d c then better else same

unfoldable pub least : Env → Lfu → List String → Result (Option String)
least env p [] = ok none
least env p (x ∷ xs) = do c ← counter env p x; k ← min_by env p x c xs; ok (some k)

-- An unlucky sample falls back to all keys.
unfoldable pub choose : Env → Lfu → List String → List String → Result (Option String)
choose env p protect [] = least env p (all_free protect p.keys.items)
choose env p protect (x ∷ xs) = least env p (x ∷ xs)

unfoldable pub victim : Env → Lfu → List String → Result (Option String)
unfolding choose
victim env p protect =
    choose env p protect (all_free protect (KeySet.sample p.keys p.samples (env.sample 0)))

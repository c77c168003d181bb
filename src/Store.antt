-- ===== src/Store.antt =====
-- engine/store.py and engine/entry.py: the keyspace. A method takes what it reads of the world as
-- `env` and returns its result with the new store, or raises.
pub mod Interface
pub mod Keyspace
pub mod Consistent
pub mod Calls
pub mod Lookup
pub mod Writes
pub mod Limits
pub mod Snapshot
use redis_like_data_storage.Prelude.{
  ℕ, zero, suc, ◌+◌, ◌*◌, String, Option, none, some, List, [], ◌∷◌, ◌++◌, Bool, true, false, not,
  ◌&&◌, leb, ltb, ◌==◌, if◌then◌else◌, length, Result, ok, raise, key_error, ◌>>=◌, min, take, drop,
}
use redis_like_data_storage.Prelude.Int.{ℤ, pos, ◌+ℤ◌, ◌-ℤ◌, ltb_ℤ}
use redis_like_data_storage.Dict
use redis_like_data_storage.Dict.{Dict}
use redis_like_data_storage.KeySet
use redis_like_data_storage.KeySet.{KeySet}
use redis_like_data_storage.Eviction.Env.{Env}
use redis_like_data_storage.Eviction.Policy
use redis_like_data_storage.Eviction.Policy.{Policy}
use redis_like_data_storage.Store.Interface.{Values, Kind, string, same_kind, is_hollow}

-- Deadlines are in milliseconds, as `env.now`.
pub record Entry (V : Type 0) : Type 0 where
  pub value : V
  pub expires_at : Option ℕ
  pub size : ℤ
  pub copied : ℕ

-- `SnapshotRecord`: the payload of a record is the value, which the model never changes in place.
pub record Record (V : Type 0) : Type 0 where
  pub key : String
  pub payload : V
  pub deadline : Option ℕ

pub record Job (V : Type 0) : Type 0 where
  pub keys : List String
  pub pos : ℕ
  pub epoch : ℕ
  pub started_at : ℕ
  -- Whether an `on_done` was given.
  pub on_done : Bool
  pub records : List (Record V)

-- `expired_calls` and `done_calls` hold the calls made of `on_expire` and of `on_done`.
pub record Store (V : Type 0) : Type 0 where
  pub max_keys : ℕ
  pub maxmemory : ℕ
  pub eviction_enabled : Bool
  pub expiry_enabled : Bool
  pub expiry_deletes : Bool
  pub used_memory : ℤ
  pub expired_keys : ℕ
  pub evicted_keys : ℕ
  pub keyspace_hits : ℕ
  pub keyspace_misses : ℕ
  pub eviction : Policy
  pub entries : Dict (Entry V)
  pub volatile : KeySet
  pub snapshot_epoch : ℕ
  pub snapshot_job : Option (Job V)
  pub expired_calls : List String
  pub done_calls : List (List (Record V))

module _ {V : Type 0} where
  unfoldable pub init : Policy → ℕ → ℕ → Store V
  init eviction max_keys maxmemory = record {
    max_keys = max_keys;
    maxmemory = maxmemory;
    eviction_enabled = true;
    expiry_enabled = true;
    expiry_deletes = true;
    used_memory = pos 0;
    expired_keys = 0;
    evicted_keys = 0;
    keyspace_hits = 0;
    keyspace_misses = 0;
    eviction = eviction;
    entries = [];
    volatile = KeySet.empty;
    snapshot_epoch = 0;
    snapshot_job = none;
    expired_calls = [];
    done_calls = [];
  }

  unfoldable pub is_expired : Entry V → ℕ → Bool
  is_expired e now = elim e.expires_at [ none ↦ false | some t ↦ leb t now ]

  -- `_record`
  abbrev pub to_record : String → Entry V → Record V
  to_record key e = record { key = key; payload = e.value; deadline = e.expires_at }

  -- `SnapshotJob.take`, but for the stamp on the entry.
  unfoldable pub take_record : Job V → String → Entry V → Job V
  take_record job key e =
      if is_expired e job.started_at
      then job
      else record job { records = job.records ++ to_record key e ∷ [] }

  abbrev pub stamped : Job V → Entry V → Entry V
  stamped job e = record e { copied = job.epoch }

  -- `entry is not None and entry.copied != self.epoch`, and then `take`.
  unfoldable pub copy_once : Store V → Job V → String → Store V
  copy_once s job key = elim (Dict.get s.entries key) [
    | none ↦ s
    | some e ↦ if e.copied == job.epoch then s else record s {
      entries = Dict.put s.entries key (stamped job e);
      snapshot_job = some (take_record job key e);
    }
  ]

  unfoldable pub snapshot_barrier : Store V → String → Store V
  snapshot_barrier s key = elim s.snapshot_job [ none ↦ s | some job ↦ copy_once s job key ]

  -- `_remove`, from the `pop` on.
  unfoldable pub drop_entry : Store V → String → Result (Store V)
  drop_entry s key = elim (Dict.get s.entries key) [
    | none ↦ raise key_error
    | some e ↦ do
      volatile ← KeySet.discard s.volatile key
      eviction ← Policy.on_remove s.eviction key
      ok (record s {
        entries = Dict.remove s.entries key;
        used_memory = s.used_memory -ℤ e.size;
        volatile = volatile;
        eviction = eviction;
      })
  ]

  -- `_remove`
  unfoldable pub remove : Store V → String → Result (Store V)
  remove s key = drop_entry (snapshot_barrier s key) key

  -- `_expire`
  unfoldable pub expire : Store V → String → Result (Store V)
  expire s key = do
    s' ← remove s key
    ok (record s' {
      expired_keys = s'.expired_keys + 1;
      expired_calls = s'.expired_calls ++ key ∷ [];
    })

  -- `_lookup`
  unfoldable pub lookup : Env → Store V → String → Result (Option (Entry V) × Store V)
  lookup env s key = elim (Dict.get s.entries key) [
    | none ↦ ok (none, s)
    | some e ↦
        if s.expiry_enabled && is_expired e env.now
        then (if s.expiry_deletes then (do s' ← expire s key; ok (none, s')) else ok (none, s))
        else ok (some e, s)
  ]

-- ===== src/Store/Keyspace.antt =====
-- The reads and writes of engine/store.py.
use redis_like_data_storage.Prelude.{
  ℕ, ◌+◌, String, Option, none, some, Bool, true, false, if◌then◌else◌, Result, ok, ◌>>=◌,
}
use redis_like_data_storage.Prelude.Int.{ℤ, pos, ◌+ℤ◌, ◌-ℤ◌}
use redis_like_data_storage.Dict
use redis_like_data_storage.KeySet
use redis_like_data_storage.KeySet.{KeySet}
use redis_like_data_storage.Eviction.Env.{Env}
use redis_like_data_storage.Eviction.Policy
use redis_like_data_storage.Store.{Entry, Record, Store, lookup, remove}
use redis_like_data_storage.Store.Interface.{Values, Kind, string, same_kind, is_hollow}

module _ {V : Type 0} where
  -- `get`: counts hits and misses, and marks the key as used.
  unfoldable pub get : Env → Store V → String → Result (Option (Entry V) × Store V)
  get env s key = do
    (found, s') ← lookup env s key
    elim found [
      | none ↦ ok (none, record s' { keyspace_misses = s'.keyspace_misses + 1 })
      | some e ↦ do
        eviction ← Policy.on_access env s'.eviction key
        ok (some e, record s' { keyspace_hits = s'.keyspace_hits + 1; eviction = eviction })
    ]

  abbrev pub peek : Env → Store V → String → Result (Option (Entry V) × Store V)
  peek = lookup

  unfoldable pub delete : Env → Store V → String → Result (Bool × Store V)
  delete env s key = do
    (found, s') ← lookup env s key
    elim found [ none ↦ ok (false, s') | some _ ↦ do s'' ← remove s' key; ok (true, s'') ]

  unfoldable pub set_expiry : Env → Store V → String → ℕ → Result (Bool × Store V)
  set_expiry env s key expires_at = do
    (found, s') ← lookup env s key
    elim found [
      | none ↦ ok (false, s')
      | some e ↦ ok (
        true,
        record s' {
          entries = Dict.put s'.entries key (record e { expires_at = some expires_at });
          volatile = KeySet.add s'.volatile key;
        },
      )
    ]

  -- `persist`, once the key is found.
  unfoldable pub drop_deadline : Store V → String → Entry V → Result (Bool × Store V)
  drop_deadline s key e = elim e.expires_at [
    | none ↦ ok (false, s)
    | some _ ↦ do
      volatile ← KeySet.discard s.volatile key
      ok (
        true,
        record s {
          entries = Dict.put s.entries key (record e { expires_at = none });
          volatile = volatile;
        },
      )
  ]

  unfoldable pub persist : Env → Store V → String → Result (Bool × Store V)
  persist env s key = do
    (found, s') ← lookup env s key
    elim found [ none ↦ ok (false, s') | some e ↦ drop_deadline s' key e ]

-- `WrongTypeError` leaves the store as the lookup made it, so it is a reply beside the new store.
-- What is raised is a fault of the store's own.
pub data Typed {ℓ} (A : Type ℓ) : Type ℓ where
  reply : A → Typed A
  wrong_type : Typed A

-- `set`: a key that gets no deadline leaves the keys that have one.
unfoldable pub volatile_after : KeySet → String → Option ℕ → Result KeySet
volatile_after volatile key none = KeySet.discard volatile key
volatile_after volatile key (some t) = ok volatile

-- `ENTRY_OVERHEAD` of sizing.py
abbrev pub entry_overhead : ℕ
entry_overhead = 120

module _ (vs : Values) where
  open vs use {Value, kind, len, size, new, str_size}

  unfoldable pub entry_size : String → Value → ℤ
  entry_size key value = str_size key +ℤ pos entry_overhead +ℤ size value

  -- `_insert`
  unfoldable pub insert : Env → Store Value → String → Value → Store Value
  insert env s key value =
      let n = entry_size key value in
      record s {
        used_memory = s.used_memory +ℤ n;
        entries =
            Dict.put s.entries key
              (record { value = value; expires_at = none; size = n; copied = s.snapshot_epoch });
        eviction = Policy.on_insert env s.eviction key;
      }

  -- `set`, when the key had an entry: `expires_at` is the deadline that stays.
  unfoldable pub replace :
      Env → Store Value → String → Value → Entry Value → Option ℕ → Result (Store Value)
  replace env s key value old expires_at = do
    volatile ← volatile_after s.volatile key expires_at
    let n = entry_size key value
    eviction ← Policy.on_access env s.eviction key
    ok (record s {
      used_memory = s.used_memory -ℤ old.size +ℤ n;
      volatile = volatile;
      entries =
          Dict.put s.entries key (record {
            value = value;
            expires_at = expires_at;
            size = n;
            copied = s.snapshot_epoch;
          });
      eviction = eviction;
    })

  unfoldable pub set : Env → Store Value → String → Value → Bool → Result (Store Value)
  set env s key value keep_ttl = do
    (old, s') ← (if keep_ttl then lookup env s key else ok (Dict.get s.entries key, s))
    elim old [
      | none ↦ ok (insert env s' key value)
      | some e ↦ replace env s' key value e (if keep_ttl then e.expires_at else none)
    ]

  unfoldable pub read :
      Env → Store Value → String → Kind → Result (Typed (Option Value) × Store Value)
  read env s key k = do
    (found, s') ← get env s key
    elim found [
      | none ↦ ok (Typed.reply none, s')
      | some e ↦
          ok (
            if same_kind (kind e.value) k then Typed.reply (some e.value) else Typed.wrong_type,
            s',
          )
    ]

  -- `read_str`
  abbrev pub read_str : Env → Store Value → String → Result (Typed (Option Value) × Store Value)
  read_str env s key = read env s key string

  unfoldable pub write_target :
      Env → Store Value → String → Kind → Result (Typed Value × Store Value)
  write_target env s key k = do
    (found, s') ← lookup env s key
    elim found [
      | none ↦ ok (Typed.reply (new k), insert env s' key (new k))
      | some e ↦
          if same_kind (kind e.value) k
          then (do
            eviction ← Policy.on_access env s'.eviction key
            ok (Typed.reply e.value, record s' { eviction = eviction }))
          else ok (Typed.wrong_type, s')
    ]

  -- A command's change of the collection that `write_target` gave it: the entry keeps the size that
  -- it was accounted with, until `refresh`.
  unfoldable pub mutate : Store Value → String → Value → Store Value
  mutate s key value = elim (Dict.get s.entries key) [
    | none ↦ s
    | some e ↦ record s { entries = Dict.put s.entries key (record e { value = value }) }
  ]

  unfoldable pub refresh : Store Value → String → Result (Store Value)
  refresh s key = elim (Dict.get s.entries key) [
    | none ↦ ok s
    | some e ↦
        if is_hollow vs e.value
        then remove s key
        else (let n = entry_size key e.value in
            ok (record s {
              used_memory = s.used_memory +ℤ (n -ℤ e.size);
              entries = Dict.put s.entries key (record e { size = n });
            }))
  ]

  unfoldable pub load_record : Env → Store Value → Record Value → Result (Store Value)
  load_record env s r = do
    s' ← set env s r.key r.payload false
    elim r.deadline [ none ↦ ok s' | some t ↦ do (_, s'') ← set_expiry env s' r.key t; ok s'' ]

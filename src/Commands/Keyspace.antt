-- ===== src/Commands/Keyspace.antt =====
-- engine/commands/keyspace.py: the commands on keys of any type, but for KEYS, DUMP and RESTORE. A
-- handler takes the clock and the arguments, and runs on the engine. Times are in milliseconds, and a
-- deadline before the epoch, which only the load of a log can set, is the epoch.
pub mod Deletes
pub mod Told
pub mod Table
pub mod Late
use redis_like_data_storage.Prelude.{
  ℕ, zero, suc, ◌+◌, ◌-◌, ◌*◌, ◌/◌, String, Option, none, some, List, [], ◌∷◌, Bool, true, false,
  not, ◌&&◌, ◌||◌, ◌==◌, if◌then◌else◌, leb, length, map, is_in, Result, ok, raise, ◌>>=◌, Error,
  invalid_argument, index_error,
}
use redis_like_data_storage.Prelude.Int.{ℤ, pos, negsuc, ◌+ℤ◌, ◌*ℤ◌, pos_part, leb_ℤ}
use redis_like_data_storage.Eviction.Env.{Env}
use redis_like_data_storage.Store.{Store, Entry, lookup}
use redis_like_data_storage.Store.Interface.{Values, Kind}
use redis_like_data_storage.Store.Keyspace.{delete, set_expiry, persist}
use redis_like_data_storage.Store.Snapshot.{clear}
use redis_like_data_storage.Commands.Registry.{CommandSpec, key_arg, int_arg, single_key, all_keys}
use redis_like_data_storage.Engine.{
  Arg, text, number, Effect, Engine, Run, return, throw, follow, ◌>>-◌, on_store, propagate,
}

-- What a handler returns.
pub data Reply (V : Type 0) : Type 0 where
  nil : Reply V
  done : Reply V
  int : ℤ → Reply V
  value : V → Reply V
  kind_of : Option Kind → Reply V

module _ {V A : Type 0} where
  -- A reader of arguments, which raises before anything has changed.
  abbrev pub given : Result A → Run V A
  given r e = (r, e)

-- `args[i]`
unfoldable pub arg : List Arg → ℕ → Result Arg
arg [] i = raise index_error
arg (a ∷ args) zero = ok a
arg (a ∷ args) (suc i) = arg args i

-- `[key_arg(arg) for arg in args]`
unfoldable pub key_args : List Arg → Result (List String)
key_args [] = ok []
key_args (a ∷ args) = key_arg a >>= λ key. key_args args >>= λ keys. ok (key ∷ keys)

abbrev pub effect : String → List Arg → Effect
effect command args = record { command = command; args = args }

-- Whether FLUSHALL takes its arguments.
abbrev pub flush_option : (String → String) → List Arg → Bool
flush_option upper [] = true
flush_option upper (number n ∷ args) = false
flush_option upper (text s ∷ args) = is_in ("ASYNC" ∷ "SYNC" ∷ []) (upper s)

-- Milliseconds as seconds, a half rounded up.
abbrev pub to_seconds : ℤ → ℤ
to_seconds (negsuc n) = negsuc n
to_seconds (pos ms) = pos ((ms + 500) / 1000)

-- The arguments of the four commands that set a deadline; `read` is `int()` of a text.
unfoldable pub deadline_args : (String → Option ℤ) → List Arg → Result (String × ℤ)
unfolding arg int_arg
deadline_args read args =
    arg args 0 >>= λ a. key_arg a >>= λ key. arg args 1 >>= λ b. int_arg read b >>= λ n. ok (key, n)

module _ {V : Type 0} where
  -- `[key for key in keys if ctx.store.delete(key)]`
  unfoldable pub delete_keys : Env → List String → Run V (List String)
  delete_keys env [] e = (ok [], e)
  delete_keys env (key ∷ keys) e =
      (on_store (λ s. delete env s key) >>- λ there.
      delete_keys env keys >>- λ more. return (if there then key ∷ more else more))
        e

  -- The reply of `delete`, and its effect if there is one.
  abbrev pub deleted : List String → Run V (Reply V)
  deleted [] = return (int (pos 0))
  deleted (key ∷ keys) = propagate (effect "DEL" (map text (key ∷ keys))) >>- λ _.
      return (int (pos (length (key ∷ keys))))

  -- DEL and UNLINK
  unfoldable pub del : Env → List Arg → Run V (Reply V)
  unfolding delete_keys key_args
  del env args = given (key_args args) >>- λ keys. delete_keys env keys >>- deleted

  -- The number of the keys that `peek` finds.
  unfoldable pub count_there : Env → List String → Run V ℕ
  count_there env [] e = (ok 0, e)
  count_there env (key ∷ keys) e =
      (on_store (λ s. lookup env s key) >>- λ found.
      count_there env keys >>- λ n. return (elim found [ none ↦ n | some _ ↦ suc n ]))
        e

  -- EXISTS
  unfoldable pub exists : Env → List Arg → Run V (Reply V)
  unfolding count_there key_args
  exists env args =
      given (key_args args) >>- λ keys. count_there env keys >>- λ n. return (int (pos n))

  -- DBSIZE
  unfoldable pub dbsize : Env → List Arg → Run V (Reply V)
  dbsize env args e = (ok (int (pos (length e.store.entries))), e)

  -- `flush_all` of the engine.
  unfoldable pub flush_all : Run V (Unit {0})
  flush_all e = (ok tt, record e { store = clear e.store })

  -- FLUSHALL and FLUSHDB, where `upper` is `str.upper`.
  unfoldable pub flushall : (String → String) → Env → List Arg → Run V (Reply V)
  unfolding flush_all
  flushall upper env args e =
      if flush_option upper args
      then (flush_all >>- λ _. propagate (effect "FLUSHALL" []) >>- λ _. return done) e
      else (raise invalid_argument, e)

  -- `expire_at_ms`, for a key that is there, ...
  unfoldable pub set_deadline : Env → String → ℤ → Run V (Reply V)
  set_deadline env key at e =
      if leb_ℤ at (pos env.now) && not e.replaying
      then (on_store (λ s. delete env s key) >>- λ _.
            propagate (effect "DEL" (text key ∷ [])) >>- λ _. return (int (pos 1)))
          e
      else (on_store (λ s. set_expiry env s key (pos_part at)) >>- λ _.
            propagate (effect "PEXPIREAT" (text key ∷ number at ∷ [])) >>- λ _.
            return (int (pos 1)))
          e

  -- ... and for any.
  unfoldable pub expire_at_ms : Env → String → ℤ → Run V (Reply V)
  unfolding set_deadline
  expire_at_ms env key at = on_store (λ s. lookup env s key) >>- λ found. elim found [
    | none ↦ return (int (pos 0))
    | some _ ↦ set_deadline env key at
  ]

  -- PERSIST
  unfoldable pub persist_key : Env → List Arg → Run V (Reply V)
  unfolding arg
  persist_key env args = given (arg args 0 >>= key_arg) >>- λ key.
      on_store (λ s. persist env s key) >>- λ there.
      if there
      then (propagate (effect "PERSIST" (text key ∷ [])) >>- λ _. return (int (pos 1)))
      else return (int (pos 0))

  -- PTTL: -2 without a key, -1 without a deadline.
  abbrev pub time_left : ℕ → Option (Entry V) → ℤ
  time_left now none = negsuc 1
  time_left now (some entry) = elim entry.expires_at [ none ↦ negsuc 0 | some t ↦ pos (t - now) ]

  unfoldable pub pttl : Env → List Arg → Run V ℤ
  unfolding arg
  pttl env args = given (arg args 0 >>= key_arg) >>- λ key.
      on_store (λ s. lookup env s key) >>- λ found. return (time_left env.now found)

  -- TTL
  unfoldable pub ttl : Env → List Arg → Run V ℤ
  unfolding pttl
  ttl env args = pttl env args >>- λ ms. return (to_seconds ms)

  module _ (read : String → Option ℤ) where
    -- EXPIRE
    unfoldable pub expire : Env → List Arg → Run V (Reply V)
    unfolding expire_at_ms deadline_args
    expire env args = given (deadline_args read args) >>- λ (key, n).
        expire_at_ms env key (pos env.now +ℤ n *ℤ pos 1000)

    -- PEXPIRE
    unfoldable pub pexpire : Env → List Arg → Run V (Reply V)
    unfolding expire_at_ms deadline_args
    pexpire env args =
        given (deadline_args read args) >>- λ (key, n). expire_at_ms env key (pos env.now +ℤ n)

    -- EXPIREAT
    unfoldable pub expireat : Env → List Arg → Run V (Reply V)
    unfolding expire_at_ms deadline_args
    expireat env args =
        given (deadline_args read args) >>- λ (key, n). expire_at_ms env key (n *ℤ pos 1000)

    -- PEXPIREAT
    unfoldable pub pexpireat : Env → List Arg → Run V (Reply V)
    unfolding expire_at_ms deadline_args
    pexpireat env args = given (deadline_args read args) >>- λ (key, n). expire_at_ms env key n

-- TYPE
unfoldable pub type_of : (vs : Values) → Env → List Arg → Run vs.Value (Reply vs.Value)
unfolding arg
type_of vs env args = given (arg args 0 >>= key_arg) >>- λ key.
    on_store (λ s. lookup env s key) >>- λ found.
    return (elim found [ none ↦ kind_of none | some entry ↦ kind_of (some (vs.kind entry.value)) ])

-- The registrations.
abbrev pub write_spec : {V R : Type 0} → (Env → List Arg → Run V R) → CommandSpec V R
write_spec handler = record {
  handler = handler;
  min_args = 1;
  max_args = some 1;
  is_write = true;
  denyoom = false;
  key_spec = some single_key;
}

abbrev pub read_spec : {V R : Type 0} → (Env → List Arg → Run V R) → CommandSpec V R
read_spec handler = record (write_spec handler) { is_write = false }

module _ {V : Type 0} where
  abbrev pub del_spec : CommandSpec V (Reply V)
  del_spec = record (write_spec del) { max_args = none; key_spec = some all_keys }

  abbrev pub exists_spec : CommandSpec V (Reply V)
  exists_spec = record (read_spec exists) { max_args = none; key_spec = some all_keys }

  abbrev pub dbsize_spec : CommandSpec V (Reply V)
  dbsize_spec = record (read_spec dbsize) { min_args = 0; max_args = some 0; key_spec = none }

  abbrev pub flushall_spec : (String → String) → CommandSpec V (Reply V)
  flushall_spec upper = record (write_spec (flushall upper)) { min_args = 0; key_spec = none }

  abbrev pub persist_spec : CommandSpec V (Reply V)
  persist_spec = write_spec persist_key

  abbrev pub deadline_spec : (Env → List Arg → Run V (Reply V)) → CommandSpec V (Reply V)
  deadline_spec handler = record (write_spec handler) { min_args = 2; max_args = some 2 }

-- The entries of COMMANDS for those that change nothing but what they delete.
abbrev pub keyspace_table : {V : Type 0} → String → Option (CommandSpec V (Reply V))
keyspace_table command =
    if is_in ("DEL" ∷ "UNLINK" ∷ []) command
    then some del_spec
    else if is_in ("EXISTS" ∷ []) command
    then some exists_spec
    else if is_in ("DBSIZE" ∷ []) command
    then some dbsize_spec
    else none

-- ===== src/Engine/Execute.antt =====
-- engine/engine.py: `execute`, `_run` and `_apply`. `table name` is `COMMANDS.get(name.upper())`.
use redis_like_data_storage.Prelude.{
  ℕ, suc, String, Option, none, some, List, [], ◌∷◌, Bool, not, ◌&&◌, if◌then◌else◌, is_in, ok,
  raise, ◌>>=◌, unknown_command, wrong_arity, out_of_memory, persistence_error,
  persistence_write_error,
}
use redis_like_data_storage.Eviction.Env.{Env}
use redis_like_data_storage.Eviction.Policy
use redis_like_data_storage.Store.{Store, snapshot_barrier, lookup}
use redis_like_data_storage.Store.Interface.{Values}
use redis_like_data_storage.Store.Keyspace.{refresh}
use redis_like_data_storage.Store.Limits.{over_limit, evict_if_needed}
use redis_like_data_storage.Commands.Registry.{CommandSpec, check_arity, keys}
use redis_like_data_storage.Engine.{
  Arg, Run, return, ◌>>-◌, finally, on_store, announce, commit_unless_held,
}

-- `set(keys)`, in the order of the last occurrences.
unfoldable pub distinct : List String → List String
distinct [] = []
distinct (key ∷ more) = if is_in more key then distinct more else key ∷ distinct more

module _ {V : Type 0} where
  -- The barrier on each key of a write; without a snapshot there is nothing to do.
  unfoldable pub barrier : List String → Store V → Store V
  barrier [] s = s
  barrier (key ∷ more) s = barrier more (snapshot_barrier s key)

  -- Whether the persistence lets a write pass.
  unfoldable pub check_persistence : Bool → Run V (Unit {0})
  check_persistence is_write e = elim e.persistence [
    | none ↦ (ok tt, e)
    | some a ↦
        if not is_write
        then (ok tt, e)
        else if not a.is_open
        then (raise persistence_error, e)
        else if a.write_error
        then (raise persistence_write_error, e)
        else (ok tt, e)
  ]

  -- The number of keys that are not there, where `peek` may expire some.
  unfoldable pub count_new : Env → List String → Run V ℕ
  count_new env [] e = (ok 0, e)
  count_new env (key ∷ more) e =
      (on_store (λ s. lookup env s key) >>- λ found.
      count_new env more >>- λ n. return (elim found [ none ↦ suc n | some _ ↦ n ]))
        e

  unfoldable pub refuse_over : ℕ → Run V (Unit {0})
  refuse_over n e = if over_limit e.store n then (raise out_of_memory, e) else (ok tt, e)

  -- The refusal of a command that may add data, if the policy does not evict.
  unfoldable pub check_memory : Env → Bool → List String → Run V (Unit {0})
  unfolding count_new refuse_over
  check_memory env denyoom ks e =
      if denyoom && not (Policy.evicts e.store.eviction)
      then (count_new env (distinct ks) >>- refuse_over) e
      else (ok tt, e)

  -- The evictions behind a write, and their DELs.
  unfoldable pub evict : (ℕ → Env) → List String → Run V (Unit {0})
  evict envs ks e = (on_store (λ s. evict_if_needed envs s ks) >>- announce) e

module _ (vs : Values) where
  open vs use {Value}

  unfoldable pub refresh_all : List String → Run Value (Unit {0})
  refresh_all [] e = (ok tt, e)
  refresh_all (key ∷ more) e =
      (on_store (λ s. refresh vs s key >>= λ s'. ok (tt, s')) >>- λ _. refresh_all more) e

unfoldable pub count_processed : {V R : Type 0} → R → Run V R
count_processed result e =
    (commit_unless_held >>- λ _. return result)
      (record e { commands_processed = suc e.commands_processed })

module _ (vs : Values) {R : Type 0} where
  open vs use {Value}

  -- `_run`
  unfoldable pub run : Env → CommandSpec Value R → List Arg → List String → Run Value R
  unfolding refresh_all
  run env spec args ks e =
      if spec.is_write
      then finally (refresh_all vs ks) (spec.handler env args e)
      else spec.handler env args e

  -- What `execute` does behind the handler, ...
  unfoldable pub finish : (ℕ → Env) → CommandSpec Value R → List String → R → Run Value R
  unfolding evict count_processed
  finish envs spec ks result =
      (if spec.is_write then evict envs ks else return tt) >>- λ _. count_processed result

  -- ... behind the barrier, ...
  unfoldable pub perform :
      Env → (ℕ → Env) → CommandSpec Value R → List Arg → List String → Run Value R
  unfolding run check_memory finish
  perform env envs spec args ks =
      check_memory env spec.denyoom ks >>- λ _. run env spec args ks >>- finish envs spec ks

  -- ... and behind the arity.
  unfoldable pub execute_spec :
      Env → (ℕ → Env) → CommandSpec Value R → List Arg → List String → Run Value R
  unfolding perform check_persistence barrier
  execute_spec env envs spec args ks = check_persistence spec.is_write >>- λ _. λ e.
      perform env envs spec args ks
        (if spec.is_write then record e { store = barrier ks e.store } else e)

  unfoldable pub execute :
      (String → Option (CommandSpec Value R)) → Env → (ℕ → Env) → String → List Arg → Run Value R
  unfolding execute_spec
  execute table env envs command args e = elim (table command) [
    | none ↦ (raise unknown_command, e)
    | some spec ↦
        if check_arity spec args
        then execute_spec env envs spec args (keys spec args) e
        else (raise wrong_arity, e)
  ]

  -- `_apply`
  unfoldable pub apply :
      (String → Option (CommandSpec Value R)) → Env → String → List Arg → Run Value R
  unfolding run
  apply table env command args e = elim (table command) [
    | none ↦ (raise unknown_command, e)
    | some spec ↦
        if check_arity spec args
        then run env spec args (keys spec args) e
        else (raise wrong_arity, e)
  ]

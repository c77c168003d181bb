-- ===== src/Engine/Replica.antt =====
-- engine/engine.py: `apply_replicated` and the load of a full resync.
pub mod Alone
use redis_like_data_storage.Prelude.{
  String, Option, none, some, List, Bool, false, if◌then◌else◌, ok, raise, unknown_command,
  wrong_arity,
}
use redis_like_data_storage.Eviction.Env.{Env}
use redis_like_data_storage.Store.Interface.{Values}
use redis_like_data_storage.Commands.Registry.{CommandSpec, check_arity, keys}
use redis_like_data_storage.Engine.{Arg, Engine, Run, ◌>>-◌, finally, commit_unless_held}
use redis_like_data_storage.Engine.Execute.{barrier, run}

-- `expiry_enabled` while the stream is applied, and back.
abbrev pub set_expiry_enabled : {V : Type 0} → Bool → Engine V → Engine V
set_expiry_enabled b e = record e { store = record e.store { expiry_enabled = b } }

module _ (vs : Values) {R : Type 0} where
  open vs use {Value}

  unfoldable pub run_unexpired : Env → CommandSpec Value R → List Arg → List String → Run Value R
  unfolding run
  run_unexpired env spec args ks e =
      finally (λ e'. (ok tt, set_expiry_enabled e.store.expiry_enabled e'))
        (run vs env spec args ks (set_expiry_enabled false e))

  unfoldable pub apply_replicated :
      (String → Option (CommandSpec Value R)) → Env → String → List Arg → Run Value (Unit {0})
  unfolding run_unexpired barrier
  apply_replicated table env command args e = elim (table command) [
    | none ↦ (raise unknown_command, e)
    | some spec ↦
        if check_arity spec args
        then (run_unexpired env spec args (keys spec args) >>- λ _. commit_unless_held)
            (record e { store = barrier (keys spec args) e.store })
        else (raise wrong_arity, e)
  ]

-- ===== src/Engine/Effects/Told.antt =====
-- engine/engine.py, `execute`: what it does to the keyspace is what it logs and sends.
use redis_like_data_storage.Prelude.{
  ℕ, String, Option, some, List, [], ◌≡◌, Bool-cases, Option-cases, inl, inr, if◌then◌else◌, Bool,
}
use redis_like_data_storage.Eviction.Env.{Env, IsRandom}
use redis_like_data_storage.Store.Interface.{Values}
use redis_like_data_storage.Commands.Registry.{CommandSpec, check_arity, keys}
use redis_like_data_storage.Engine.{Arg, Effect, Engine, return, ◌>>-◌}
use redis_like_data_storage.Engine.Execute.{
  barrier, check_persistence, check_memory, evict, run, count_processed, finish, perform,
  execute_spec, execute,
}
use redis_like_data_storage.Engine.Effects.{Contents, without, del, IsWorking, IsStep, IsSound}
use redis_like_data_storage.Engine.Effects.Steps.{IsStep-[]}
use redis_like_data_storage.Engine.Effects.Faithful.{
  IsFaithful, then-IsFaithful, IsTold-behind, check_persistence-IsFaithful, check_memory-IsFaithful,
  count_processed-IsFaithful, evict_written-IsFaithful, barrier_written-IsStep,
}

module _ {R : Type 0} (vs : Values) (hollow : vs.Value → Bool)
    (step : Effect → Contents vs.Value → Contents vs.Value)
    (step-del : (key : String) (c : Contents vs.Value) → step (del key) c ≡ without key c) where
  open vs use {Value}

  finish-IsFaithful :
      (envs : ℕ → Env) (spec : CommandSpec Value R) (ks : List String) (result : R)
      → ((i : ℕ) → IsRandom (envs i))
      → IsFaithful hollow step step-del (finish vs envs spec ks result)
  unfolding finish
  finish-IsFaithful envs spec ks result r =
      then-IsFaithful hollow step step-del (if spec.is_write then evict envs ks else return tt)
        (λ _. count_processed result)
        (evict_written-IsFaithful hollow step step-del envs ks spec.is_write r)
        (λ _. count_processed-IsFaithful hollow step step-del result)

  perform-IsFaithful :
      (env : Env) (envs : ℕ → Env) (spec : CommandSpec Value R) (args : List Arg) (ks : List String)
      → ((i : ℕ) → IsRandom (envs i))
      → IsFaithful hollow step step-del (run vs env spec args ks)
      → IsFaithful hollow step step-del (perform vs env envs spec args ks)
  unfolding perform
  perform-IsFaithful env envs spec args ks r runs =
      then-IsFaithful hollow step step-del (check_memory env spec.denyoom ks)
        (λ _. run vs env spec args ks >>- finish vs envs spec ks)
        (check_memory-IsFaithful hollow step step-del env spec.denyoom ks)
        (λ _.
          then-IsFaithful hollow step step-del (run vs env spec args ks) (finish vs envs spec ks)
            runs (λ result. finish-IsFaithful envs spec ks result r))

  execute_spec-IsFaithful :
      (env : Env) (envs : ℕ → Env) (spec : CommandSpec Value R) (args : List Arg) (ks : List String)
      → ((i : ℕ) → IsRandom (envs i))
      → IsFaithful hollow step step-del (run vs env spec args ks)
      → IsFaithful hollow step step-del (execute_spec vs env envs spec args ks)
  unfolding execute_spec
  execute_spec-IsFaithful env envs spec args ks r runs =
      then-IsFaithful hollow step step-del (check_persistence spec.is_write)
        (λ _. λ e. perform vs env envs spec args ks (prepared e))
        (check_persistence-IsFaithful hollow step step-del spec.is_write)
        (λ _. λ e w c.
          IsTold-behind hollow step step-del e (prepared e) [] (perform vs env envs spec args ks)
            (barrier_written-IsStep hollow step step-del ks spec.is_write e w c)
            (perform-IsFaithful env envs spec args ks r runs))
    where
      prepared : Engine Value → Engine Value
      prepared e = if spec.is_write then record e { store = barrier ks e.store } else e

  -- `execute` of commands whose `_run` logs and sends what it does.
  pub execute_told :
      (table : String → Option (CommandSpec Value R)) (env : Env) (envs : ℕ → Env)
      (command : String) (args : List Arg) (e : Engine Value)
      → ((i : ℕ) → IsRandom (envs i))
      → ((spec : CommandSpec Value R)
          → table command ≡ some spec
          → IsFaithful hollow step step-del (run vs env spec args (keys spec args)))
      → IsWorking e
      → IsSound hollow e.store
      → (es : List Effect) × IsStep hollow step e es (execute vs table env envs command args e).1
  unfolding execute
  execute_told table env envs command args e r runs w c = elim (Option-cases (table command)) [
    | inl unknown ↦ rw (unknown, execute) ([], IsStep-[] hollow step step-del e w c)
    | inr (spec, known) ↦ elim (Bool-cases (check_arity spec args)) [
      | inl fits ↦
          rw (known, execute)
            (rw (fits, execute)
              (execute_spec-IsFaithful env envs spec args (keys spec args) r (runs spec known) e w
                c))
      | inr wrong ↦
          rw (known, execute) (rw (wrong, execute) ([], IsStep-[] hollow step step-del e w c))
    ]
  ]

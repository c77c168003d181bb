-- ===== src/Commands/Keyspace/Table.antt =====
-- engine/engine.py, `execute` on commands of engine/commands/keyspace.py: `_run`, whose refreshes drop
-- no key of a keyspace that keeps no empty collection.
use mathlib.Core.Path.{fun_ext}
use redis_like_data_storage.Prelude.{
  ℕ, String, Option, none, some, List, [], ◌∷◌, Bool, true, false, map, ◌≡◌, refl, ap, sym, ◌∙◌,
  subst, arith, is_in, Result, ok, raise, ◌>>=◌, if◌then◌else◌, Bool-cases, ◌⊎◌, inl, inr,
}
use redis_like_data_storage.Dict
use redis_like_data_storage.Eviction.Env.{Env, IsRandom}
use redis_like_data_storage.Store.{Store, Entry}
use redis_like_data_storage.Store.Interface.{Values, is_hollow}
use redis_like_data_storage.Store.Keyspace.{refresh}
use redis_like_data_storage.Store.Writes.Targets.{refresh_total, refreshed, IsRefreshed}
use redis_like_data_storage.Store.Calls.{calls-refresh}
use redis_like_data_storage.Commands.Registry.{CommandSpec, keys}
use redis_like_data_storage.Commands.Keyspace.{
  Reply, effect, del_spec, exists_spec, dbsize_spec, keyspace_table,
}
use redis_like_data_storage.Commands.Keyspace.Deletes.{minus}
use redis_like_data_storage.Commands.Keyspace.Told.{
  step-del, exists-IsFaithful, del-IsFaithful, dbsize-IsFaithful,
}
use redis_like_data_storage.Engine.{Arg, text, Effect, Engine, Run, finally, instead, on_store}
use redis_like_data_storage.Engine.Execute.{refresh_all, run, execute}
use redis_like_data_storage.Engine.Effects.{
  Contents, content, contents, contents-view, without, del, replay, IsWorking, IsFull, IsSound,
  IsStep,
}
use redis_like_data_storage.Engine.Effects.Steps.{quiet, quiet-IsConsistent, on_store_steps}
use redis_like_data_storage.Engine.Effects.Faithful.{
  IsFaithful, IsTold, then-IsFaithful, return-IsFaithful, IsTold-by, IsTold-behind,
}
use redis_like_data_storage.Engine.Effects.Told.{execute_told}

module _ (vs : Values) (step : Effect → Contents vs.Value → Contents vs.Value)
    (step-del : (key : String) (c : Contents vs.Value) → step (del key) c ≡ without key c) where
  open vs use {Value}

  abbrev Faithful : {A : Type 0} → Run Value A → Type 0
  Faithful m = IsFaithful (is_hollow vs) step step-del m

  -- What a refresh leaves of an entry is the same to the user.
  content-refreshed :
      (key : String) (o : Option (Entry Value))
      → ((v : Value) (t : Option ℕ) → content o ≡ some (v, t) → is_hollow vs v ≡ false)
      → content (refreshed vs key o) ≡ content o
  content-refreshed key none h = refl
  content-refreshed key (some x) h = ground (arith, h x.value x.expires_at refl)

  refreshed_contents :
      (s s' : Store Value) (key : String)
      → IsRefreshed vs s key s'
      → IsFull (is_hollow vs) (contents s)
      → contents s' ≡ contents s
  unfolding contents
  refreshed_contents s s' key (c, views) v = fun_ext (λ k.
      contents-view s' k
      ∙ ap content (views k)
      ∙ ground (arith, content-refreshed key (Dict.get s.entries k) (v k), contents-view s k))

  refresh_all-IsFaithful : (ks : List String) → Faithful (refresh_all vs ks)
  unfolding refresh_all contents replay
  refresh_all-IsFaithful [] = return-IsFaithful (is_hollow vs) step step-del tt
  refresh_all-IsFaithful (key ∷ ks) =
      then-IsFaithful (is_hollow vs) step step-del
        (on_store (λ s. refresh vs s key >>= λ s'. ok (tt, s'))) (λ _. refresh_all vs ks)
        (refresh-IsFaithful key) (λ _. refresh_all-IsFaithful ks)
    where
      refresh-IsFaithful :
          (key : String) → Faithful (on_store (λ s. refresh vs s key >>= λ s'. ok (tt, s')))
      refresh-IsFaithful key e w (c, v) =
          let (s', done, r) = refresh_total vs (quiet e.store) key (quiet-IsConsistent e.store c) in
          let same = refreshed_contents (quiet e.store) s' key r v in
          let calls = calls-refresh vs (quiet e.store) s' key done in
          let (e', ran, i, _) =
            on_store_steps (is_hollow vs) step step-del
              (λ s. refresh vs s key >>= λ s'. ok (tt, s')) tt s' e w (rw done refl) r.0
              (same ∙ sym (ap (λ ks. replay step (map del ks) (contents e.store)) calls)) v in
          IsTold-by (is_hollow vs) step step-del tt e e'
            (on_store (λ s. refresh vs s key >>= λ s'. ok (tt, s')) e) (map del s'.expired_calls)
            ran i

  instead-IsTold :
      {A : Type 0} (e : Engine Value) (r : Result A) (out : Result (Unit {0}) × Engine Value)
      → IsTold (is_hollow vs) step step-del e out
      → IsTold (is_hollow vs) step step-del e (instead r out)
  instead-IsTold e r (raise error, e') told = told
  instead-IsTold e r (ok _, e') told = told

  finally-IsTold :
      {A : Type 0} (e : Engine Value) (m : Run Value (Unit {0})) (r : Result A × Engine Value)
      → IsTold (is_hollow vs) step step-del e r
      → Faithful m
      → IsTold (is_hollow vs) step step-del e (finally m r)
  finally-IsTold e m (r, e₁) (es, i) h =
      instead-IsTold e r (m e₁) (IsTold-behind (is_hollow vs) step step-del e e₁ es m i h)

  -- A handler that logs and sends what it does, and leaves no empty collection, does so as a command.
  pub run-IsFaithful :
      {R : Type 0} (env : Env) (spec : CommandSpec Value R) (args : List Arg) (ks : List String)
      → Faithful (spec.handler env args)
      → Faithful (run vs env spec args ks)
  unfolding run
  run-IsFaithful env spec args ks h e w c = elim (Bool-cases spec.is_write) [
    | inl writes ↦
        rw (writes, run)
          (finally-IsTold e (refresh_all vs ks) (spec.handler env args e) (h e w c)
            (refresh_all-IsFaithful ks))
    | inr reads ↦ rw (reads, run) (h e w c)
  ]

module _ (vs : Values) (step : Effect → Contents vs.Value → Contents vs.Value)
    (step-dels : (ks : List String) (c : Contents vs.Value)
      → step (effect "DEL" (map text ks)) c ≡ minus ks c) where
  open vs use {Value}

  abbrev Told : CommandSpec Value (Reply Value) → Env → List Arg → List String → Type 0
  Told spec env args ks =
      IsFaithful (is_hollow vs) step (step-del (is_hollow vs) step step-dels)
        (run vs env spec args ks)

  picked :
      (a b c : Bool) (spec : CommandSpec Value (Reply Value))
      → (if a
          then some del_spec
          else if b
          then some exists_spec
          else if c
          then some dbsize_spec
          else none)
        ≡ some spec
      → (del_spec ≡ spec) ⊎ (exists_spec ≡ spec) ⊎ (dbsize_spec ≡ spec)
  picked true b c spec e = inl cc
  picked false true c spec e = inr (inl cc)
  picked false false true spec e = inr (inr cc)
  picked false false false spec e = cc

  keyspace_table-IsFaithful :
      (env : Env) (command : String) (args : List Arg) (ks : List String)
      (spec : CommandSpec Value (Reply Value))
      → keyspace_table command ≡ some spec
      → Told spec env args ks
  keyspace_table-IsFaithful env command args ks spec e =
      let one = step-del (is_hollow vs) step step-dels in
      elim (picked (is_in ("DEL" ∷ "UNLINK" ∷ []) command) (is_in ("EXISTS" ∷ []) command)
        (is_in ("DBSIZE" ∷ []) command) spec e) [
          | inl same ↦
              subst (λ x. Told x env args ks) same
                (run-IsFaithful vs step one env del_spec args ks
                  (del-IsFaithful (is_hollow vs) step step-dels env args))
          | inr (inl same) ↦
              subst (λ x. Told x env args ks) same
                (run-IsFaithful vs step one env exists_spec args ks
                  (exists-IsFaithful (is_hollow vs) step one env args))
          | inr (inr same) ↦
              subst (λ x. Told x env args ks) same
                (run-IsFaithful vs step one env dbsize_spec args ks
                  (dbsize-IsFaithful (is_hollow vs) step step-dels env args))
        ]

  -- On an engine that is not loading, with an open log, a disk that works and replicas, whose store
  -- keeps its invariants and no empty collection, whatever `execute` of DEL, UNLINK, EXISTS, DBSIZE
  -- or an unknown command returns or raises, the log and the stream have got the same effects, to
  -- replay these on the keyspace before gives the keyspace after, with the keys that were deleted,
  -- expired or evicted on the way, and all this holds of the engine again. The replay is any that
  -- takes away exactly the keys of a DEL.
  pub execute_keyspace_told :
      (env : Env) (envs : ℕ → Env) (command : String) (args : List Arg) (e : Engine Value)
      → ((i : ℕ) → IsRandom (envs i))
      → IsWorking e
      → IsSound (is_hollow vs) e.store
      → (es : List Effect) × IsStep
          (is_hollow vs)
          step
          e
          es
          (execute vs keyspace_table env envs command args e).1
  execute_keyspace_told env envs command args e r w c =
      execute_told vs (is_hollow vs) step (step-del (is_hollow vs) step step-dels) keyspace_table
        env envs command args e r
        (λ spec known. keyspace_table-IsFaithful env command args (keys spec args) spec known) w c

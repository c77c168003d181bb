-- ===== src/Commands/Keyspace/Told.antt =====
-- engine/commands/keyspace.py: handlers that log and send what they do.
use mathlib.Core.List.{append_assoc}
use mathlib.Core.Path.{fun_ext}
use redis_like_data_storage.Prelude.{
  ℕ, suc, String, none, some, List, [], ◌∷◌, ◌++◌, Bool, map, ◌≡◌, refl, ap, sym, ◌∙◌, subst, arith,
  is_in, length, Result, if◌then◌else◌,
}
use redis_like_data_storage.Prelude.Int.{pos}
use redis_like_data_storage.Eviction.Env.{Env}
use redis_like_data_storage.Store.{lookup}
use redis_like_data_storage.Commands.Keyspace
use redis_like_data_storage.Commands.Keyspace.{
  given, key_args, count_there, exists, int, Reply, delete_keys, deleted, dbsize, effect,
}
use redis_like_data_storage.Commands.Keyspace.Deletes.{minus, IsOwing, delete_keys_owes}
use redis_like_data_storage.Engine.{Arg, text, Effect, Engine, return, follow, ◌>>-◌, on_store}
use redis_like_data_storage.Engine.Effects.{
  Contents, contents, without, del, replay, replay-dels, replay-append, IsFull, IsSound, logged,
  streamed,
}
use redis_like_data_storage.Engine.Effects.Log.{propagate_logs}
use redis_like_data_storage.Engine.Effects.Steps.{look_steps, IsStep-[]}
use redis_like_data_storage.Engine.Effects.Faithful.{
  IsFaithful, IsTold, then-IsFaithful, return-IsFaithful, IsTold-by, IsTold-same,
}

module _ {V : Type 0} (hollow : V → Bool) (step : Effect → Contents V → Contents V)
    (step-del : (key : String) (c : Contents V) → step (del key) c ≡ without key c) where
  given-IsFaithful : {A : Type 0} (r : Result A) → IsFaithful hollow step step-del (given {V = V} r)
  given-IsFaithful r e w c = ([], IsStep-[] hollow step step-del e w c)

  peek-IsFaithful :
      (env : Env) (key : String)
      → IsFaithful hollow step step-del (on_store (λ s. lookup env s key))
  peek-IsFaithful env key e w c =
      let (o, es, e', result, i) = look_steps hollow step step-del env key e w c in
      IsTold-by hollow step step-del o e e' (on_store (λ s. lookup env s key) e) es result i

  count_there-IsFaithful :
      (env : Env) (ks : List String) → IsFaithful hollow step step-del (count_there {V = V} env ks)
  unfolding count_there
  count_there-IsFaithful env [] = return-IsFaithful hollow step step-del {A = ℕ} 0
  count_there-IsFaithful env (key ∷ ks) =
      then-IsFaithful hollow step step-del (on_store (λ s. lookup env s key))
        (λ found. count_there env ks >>- λ n. return (elim found [ none ↦ n | some _ ↦ suc n ]))
        (peek-IsFaithful env key)
        (λ found.
          then-IsFaithful hollow step step-del (count_there env ks)
            (λ n. return (elim found [ none ↦ n | some _ ↦ suc n ])) (count_there-IsFaithful env ks)
            (λ n.
              return-IsFaithful hollow step step-del (elim found [ none ↦ n | some _ ↦ suc n ])))

  pub exists-IsFaithful :
      (env : Env) (args : List Arg) → IsFaithful hollow step step-del (exists env args)
  unfolding exists
  exists-IsFaithful env args =
      then-IsFaithful hollow step step-del (given (key_args args))
        (λ ks. count_there env ks >>- λ n. return (int (pos n))) (given-IsFaithful (key_args args))
        (λ ks.
          then-IsFaithful hollow step step-del (count_there env ks) (λ n. return (int (pos n)))
            (count_there-IsFaithful env ks)
            (λ n. return-IsFaithful hollow step step-del {A = Reply V} (int (pos n))))

module _ {V : Type 0} (hollow : V → Bool) (step : Effect → Contents V → Contents V)
    (step-dels : (ks : List String) (c : Contents V)
      → step (effect "DEL" (map text ks)) c ≡ minus ks c) where
  pub step-del : (key : String) (c : Contents V) → step (del key) c ≡ without key c
  unfolding is_in without
  step-del key c = step-dels (key ∷ []) c ∙ fun_ext (λ k. ground arith)

  -- Keys that are gone or taken leave no empty collection.
  IsFull-left :
      (e e' : Engine V) (gone taken : List String)
      → IsOwing hollow e gone taken e'
      → IsFull hollow (contents e.store)
      → IsFull hollow (contents e'.store)
  IsFull-left e e' gone taken o h k v t found = h k v t (ground (arith, o.left k, found))

  -- What is owed after a deletion is sent.
  deleted-IsTold :
      (e e₁ : Engine V) (gone taken : List String)
      → IsOwing hollow e gone taken e₁
      → IsSound hollow e.store
      → IsTold hollow step step-del e (deleted taken e₁)
  unfolding is_in replay
  deleted-IsTold e e₁ gone [] o (c, v) = (
    map del gone,
    record {
      working = o.working;
      sound = (o.consistent, IsFull-left e e₁ gone [] o v);
      log = o.log;
      stream = o.stream;
      told = fun_ext (λ k. o.left k ∙ sym (replay-dels step step-del gone (contents e.store) k));
    },
  )
  deleted-IsTold e e₁ gone (key ∷ ks) o (c, v) =
      let taken = key ∷ ks in
      let x = effect "DEL" (map text taken) in
      let (e', sent, l) = propagate_logs x e₁ o.working in
      IsTold-by hollow step step-del (int (pos (length taken))) e e' (deleted taken e₁)
        (map del gone ++ x ∷ []) (ap (follow (λ _. return (int (pos (length taken))))) sent)
        (record {
          working = l.working;
          sound =
              subst (λ s. IsSound hollow s) (sym l.store)
                (o.consistent, IsFull-left e e₁ gone taken o v);
          log =
              l.log
              ∙ ap (λ xs. xs ++ x ∷ []) o.log
              ∙ append_assoc (logged e.persistence) (map del gone) (x ∷ []);
          stream =
              l.stream
              ∙ ap (λ xs. xs ++ x ∷ []) o.stream
              ∙ append_assoc (streamed e.replication) (map del gone) (x ∷ []);
          told =
              ap contents l.store
              ∙ fun_ext (λ k.
                o.left k
                ∙ ap (λ o. if is_in taken k then none else o)
                    (sym (replay-dels step step-del gone (contents e.store) k)))
              ∙ sym (step-dels taken (replay step (map del gone) (contents e.store)))
              ∙ sym (replay-append step (map del gone) (x ∷ []) (contents e.store));
        })

  -- DEL and UNLINK
  pub del-IsFaithful :
      (env : Env) (args : List Arg) → IsFaithful hollow step step-del (Keyspace.del env args)
  unfolding Keyspace.del
  del-IsFaithful env args =
      then-IsFaithful hollow step step-del (given (key_args args))
        (λ ks. delete_keys env ks >>- deleted)
        (given-IsFaithful hollow step step-del (key_args args))
        (λ ks. λ e w c.
          let (taken, gone, e₁, ran, o) = delete_keys_owes hollow step step-del env ks e w c.0 in
          subst (λ r. IsTold hollow step step-del e r) (sym (ap (follow deleted) ran))
            (deleted-IsTold e e₁ gone taken o c))

  pub dbsize-IsFaithful :
      (env : Env) (args : List Arg) → IsFaithful hollow step step-del (dbsize env args)
  unfolding dbsize
  dbsize-IsFaithful env args e w c = IsTold-same hollow step step-del e (dbsize env args e) w c refl

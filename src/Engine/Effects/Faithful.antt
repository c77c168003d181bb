-- ===== src/Engine/Effects/Faithful.antt =====
-- engine/engine.py: methods that log and send what they do to the keyspace, and the parts of `execute`.
use redis_like_data_storage.Prelude.{
  ℕ, suc, String, List, [], ◌∷◌, ◌++◌, Bool, true, false, not, ◌&&◌, map, ◌≡◌, refl, arith, ap, sym,
  ◌∙◌, subst, Bool-cases, inl, inr, Result, ok, raise, if◌then◌else◌,
}
use mathlib.Core.List.{append-nil}
use mathlib.Core.Path.{fun_ext}
use redis_like_data_storage.Eviction.Env.{Env, IsRandom}
use redis_like_data_storage.Eviction.Policy
use redis_like_data_storage.Store.{Store, snapshot_barrier}
use redis_like_data_storage.Store.Consistent.{
  IsConsistent, view, snapshot_barrier-IsConsistent, view-snapshot_barrier,
}
use redis_like_data_storage.Engine.{Effect, Engine, Run, follow, return, ◌>>-◌, commit_unless_held}
use redis_like_data_storage.Engine.Execute.{
  barrier, check_persistence, distinct, count_new, refuse_over, check_memory, evict,
  count_processed,
}
use redis_like_data_storage.Engine.Effects.{
  Contents, content, contents, contents-view, without, del, IsWorking, IsStep, IsSound,
  IsStep-append, IsFull, IsSound, replay, streamed, logged,
}
use redis_like_data_storage.Engine.Effects.Log.{commit_unless_held_logs}
use redis_like_data_storage.Engine.Effects.Steps.{
  IsStep-[], IsWorking-store, count_new_steps, evict_steps,
}

module _ {V : Type 0} (hollow : V → Bool) (step : Effect → Contents V → Contents V)
    (step-del : (key : String) (c : Contents V) → step (del key) c ≡ without key c) where
  -- Where a method returns or raises, it has logged and sent what it did.
  abbrev pub IsTold : {A : Type 0} → Engine V → Result A × Engine V → Type 0
  IsTold e (r, e') = (es : List Effect) × IsStep hollow step e es e'

  abbrev pub IsFaithful : {A : Type 0} → Run V A → Type 0
  IsFaithful m = (e : Engine V) → IsWorking e → IsSound hollow e.store → IsTold e (m e)

  pub follow-IsTold :
      {A B : Type 0} (k : A → Run V B) (e : Engine V) (r : Result A × Engine V)
      → IsTold e r
      → ((a : A) → IsFaithful (k a))
      → IsTold e (follow k r)
  follow-IsTold k e (raise error, e₁) told next = told
  follow-IsTold k e (ok a, e₁) (es, i) next =
      let (fs, j) = next a e₁ i.working i.sound in
      (es ++ fs, IsStep-append hollow step e e₁ (k a e₁).1 es fs i j)

  pub then-IsFaithful :
      {A B : Type 0} (m : Run V A) (k : A → Run V B)
      → IsFaithful m
      → ((a : A) → IsFaithful (k a))
      → IsFaithful (m >>- k)
  then-IsFaithful m k h next e w c = follow-IsTold k e (m e) (h e w c) next

  pub return-IsFaithful : {A : Type 0} (a : A) → IsFaithful (return {V = V} a)
  return-IsFaithful a e w c = ([], IsStep-[] hollow step step-del e w c)

  -- A method that returns, in a step that is told.
  pub IsTold-by :
      {A : Type 0} (a : A) (e e' : Engine V) (r : Result A × Engine V) (es : List Effect)
      → r ≡ (ok a, e')
      → IsStep hollow step e es e'
      → IsTold e r
  IsTold-by a e e' r es result i = subst (λ r. IsTold e r) (sym result) (es, i)

  -- A method behind a step that is told.
  pub IsTold-behind :
      {A : Type 0} (e e₁ : Engine V) (es : List Effect) (m : Run V A)
      → IsStep hollow step e es e₁
      → IsFaithful m
      → IsTold e (m e₁)
  IsTold-behind e e₁ es m i h =
      let (fs, j) = h e₁ i.working i.sound in
      (es ++ fs, IsStep-append hollow step e e₁ (m e₁).1 es fs i j)

  counted-IsStep :
      (n : ℕ) (e : Engine V)
      → IsWorking e
      → IsSound hollow e.store
      → IsStep hollow step e [] (record e { commands_processed = n })
  unfolding replay
  counted-IsStep n e w c = record {
    working = record {
      is_live = w.is_live;
      logs = w.logs;
      streams = w.streams;
      disk_works = w.disk_works;
    };
    sound = c;
    log = sym (append-nil (logged e.persistence));
    stream = sym (append-nil (streamed e.replication));
    told = refl;
  }

  -- A method that leaves the engine as it is.
  pub IsTold-same :
      {A : Type 0} (e : Engine V) (r : Result A × Engine V)
      → IsWorking e
      → IsSound hollow e.store
      → r.1 ≡ e
      → IsTold e r
  IsTold-same e r w c same = (
    [],
    subst (λ e'. IsStep hollow step e [] e') (sym same) (IsStep-[] hollow step step-del e w c),
  )

  check_persistence_same : (is_write : Bool) (e : Engine V) → (check_persistence is_write e).1 ≡ e
  unfolding check_persistence
  check_persistence_same is_write e = ground arith

  pub check_persistence-IsFaithful : (is_write : Bool) → IsFaithful (check_persistence is_write)
  check_persistence-IsFaithful is_write e w c =
      IsTold-same e (check_persistence is_write e) w c (check_persistence_same is_write e)

  view-barrier : (ks : List String) (s : Store V) (k : String) → view (barrier ks s) k ≡ view s k
  unfolding barrier
  view-barrier [] s k = refl
  view-barrier (key ∷ ks) s k =
      view-barrier ks (snapshot_barrier s key) k ∙ view-snapshot_barrier s key k

  barrier-IsConsistent :
      (ks : List String) (s : Store V) → IsConsistent s → IsConsistent (barrier ks s)
  unfolding barrier
  barrier-IsConsistent [] s c = c
  barrier-IsConsistent (key ∷ ks) s c =
      barrier-IsConsistent ks (snapshot_barrier s key) (snapshot_barrier-IsConsistent s key c)

  contents-barrier : (ks : List String) (s : Store V) → contents (barrier ks s) ≡ contents s
  contents-barrier ks s = fun_ext (λ k.
      contents-view (barrier ks s) k ∙ ap content (view-barrier ks s k) ∙ sym (contents-view s k))

  -- The barrier changes nothing that is to be told.
  barrier-IsStep :
      (ks : List String) (e : Engine V)
      → IsWorking e
      → IsSound hollow e.store
      → IsStep hollow step e [] (record e { store = barrier ks e.store })
  unfolding replay
  barrier-IsStep ks e w c = record {
    working = IsWorking-store e (barrier ks e.store) w;
    sound = (
      barrier-IsConsistent ks e.store c.0,
      subst (λ d. IsFull hollow d) (sym (contents-barrier ks e.store)) c.1,
    );
    log = sym (append-nil (logged e.persistence));
    stream = sym (append-nil (streamed e.replication));
    told = contents-barrier ks e.store;
  }

  pub count_new-IsFaithful : (env : Env) (ks : List String) → IsFaithful (count_new env ks)
  count_new-IsFaithful env ks e w c =
      let (n, es, e', result, i) = count_new_steps hollow step step-del env ks e w c in
      IsTold-by n e e' (count_new env ks e) es result i

  pub refuse_over-IsFaithful : (n : ℕ) → IsFaithful (refuse_over n)
  unfolding refuse_over
  refuse_over-IsFaithful n e w c = IsTold-same e (refuse_over n e) w c (ground arith)

  pub check_memory-IsFaithful :
      (env : Env) (denyoom : Bool) (ks : List String) → IsFaithful (check_memory env denyoom ks)
  unfolding check_memory
  check_memory-IsFaithful env denyoom ks e w c =
      elim (Bool-cases (denyoom && not (Policy.evicts e.store.eviction))) [
        | inr free ↦ rw free (return-IsFaithful tt e w c)
        | inl guarded ↦ rw guarded (
            then-IsFaithful (count_new env (distinct ks)) refuse_over
              (count_new-IsFaithful env (distinct ks)) refuse_over-IsFaithful e w c)
      ]

  pub evict-IsFaithful :
      (envs : ℕ → Env) (ks : List String)
      → ((i : ℕ) → IsRandom (envs i))
      → IsFaithful (evict envs ks)
  evict-IsFaithful envs ks r e w c =
      let (gone, e', result, i, _, _) = evict_steps hollow step step-del envs ks e r w c in
      IsTold-by tt e e' (evict envs ks e) (map del gone) result i

  pub commit_unless_held-IsFaithful : IsFaithful commit_unless_held
  unfolding replay
  commit_unless_held-IsFaithful e w c =
      let (e', result, l) = commit_unless_held_logs e w in
      IsTold-by tt e e' (commit_unless_held e) [] result (record {
        working = l.working;
        sound = subst (λ s. IsSound hollow s) (sym l.store) c;
        log = l.log;
        stream = l.stream;
        told = ap contents l.store;
      })

  pub count_processed-IsFaithful : {R : Type 0} (result : R) → IsFaithful (count_processed result)
  unfolding count_processed
  count_processed-IsFaithful {R} result e w c =
      IsTold-behind e (record e { commands_processed = suc e.commands_processed }) []
        (commit_unless_held >>- λ _. return result)
        (counted-IsStep (suc e.commands_processed) e w c)
        (then-IsFaithful commit_unless_held (λ _. return result) commit_unless_held-IsFaithful
          (λ _. return-IsFaithful result))

  pub evict_written-IsFaithful :
      (envs : ℕ → Env) (ks : List String) (is_write : Bool)
      → ((i : ℕ) → IsRandom (envs i))
      → IsFaithful (if is_write then evict envs ks else return tt)
  evict_written-IsFaithful envs ks true r = evict-IsFaithful envs ks r
  evict_written-IsFaithful envs ks false r = return-IsFaithful tt

  pub barrier_written-IsStep :
      (ks : List String) (is_write : Bool) (e : Engine V)
      → IsWorking e
      → IsSound hollow e.store
      → IsStep hollow step e [] (if is_write then record e { store = barrier ks e.store } else e)
  barrier_written-IsStep ks true e w c = barrier-IsStep ks e w c
  barrier_written-IsStep ks false e w c = IsStep-[] hollow step step-del e w c

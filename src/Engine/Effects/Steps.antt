-- ===== src/Engine/Effects/Steps.antt =====
-- engine/engine.py: the steps of the engine around a command, on a disk that works: each logs and sends
-- what happens to the keyspace.
use redis_like_data_storage.Prelude.{
  ℕ, suc, String, Option, none, some, List, [], ◌∷◌, ◌++◌, Bool, true, false, map, ite, ◌≡◌, refl,
  arith, ap, sym, ◌∙◌, subst, Bool-cases, Option-cases, ◌⊎◌, inl, inr, Result, ok, str_discrete,
  >>=-ok, is_in,
}
use mathlib.Core.List.{append-nil}
use mathlib.Core.Path.{fun_ext}
use redis_like_data_storage.Dict
use redis_like_data_storage.Eviction.Env.{Env, IsRandom}
use redis_like_data_storage.Store.{Store, Entry, lookup, remove, expire}
use redis_like_data_storage.Store.Consistent.{IsConsistent, view}
use redis_like_data_storage.Store.Lookup.{
  lookup_total, is_stale, lookup-eq_hit, lookup-eq_drop, lookup-eq_hide, expire_total,
  counted-IsConsistent,
}
use redis_like_data_storage.Store.Limits.{over_limit, evict_if_needed}
use redis_like_data_storage.Store.Limits.Evict.{is_active, IsSettled, evict_if_needed_total}
use redis_like_data_storage.Store.Calls.{calls-remove, calls-evict_if_needed}
use redis_like_data_storage.Engine.{
  Effect, Engine, on_store, settle, follow, return, announce, ◌>>-◌,
}
use redis_like_data_storage.Engine.Execute.{count_new, evict}
use redis_like_data_storage.Engine.Effects.{
  IsLogged, Contents, content, contents, contents-view, without, del, IsWorking, replay,
  replay-dels, IsStep, IsStep-append, logged, streamed, IsFull, IsSound, IsFull-dels,
}
use redis_like_data_storage.Engine.Effects.Log.{announce_logs}

-- A store without calls of `on_expire`.
abbrev pub quiet : {V : Type 0} → Store V → Store V
quiet s = record s { expired_calls = [] }

module _ {V : Type 0} where
  pub quiet-IsConsistent : (s : Store V) → IsConsistent s → IsConsistent (quiet s)
  quiet-IsConsistent s c =
      counted-IsConsistent s s.expired_keys s.evicted_keys s.keyspace_hits s.keyspace_misses [] c

  pub IsWorking-store :
      (e : Engine V) (s : Store V) → IsWorking e → IsWorking (record e { store = s })
  IsWorking-store e s w = record {
    is_live = w.is_live;
    logs = w.logs;
    streams = w.streams;
    disk_works = w.disk_works;
  }

  -- `_expire` takes the key away and calls for it.
  expire_calls :
      (s s' : Store V) (key : String)
      → s.expired_calls ≡ []
      → expire s key ≡ ok s'
      → s'.expired_calls ≡ key ∷ []
  unfolding expire
  expire_calls s s' key idle e =
      let (s₁, removed, h) = >>=-ok _ s' (remove s key) e in
      ground (arith, h, calls-remove s s₁ key removed, idle)

  -- A lookup changes nothing, or takes the key away and calls for it.
  lookup_calls :
      (env : Env) (s s' : Store V) (key : String) (o : Option (Entry V))
      → IsConsistent s
      → s.expired_calls ≡ []
      → lookup env s key ≡ ok (o, s')
      → (s' ≡ s)
        ⊎ (s'.expired_calls ≡ key ∷ [])
          × ((k : String) → view s' k ≡ ite (str_discrete key k) none (view s k))
  unfolding lookup
  lookup_calls env s s' key o c idle h = elim (Option-cases (Dict.get s.entries key)) [
    | inl absent ↦ inl (ground (arith, absent))
    | inr (e, found) ↦ elim (Bool-cases (is_stale env s key e)) [
      | inr fresh ↦ inl (cc (lookup-eq_hit env s key e found fresh))
      | inl stale ↦ elim (Bool-cases s.expiry_deletes) [
        | inr keeps ↦ inl (cc (lookup-eq_hide env s key e found stale keeps))
        | inl deletes ↦
            let (s₁, expired, r) = expire_total s key e found c in
            let same : s₁ ≡ s' = cc (lookup-eq_drop env s key e s₁ found stale deletes expired) in
            inr (
              ap (λ s. s.expired_calls) (sym same) ∙ expire_calls s s₁ key idle expired,
              λ k. ap (λ s. view s k) (sym same) ∙ r.views k,
            )
      ]
    ]
  ]

  -- A method of the store, and its calls.
  pub on_store_logs :
      {A : Type 0} (m : Store V → Result (A × Store V)) (a : A) (s' : Store V) (e : Engine V)
      → IsWorking e
      → m (quiet e.store) ≡ ok (a, s')
      → (e' : Engine V) × (on_store m e ≡ (ok a, e'))
        × IsLogged (record e { store = quiet s' }) (map del s'.expired_calls) e'
  on_store_logs m a s' e w result =
      let e₁ : Engine V = record e { store = quiet s' } in
      let (e', sent, l) = announce_logs s'.expired_calls e₁ (IsWorking-store e (quiet s') w) in
      (e', ap (settle e) result ∙ ap (follow (λ _. return a)) sent, l)

  -- A method that calls nothing.
  pub on_store-quiet :
      {A : Type 0} (m : Store V → Result (A × Store V)) (a : A) (s' : Store V) (e : Engine V)
      → m (quiet e.store) ≡ ok (a, s')
      → s'.expired_calls ≡ []
      → on_store m e ≡ (ok a, record e { store = quiet s' })
  unfolding announce
  on_store-quiet m a s' e result idle = ap (settle e) result ∙ rw (idle, announce) refl

  pub on_store_silent :
      {A : Type 0} (m : Store V → Result (A × Store V)) (a : A) (s' : Store V) (e : Engine V)
      → IsWorking e
      → m (quiet e.store) ≡ ok (a, s')
      → IsConsistent s'
      → s'.expired_calls ≡ []
      → (on_store m e ≡ (ok a, record e { store = quiet s' }))
        × IsWorking (record e { store = quiet s' })
        × IsConsistent (quiet s')
  on_store_silent m a s' e w result c idle =
      (on_store-quiet m a s' e result idle, IsWorking-store e (quiet s') w, quiet-IsConsistent s' c)

module _ {V : Type 0} (hollow : V → Bool) (step : Effect → Contents V → Contents V)
    (step-del : (key : String) (c : Contents V) → step (del key) c ≡ without key c) where
  pub told_without :
      (s s' : Store V) (key : String)
      → ((k : String) → view s' k ≡ ite (str_discrete key k) none (view s k))
      → contents s' ≡ without key (contents s)
  unfolding without
  told_without s s' key h =
      fun_ext (λ k. contents-view s' k ∙ ap content (h k) ∙ ground (arith, contents-view s k))

  -- A method of the store that changes it as its calls say.
  pub on_store_steps :
      {A : Type 0} (m : Store V → Result (A × Store V)) (a : A) (s' : Store V) (e : Engine V)
      → IsWorking e
      → m (quiet e.store) ≡ ok (a, s')
      → IsConsistent s'
      → contents s' ≡ replay step (map del s'.expired_calls) (contents e.store)
      → IsFull hollow (contents e.store)
      → (e' : Engine V) × (on_store m e ≡ (ok a, e'))
        × IsStep hollow step e (map del s'.expired_calls) e'
        × (e'.store ≡ quiet s')
  unfolding contents
  on_store_steps m a s' e w result c told v =
      let (e', result', l) = on_store_logs m a s' e w result in
      (
        e',
        result',
        record {
          working = l.working;
          sound = (
            subst (λ s. IsConsistent s) (sym l.store) (quiet-IsConsistent s' c),
            IsFull-dels hollow step step-del s'.expired_calls (contents e.store) (contents e'.store)
                (ap contents l.store ∙ told) v,
          );
          log = l.log;
          stream = l.stream;
          told = ap contents l.store ∙ told;
        },
        l.store,
      )

  pub lookup_told :
      (env : Env) (s s' : Store V) (key : String) (o : Option (Entry V))
      → IsConsistent s
      → s.expired_calls ≡ []
      → lookup env s key ≡ ok (o, s')
      → contents s' ≡ replay step (map del s'.expired_calls) (contents s)
  unfolding replay
  lookup_told env s s' key o c idle h = elim (lookup_calls env s s' key o c idle h) [
    | inl same ↦
        ap contents same
        ∙ sym (
            ap (λ ks. replay step (map del ks) (contents s))
              (ap (λ s. s.expired_calls) same ∙ idle))
    | inr (calls, views) ↦
        told_without s s' key views
        ∙ sym (step-del key (contents s))
        ∙ sym (ap (λ ks. replay step (map del ks) (contents s)) calls)
  ]

  -- `peek`
  pub look_steps :
      (env : Env) (key : String) (e : Engine V)
      → IsWorking e
      → IsSound hollow e.store
      → (o : Option (Entry V)) × (es : List Effect) × (e' : Engine V) × (on_store
            (λ s. lookup env s key)
            e
          ≡ (ok o, e'))
        × IsStep hollow step e es e'
  unfolding contents
  look_steps env key e w (c, v) =
      let c₁ = quiet-IsConsistent e.store c in
      let (o, s', found, l) = lookup_total env (quiet e.store) key c₁ in
      let (e', result, i, _) =
        on_store_steps (λ s. lookup env s key) o s' e w found l.consistent
          (lookup_told env (quiet e.store) s' key o c₁ refl found) v in
      (o, map del s'.expired_calls, e', result, i)

  pub IsStep-[] : (e : Engine V) → IsWorking e → IsSound hollow e.store → IsStep hollow step e [] e
  unfolding replay
  IsStep-[] e w c = record {
    working = w;
    sound = c;
    log = sym (append-nil (logged e.persistence));
    stream = sym (append-nil (streamed e.replication));
    told = refl;
  }

  pub count_new_steps :
      (env : Env) (ks : List String) (e : Engine V)
      → IsWorking e
      → IsSound hollow e.store
      → (n : ℕ) × (es : List Effect) × (e' : Engine V) × (count_new env ks e ≡ (ok n, e'))
        × IsStep hollow step e es e'
  unfolding count_new
  count_new_steps env [] e w c = (0, [], e, refl, IsStep-[] e w c)
  count_new_steps env (key ∷ ks) e w c =
      let (o, es, e₁, seen, i) = look_steps env key e w c in
      let (n, fs, e', counted, j) = count_new_steps env ks e₁ i.working i.sound in
      (
        elim o [ none ↦ suc n | some _ ↦ n ],
        es ++ fs,
        e',
        ap
              (follow (λ found.
                count_new env ks >>- λ n. return (elim found [ none ↦ suc n | some _ ↦ n ])))
              seen
            ∙ ap (follow (λ n. return (elim o [ none ↦ suc n | some _ ↦ n ]))) counted,
        IsStep-append hollow step e e₁ e' es fs i j,
      )

  -- Evictions, and their DELs.
  pub evict_steps :
      (envs : ℕ → Env) (ks : List String) (e : Engine V)
      → ((i : ℕ) → IsRandom (envs i))
      → IsWorking e
      → IsSound hollow e.store
      → (gone : List String) × (e' : Engine V) × (evict envs ks e ≡ (ok tt, e'))
        × IsStep hollow step e (map del gone) e'
        × ((k : String) → is_in gone k ≡ true → is_in ks k ≡ false)
        × (is_active e.store ≡ true → IsSettled e'.store ks)
  unfolding evict contents over_limit
  evict_steps envs ks e r w (c, v) =
      let c₁ = quiet-IsConsistent e.store c in
      let (gone, s', evicted, i) = evict_if_needed_total envs (quiet e.store) ks r c₁ in
      let (result, w₁, c₂) =
        on_store_silent (λ s. evict_if_needed envs s ks) gone s' e w evicted i.consistent
          (calls-evict_if_needed envs (quiet e.store) s' ks gone evicted) in
      let e₁ : Engine V = record e { store = quiet s' } in
      let (e', sent, l) = announce_logs gone e₁ w₁ in
      let told : contents e'.store ≡ replay step (map del gone) (contents e.store) =
        ap contents l.store
        ∙ fun_ext (λ k.
          contents-view s' k
          ∙ ap content (i.views k)
          ∙ ground (arith, contents-view e.store k)
          ∙ sym (replay-dels step step-del gone (contents e.store) k)) in
      (
        gone,
        e',
        ap (follow announce) result ∙ sent,
        record {
          working = l.working;
          sound = (
            subst (λ s. IsConsistent s) (sym l.store) c₂,
            IsFull-dels hollow step step-del gone (contents e.store) (contents e'.store) told v,
          );
          log = l.log;
          stream = l.stream;
          told = told;
        },
        i.unprotected,
        λ active. subst (λ s. IsSettled s ks) (sym l.store) (i.settled active),
      )

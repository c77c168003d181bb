-- ===== src/Commands/Keyspace/Deletes.antt =====
-- engine/commands/keyspace.py: DEL and UNLINK log and send which keys they took away.
use redis_like_data_storage.Prelude.{
  String, Option, none, some, List, [], ◌∷◌, ◌++◌, Bool, true, false, map, ◌≡◌, refl, arith, ap,
  sym, ◌∙◌, subst, is_in, is_in-append, if◌then◌else◌, ok,
}
use mathlib.Core.List.{append_assoc, append-nil}
use redis_like_data_storage.Eviction.Env.{Env}
use redis_like_data_storage.Store.{Store, Entry, lookup}
use redis_like_data_storage.Store.Consistent.{IsConsistent}
use redis_like_data_storage.Store.Keyspace.{delete}
use redis_like_data_storage.Store.Lookup.{lookup_total, IsLookup, remove_total}
use redis_like_data_storage.Store.Calls.{calls-remove}
use redis_like_data_storage.Commands.Keyspace.{delete_keys}
use redis_like_data_storage.Engine.{Effect, Engine, follow, return, ◌>>-◌, on_store}
use redis_like_data_storage.Engine.Effects.{
  Contents, contents, without, del, IsWorking, replay-dels, logged, streamed,
}
use redis_like_data_storage.Engine.Effects.Steps.{
  quiet, quiet-IsConsistent, on_store_logs, lookup_told, told_without,
}

-- A keyspace without some keys.
abbrev pub minus : {V : Type 0} → List String → Contents V → Contents V
minus ks c k = if is_in ks k then none else c k

module _ {V : Type 0} (hollow : V → Bool) where
  -- The engine has sent that `gone` are gone, and not yet that `taken` are.
  pub record IsOwing (e : Engine V) (gone taken : List String) (e' : Engine V) : Type 0 where
    pub working : IsWorking e'
    pub consistent : IsConsistent e'.store
    pub log : logged e'.persistence ≡ logged e.persistence ++ map del gone
    pub stream : streamed e'.replication ≡ streamed e.replication ++ map del gone
    pub left : (k : String) → contents e'.store k ≡ minus taken (minus gone (contents e.store)) k

  abbrev taken_if : Bool → String → List String
  taken_if true key = key ∷ []
  taken_if false key = []

  map-append : (xs ys : List String) → map del (xs ++ ys) ≡ map del xs ++ map del ys
  map-append [] ys = refl
  map-append (x ∷ xs) ys = ap (λ zs. del x ∷ zs) (map-append xs ys)

  module _ (step : Effect → Contents V → Contents V)
      (step-del : (key : String) (c : Contents V) → step (del key) c ≡ without key c) where
    -- What `delete` of the store does, with its calls.
    delete_calls :
        (env : Env) (s : Store V) (key : String)
        → IsConsistent s
        → s.expired_calls ≡ []
        → (b : Bool) × (s' : Store V) × (delete env s key ≡ ok (b, s'))
          × IsConsistent s'
          × ((k : String)
              → contents s' k ≡ minus (taken_if b key) (minus s'.expired_calls (contents s)) k)
    unfolding delete is_in without
    delete_calls env s key c idle = go (lookup_total env s key c)
      where
        go :
            (o : Option (Entry V)) × (s₁ : Store V) × (lookup env s key ≡ ok (o, s₁))
              × IsLookup env s key o s₁
            → (b : Bool) × (s' : Store V) × (delete env s key ≡ ok (b, s'))
              × IsConsistent s'
              × ((k : String)
                  → contents s' k ≡ minus (taken_if b key) (minus s'.expired_calls (contents s)) k)
        go (none, s₁, looked, l) = (
          false,
          s₁,
          rw looked,
          l.consistent,
          λ k.
              ap (λ d. d k) (lookup_told hollow step step-del env s s₁ key none c idle looked)
              ∙ replay-dels step step-del s₁.expired_calls (contents s) k,
        )
        go (some x, s₁, looked, l) =
            let (s', removed, r) = remove_total s₁ key x (l.kept x refl) l.consistent in
            let told = lookup_told hollow step step-del env s s₁ key (some x) c idle looked in
            (
              true,
              s',
              rw (looked, removed),
              r.consistent,
              λ k. ground (
                arith,
                ap (λ d. d k) (told_without hollow step step-del s₁ s' key r.views),
                ap (λ d. d k) told,
                replay-dels step step-del s₁.expired_calls (contents s) k,
                calls-remove s₁ s' key removed,
              ),
            )

    delete_owes :
        (env : Env) (key : String) (e : Engine V)
        → IsWorking e
        → IsConsistent e.store
        → (b : Bool) × (gone : List String) × (e' : Engine V) × (on_store (λ s. delete env s key) e
            ≡ (ok b, e'))
          × IsOwing e gone (taken_if b key) e'
    unfolding contents
    delete_owes env key e w c =
        let (b, s', result, c', left) =
          delete_calls env (quiet e.store) key (quiet-IsConsistent e.store c) refl in
        let (e', run, l) = on_store_logs (λ s. delete env s key) b s' e w result in
        (
          b,
          s'.expired_calls,
          e',
          run,
          record {
            working = l.working;
            consistent = subst (λ s. IsConsistent s) (sym l.store) (quiet-IsConsistent s' c');
            log = l.log;
            stream = l.stream;
            left = λ k. ap (λ s. contents s k) l.store ∙ left k;
          },
        )

    IsOwing-append :
        (e e₁ e' : Engine V) (gone gone' taken taken' : List String)
        → IsOwing e gone taken e₁
        → IsOwing e₁ gone' taken' e'
        → IsOwing e (gone ++ gone') (taken ++ taken') e'
    unfolding is_in
    IsOwing-append e e₁ e' gone gone' taken taken' a b = record {
      working = b.working;
      consistent = b.consistent;
      log =
          b.log
          ∙ ap (λ xs. xs ++ map del gone') a.log
          ∙ append_assoc (logged e.persistence) (map del gone) (map del gone')
          ∙ ap (λ xs. logged e.persistence ++ xs) (sym (map-append gone gone'));
      stream =
          b.stream
          ∙ ap (λ xs. xs ++ map del gone') a.stream
          ∙ append_assoc (streamed e.replication) (map del gone) (map del gone')
          ∙ ap (λ xs. streamed e.replication ++ xs) (sym (map-append gone gone'));
      left = λ k.
          ground
            (arith, a.left k, b.left k, is_in-append gone gone' k, is_in-append taken taken' k);
    }

    more_taken :
        (b : Bool) (key : String) (more : List String)
        → (if b then key ∷ more else more) ≡ taken_if b key ++ more
    more_taken true key more = refl
    more_taken false key more = refl

    pub delete_keys_owes :
        (env : Env) (ks : List String) (e : Engine V)
        → IsWorking e
        → IsConsistent e.store
        → (taken gone : List String) × (e' : Engine V) × (delete_keys env ks e ≡ (ok taken, e'))
          × IsOwing e gone taken e'
    unfolding delete_keys is_in
    delete_keys_owes env [] e w c = (
      [],
      [],
      e,
      refl,
      record {
        working = w;
        consistent = c;
        log = sym (append-nil (logged e.persistence));
        stream = sym (append-nil (streamed e.replication));
        left = λ k. refl;
      },
    )
    delete_keys_owes env (key ∷ ks) e w c =
        let (b, gone, e₁, first, o) = delete_owes env key e w c in
        let (more, gone', e', rest, o') = delete_keys_owes env ks e₁ o.working o.consistent in
        (
          taken_if b key ++ more,
          gone ++ gone',
          e',
          ap
                (follow (λ there.
                  delete_keys env ks >>- λ more. return (if there then key ∷ more else more)))
                first
              ∙ ap (follow (λ more. return (if b then key ∷ more else more))) rest
              ∙ ap (λ ks. (ok ks, e')) (more_taken b key more),
          IsOwing-append e e₁ e' gone gone' (taken_if b key) more o o',
        )

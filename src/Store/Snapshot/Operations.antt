-- ===== src/Store/Snapshot/Operations.antt =====
-- Operations of engine/store.py as changes of a key under the barrier: a removal, which calls the
-- barrier itself, and SET and `refresh` after a call of it, as the engine makes them.
use redis_like_data_storage.Prelude.{
  ℕ, String, Option, none, some, false, ok, ◌>>=◌, >>=-ok, ◌≡◌, refl, arith, ap, raise, key_error,
}
use redis_like_data_storage.Prelude.Int.{◌+ℤ◌, ◌-ℤ◌}
use redis_like_data_storage.Dict
use redis_like_data_storage.Dict.{IsDict}
use redis_like_data_storage.Dict.Laws.{get-put, get-remove}
use redis_like_data_storage.KeySet
use redis_like_data_storage.KeySet.{KeySet}
use redis_like_data_storage.Eviction.Env.{Env}
use redis_like_data_storage.Eviction.Policy
use redis_like_data_storage.Store.{Entry, Store, snapshot_barrier, drop_entry, remove}
use redis_like_data_storage.Store.Interface.{Values}
use redis_like_data_storage.Store.Keyspace.{entry_size, insert, replace, set, volatile_after}
use redis_like_data_storage.Store.Consistent.{IsConsistent, snapshot_barrier-IsConsistent}
use redis_like_data_storage.Store.Snapshot.Changes.{IsChange}

module _ {V : Type 0} where
  -- The store that `drop_entry` leaves.
  abbrev dropped : Store V → String → Entry V → KeySet → Policy.Policy → Store V
  dropped s key e volatile eviction = record s {
    entries = Dict.remove s.entries key;
    used_memory = s.used_memory -ℤ e.size;
    volatile = volatile;
    eviction = eviction;
  }

  drop_entry-dropped :
      (s s' : Store V) (key : String)
      → drop_entry s key ≡ ok s'
      → (e : Entry V) × (volatile : KeySet) × (eviction : Policy.Policy) × (s'
          ≡ dropped s key e volatile eviction)
  unfolding drop_entry
  drop_entry-dropped s s' key h = go (Dict.get s.entries key) h
    where
      go :
          (o : Option (Entry V))
          → (elim o [
            | none ↦ raise key_error
            | some e ↦ do
              volatile ← KeySet.discard s.volatile key
              eviction ← Policy.on_remove s.eviction key
              ok (dropped s key e volatile eviction)
          ])
            ≡ ok s'
          → (e : Entry V) × (volatile : KeySet) × (eviction : Policy.Policy) × (s'
              ≡ dropped s key e volatile eviction)
      go none r = cc
      go (some e) r =
          let (volatile, _, r₁) =
            >>=-ok
              (λ volatile. Policy.on_remove s.eviction key >>= λ eviction.
                ok (dropped s key e volatile eviction))
              s' (KeySet.discard s.volatile key) r in
          let (eviction, _, r₂) =
            >>=-ok (λ eviction. ok (dropped s key e volatile eviction)) s'
              (Policy.on_remove s.eviction key) r₁ in
          (e, volatile, eviction, cc r₂)

  -- A removal that returns is a change of its key.
  pub remove-IsChange :
      (s s' : Store V) (key : String) → IsConsistent s → remove s key ≡ ok s' → IsChange s key s'
  unfolding remove
  remove-IsChange s s' key c h =
      let b = snapshot_barrier s key in
      let c' = snapshot_barrier-IsConsistent s key c in
      let (e, volatile, eviction, same) = drop_entry-dropped b s' key h in
      rw same (record {
        others = λ k apart. ground (arith, get-remove b.entries key k c'.is_dict, apart);
        marked = λ x found. ground (arith, get-remove b.entries key key c'.is_dict, found);
        job = refl;
        epoch = refl;
        calls = refl;
      })

module _ (vs : Values) where
  open vs use {Value}

  -- A change that puts an entry with the store's mark in place.
  put-IsChange :
      (s s' : Store Value) (key : String) (e : Entry Value)
      → s'.entries ≡ Dict.put (snapshot_barrier s key).entries key e
      → e.copied ≡ (snapshot_barrier s key).snapshot_epoch
      → s'.snapshot_job ≡ (snapshot_barrier s key).snapshot_job
      → s'.snapshot_epoch ≡ (snapshot_barrier s key).snapshot_epoch
      → s'.done_calls ≡ (snapshot_barrier s key).done_calls
      → IsChange s key s'
  put-IsChange s s' key e put mark job epoch calls = record {
    others = λ k apart. ground (
      arith,
      ap (λ d. Dict.get d k) put,
      get-put (snapshot_barrier s key).entries key k e,
      apart,
    );
    marked = λ x found. ground (
      arith,
      ap (λ d. Dict.get d key) put,
      get-put (snapshot_barrier s key).entries key key e,
      mark,
      found,
    );
    job = job;
    epoch = epoch;
    calls = calls;
  }

  insert-IsChange :
      (env : Env) (s : Store Value) (key : String) (value : Value)
      → IsChange s key (insert vs env (snapshot_barrier s key) key value)
  unfolding insert
  insert-IsChange env s key value =
      let b = snapshot_barrier s key in
      put-IsChange s (insert vs env b key value) key
        (record {
          value = value;
          expires_at = none;
          size = entry_size vs key value;
          copied = b.snapshot_epoch;
        })
        refl refl refl refl refl

  replace-IsChange :
      (env : Env) (s s' : Store Value) (key : String) (value : Value) (old : Entry Value)
      (t : Option ℕ)
      → replace vs env (snapshot_barrier s key) key value old t ≡ ok s'
      → IsChange s key s'
  unfolding replace
  replace-IsChange env s s' key value old t h =
      let b = snapshot_barrier s key in
      let e : Entry Value = record {
        value = value;
        expires_at = t;
        size = entry_size vs key value;
        copied = b.snapshot_epoch;
      } in
      let put : KeySet → Policy.Policy → Store Value = λ volatile eviction. record b {
        used_memory = b.used_memory -ℤ old.size +ℤ entry_size vs key value;
        volatile = volatile;
        entries = Dict.put b.entries key e;
        eviction = eviction;
      } in
      let (volatile, _, r) =
        >>=-ok
          (λ volatile.
            Policy.on_access env b.eviction key >>= λ eviction. ok (put volatile eviction))
          s' (volatile_after b.volatile key t) h in
      let (eviction, _, r') =
        >>=-ok (λ eviction. ok (put volatile eviction)) s' (Policy.on_access env b.eviction key)
          r in
      let same : s' ≡ put volatile eviction = cc r' in
      rw same (put-IsChange s (put volatile eviction) key e refl refl refl refl refl)

  -- SET without its old deadline, after a call of the barrier, is a change of its key.
  pub set-IsChange :
      (env : Env) (s s' : Store Value) (key : String) (value : Value)
      → set vs env (snapshot_barrier s key) key value false ≡ ok s'
      → IsChange s key s'
  unfolding set
  set-IsChange env s s' key value h = go (Dict.get (snapshot_barrier s key).entries key) h
    where
      go :
          (o : Option (Entry Value))
          → (elim o [
            | none ↦ ok (insert vs env (snapshot_barrier s key) key value)
            | some e ↦ replace vs env (snapshot_barrier s key) key value e none
          ])
            ≡ ok s'
          → IsChange s key s'
      go none r =
          let same : s' ≡ insert vs env (snapshot_barrier s key) key value = cc r in
          rw same (insert-IsChange env s key value)
      go (some e) r = replace-IsChange env s s' key value e none r

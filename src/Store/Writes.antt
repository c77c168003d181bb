-- ===== src/Store/Writes.antt =====
-- Every write of engine/store.py returns, and keeps the invariants; what it does to the keys.
pub mod Deadlines
pub mod Targets
use redis_like_data_storage.Prelude.{
  ℕ, ◌+◌, String, Option, none, some, List, [], ◌∷◌, ◌++◌, Bool, true, false, not, ◌&&◌,
  if◌then◌else◌, Result, ok, ◌>>=◌, ite, str_discrete, ◌≡◌, ◌⊎◌, refl, arith, Option-cases,
  Bool-cases, inl, inr, ap, sym, ◌∙◌,
}
use redis_like_data_storage.Prelude.Int.{ℤ, pos, ◌+ℤ◌, ◌-ℤ◌, int_laws}
use redis_like_data_storage.Dict
use redis_like_data_storage.Dict.Laws.{get-put, put-IsDict}
use redis_like_data_storage.Dict.Total.{total-put_new, total-put_old}
use redis_like_data_storage.KeySet
use redis_like_data_storage.KeySet.Sets.{discard_removes}
use redis_like_data_storage.Eviction.Env.{Env}
use redis_like_data_storage.Eviction.Policy
use redis_like_data_storage.Eviction.Policy.Tracking.{
  on_insert-IsTracking, on_access_total, overwrite-IsTracking,
}
use redis_like_data_storage.Store.{Entry, Store, remove, lookup}
use redis_like_data_storage.Store.Interface.{Values}
use redis_like_data_storage.Store.Keyspace.{
  entry_size, insert, replace, set, delete, volatile_after,
}
use redis_like_data_storage.Store.Consistent.{
  IsConsistent, IsRemoval, view, unmarked, has_ttl, size_of, settings,
}
use redis_like_data_storage.Store.Lookup.{lookup_total, IsLookup, is_stale, remove_total, shown}

module _ (vs : Values) where
  open vs use {Value}

  -- The entry that a write leaves, without the snapshot's mark.
  abbrev pub written : String → Value → Option ℕ → Entry Value
  written key value deadline = record {
    value = value;
    expires_at = deadline;
    size = entry_size vs key value;
    copied = 0;
  }

  pub insert-IsConsistent :
      (env : Env) (s : Store Value) (key : String) (value : Value)
      → Dict.get s.entries key ≡ none
      → IsConsistent s
      → IsConsistent (insert vs env s key value)
  unfolding insert
  insert-IsConsistent env s key value absent c =
      let e : Entry Value = record {
        value = value;
        expires_at = none;
        size = entry_size vs key value;
        copied = s.snapshot_epoch;
      } in
      record {
        is_dict = put-IsDict s.entries key e c.is_dict;
        volatile_valid = c.volatile_valid;
        volatile_ttl = λ k. ground (arith, get-put s.entries key k e, c.volatile_ttl k);
        memory =
            ap (λ n. n +ℤ entry_size vs key value) c.memory
            ∙ sym (total-put_new size_of s.entries key e absent);
        tracking = on_insert-IsTracking env s.eviction s.entries key e absent c.tracking;
      }

  pub view-insert :
      (env : Env) (s : Store Value) (key k : String) (value : Value)
      → view (insert vs env s key value) k
        ≡ ite (str_discrete key k) (some (written key value none)) (view s k)
  unfolding insert
  view-insert env s key k value = ground (
    arith,
    get-put s.entries key k (record {
      value = value;
      expires_at = none;
      size = entry_size vs key value;
      copied = s.snapshot_epoch;
    }),
  )

  settings-insert :
      (env : Env) (s : Store Value) (key : String) (value : Value)
      → settings (insert vs env s key value) ≡ settings s
  unfolding insert
  settings-insert env s key value = ground (arith, Policy.evicts-on_insert env s.eviction key)

  -- The outcome of a write of `value` with `deadline`.
  abbrev pub IsReplaced : Store Value → String → Value → Option ℕ → Store Value → Type 0
  IsReplaced s key value deadline s' =
      IsConsistent s'
      × ((k : String)
          → view s' k ≡ ite (str_discrete key k) (some (written key value deadline)) (view s k))
      × (settings s' ≡ settings s)

  replace_in :
      (env : Env) (s : Store Value) (key : String) (value : Value) (old : Entry Value)
      (deadline : Option ℕ) (volatile : KeySet.KeySet)
      → Dict.get s.entries key ≡ some old
      → volatile_after s.volatile key deadline ≡ ok volatile
      → KeySet.Invariant.IsValid volatile
      → ((k : String)
          → KeySet.contains volatile k
            ≡ ite
                (str_discrete key k)
                (has_ttl (some (written key value deadline)))
                (KeySet.contains s.volatile k))
      → IsConsistent s
      → (s' : Store Value) × (replace vs env s key value old deadline ≡ ok s')
        × IsReplaced s key value deadline s'
  unfolding replace
  replace_in env s key value old deadline volatile found chosen valid has' c =
      let e : Entry Value = record {
        value = value;
        expires_at = deadline;
        size = entry_size vs key value;
        copied = s.snapshot_epoch;
      } in
      let t = overwrite-IsTracking s.eviction s.entries key e old found c.tracking in
      let (eviction, accessed, tracking) =
        on_access_total env s.eviction (Dict.put s.entries key e) key t in
      (
        record s {
          used_memory = s.used_memory -ℤ old.size +ℤ entry_size vs key value;
          volatile = volatile;
          entries = Dict.put s.entries key e;
          eviction = eviction;
        },
        rw (chosen, accessed),
        (
          record {
            is_dict = put-IsDict s.entries key e c.is_dict;
            volatile_valid = valid;
            volatile_ttl = λ k. ground (arith, has' k, get-put s.entries key k e, c.volatile_ttl k);
            memory =
                ap (λ n. n -ℤ old.size +ℤ entry_size vs key value) c.memory
                ∙ sym (total-put_old size_of s.entries key e old found);
            tracking = tracking;
          },
          λ k. ground (arith, get-put s.entries key k e),
          ground (arith, Policy.evicts-on_access env s.eviction eviction key accessed),
        ),
      )

  -- The deadline that a replacement leaves is none, or the one that the entry had.
  replace_total :
      (env : Env) (s : Store Value) (key : String) (value : Value) (old : Entry Value)
      (deadline : Option ℕ)
      → Dict.get s.entries key ≡ some old
      → (deadline ≡ none) ⊎ (deadline ≡ old.expires_at)
      → IsConsistent s
      → (s' : Store Value) × (replace vs env s key value old deadline ≡ ok s')
        × IsReplaced s key value deadline s'
  unfolding volatile_after
  replace_total env s key value old none found from c =
      let (volatile, discarded, valid, has', _) = discard_removes key c.volatile_valid in
      replace_in env s key value old none volatile found discarded valid has' c
  replace_total env s key value old (some t) found from c =
      replace_in env s key value old (some t) s.volatile found refl c.volatile_valid
        (λ k. ground (arith, c.volatile_ttl k)) c

  -- A key that a lookup would hide without deleting it is not there: no replica that looks at
  -- deadlines.
  abbrev pub HidesNothing : Store Value → Type 0
  HidesNothing s = (s.expiry_enabled && not s.expiry_deletes) ≡ false

  -- What a lookup misses is not in the store afterwards.
  pub lookup_misses :
      (env : Env) (s s' : Store Value) (key : String)
      → HidesNothing s
      → IsLookup env s key none s'
      → Dict.get s'.entries key ≡ none
  lookup_misses env s s' key h l = ground (arith, l.views key, l.result)

  abbrev pub deadline_of : Option (Entry Value) → Option ℕ
  deadline_of none = none
  deadline_of (some e) = e.expires_at

  -- The deadline that a SET leaves.
  abbrev pub deadline_after : Env → Store Value → String → Bool → Option ℕ
  deadline_after env s key keep_ttl =
      if keep_ttl then deadline_of (shown env s key (Dict.get s.entries key)) else none

  set_keep :
      (env : Env) (s : Store Value) (key : String) (value : Value) (o : Option (Entry Value))
      (s₁ : Store Value)
      → HidesNothing s
      → lookup env s key ≡ ok (o, s₁)
      → IsLookup env s key o s₁
      → (s' : Store Value) × (set vs env s key value true ≡ ok s')
        × IsReplaced s key value (deadline_of o) s'
  unfolding set
  set_keep env s key value none s₁ h looked l = (
    insert vs env s₁ key value,
    rw looked,
    (
      insert-IsConsistent env s₁ key value (lookup_misses env s s₁ key h l) l.consistent,
      λ k. ground (arith, view-insert env s₁ key k value, l.views k),
      settings-insert env s₁ key value ∙ l.same,
    ),
  )
  set_keep env s key value (some e) s₁ h looked l =
      let (s', replaced, (consistent, views, same)) =
        replace_total env s₁ key value e e.expires_at (l.kept e refl) (inr refl) l.consistent in
      (
        s',
        rw (looked, replaced),
        (consistent, λ k. ground (arith, views k, l.views k), same ∙ l.same),
      )

  set_clear :
      (env : Env) (s : Store Value) (key : String) (value : Value)
      → IsConsistent s
      → (s' : Store Value) × (set vs env s key value false ≡ ok s') × IsReplaced s key value none s'
  unfolding set
  set_clear env s key value c = elim (Option-cases (Dict.get s.entries key)) [
    | inl absent ↦ (
      insert vs env s key value,
      rw absent,
      (
        insert-IsConsistent env s key value absent c,
        λ k. view-insert env s key k value,
        settings-insert env s key value,
      ),
    )
    | inr (old, found) ↦
        let (s', replaced, after) = replace_total env s key value old none found (inl refl) c in
        (s', rw found replaced, after)
  ]

  -- For a store that hides no expired key SET never raises, and keeps the invariants and the settings.
  -- Afterwards the key has the value, the size of it, and its old deadline if that is to be kept and
  -- has not passed, else none; no other key has changed.
  pub set_total :
      (env : Env) (s : Store Value) (key : String) (value : Value) (keep_ttl : Bool)
      → HidesNothing s
      → IsConsistent s
      → (s' : Store Value) × (set vs env s key value keep_ttl ≡ ok s')
        × IsReplaced s key value (deadline_after env s key keep_ttl) s'
  set_total env s key value false h c =
      let (s', result, (consistent, views, same)) = set_clear env s key value c in
      (s', result, (consistent, views, same))
  set_total env s key value true h c =
      let (o, s₁, looked, l) = lookup_total env s key c in
      let (s', result, (consistent, views, same)) = set_keep env s key value o s₁ h looked l in
      (s', result, (consistent, λ k. ground (arith, views k, l.result), same))

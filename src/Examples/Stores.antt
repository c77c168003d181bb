-- ===== src/Examples/Stores.antt =====
-- A store of two keys, with values that are no more than a type and a length.
use redis_like_data_storage.Prelude.{
  ℕ, Result, first_free, String, Option, none, some, List, [], ◌∷◌, Bool, true, ◌≡◌, refl, is_in,
  ok, raise, str_discrete,
}
use redis_like_data_storage.Prelude.Int.{ℤ, pos, ◌+ℤ◌, ◌-ℤ◌}
use redis_like_data_storage.Dict
use redis_like_data_storage.KeySet
use redis_like_data_storage.KeySet.Sets.{add_inserts}
use redis_like_data_storage.Eviction.Policy
use redis_like_data_storage.Eviction.Lru
use redis_like_data_storage.Eviction.Policy.{Policy, lru}
use redis_like_data_storage.Store
use redis_like_data_storage.Store.{Entry, Store, init, lookup, remove}
use redis_like_data_storage.Store.Interface.{Values, Kind}
use redis_like_data_storage.Store.Keyspace
use redis_like_data_storage.Store.Keyspace.{Typed, insert, mutate}
use redis_like_data_storage.Store.Consistent.{IsConsistent, init-IsConsistent}
use redis_like_data_storage.Store.Lookup.{IsLookup, lookup_total}
use redis_like_data_storage.Store.Writes.{
  insert-IsConsistent, IsReplaced, deadline_after, set_total,
}
use redis_like_data_storage.Store.Writes.Deadlines.{retime-IsConsistent, IsDeleted, delete_total}
use redis_like_data_storage.Store.Writes.Targets.{
  IsTarget, write_target_total, IsRefreshed, refresh_total, mutate-IsConsistent,
}
use redis_like_data_storage.Store.Limits
use redis_like_data_storage.Store.Limits.Evict.{IsEviction, evict_if_needed_total}
use redis_like_data_storage.Store.Limits.Expiry.{IsExpiry, expire_cycle_total}
use redis_like_data_storage.Examples.Policies.{front, front-IsRandom}

abbrev pub Sample : Type 0
Sample = Kind × ℕ

abbrev pub samples : Values
samples = record {
  Value = Sample;
  kind = λ v. v.0;
  len = λ v. v.1;
  size = λ v. pos v.1;
  str_size = λ s. pos 50;
  new = λ k. (k, 0);
  kind-new = λ k. refl;
  len-new = λ k. refl;
}

abbrev pub text : Sample
text = (Kind.string, 3)

abbrev pub numbers : Sample
numbers = (Kind.list, 2)

-- One key is allowed, and there are two.
abbrev bare : Store Sample
bare = init (lru Lru.empty) 1 0

abbrev one : Store Sample
one = insert samples front bare "a" text

abbrev pub two : Store Sample
two = insert samples front one "b" numbers

-- The key `a` has run out at 500: the clock stands at 1000.
abbrev pub stale : Entry Sample
stale = record { value = text; expires_at = none; size = pos 173; copied = 0 }

abbrev pub timed : Store Sample
timed = record two {
  entries = Dict.put two.entries "a" (record stale { expires_at = some 500 });
  volatile = KeySet.add two.volatile "a";
}

pub store_runs : Unit {0}
unfolding init insert mutate lookup remove str_discrete is_in Dict.get Dict.put Dict.remove
    KeySet.add KeySet.contains Policy.on_insert Lru.on_insert Policy.create Keyspace.entry_size
    Lru.without ◌+ℤ◌
store_runs = tt

bare-IsConsistent : IsConsistent bare
unfolding store_runs
bare-IsConsistent = init-IsConsistent "lru" (lru Lru.empty) 1 0 refl

one-IsConsistent : IsConsistent one
unfolding store_runs
one-IsConsistent = insert-IsConsistent samples front bare "a" text refl bare-IsConsistent

pub two-IsConsistent : IsConsistent two
unfolding store_runs
two-IsConsistent = insert-IsConsistent samples front one "b" numbers refl one-IsConsistent

pub timed-IsConsistent : IsConsistent timed
unfolding store_runs
timed-IsConsistent =
    let (valid, has', _) = add_inserts "a" two-IsConsistent.volatile_valid in
    retime-IsConsistent two "a" stale (some 500) (KeySet.add two.volatile "a") refl valid has'
      two-IsConsistent

lookup_total_example :
    (o : Option (Entry Sample)) × (s' : Store Sample) × (lookup front timed "a" ≡ ok (o, s'))
    × IsLookup front timed "a" o s'
lookup_total_example = lookup_total front timed "a" timed-IsConsistent

set_total_example :
    (s' : Store Sample) × (Keyspace.set samples front timed "a" text true ≡ ok s')
    × IsReplaced samples timed "a" text (deadline_after samples front timed "a" true) s'
unfolding store_runs
set_total_example = set_total samples front timed "a" text true refl timed-IsConsistent

delete_total_example :
    (b : Bool) × (s' : Store Sample) × (Keyspace.delete front timed "b" ≡ ok (b, s'))
    × IsDeleted front timed "b" b s'
delete_total_example = delete_total front timed "b" timed-IsConsistent

write_target_total_example :
    (t : Typed Sample) × (s' : Store Sample) × (Keyspace.write_target samples front two "b" Kind.set
      ≡ ok (t, s'))
    × IsTarget samples front two "b" Kind.set t s'
unfolding store_runs
write_target_total_example = write_target_total samples front two "b" Kind.set refl two-IsConsistent

abbrev emptied : Store Sample
emptied = mutate samples two "b" (Kind.list, 0)

refresh_total_example :
    (s' : Store Sample) × (Keyspace.refresh samples emptied "b" ≡ ok s')
    × IsRefreshed samples emptied "b" s'
refresh_total_example =
    refresh_total samples emptied "b"
      (mutate-IsConsistent samples two "b" (Kind.list, 0) two-IsConsistent)

evict_if_needed_total_example :
    (evicted : List String) × (s' : Store Sample) × (Limits.evict_if_needed
        (λ i. front)
        two
        ("b" ∷ [])
      ≡ ok (evicted, s'))
    × IsEviction two ("b" ∷ []) evicted s'
evict_if_needed_total_example =
    evict_if_needed_total (λ i. front) two ("b" ∷ []) (λ i. front-IsRandom) two-IsConsistent

expire_cycle_total_example :
    (n : ℕ) × (s' : Store Sample) × (Limits.expire_cycle front timed 20 ≡ ok (n, s'))
    × IsExpiry 1000 timed n s'
expire_cycle_total_example = expire_cycle_total front timed 20 front-IsRandom timed-IsConsistent

limit_runs : Unit {0}
unfolding store_runs first_free remove Store.drop_entry Store.snapshot_barrier Store.expire
    KeySet.discard KeySet.pop_last KeySet.fill_hole ◌-ℤ◌ Limits.over_limit Limits.evict_one
    Limits.evict Limits.evict_if_needed Policy.victim Policy.on_remove Lru.victim Lru.on_remove
    Limits.stale_keys Limits.remove_all Limits.purge_expired Store.is_expired Policy.evicts
limit_runs = tt

-- What a run reports, if it does not raise.
abbrev reported : {A : Type 0} → Result (A × Store Sample) → Option (A × List String × ℤ)
reported (raise e) = none
reported (ok (a, s)) = some (a, Dict.keys s.entries, s.used_memory)

-- The oldest key goes; a protected key stays, and the next one goes.
evict_runs :
    (reported (Limits.evict_if_needed (λ i. front) two []) ≡ some ("a" ∷ [], "b" ∷ [], pos 172))
    × (reported (Limits.evict_if_needed (λ i. front) two ("a" ∷ []))
        ≡ some ("b" ∷ [], "a" ∷ [], pos 173))
unfolding limit_runs
evict_runs = (refl, refl)

purge_runs : reported (Limits.purge_expired front timed) ≡ some (1, "b" ∷ [], pos 172)
unfolding limit_runs
purge_runs = refl

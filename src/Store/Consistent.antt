-- ===== src/Store/Consistent.antt =====
-- The invariants that the class `Store` states of itself: the policy tracks every key, `volatile`
-- holds the keys that have a deadline, and `used_memory` is the sum of the sizes. Here they are kept
-- by the steps that all writes are made of.
use redis_like_data_storage.Prelude.{
  ℕ, ◌+◌, String, Option, none, some, Bool, true, false, ok, ite, str_discrete, ◌≡◌, refl, arith,
  Option-cases, Bool-cases, inl, inr, ap, sym, ◌∙◌, ◌==◌, length,
}
use redis_like_data_storage.Prelude.Int.{ℤ, ◌+ℤ◌, ◌-ℤ◌, int_laws}
use redis_like_data_storage.Dict
use redis_like_data_storage.Dict.{Dict, IsDict}
use redis_like_data_storage.Dict.Laws.{get-put, get-remove, put-IsDict, remove-IsDict}
use redis_like_data_storage.Dict.Total.{total, total-put_old, total-remove_old, length-remove}
use redis_like_data_storage.KeySet
use redis_like_data_storage.KeySet.Invariant
use redis_like_data_storage.KeySet.Sets.{discard_removes}
use redis_like_data_storage.Eviction.Policy
use redis_like_data_storage.Eviction.Policy.Tracking.{
  IsTracking, create-IsTracking, on_remove_total, overwrite-IsTracking,
}
use redis_like_data_storage.Store.{
  Entry, Job, Store, init, copy_once, stamped, snapshot_barrier, drop_entry,
}

pub cancel : (a b : ℤ) → a -ℤ b +ℤ b ≡ a
cancel a b = omega int_laws

module _ {V : Type 0} where
  abbrev pub has_ttl : Option (Entry V) → Bool
  has_ttl none = false
  has_ttl (some e) = elim e.expires_at [ none ↦ false | some _ ↦ true ]

  abbrev pub size_of : String → Entry V → ℤ
  size_of k e = e.size

  pub record IsConsistent (s : Store V) : Type 0 where
    pub is_dict : IsDict s.entries
    pub volatile_valid : Invariant.IsValid s.volatile
    pub volatile_ttl : (k : String) → KeySet.contains s.volatile k ≡ has_ttl (Dict.get s.entries k)
    pub memory : s.used_memory ≡ total size_of s.entries
    pub tracking : IsTracking s.eviction s.entries

  -- The entry of a key without the snapshot's mark.
  abbrev pub unmarked : Option (Entry V) → Option (Entry V)
  unmarked none = none
  unmarked (some e) = some (record e { copied = 0 })

  abbrev pub view : Store V → String → Option (Entry V)
  view s k = unmarked (Dict.get s.entries k)

  -- An entry that changes neither its size nor whether it has a deadline can be put in place.
  pub put-IsConsistent :
      (s : Store V) (key : String) (e e' : Entry V)
      → Dict.get s.entries key ≡ some e
      → e'.size ≡ e.size
      → e'.expires_at ≡ e.expires_at
      → IsConsistent s
      → IsConsistent (record s { entries = Dict.put s.entries key e' })
  put-IsConsistent s key e e' found size deadline c = record {
    is_dict = put-IsDict s.entries key e' c.is_dict;
    volatile_valid = c.volatile_valid;
    volatile_ttl = λ k. ground (arith, get-put s.entries key k e', c.volatile_ttl k);
    memory =
        c.memory
        ∙ sym (
            total-put_old size_of s.entries key e' e found
            ∙ ap (λ n. total size_of s.entries -ℤ e.size +ℤ n) size
            ∙ cancel (total size_of s.entries) e.size);
    tracking = overwrite-IsTracking s.eviction s.entries key e' e found c.tracking;
  }

  copy_once-IsConsistent :
      (s : Store V) (job : Job V) (key : String)
      → IsConsistent s
      → IsConsistent (copy_once s job key)
  unfolding copy_once
  copy_once-IsConsistent s job key c = elim (Option-cases (Dict.get s.entries key)) [
    | inl absent ↦ rw (absent, copy_once) c
    | inr (e, found) ↦ elim (Bool-cases (e.copied == job.epoch)) [
      | inl done ↦ rw (found, copy_once, done) c
      | inr new ↦
          let c' = put-IsConsistent s key e (stamped job e) found refl refl c in
          rw (found, copy_once, new)
            (record {
              is_dict = c'.is_dict;
              volatile_valid = c'.volatile_valid;
              volatile_ttl = c'.volatile_ttl;
              memory = c'.memory;
              tracking = c'.tracking;
            })
    ]
  ]

  -- The snapshot's mark apart, a copy changes no entry.
  view-copy_once :
      (s : Store V) (job : Job V) (key k : String) → view (copy_once s job key) k ≡ view s k
  unfolding copy_once
  view-copy_once s job key k = elim (Option-cases (Dict.get s.entries key)) [
    | inl absent ↦ rw (absent, copy_once)
    | inr (e, found) ↦ ground (arith, get-put s.entries key k (stamped job e))
  ]

  pub snapshot_barrier-IsConsistent :
      (s : Store V) (key : String) → IsConsistent s → IsConsistent (snapshot_barrier s key)
  unfolding snapshot_barrier
  snapshot_barrier-IsConsistent s key c = elim (Option-cases s.snapshot_job) [
    | inl idle ↦ rw (idle, snapshot_barrier) c
    | inr (job, running) ↦ rw (running, snapshot_barrier) (copy_once-IsConsistent s job key c)
  ]

  pub view-snapshot_barrier :
      (s : Store V) (key k : String) → view (snapshot_barrier s key) k ≡ view s k
  unfolding snapshot_barrier
  view-snapshot_barrier s key k = elim (Option-cases s.snapshot_job) [
    | inl idle ↦ rw (idle, snapshot_barrier)
    | inr (job, running) ↦ rw (running, snapshot_barrier) (view-copy_once s job key k)
  ]

  -- What no removal or copy changes.
  abbrev pub settings : Store V → ℕ × ℕ × Bool × Bool × Bool × Bool
  settings s = (
    s.max_keys,
    s.maxmemory,
    s.eviction_enabled,
    s.expiry_enabled,
    s.expiry_deletes,
    Policy.evicts s.eviction,
  )

  pub settings-snapshot_barrier :
      (s : Store V) (key : String) → settings (snapshot_barrier s key) ≡ settings s
  unfolding snapshot_barrier copy_once
  settings-snapshot_barrier s key = ground arith

  -- The outcome of a removal of `key`.
  pub record IsRemoval (s : Store V) (key : String) (s' : Store V) : Type 0 where
    pub consistent : IsConsistent s'
    pub views : (k : String) → view s' k ≡ ite (str_discrete key k) none (view s k)
    pub same : settings s' ≡ settings s
    pub fewer : length s'.entries + 1 ≡ length s.entries

  pub drop_entry_total :
      (s : Store V) (key : String) (e : Entry V)
      → Dict.get s.entries key ≡ some e
      → IsConsistent s
      → (s' : Store V) × (drop_entry s key ≡ ok s') × IsRemoval s key s'
  unfolding drop_entry
  drop_entry_total s key e found c =
      let (volatile, discarded, valid, has', _) = discard_removes key c.volatile_valid in
      let (eviction, removed, tracking) =
        on_remove_total s.eviction s.entries key e c.is_dict found c.tracking in
      let s' = record s {
        entries = Dict.remove s.entries key;
        used_memory = s.used_memory -ℤ e.size;
        volatile = volatile;
        eviction = eviction;
      } in
      (
        s',
        rw (found, drop_entry, discarded, removed),
        record {
          consistent = record {
            is_dict = remove-IsDict s.entries key c.is_dict;
            volatile_valid = valid;
            volatile_ttl =
                λ k. ground (arith, has' k, get-remove s.entries key k c.is_dict, c.volatile_ttl k);
            memory =
                ap (λ n. n -ℤ e.size) c.memory
                ∙ sym (total-remove_old size_of s.entries key e found);
            tracking = tracking;
          };
          views = λ k. ground (arith, get-remove s.entries key k c.is_dict);
          same = ground (arith, Policy.evicts-on_remove s.eviction eviction key removed);
          fewer = ground (arith, length-remove s.entries key, found);
        },
      )

-- A new store with a policy that `create_policy` made keeps the invariants.
pub init-IsConsistent :
    {V : Type 0} (name : String) (p : Policy.Policy) (max_keys maxmemory : ℕ)
    → Policy.create name ≡ ok p
    → IsConsistent (init {V = V} p max_keys maxmemory)
unfolding init KeySet.contains Dict.get
init-IsConsistent {V} name p max_keys maxmemory made = record {
  is_dict = tt;
  volatile_valid = Invariant.empty-IsValid;
  volatile_ttl = λ k. refl;
  memory = refl;
  tracking = create-IsTracking (Entry V) name p made;
}

-- ===== src/Store/Lookup.antt =====
-- `_remove`, `_expire` and `_lookup` of engine/store.py: what they change, and that the `KeyError`
-- of the `pop` never happens.
use redis_like_data_storage.Prelude.{
  ℕ, ◌+◌, String, Option, none, some, List, [], ◌∷◌, ◌++◌, Bool, true, false, ◌&&◌, if◌then◌else◌,
  ok, ite, str_discrete, ◌≡◌, refl, arith, Option-cases, Bool-cases, inl, inr, ap, sym, ◌∙◌, length,
}
use redis_like_data_storage.Dict
use redis_like_data_storage.Dict.Total.{length-put}
use redis_like_data_storage.Eviction.Env.{Env}
use redis_like_data_storage.Store.{
  Entry, Store, is_expired, stamped, copy_once, snapshot_barrier, remove, expire, lookup,
}
use redis_like_data_storage.Store.Consistent.{
  IsConsistent, IsRemoval, view, unmarked, settings, settings-snapshot_barrier,
  snapshot_barrier-IsConsistent, view-snapshot_barrier, drop_entry_total,
}

module _ {V : Type 0} where
  pub marked :
      (o : Option (Entry V)) (e : Entry V) → unmarked o ≡ some e → (e' : Entry V) × (o ≡ some e')
  marked none e h = cc
  marked (some e') e h = (e', refl)

  length-snapshot_barrier :
      (s : Store V) (key : String) → length (snapshot_barrier s key).entries ≡ length s.entries
  unfolding snapshot_barrier copy_once
  length-snapshot_barrier s key = elim (Option-cases s.snapshot_job) [
    | inl idle ↦ rw (idle, snapshot_barrier)
    | inr (job, running) ↦ elim (Option-cases (Dict.get s.entries key)) [
      | inl absent ↦ rw (running, snapshot_barrier, absent, copy_once)
      | inr (e, found) ↦
          rw (running, snapshot_barrier) (ground (arith, length-put s.entries key (stamped job e)))
    ]
  ]

  -- `_remove` of a key that is there never raises.
  pub remove_total :
      (s : Store V) (key : String) (e : Entry V)
      → Dict.get s.entries key ≡ some e
      → IsConsistent s
      → (s' : Store V) × (remove s key ≡ ok s') × IsRemoval s key s'
  unfolding remove
  remove_total s key e found c =
      let s₁ = snapshot_barrier s key in
      let (e', found') =
        marked (Dict.get s₁.entries key) (record e { copied = 0 })
          (view-snapshot_barrier s key key ∙ ap unmarked found) in
      let (s', result, r) =
        drop_entry_total s₁ key e' found' (snapshot_barrier-IsConsistent s key c) in
      (
        s',
        result,
        record {
          consistent = r.consistent;
          views =
              λ k. r.views k ∙ ap (ite (str_discrete key k) none) (view-snapshot_barrier s key k);
          same = r.same ∙ settings-snapshot_barrier s key;
          fewer = r.fewer ∙ length-snapshot_barrier s key;
        },
      )

  -- The counters and the calls made are no part of the invariants.
  pub counted-IsConsistent :
      (s : Store V) (expired evicted hits misses : ℕ) (calls : List String)
      → IsConsistent s
      → IsConsistent (record s {
        expired_keys = expired;
        evicted_keys = evicted;
        keyspace_hits = hits;
        keyspace_misses = misses;
        expired_calls = calls;
      })
  counted-IsConsistent s expired evicted hits misses calls c = record {
    is_dict = c.is_dict;
    volatile_valid = c.volatile_valid;
    volatile_ttl = c.volatile_ttl;
    memory = c.memory;
    tracking = c.tracking;
  }

  -- `_expire` never raises either, and reports the key once.
  pub expire_total :
      (s : Store V) (key : String) (e : Entry V)
      → Dict.get s.entries key ≡ some e
      → IsConsistent s
      → (s' : Store V) × (expire s key ≡ ok s') × IsRemoval s key s'
  unfolding expire
  expire_total s key e found c =
      let (s', result, r) = remove_total s key e found c in
      (
        record s' {
          expired_keys = s'.expired_keys + 1;
          expired_calls = s'.expired_calls ++ key ∷ [];
        },
        rw result,
        record {
          consistent =
              counted-IsConsistent s' (s'.expired_keys + 1) s'.evicted_keys s'.keyspace_hits
                s'.keyspace_misses (s'.expired_calls ++ key ∷ []) r.consistent;
          views = r.views;
          same = r.same;
          fewer = r.fewer;
        },
      )

  module _ (env : Env) (s : Store V) (key : String) where
    -- Whether an entry has run out, for a store that looks at deadlines.
    abbrev pub is_stale : Entry V → Bool
    is_stale e = s.expiry_enabled && is_expired e env.now

    -- What a lookup shows of an entry, and what it leaves of it.
    abbrev pub shown : Option (Entry V) → Option (Entry V)
    shown none = none
    shown (some e) = if is_stale e then none else some e

    abbrev pub left : Option (Entry V) → Option (Entry V)
    left none = none
    left (some e) = if is_stale e && s.expiry_deletes then none else some (record e { copied = 0 })

    pub record IsLookup (o : Option (Entry V)) (s' : Store V) : Type 0 where
      pub consistent : IsConsistent s'
      pub same : settings s' ≡ settings s
      -- The result is the entry, unless it has run out.
      pub result : o ≡ shown (Dict.get s.entries key)
      pub views :
          (k : String)
          → view s' k ≡ ite (str_discrete key k) (left (Dict.get s.entries k)) (view s k)
      -- A result stands in the new store.
      pub kept : (e : Entry V) → o ≡ some e → Dict.get s'.entries key ≡ some e

    pub lookup-eq_hit :
        (e : Entry V)
        → Dict.get s.entries key ≡ some e
        → is_stale e ≡ false
        → lookup env s key ≡ ok (some e, s)
    unfolding lookup
    lookup-eq_hit e found fresh = rw (found, lookup, fresh)

    pub lookup-eq_drop :
        (e : Entry V) (s' : Store V)
        → Dict.get s.entries key ≡ some e
        → is_stale e ≡ true
        → s.expiry_deletes ≡ true
        → expire s key ≡ ok s'
        → lookup env s key ≡ ok (none, s')
    unfolding lookup
    lookup-eq_drop e s' found stale deletes dropped =
        rw (found, lookup, stale) (simp (deletes, dropped))

    pub lookup-eq_hide :
        (e : Entry V)
        → Dict.get s.entries key ≡ some e
        → is_stale e ≡ true
        → s.expiry_deletes ≡ false
        → lookup env s key ≡ ok (none, s)
    unfolding lookup
    lookup-eq_hide e found stale keeps = rw (found, lookup, stale) (simp keeps)

    -- A lookup never raises.
    pub lookup_total :
        IsConsistent s
        → (o : Option (Entry V)) × (s' : Store V) × (lookup env s key ≡ ok (o, s')) × IsLookup o s'
    unfolding lookup
    lookup_total c = elim (Option-cases (Dict.get s.entries key)) [
      | inl absent ↦ (
        none,
        s,
        rw (absent, lookup),
        record {
          consistent = c;
          same = refl;
          result = ap shown (sym absent);
          views = λ k. ground (arith);
          kept = λ e h. cc;
        },
      )
      | inr (e, found) ↦ elim (Bool-cases (is_stale e)) [
        | inl stale ↦ elim (Bool-cases s.expiry_deletes) [
          | inl deletes ↦
              let (s', result, r) = expire_total s key e found c in
              (
                none,
                s',
                lookup-eq_drop e s' found stale deletes result,
                record {
                  consistent = r.consistent;
                  same = r.same;
                  result = ground arith;
                  views = λ k. ground (arith, r.views k);
                  kept = λ e' h. cc;
                },
              )
          | inr keeps ↦ (
            none,
            s,
            lookup-eq_hide e found stale keeps,
            record {
              consistent = c;
              same = refl;
              result = ground arith;
              views = λ k. ground arith;
              kept = λ e' h. cc;
            },
          )
        ]
        | inr fresh ↦ (
          some e,
          s,
          lookup-eq_hit e found fresh,
          record {
            consistent = c;
            same = refl;
            result = ground arith;
            views = λ k. ground arith;
            kept = λ e' h. found ∙ h;
          },
        )
      ]
    ]

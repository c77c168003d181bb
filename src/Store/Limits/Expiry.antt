-- ===== src/Store/Limits/Expiry.antt =====
-- `expire_cycle` and `purge_expired` of engine/store.py delete keys that have run out, and no others.
use redis_like_data_storage.Prelude.{
  ℕ, zero, suc, ◌+◌, ◌*◌, String, Option, none, some, List, [], ◌∷◌, Bool, true, false, ◌&&◌,
  if◌then◌else◌, leb, ◌==◌, min, length, ok, ◌≡◌, ◌⊎◌, refl, arith, Option-cases, Bool-cases, inl,
  inr, ap, ◌∙◌, is_in, IsDistinct,
}
use redis_like_data_storage.Dict
use redis_like_data_storage.KeySet
use redis_like_data_storage.KeySet.Sets.{is_in-items, items-IsDistinct}
use redis_like_data_storage.Eviction.Env.{Env, IsRandom}
use redis_like_data_storage.Store.{Entry, Store, is_expired}
use redis_like_data_storage.Store.Consistent.{IsConsistent, IsRemoval, view, settings}
use redis_like_data_storage.Store.Lookup.{remove_total, expire_total, counted-IsConsistent}
use redis_like_data_storage.Store.Limits.{
  expire_sample, expire_rounds, expire_cycle, stale_keys, remove_all, purge_expired,
}

module _ {V : Type 0} where
  -- Whether the entry of a key has run out.
  abbrev pub has_run_out : ℕ → Option (Entry V) → Bool
  has_run_out now none = false
  has_run_out now (some e) = is_expired e now

  abbrev IsHeld : Store V → List String → Type 0
  IsHeld s keys =
      (k : String) → is_in keys k ≡ true → (e : Entry V) × (Dict.get s.entries k ≡ some e)

  -- `s'` is `s` without the keys for which `gone` holds, which are `count`.
  pub record IsPurge (s : Store V) (gone : String → Bool) (count : ℕ) (s' : Store V) : Type 0 where
    pub consistent : IsConsistent s'
    pub same : settings s' ≡ settings s
    pub views : (k : String) → view s' k ≡ (if gone k then none else view s k)
    pub fewer : length s'.entries + count ≡ length s.entries

  -- Keys apart from `key` are held still when `key` is removed.
  IsHeld-remove :
      (s s₁ : Store V) (key : String) (keys : List String)
      → IsRemoval s key s₁
      → is_in keys key ≡ false
      → IsHeld s keys
      → IsHeld s₁ keys
  IsHeld-remove s s₁ key keys r new held = λ k h. elim (Option-cases (Dict.get s₁.entries k)) [
    | inl absent ↦ let (e, found) = held k h in absurd (ground (arith, r.views k))
    | inr found ↦ found
  ]

  remove_all_total :
      (s : Store V) (keys : List String)
      → IsDistinct keys
      → IsHeld s keys
      → IsConsistent s
      → (s' : Store V) × (remove_all s keys ≡ ok s') × IsPurge s (is_in keys) (length keys) s'
  unfolding remove_all is_in
  remove_all_total s [] d held c =
      (s, refl, record { consistent = c; same = refl; views = λ k. refl; fewer = omega arith })
  remove_all_total s (key ∷ keys) (new, d) held c =
      let (e, found) = held key (ground arith) in
      let (s₁, removed, r) = remove_total s key e found c in
      let (s', result, p) =
        remove_all_total s₁ keys d
          (IsHeld-remove s s₁ key keys r new (λ k h. held k (ground arith))) r.consistent in
      (
        s',
        rw removed result,
        record {
          consistent = p.consistent;
          same = p.same ∙ r.same;
          views = λ k. ground (arith, p.views k, r.views k);
          fewer = omega (arith, p.fewer, r.fewer);
        },
      )

  expire_sample_total :
      (now : ℕ) (s : Store V) (keys : List String)
      → IsDistinct keys
      → IsHeld s keys
      → IsConsistent s
      → (n : ℕ) × (s' : Store V) × (expire_sample now s keys ≡ ok (n, s'))
        × IsPurge s (λ k. is_in keys k && has_run_out now (view s k)) n s'
  unfolding expire_sample is_in is_expired
  expire_sample_total now s [] d held c =
      (0, s, refl, record { consistent = c; same = refl; views = λ k. refl; fewer = omega arith })
  expire_sample_total now s (key ∷ keys) (new, d) held c =
      let (e, found) = held key (ground arith) in
      elim (Bool-cases (is_expired e now)) [
        | inl old ↦
            let (s₁, removed, r) = expire_total s key e found c in
            let (n, s', result, p) =
              expire_sample_total now s₁ keys d
                (IsHeld-remove s s₁ key keys r new (λ k h. held k (ground arith))) r.consistent in
            (
              n + 1,
              s',
              rw (found, expire_sample) (simp (old, removed, result)),
              record {
                consistent = p.consistent;
                same = p.same ∙ r.same;
                views = λ k. ground (arith, p.views k, r.views k);
                fewer = omega (arith, p.fewer, r.fewer);
              },
            )
        | inr live ↦
            let (n, s', result, p) =
              expire_sample_total now s keys d (λ k h. held k (ground arith)) c in
            (
              n,
              s',
              rw (found, expire_sample) (simp (live, result)),
              record {
                consistent = p.consistent;
                same = p.same;
                views = λ k. ground (arith, p.views k);
                fewer = p.fewer;
              },
            )
      ]

  -- `s'` is `s` without `count` keys, which have run out.
  pub record IsExpiry (now : ℕ) (s : Store V) (count : ℕ) (s' : Store V) : Type 0 where
    pub consistent : IsConsistent s'
    pub same : settings s' ≡ settings s
    pub views :
        (k : String)
        → (view s' k ≡ view s k) ⊎ ((view s' k ≡ none) × (has_run_out now (view s k) ≡ true))
    pub fewer : length s'.entries + count ≡ length s.entries

  IsExpiry-none : (now : ℕ) (s : Store V) → IsConsistent s → IsExpiry now s 0 s
  IsExpiry-none now s c = record {
    consistent = c;
    same = refl;
    views = λ k. inl refl;
    fewer = omega arith;
  }

  IsExpiry-then :
      (now : ℕ) (s s₁ s' : Store V) (m n : ℕ)
      → IsExpiry now s m s₁
      → IsExpiry now s₁ n s'
      → IsExpiry now s (m + n) s'
  unfolding is_expired
  IsExpiry-then now s s₁ s' m n x y = record {
    consistent = y.consistent;
    same = y.same ∙ x.same;
    views = λ k. ground (arith, x.views k, y.views k);
    fewer = omega (arith, x.fewer, y.fewer);
  }

  volatile-IsHeld : (s : Store V) → IsConsistent s → IsHeld s s.volatile.items
  volatile-IsHeld s c = λ k h. elim (Option-cases (Dict.get s.entries k)) [
    | inl absent ↦ absurd (ground (arith, c.volatile_ttl k, is_in-items k c.volatile_valid))
    | inr found ↦ found
  ]

  sample_total :
      (env : Env) (i k : ℕ) (s : Store V)
      → IsRandom env
      → IsConsistent s
      → (n : ℕ) × (s' : Store V) × (expire_sample env.now s
            (KeySet.sample s.volatile k (env.sample i))
          ≡ ok (n, s'))
        × IsExpiry env.now s n s'
  unfolding KeySet.sample
  sample_total env i k s r c =
      let xs = s.volatile.items in
      let n = min k (length xs) in
      let keys = env.sample i xs n in
      let (m, s', result, p) =
        expire_sample_total env.now s keys
          (r.distinct i xs n (omega arith) (items-IsDistinct c.volatile_valid))
          (λ x h. volatile-IsHeld s c x (r.members i xs n x (omega arith) h)) c in
      (
        m,
        s',
        result,
        record {
          consistent = p.consistent;
          same = p.same;
          views = λ x. ground (arith, p.views x);
          fewer = p.fewer;
        },
      )

  expire_rounds_total :
      (rounds : ℕ) (env : Env) (i : ℕ) (s : Store V) (sample_size total : ℕ)
      → IsRandom env
      → IsConsistent s
      → (n : ℕ) × (s' : Store V) × (expire_rounds rounds env i s sample_size total
          ≡ ok (total + n, s'))
        × IsExpiry env.now s n s'
  unfolding expire_rounds
  expire_rounds_total zero env i s sample_size total r c =
      (0, s, ap (λ n. ok (n, s)) (omega arith), IsExpiry-none env.now s c)
  expire_rounds_total (suc rounds) env i s sample_size total r c =
      let sample = KeySet.sample s.volatile sample_size (env.sample i) in
      let (m, s₁, sampled, x) = sample_total env i sample_size s r c in
      let (n, s', result, y) =
        expire_rounds_total rounds env (suc i) s₁ sample_size (total + m) r x.consistent in
      elim (Bool-cases (length sample == 0)) [
        | inl none_left ↦
            (0, s, rw none_left (ap (λ n. ok (n, s)) (omega arith)), IsExpiry-none env.now s c)
        | inr some_left ↦ elim (Bool-cases (leb (m * 4) (length sample))) [
          | inl few ↦ (m, s₁, rw (some_left, sampled) (simp few), x)
          | inr many ↦ (
            m + n,
            s',
            rw (some_left, sampled) (simp (many, result) (ap (λ n. ok (n, s')) (omega arith))),
            IsExpiry-then env.now s s₁ s' m n x y,
          )
        ]
      ]

  -- The active expiry cycle never raises. It deletes only keys that have run out, returns how many
  -- it deleted, and changes no other key; the invariants hold.
  pub expire_cycle_total :
      (env : Env) (s : Store V) (sample_size : ℕ)
      → IsRandom env
      → IsConsistent s
      → (n : ℕ) × (s' : Store V) × (expire_cycle env s sample_size ≡ ok (n, s'))
        × IsExpiry env.now s n s'
  unfolding expire_cycle
  expire_cycle_total env s sample_size r c = elim (Bool-cases s.expiry_deletes) [
    | inl deletes ↦
        let (n, s', result, x) = expire_rounds_total 16 env 0 s sample_size 0 r c in
        (n, s', simp deletes (result ∙ ap (λ m. ok (m, s')) (omega arith)), x)
    | inr keeps ↦ (0, s, simp keeps, IsExpiry-none env.now s c)
  ]

  IsStale : ℕ → Store V → List String → List String → Type 0
  IsStale now s keys stale =
      IsDistinct stale × ((k : String) → is_in stale k ≡ is_in keys k && has_run_out now (view s k))

  stale_keys_total :
      (now : ℕ) (s : Store V) (keys : List String)
      → IsDistinct keys
      → IsHeld s keys
      → (stale : List String) × (stale_keys now s keys ≡ ok stale) × IsStale now s keys stale
  unfolding stale_keys is_in IsStale is_expired
  stale_keys_total now s [] d held = ([], refl, (tt, λ k. refl))
  stale_keys_total now s (key ∷ keys) (new, d) held =
      let (e, found) = held key (ground arith) in
      let (stale, result, (apart, same)) =
        stale_keys_total now s keys d (λ k h. held k (ground arith)) in
      (
        if is_expired e now then key ∷ stale else stale,
        rw (found, stale_keys, result),
        (ground (arith, same key), λ k. ground (arith, same k)),
      )

  -- After `purge_expired`, which never raises, exactly the keys that had run out are gone. It
  -- returns how many they were; the invariants hold.
  pub purge_expired_total :
      (env : Env) (s : Store V)
      → IsConsistent s
      → (n : ℕ) × (s' : Store V) × (purge_expired env s ≡ ok (n, s'))
        × IsPurge s (λ k. has_run_out env.now (view s k)) n s'
  unfolding purge_expired IsStale is_expired
  purge_expired_total env s c =
      let (stale, listed, (apart, same)) =
        stale_keys_total env.now s s.volatile.items (items-IsDistinct c.volatile_valid)
          (volatile-IsHeld s c) in
      let (s', removed, p) =
        remove_all_total s stale apart (λ k h. volatile-IsHeld s c k (ground (arith, same k))) c in
      (
        length stale,
        record s' { expired_keys = s'.expired_keys + length stale },
        rw (listed, removed),
        record {
          consistent =
              counted-IsConsistent s' (s'.expired_keys + length stale) s'.evicted_keys
                s'.keyspace_hits s'.keyspace_misses s'.expired_calls p.consistent;
          same = p.same;
          views = λ k.
              ground (arith, p.views k, same k, c.volatile_ttl k, is_in-items k c.volatile_valid);
          fewer = p.fewer;
        },
      )

-- ===== src/Store/Writes/Deadlines.antt =====
-- `delete`, `set_expiry` and `persist` of engine/store.py.
use redis_like_data_storage.Prelude.{
  ℕ, String, Option, none, some, Bool, true, false, if◌then◌else◌, ok, ite, str_discrete, ◌≡◌, refl,
  arith, ap, sym, ◌∙◌,
}
use redis_like_data_storage.Dict
use redis_like_data_storage.Dict.Laws.{get-put, put-IsDict}
use redis_like_data_storage.Dict.Total.{total-put_old, total}
use redis_like_data_storage.KeySet
use redis_like_data_storage.KeySet.Invariant
use redis_like_data_storage.KeySet.Sets.{discard_removes, add_inserts}
use redis_like_data_storage.Eviction.Env.{Env}
use redis_like_data_storage.Eviction.Policy.Tracking.{overwrite-IsTracking}
use redis_like_data_storage.Store.{Entry, Store, lookup}
use redis_like_data_storage.Store.Keyspace.{delete, set_expiry, drop_deadline, persist}
use redis_like_data_storage.Store.Consistent.{cancel, IsConsistent, view, has_ttl, size_of}
use redis_like_data_storage.Store.Lookup.{lookup_total, IsLookup, remove_total, shown, left}

abbrev pub is_some {ℓ} : {A : Type ℓ} → Option A → Bool
is_some none = false
is_some (some a) = true

module _ {V : Type 0} where
  -- What a lookup of `key` leaves at any key.
  abbrev pub looked_up : Env → Store V → String → String → Option (Entry V)
  looked_up env s key k =
      ite (str_discrete key k) (left env s key (Dict.get s.entries k)) (view s k)

  -- An entry with the deadline changed, and no snapshot's mark.
  abbrev pub with_deadline : Option ℕ → Option (Entry V) → Option (Entry V)
  with_deadline t none = none
  with_deadline t (some e) = some (record e { expires_at = t; copied = 0 })

  -- The outcome of DEL: whether the key was there to see, the key gone, and no other key changed.
  abbrev pub IsDeleted : Env → Store V → String → Bool → Store V → Type 0
  IsDeleted env s key b s' =
      IsConsistent s'
      × (b ≡ is_some (shown env s key (Dict.get s.entries key)))
      × ((k : String)
          → view s' k
            ≡ ite (str_discrete key k) (if b then none else left env s key (Dict.get s.entries k))
                (view s k))

  -- The outcome of EXPIRE: whether the key was there to see, its deadline, and nothing else changed.
  abbrev pub IsRetimed : Env → Store V → String → Option ℕ → Bool → Store V → Type 0
  IsRetimed env s key t b s' =
      IsConsistent s'
      × (b ≡ is_some (shown env s key (Dict.get s.entries key)))
      × ((k : String)
          → view s' k ≡ (
              if b
              then ite (str_discrete key k) (with_deadline t (Dict.get s.entries k)) (view s k)
              else looked_up env s key k))

  -- Replacing the deadline of an entry, with the keys that have one in step.
  pub retime-IsConsistent :
      (s : Store V) (key : String) (e : Entry V) (t : Option ℕ) (volatile : KeySet.KeySet)
      → Dict.get s.entries key ≡ some e
      → Invariant.IsValid volatile
      → ((k : String)
          → KeySet.contains volatile k
            ≡ ite
                (str_discrete key k)
                (has_ttl (some (record e { expires_at = t })))
                (KeySet.contains s.volatile k))
      → IsConsistent s
      → IsConsistent (record s {
        entries = Dict.put s.entries key (record e { expires_at = t });
        volatile = volatile;
      })
  retime-IsConsistent s key e t volatile found valid has' c =
      let e' : Entry V = record e { expires_at = t } in
      record {
        is_dict = put-IsDict s.entries key e' c.is_dict;
        volatile_valid = valid;
        volatile_ttl = λ k. ground (arith, has' k, get-put s.entries key k e', c.volatile_ttl k);
        memory =
            c.memory
            ∙ sym (
                total-put_old size_of s.entries key e' e found
                ∙ cancel (total size_of s.entries) e.size);
        tracking = overwrite-IsTracking s.eviction s.entries key e' e found c.tracking;
      }

  -- DEL never raises. It returns whether the key was there to see, which then is gone, and changes no
  -- other key; the invariants hold.
  pub delete_total :
      (env : Env) (s : Store V) (key : String)
      → IsConsistent s
      → (b : Bool) × (s' : Store V) × (delete env s key ≡ ok (b, s')) × IsDeleted env s key b s'
  unfolding delete
  delete_total env s key c = go (lookup_total env s key c)
    where
      go :
          (o : Option (Entry V)) × (s₁ : Store V) × (lookup env s key ≡ ok (o, s₁))
            × IsLookup env s key o s₁
          → (b : Bool) × (s' : Store V) × (delete env s key ≡ ok (b, s')) × IsDeleted env s key b s'
      go (none, s₁, looked, l) =
          (false, s₁, rw looked, (l.consistent, ap is_some l.result, l.views))
      go (some e, s₁, looked, l) =
          let (s', removed, r) = remove_total s₁ key e (l.kept e refl) l.consistent in
          (
            true,
            s',
            rw (looked, removed),
            (r.consistent, ap is_some l.result, λ k. ground (arith, r.views k, l.views k)),
          )

  -- EXPIRE never raises. It returns whether the key was there to see; if so the key has the deadline
  -- afterwards, and nothing else changes; the invariants hold.
  pub set_expiry_total :
      (env : Env) (s : Store V) (key : String) (t : ℕ)
      → IsConsistent s
      → (b : Bool) × (s' : Store V) × (set_expiry env s key t ≡ ok (b, s'))
        × IsRetimed env s key (some t) b s'
  unfolding set_expiry
  set_expiry_total env s key t c = go (lookup_total env s key c)
    where
      go :
          (o : Option (Entry V)) × (s₁ : Store V) × (lookup env s key ≡ ok (o, s₁))
            × IsLookup env s key o s₁
          → (b : Bool) × (s' : Store V) × (set_expiry env s key t ≡ ok (b, s'))
            × IsRetimed env s key (some t) b s'
      go (none, s₁, looked, l) =
          (false, s₁, rw looked, (l.consistent, ap is_some l.result, l.views))
      go (some e, s₁, looked, l) =
          let (valid, has', _) = add_inserts key l.consistent.volatile_valid in
          (
            true,
            record s₁ {
              entries = Dict.put s₁.entries key (record e { expires_at = some t });
              volatile = KeySet.add s₁.volatile key;
            },
            rw looked,
            (
              retime-IsConsistent s₁ key e (some t) (KeySet.add s₁.volatile key) (l.kept e refl)
                  valid has' l.consistent,
              ap is_some l.result,
              λ k. ground (
                arith,
                get-put s₁.entries key k (record e { expires_at = some t }),
                l.views k,
                l.result,
                l.kept e refl,
              ),
            ),
          )

  -- The outcome of PERSIST: whether the key was there to see with a deadline, and if so that it has
  -- none, and nothing else changed.
  abbrev pub IsPersisted : Env → Store V → String → Bool → Store V → Type 0
  IsPersisted env s key b s' =
      IsConsistent s'
      × (b ≡ has_ttl (shown env s key (Dict.get s.entries key)))
      × ((k : String)
          → view s' k ≡ (
              if b
              then ite (str_discrete key k) (with_deadline none (Dict.get s.entries k)) (view s k)
              else looked_up env s key k))

  drop_deadline_total :
      (env : Env) (s s₁ : Store V) (key : String) (e : Entry V) (t : Option ℕ)
      → e.expires_at ≡ t
      → IsLookup env s key (some e) s₁
      → (b : Bool) × (s' : Store V) × (drop_deadline s₁ key e ≡ ok (b, s'))
        × IsPersisted env s key b s'
  unfolding drop_deadline
  drop_deadline_total env s s₁ key e none timeless l =
      (false, s₁, rw timeless, (l.consistent, ground (arith, l.result), l.views))
  drop_deadline_total env s s₁ key e (some t) timed l =
      let (volatile, discarded, valid, has', _) = discard_removes key l.consistent.volatile_valid in
      (
        true,
        record s₁ {
          entries = Dict.put s₁.entries key (record e { expires_at = none });
          volatile = volatile;
        },
        rw (timed, discarded),
        (
          retime-IsConsistent s₁ key e none volatile (l.kept e refl) valid has' l.consistent,
          ground (arith, l.result),
          λ k. ground (
            arith,
            get-put s₁.entries key k (record e { expires_at = none }),
            l.views k,
            l.result,
            l.kept e refl,
          ),
        ),
      )

  -- PERSIST never raises. It returns whether the key was there to see with a deadline; if so it has none
  -- afterwards, and nothing else changes; the invariants hold.
  pub persist_total :
      (env : Env) (s : Store V) (key : String)
      → IsConsistent s
      → (b : Bool) × (s' : Store V) × (persist env s key ≡ ok (b, s')) × IsPersisted env s key b s'
  unfolding persist
  persist_total env s key c = go (lookup_total env s key c)
    where
      go :
          (o : Option (Entry V)) × (s₁ : Store V) × (lookup env s key ≡ ok (o, s₁))
            × IsLookup env s key o s₁
          → (b : Bool) × (s' : Store V) × (persist env s key ≡ ok (b, s'))
            × IsPersisted env s key b s'
      go (none, s₁, looked, l) =
          (false, s₁, rw looked, (l.consistent, ap has_ttl l.result, l.views))
      go (some e, s₁, looked, l) =
          let (b, s', dropped, p) = drop_deadline_total env s s₁ key e e.expires_at refl l in
          (b, s', rw looked dropped, p)

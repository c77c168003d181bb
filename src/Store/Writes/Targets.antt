-- ===== src/Store/Writes/Targets.antt =====
-- `get`, `write_target`, a command's change of a collection, and `refresh` of engine/store.py.
use redis_like_data_storage.Prelude.{
  ◌+◌, String, Option, none, some, if◌then◌else◌, ok, ite, str_discrete, ◌≡◌, refl, arith,
  Option-cases, Bool-cases, inl, inr, ap, sym, ◌∙◌,
}
use redis_like_data_storage.Prelude.Int.{ℤ, ◌+ℤ◌, ◌-ℤ◌, int_laws}
use redis_like_data_storage.Dict
use redis_like_data_storage.Dict.Laws.{get-put, put-IsDict}
use redis_like_data_storage.Dict.Total.{total-put_old, total}
use redis_like_data_storage.Eviction.Env.{Env}
use redis_like_data_storage.Eviction.Policy
use redis_like_data_storage.Eviction.Policy.Tracking.{on_access_total, overwrite-IsTracking}
use redis_like_data_storage.Store.{Entry, Store, lookup}
use redis_like_data_storage.Store.Interface.{Values, Kind, same_kind, is_hollow}
use redis_like_data_storage.Store.Keyspace.{
  get, Typed, write_target, mutate, refresh, entry_size, insert,
}
use redis_like_data_storage.Store.Consistent.{IsConsistent, put-IsConsistent, view, size_of}
use redis_like_data_storage.Store.Lookup.{
  lookup_total, IsLookup, remove_total, shown, counted-IsConsistent,
}
use redis_like_data_storage.Store.Writes.{
  written, insert-IsConsistent, view-insert, HidesNothing, lookup_misses,
}
use redis_like_data_storage.Store.Writes.Deadlines.{looked_up}

module _ {V : Type 0} where
  accessed-IsConsistent :
      (env : Env) (s : Store V) (key : String)
      → IsConsistent s
      → (eviction : Policy.Policy) × (Policy.on_access env s.eviction key ≡ ok eviction)
        × IsConsistent (record s { eviction = eviction })
  accessed-IsConsistent env s key c =
      let (eviction, accessed, tracking) =
        on_access_total env s.eviction s.entries key c.tracking in
      (
        eviction,
        accessed,
        record {
          is_dict = c.is_dict;
          volatile_valid = c.volatile_valid;
          volatile_ttl = c.volatile_ttl;
          memory = c.memory;
          tracking = tracking;
        },
      )

  abbrev pub IsGet : Env → Store V → String → Option (Entry V) → Store V → Type 0
  IsGet env s key o s' =
      IsConsistent s'
      × (o ≡ shown env s key (Dict.get s.entries key))
      × ((k : String) → view s' k ≡ looked_up env s key k)

  -- A GET never raises and keeps the invariants. It returns the entry of the key unless that has run
  -- out, in which case the key is deleted if the store deletes; no other key changes.
  pub get_total :
      (env : Env) (s : Store V) (key : String)
      → IsConsistent s
      → (o : Option (Entry V)) × (s' : Store V) × (get env s key ≡ ok (o, s'))
        × IsGet env s key o s'
  unfolding get
  get_total env s key c = go (lookup_total env s key c)
    where
      go :
          (o : Option (Entry V)) × (s₁ : Store V) × (lookup env s key ≡ ok (o, s₁))
            × IsLookup env s key o s₁
          → (o : Option (Entry V)) × (s' : Store V) × (get env s key ≡ ok (o, s'))
            × IsGet env s key o s'
      go (none, s₁, looked, l) = (
        none,
        record s₁ { keyspace_misses = s₁.keyspace_misses + 1 },
        rw looked,
        (
          counted-IsConsistent s₁ s₁.expired_keys s₁.evicted_keys s₁.keyspace_hits
              (s₁.keyspace_misses + 1) s₁.expired_calls l.consistent,
          l.result,
          l.views,
        ),
      )
      go (some e, s₁, looked, l) =
          let s₂ : Store V = record s₁ { keyspace_hits = s₁.keyspace_hits + 1 } in
          let c₂ =
            counted-IsConsistent s₁ s₁.expired_keys s₁.evicted_keys (s₁.keyspace_hits + 1)
              s₁.keyspace_misses s₁.expired_calls l.consistent in
          let (eviction, accessed, c₃) = accessed-IsConsistent env s₂ key c₂ in
          (
            some e,
            record s₁ { keyspace_hits = s₁.keyspace_hits + 1; eviction = eviction },
            rw (looked, accessed),
            (c₃, l.result, l.views),
          )

module _ (vs : Values) where
  open vs use {Value, kind, new}

  -- What `write_target` returns, and what it leaves at the key, for the entry that a lookup shows.
  abbrev pub target : Kind → Option (Entry Value) → Typed Value
  target k none = Typed.reply (new k)
  target k (some e) = if same_kind (kind e.value) k then Typed.reply e.value else Typed.wrong_type

  abbrev pub target_entry : String → Kind → Option (Entry Value) → Option (Entry Value)
  target_entry key k none = some (written vs key (new k) none)
  target_entry key k (some e) = some (record e { copied = 0 })

  abbrev pub IsTarget : Env → Store Value → String → Kind → Typed Value → Store Value → Type 0
  IsTarget env s key k t s' =
      IsConsistent s'
      × (t ≡ target k (shown env s key (Dict.get s.entries key)))
      × ((x : String)
          → view s' x
            ≡ ite (str_discrete key x)
                (target_entry key k (shown env s key (Dict.get s.entries key))) (view s x))

  hit-IsTarget :
      (env : Env) (s s₁ : Store Value) (key : String) (k : Kind) (e : Entry Value)
      → lookup env s key ≡ ok (some e, s₁)
      → IsLookup env s key (some e) s₁
      → (t : Typed Value) × (s' : Store Value) × (write_target vs env s key k ≡ ok (t, s'))
        × IsTarget env s key k t s'
  unfolding write_target
  hit-IsTarget env s s₁ key k e looked l = elim (Bool-cases (same_kind (kind e.value) k)) [
    | inl same ↦
        let (eviction, accessed, c) = accessed-IsConsistent env s₁ key l.consistent in
        (
          Typed.reply e.value,
          record s₁ { eviction = eviction },
          rw (looked, same, accessed),
          (
            c,
            rw (sym l.result) (simp same),
            λ x. ground (arith, l.views x, l.result, l.kept e refl),
          ),
        )
    | inr other ↦ (
      Typed.wrong_type,
      s₁,
      rw (looked, other),
      (
        l.consistent,
        rw (sym l.result) (simp other),
        λ x. ground (arith, l.views x, l.result, l.kept e refl),
      ),
    )
  ]

  -- `write_target` never raises a fault, for a store that hides no expired key. It returns the
  -- collection at the key, a new one if there is none, or WRONGTYPE; no other key changes, and the
  -- invariants hold.
  pub write_target_total :
      (env : Env) (s : Store Value) (key : String) (k : Kind)
      → HidesNothing vs s
      → IsConsistent s
      → (t : Typed Value) × (s' : Store Value) × (write_target vs env s key k ≡ ok (t, s'))
        × IsTarget env s key k t s'
  unfolding write_target
  write_target_total env s key k h c = go (lookup_total env s key c)
    where
      go :
          (o : Option (Entry Value)) × (s₁ : Store Value) × (lookup env s key ≡ ok (o, s₁))
            × IsLookup env s key o s₁
          → (t : Typed Value) × (s' : Store Value) × (write_target vs env s key k ≡ ok (t, s'))
            × IsTarget env s key k t s'
      go (some e, s₁, looked, l) = hit-IsTarget env s s₁ key k e looked l
      go (none, s₁, looked, l) = (
        Typed.reply (new k),
        insert vs env s₁ key (new k),
        rw looked,
        (
          insert-IsConsistent vs env s₁ key (new k) (lookup_misses vs env s s₁ key h l)
              l.consistent,
          rw (sym l.result),
          λ x. ground (arith, view-insert vs env s₁ key x (new k), l.views x, l.result),
        ),
      )

  -- A command's change of the collection at a key keeps the invariants, `refresh` or not.
  pub mutate-IsConsistent :
      (s : Store Value) (key : String) (value : Value)
      → IsConsistent s
      → IsConsistent (mutate vs s key value)
  unfolding mutate
  mutate-IsConsistent s key value c = elim (Option-cases (Dict.get s.entries key)) [
    | inl absent ↦ rw (absent, mutate) c
    | inr (e, found) ↦
        rw (found, mutate) (put-IsConsistent s key e (record e { value = value }) found refl refl c)
  ]

  -- The entry that `refresh` leaves: none for an empty collection, else one with the size that its
  -- value has.
  abbrev pub refreshed : String → Option (Entry Value) → Option (Entry Value)
  refreshed key none = none
  refreshed key (some e) =
      if is_hollow vs e.value
      then none
      else some (record e { size = entry_size vs key e.value; copied = 0 })

  abbrev pub IsRefreshed : Store Value → String → Store Value → Type 0
  IsRefreshed s key s' =
      IsConsistent s'
      × ((x : String)
          → view s' x ≡ ite (str_discrete key x) (refreshed key (Dict.get s.entries x)) (view s x))

  resized-IsConsistent :
      (s : Store Value) (key : String) (e : Entry Value) (n : ℤ)
      → Dict.get s.entries key ≡ some e
      → IsConsistent s
      → IsConsistent (record s {
        used_memory = s.used_memory +ℤ (n -ℤ e.size);
        entries = Dict.put s.entries key (record e { size = n });
      })
  resized-IsConsistent s key e n found c =
      let e' : Entry Value = record e { size = n } in
      record {
        is_dict = put-IsDict s.entries key e' c.is_dict;
        volatile_valid = c.volatile_valid;
        volatile_ttl = λ k. ground (arith, get-put s.entries key k e', c.volatile_ttl k);
        memory =
            ap (λ m. m +ℤ (n -ℤ e.size)) c.memory
            ∙ move (total size_of s.entries) n e.size
            ∙ sym (total-put_old size_of s.entries key e' e found);
        tracking = overwrite-IsTracking s.eviction s.entries key e' e found c.tracking;
      }
    where
      move : (m a b : ℤ) → m +ℤ (a -ℤ b) ≡ m -ℤ b +ℤ a
      move m a b = omega int_laws

  -- `refresh` never raises and keeps the invariants. It drops the key if its collection is empty,
  -- and else accounts it with the size of its value; no other key changes.
  pub refresh_total :
      (s : Store Value) (key : String)
      → IsConsistent s
      → (s' : Store Value) × (refresh vs s key ≡ ok s') × IsRefreshed s key s'
  unfolding refresh
  refresh_total s key c = elim (Option-cases (Dict.get s.entries key)) [
    | inl absent ↦ (s, rw (absent, refresh), (c, λ x. ground arith))
    | inr (e, found) ↦ elim (Bool-cases (is_hollow vs e.value)) [
      | inl hollow ↦
          let (s', removed, r) = remove_total s key e found c in
          (
            s',
            rw (found, refresh) (simp (hollow, removed)),
            (r.consistent, λ x. ground (arith, r.views x)),
          )
      | inr solid ↦
          let n = entry_size vs key e.value in
          (
            record s {
              used_memory = s.used_memory +ℤ (n -ℤ e.size);
              entries = Dict.put s.entries key (record e { size = n });
            },
            rw (found, refresh) (simp solid),
            (
              resized-IsConsistent s key e n found c,
              λ x. ground (arith, get-put s.entries key x (record e { size = n })),
            ),
          )
    ]
  ]

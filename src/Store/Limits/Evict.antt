-- ===== src/Store/Limits/Evict.antt =====
-- `evict_if_needed` of engine/store.py: it ends, evicts no protected key, and gets the store under its
-- limits or down to its protected keys.
use redis_like_data_storage.Prelude.{
  ℕ, zero, suc, ◌+◌, ◌<◌, String, Option, none, some, List, [], ◌∷◌, ◌++◌, Bool, true, false, ◌&&◌,
  if◌then◌else◌, length, ok, ◌≡◌, ◌⊎◌, refl, arith, Bool-cases, inl, inr, ap, sym, ◌∙◌, is_in,
}
use mathlib.Core.List.{append-nil, append_assoc}
use redis_like_data_storage.Dict.{has}
use redis_like_data_storage.Dict.Laws.{get_of_has}
use redis_like_data_storage.Eviction.Env.{Env, IsRandom}
use redis_like_data_storage.Eviction.Policy
use redis_like_data_storage.Eviction.Policy.Tracking.{victim_total, IsVictim}
use redis_like_data_storage.Store.{Store}
use redis_like_data_storage.Store.Consistent.{IsConsistent, IsRemoval, view, settings}
use redis_like_data_storage.Store.Lookup.{remove_total, counted-IsConsistent}
use redis_like_data_storage.Store.Limits.{over_limit, evict_one, evict, evict_if_needed}

module _ {V : Type 0} where
  abbrev pub is_active : Store V → Bool
  is_active s = s.eviction_enabled && Policy.evicts s.eviction

  -- Under the limits, or only keys of `protect` left.
  abbrev pub IsSettled : Store V → List String → Type 0
  IsSettled s protect =
      (over_limit s 0 ≡ false) ⊎ ((k : String) → has s.entries k ≡ true → is_in protect k ≡ true)

  pub record IsEviction (s : Store V) (protect evicted : List String) (s' : Store V) : Type 0 where
    pub consistent : IsConsistent s'
    pub same : settings s' ≡ settings s
    -- The evicted keys are gone and no other key changed.
    pub views : (k : String) → view s' k ≡ (if is_in evicted k then none else view s k)
    pub unprotected : (k : String) → is_in evicted k ≡ true → is_in protect k ≡ false
    -- Nothing is evicted under the limits.
    pub idle : over_limit s 0 ≡ false → evicted ≡ []
    pub settled : is_active s ≡ true → IsSettled s' protect

  abbrev IsTurn : Store V → List String → Option String → Store V → Type 0
  IsTurn s protect none s' =
      (s' ≡ s) × ((k : String) → has s.entries k ≡ true → is_in protect k ≡ true)
  IsTurn s protect (some key) s' = IsRemoval s key s' × (is_in protect key ≡ false)

  evict_one_total :
      (env : Env) (s : Store V) (protect : List String)
      → IsRandom env
      → Policy.evicts s.eviction ≡ true
      → IsConsistent s
      → (o : Option String) × (s' : Store V) × (evict_one env s protect ≡ ok (o, s'))
        × IsTurn s protect o s'
  unfolding evict_one
  evict_one_total env s protect r e c =
      go (victim_total env s.eviction s.entries protect r e c.tracking)
    where
      go :
          (o : Option String) × (Policy.victim env s.eviction protect ≡ ok o)
            × IsVictim s.entries protect o
          → (o : Option String) × (s' : Store V) × (evict_one env s protect ≡ ok (o, s'))
            × IsTurn s protect o s'
      go (none, named, v) = (none, s, rw named, (refl, v))
      go (some key, named, (held, free)) =
          let (x, found) = get_of_has s.entries key held in
          let (s', removed, l) = remove_total s key x found c in
          (
            some key,
            record s' { evicted_keys = s'.evicted_keys + 1 },
            rw (named, removed),
            (
              record {
                consistent =
                    counted-IsConsistent s' s'.expired_keys (s'.evicted_keys + 1) s'.keyspace_hits
                      s'.keyspace_misses s'.expired_calls l.consistent;
                views = l.views;
                same = l.same;
                fewer = l.fewer;
              },
              free,
            ),
          )

  IsEviction-[] :
      (s : Store V) (protect : List String)
      → IsConsistent s
      → (is_active s ≡ true → IsSettled s protect)
      → IsEviction s protect [] s
  unfolding is_in
  IsEviction-[] s protect c settled = record {
    consistent = c;
    same = refl;
    views = λ k. refl;
    unprotected = λ k h. cc;
    idle = λ h. refl;
    settled = settled;
  }

  -- A turn that evicts `key`, and the turns after it.
  IsEviction-∷ :
      (s s₁ s' : Store V) (protect more : List String) (key : String)
      → IsRemoval s key s₁
      → is_in protect key ≡ false
      → over_limit s 0 ≡ true
      → IsEviction s₁ protect more s'
      → IsEviction s protect (key ∷ more) s'
  unfolding is_in
  IsEviction-∷ s s₁ s' protect more key r free over i = record {
    consistent = i.consistent;
    same = i.same ∙ r.same;
    views = λ k. ground (arith, i.views k, r.views k);
    unprotected = λ k h. ground (arith, i.unprotected k);
    idle = λ h. cc;
    settled = λ h. i.settled (ground (arith, r.same));
  }

  evict_in :
      (fuel : ℕ) (envs : ℕ → Env) (s : Store V) (protect evicted : List String)
      → length s.entries < fuel
      → ((i : ℕ) → IsRandom (envs i))
      → Policy.evicts s.eviction ≡ true
      → IsConsistent s
      → (more : List String) × (s' : Store V) × (evict fuel envs s protect evicted
          ≡ ok (evicted ++ more, s'))
        × IsEviction s protect more s'
  unfolding evict
  evict_in zero envs s protect evicted enough r e c = ground arith
  evict_in (suc fuel) envs s protect evicted enough r e c = elim (Bool-cases (over_limit s 0)) [
    | inr under ↦ (
      [],
      s,
      rw under (ap (λ xs. ok (xs, s)) (sym (append-nil evicted))),
      IsEviction-[] s protect c (λ h. inl under),
    )
    | inl over ↦
        go over
          (λ s₁ evicted' less evicts c₁.
            evict_in fuel (λ i. envs (suc i)) s₁ protect evicted' less (λ i. r (suc i)) evicts c₁)
          (evict_one_total (envs 0) s protect (r 0) e c)
  ]
    where
      go :
          over_limit s 0 ≡ true
          → ((s₁ : Store V) (evicted' : List String)
              → length s₁.entries < fuel
              → Policy.evicts s₁.eviction ≡ true
              → IsConsistent s₁
              → (more : List String) × (s' : Store V) × (evict fuel
                    (λ i. envs (suc i))
                    s₁
                    protect
                    evicted'
                  ≡ ok (evicted' ++ more, s'))
                × IsEviction s₁ protect more s')
          → (o : Option String) × (s₁ : Store V) × (evict_one (envs 0) s protect ≡ ok (o, s₁))
            × IsTurn s protect o s₁
          → (more : List String) × (s' : Store V) × (evict (suc fuel) envs s protect evicted
              ≡ ok (evicted ++ more, s'))
            × IsEviction s protect more s'
      go over next (none, s₁, turned, (same, all)) = (
        [],
        s,
        rw (over, turned, same) (ap (λ xs. ok (xs, s)) (sym (append-nil evicted))),
        IsEviction-[] s protect c (λ h. inr all),
      )
      go over next (some key, s₁, turned, (removal, free)) =
          let (more, s', result, i) =
            next s₁ (evicted ++ key ∷ []) (omega (arith, removal.fewer, enough))
              (ground (arith, removal.same)) removal.consistent in
          (
            key ∷ more,
            s',
            rw (over, turned, result)
                (ap (λ xs. ok (xs, s')) (append_assoc evicted (key ∷ []) more)),
            IsEviction-∷ s s₁ s' protect more key removal free over i,
          )

  -- `evict_if_needed` returns and never raises. It deletes the keys that it reports and changes no
  -- other, none of them is protected, and under the limits there are none. If the policy evicts, it
  -- ends under the limits, or with protected keys only.
  pub evict_if_needed_total :
      (envs : ℕ → Env) (s : Store V) (protect : List String)
      → ((i : ℕ) → IsRandom (envs i))
      → IsConsistent s
      → (evicted : List String) × (s' : Store V) × (evict_if_needed envs s protect
          ≡ ok (evicted, s'))
        × IsEviction s protect evicted s'
  unfolding evict_if_needed
  evict_if_needed_total envs s protect r c = elim (Bool-cases (is_active s)) [
    | inl active ↦
        let (evicted, s', result, i) =
          evict_in (length s.entries + 1) envs s protect [] (omega arith) r (ground arith) c in
        (evicted, s', ground (arith, result), i)
    | inr passive ↦ ([], s, ground arith, IsEviction-[] s protect c (λ h. cc))
  ]

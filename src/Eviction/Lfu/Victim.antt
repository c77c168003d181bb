-- ===== src/Eviction/Lfu/Victim.antt =====
-- The victim of `LFUPolicy`: always there unless every key is protected, and of the least counter
-- among the keys it was chosen from.
use redis_like_data_storage.Prelude.{
  ℕ, ◌≤◌, String, Option, none, some, List, [], ◌∷◌, true, false, ltb, length, min, ok, is_in,
  all_free, is_in-all_free, ◌≡◌, ite, str_discrete, arith, refl, Option-cases, inl, inr, ap, sym,
  ◌∙◌, Bool-cases,
}
use redis_like_data_storage.Dict
use redis_like_data_storage.KeySet
use redis_like_data_storage.KeySet.{KeySet}
use redis_like_data_storage.KeySet.Sets.{is_in-items}
use redis_like_data_storage.Eviction.Env.{Env, IsRandom}
use redis_like_data_storage.Eviction.Lfu.{
  Lfu, minutes, decayed, counter, min_by, least, choose, victim,
}
use redis_like_data_storage.Eviction.Lfu.Counters.{IsValid, has_meta, counter_found}

module _ (env : Env) (p : Lfu) where
  -- `k` is one of `xs`, and no other of them has a lower counter.
  pub record IsLeast (xs : List String) (k : String) : Type 0 where
    pub member : is_in xs k ≡ true
    pub count : ℕ
    pub counted : counter env p k ≡ ok count
    pub lowest : (s : String) → is_in xs s ≡ true → (c : ℕ) × (counter env p s ≡ ok c) × (count ≤ c)

  -- Every key of `xs` has a counter.
  abbrev pub Counted : List String → Type 0
  Counted [] = Unit
  Counted (x ∷ xs) = ((c : ℕ) × (counter env p x ≡ ok c)) × Counted xs

  abbrev Best : String → ℕ → List String → String → Type 0
  Best best c xs k =
      (count : ℕ) × (counter env p k ≡ ok count)
      × (count ≤ c)
      × (ite (str_discrete best k) true (is_in xs k) ≡ true)
      × ((s : String) → is_in xs s ≡ true → (d : ℕ) × (counter env p s ≡ ok d) × (count ≤ d))

  min_by_total :
      (best : String) (c : ℕ) (xs : List String)
      → counter env p best ≡ ok c
      → Counted xs
      → (k : String) × (min_by env p best c xs ≡ ok k) × Best best c xs k
  unfolding min_by is_in
  min_by_total best c [] h all =
      (best, refl, (c, h, omega arith, ground arith, λ s m. absurd (ground arith)))
  min_by_total best c (x ∷ xs) h all = elim (Bool-cases (ltb (all.0).0 c)) [
    | inl lower ↦
        let (k, e, (n, counted, n_le, member, low)) = min_by_total x (all.0).0 xs (all.0).1 all.1 in
        (
          k,
          rw ((all.0).1, lower, e),
          (
            n,
            counted,
            ground arith,
            ground arith,
            λ s m. elim (str_discrete x s) [
              | yes q ↦ ((all.0).0, rw (← q) (all.0).1, n_le)
              | no q ↦ low s (ground arith)
            ],
          ),
        )
    | inr higher ↦
        let (k, e, (n, counted, n_le, member, low)) = min_by_total best c xs h all.1 in
        (
          k,
          rw ((all.0).1, higher, e),
          (
            n,
            counted,
            n_le,
            ground arith,
            λ s m. elim (str_discrete x s) [
              | yes q ↦ ((all.0).0, rw (← q) (all.0).1, ground arith)
              | no q ↦ low s (ground arith)
            ],
          ),
        )
  ]

  least_total :
      (x : String) (xs : List String)
      → Counted (x ∷ xs)
      → (k : String) × (least env p (x ∷ xs) ≡ ok (some k)) × IsLeast (x ∷ xs) k
  unfolding least is_in
  least_total x xs all =
      let ((c, e), rest) = all in
      let (k, found, (n, counted, n_le, member, low)) = min_by_total x c xs e rest in
      (
        k,
        rw (e, found),
        record {
          member = member;
          count = n;
          counted = counted;
          lowest = λ s m. elim (str_discrete x s) [
            | yes q ↦ (c, rw (← q) e, n_le)
            | no q ↦ low s (ground arith)
          ];
        },
      )

  Counted-of :
      IsValid p
      → (xs : List String) → ((s : String) → is_in xs s ≡ true → KeySet.contains p.keys s ≡ true)
      → Counted xs
  unfolding is_in
  Counted-of v [] all = tt
  Counted-of v (x ∷ xs) all = (
    elim (Option-cases (Dict.get p.meta x)) [
      | inl absent ↦ absurd (unfold has_meta in ground (arith, v.agree x, all x))
      | inr (m, found) ↦ (decayed p.decay_minutes (minutes env) m, counter_found env p x m found)
    ],
    Counted-of v xs (λ s h. all s (ground arith)),
  )

  -- The keys that a victim is the least of: the sampled ones that are not protected, or all that are
  -- not protected if there is no such sampled key.
  abbrev pub pool : List String → List String → List String
  pool protect [] = all_free protect p.keys.items
  pool protect (x ∷ xs) = x ∷ xs

  abbrev pub candidates_of : List String → List String
  candidates_of protect =
      pool protect
        (all_free protect (env.sample 0 p.keys.items (min p.samples (length p.keys.items))))

  -- What a choice promises: nothing only if all is protected, else a key of the least counter
  -- among the candidates.
  abbrev pub IsChoice : List String → List String → Option String → Type 0
  IsChoice protect candidates none =
      (s : String) → KeySet.contains p.keys s ≡ true → is_in protect s ≡ true
  IsChoice protect candidates (some k) =
      (KeySet.contains p.keys k ≡ true) × (is_in protect k ≡ false) × IsLeast candidates k

  free_members :
      (protect xs : List String)
      → ((s : String) → is_in xs s ≡ true → KeySet.contains p.keys s ≡ true)
      → (s : String) → is_in (all_free protect xs) s ≡ true
      → (KeySet.contains p.keys s ≡ true) × (is_in protect s ≡ false)
  free_members protect xs all s h = ground (arith, is_in-all_free protect xs s, all s)

  chosen :
      IsValid p
      → (protect : List String) (x : String) (xs : List String)
      → ((s : String)
          → is_in (x ∷ xs) s ≡ true
          → (KeySet.contains p.keys s ≡ true) × (is_in protect s ≡ false))
      → (o : Option String) × (least env p (x ∷ xs) ≡ ok o) × IsChoice protect (x ∷ xs) o
  chosen v protect x xs all =
      let (k, e, l) = least_total x xs (Counted-of v (x ∷ xs) (λ s h. (all s h).0)) in
      let (held, free) = all k l.member in (some k, e, (held, free, l))

  scan_total :
      IsValid p
      → (protect xs : List String) → all_free protect p.keys.items ≡ xs
      → (o : Option String) × (least env p xs ≡ ok o) × IsChoice protect xs o
  unfolding least is_in
  scan_total v protect [] e = (
    none,
    refl,
    λ s h. ground (
      arith,
      is_in-all_free protect p.keys.items s,
      is_in-items s v.keys_valid,
      ap (λ l. is_in l s) e,
    ),
  )
  scan_total v protect (x ∷ xs) e = chosen v protect x xs (λ s h.
      free_members protect p.keys.items (λ t m. sym (is_in-items t v.keys_valid) ∙ m) s
        (ap (λ l. is_in l s) e ∙ h))

  choose_total :
      IsValid p
      → (protect xs : List String)
      → ((s : String)
          → is_in xs s ≡ true
          → (KeySet.contains p.keys s ≡ true) × (is_in protect s ≡ false))
      → (o : Option String) × (choose env p protect xs ≡ ok o)
        × IsChoice protect (pool protect xs) o
  unfolding choose
  choose_total v protect [] all = scan_total v protect (all_free protect p.keys.items) refl
  choose_total v protect (x ∷ xs) all = chosen v protect x xs all

  -- `victim` never raises. It gives no key only if every key is protected; the key that it gives is
  -- tracked, is not protected, and has the least counter of the candidates: the sampled keys that are
  -- not protected, or all keys that are not if there is no such sampled key.
  pub lfu_victim_total :
      (protect : List String)
      → IsValid p
      → IsRandom env
      → (o : Option String) × (victim env p protect ≡ ok o)
        × IsChoice protect (candidates_of protect) o
  unfolding victim KeySet.sample
  lfu_victim_total protect v r =
      let n = min p.samples (length p.keys.items) in
      let xs = env.sample 0 p.keys.items n in
      choose_total v protect (all_free protect xs) (
        free_members protect xs
          (λ s h. sym (is_in-items s v.keys_valid) ∙ r.members 0 p.keys.items n s (omega arith) h))

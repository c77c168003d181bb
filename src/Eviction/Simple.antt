-- ===== src/Eviction/Simple.antt =====
-- engine/eviction/simple.py: `RandomPolicy`, and `NoEvictionPolicy`, which only counts.
use redis_like_data_storage.Prelude.{
  ℕ, zero, suc, String, Option, none, some, List, [], ◌∷◌, true, false, if◌then◌else◌, length, min,
  Result, ok, is_in, first_free, first_free-is_in, first_free-none, ◌≡◌, arith, refl, ◌>>=◌,
  Bool-cases, inl, inr, sym, ◌∙◌,
}
use redis_like_data_storage.KeySet
use redis_like_data_storage.KeySet.{KeySet}
use redis_like_data_storage.KeySet.Invariant.{IsValid}
use redis_like_data_storage.KeySet.Sets.{is_in-items}
use redis_like_data_storage.Eviction.Env.{Env, IsRandom}

pub record RandomPolicy : Type 0 where
  pub keys : KeySet

unfoldable pub on_insert : RandomPolicy → String → RandomPolicy
on_insert p key = record { keys = KeySet.add p.keys key }

unfoldable pub on_remove : RandomPolicy → String → Result RandomPolicy
on_remove p key = do keys ← KeySet.discard p.keys key; ok (record { keys = keys })

-- One round: stop on an empty sample, or on a key that is not protected.
unfoldable pub picked : List String → List String → Option String → Option String
picked protect [] next = none
picked protect (x ∷ xs) next = if is_in protect x then next else some x

-- `rounds` are left, and `i` are done.
unfoldable pub victim_from : Env → RandomPolicy → List String → ℕ → ℕ → Option String
victim_from env p protect zero i = first_free protect p.keys.items
victim_from env p protect (suc rounds) i =
    picked protect (KeySet.sample p.keys 1 (env.sample i))
      (victim_from env p protect rounds (suc i))

unfoldable pub victim : Env → RandomPolicy → List String → Option String
unfolding victim_from
victim env p protect = victim_from env p protect 8 0

abbrev pub IsChoice : RandomPolicy → List String → Option String → Type 0
IsChoice p protect none = (s : String) → KeySet.contains p.keys s ≡ true → is_in protect s ≡ true
IsChoice p protect (some k) = (KeySet.contains p.keys k ≡ true) × (is_in protect k ≡ false)

module _ (env : Env) (p : RandomPolicy) (protect : List String) (v : IsValid p.keys) where
  first_free-IsChoice :
      (o : Option String) → first_free protect p.keys.items ≡ o → IsChoice p protect o
  first_free-IsChoice none e = λ s h. first_free-none protect p.keys.items s e (is_in-items s v ∙ h)
  first_free-IsChoice (some k) e =
      let (held, free) = first_free-is_in protect p.keys.items k e in
      (sym (is_in-items k v) ∙ held, free)

  no_members : (items : List String) → length items ≡ 0 → (s : String) → is_in items s ≡ false
  unfolding is_in
  no_members [] h s = refl
  no_members (x ∷ xs) h s = absurd (omega arith)

  picked-IsChoice :
      (xs : List String) (next : Option String)
      → length xs ≡ min 1 (length p.keys.items)
      → ((s : String) → is_in xs s ≡ true → is_in p.keys.items s ≡ true)
      → IsChoice p protect next
      → IsChoice p protect (picked protect xs next)
  unfolding picked is_in
  picked-IsChoice [] next size members c =
      λ s h. absurd (cc (no_members p.keys.items (omega arith) s, is_in-items s v, h))
  picked-IsChoice (x ∷ xs) next size members c = elim (Bool-cases (is_in protect x)) [
    | inl guarded ↦ rw guarded c
    | inr free ↦ rw free (sym (is_in-items x v) ∙ members x (ground arith), free)
  ]

  victim_from-IsChoice :
      IsRandom env → (rounds i : ℕ) → IsChoice p protect (victim_from env p protect rounds i)
  unfolding victim_from KeySet.sample
  victim_from-IsChoice r zero i = first_free-IsChoice (first_free protect p.keys.items) refl
  victim_from-IsChoice r (suc rounds) i =
      let n = min 1 (length p.keys.items) in
      picked-IsChoice (env.sample i p.keys.items n) (victim_from env p protect rounds (suc i))
        (r.sizes i p.keys.items n (omega arith))
        (λ s h. r.members i p.keys.items n s (omega arith) h)
        (victim_from-IsChoice r rounds (suc i))

  -- The random policy gives no key only if every key is protected; the key that it gives is tracked
  -- and is not protected.
  pub victim-IsChoice : IsRandom env → IsChoice p protect (victim env p protect)
  unfolding victim
  victim-IsChoice r = victim_from-IsChoice r 8 0

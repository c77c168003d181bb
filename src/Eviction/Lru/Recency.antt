-- ===== src/Eviction/Lru/Recency.antt =====
-- The victim of `LRUPolicy` is the key whose last use is the oldest, whatever came before.
use redis_like_data_storage.Prelude.{
  IsDistinct, ℕ, suc, ◌≤◌, ◌<◌, String, some, List, [], ◌∷◌, ◌++◌, true, false, ite, str_discrete,
  is_in, first_free, ◌≡◌, arith, first_free-is_in, Bool-cases, inl, inr,
}
use redis_like_data_storage.Eviction.Lru.{
  Lru, empty, without, move_to_end, on_insert, on_access, on_remove, victim, is_in-without,
  without-IsDistinct, move_to_end-IsDistinct,
}

-- What the store tells the policy.
pub data Use : Type 0 where
  insert access remove : String → Use

unfoldable pub apply : Lru → Use → Lru
apply p (insert key) = on_insert p key
apply p (access key) = on_access p key
apply p (remove key) = on_remove p key

-- An independent account of the uses: the number of the last use of each key.
unfoldable pub stamp : ℕ → (String → ℕ) → Use → String → ℕ
stamp i last (insert key) s = ite (str_discrete key s) i (last s)
stamp i last (access key) s = ite (str_discrete key s) i (last s)
stamp i last (remove key) s = last s

unfoldable pub run : Lru → List Use → Lru
run p [] = p
run p (u ∷ uses) = run (apply p u) uses

unfoldable pub last_uses : ℕ → (String → ℕ) → List Use → String → ℕ
last_uses i last [] = last
last_uses i last (u ∷ uses) = last_uses (suc i) (stamp i last u) uses

module _ (last : String → ℕ) where
  -- Every key of `xs` was used after `x`.
  abbrev IsLater : String → List String → Type 0
  IsLater x [] = Unit
  IsLater x (y ∷ ys) = (last x < last y) × IsLater x ys

  abbrev IsOrdered : List String → Type 0
  IsOrdered [] = Unit
  IsOrdered (x ∷ xs) = IsLater x xs × IsOrdered xs

  abbrev IsBefore : ℕ → List String → Type 0
  IsBefore i [] = Unit
  IsBefore i (x ∷ xs) = (last x < i) × IsBefore i xs

  IsLater-lt :
      (x : String) (xs : List String) (s : String)
      → IsLater x xs
      → is_in xs s ≡ true
      → last x < last s
  unfolding is_in
  IsLater-lt x [] s h m = cc
  IsLater-lt x (y ∷ ys) s h m = ground (arith, IsLater-lt x ys s h.1)

  IsLater-without : (x key : String) (xs : List String) → IsLater x xs → IsLater x (without key xs)
  unfolding without
  IsLater-without x key [] h = tt
  IsLater-without x key (y ∷ ys) h = ground (arith, IsLater-without x key ys h.1)

  IsOrdered-without : (key : String) (xs : List String) → IsOrdered xs → IsOrdered (without key xs)
  unfolding without
  IsOrdered-without key [] h = tt
  IsOrdered-without key (x ∷ xs) h =
      ground (arith, IsLater-without x key xs h.0, IsOrdered-without key xs h.1)

  IsBefore-without :
      (i : ℕ) (key : String) (xs : List String) → IsBefore i xs → IsBefore i (without key xs)
  unfolding without
  IsBefore-without i key [] h = tt
  IsBefore-without i key (x ∷ xs) h = ground (arith, IsBefore-without i key xs h.1)

  IsBefore-suc : (i : ℕ) (xs : List String) → IsBefore i xs → IsBefore (suc i) xs
  IsBefore-suc i [] h = tt
  IsBefore-suc i (x ∷ xs) h = (omega arith, IsBefore-suc i xs h.1)

  IsLater-snoc :
      (x s : String) (xs : List String) → IsLater x xs → last x < last s → IsLater x (xs ++ s ∷ [])
  IsLater-snoc x s [] h l = (l, tt)
  IsLater-snoc x s (y ∷ ys) h l = (h.0, IsLater-snoc x s ys h.1 l)

  IsOrdered-snoc :
      (s : String) (xs : List String)
      → IsOrdered xs
      → IsBefore (last s) xs
      → IsOrdered (xs ++ s ∷ [])
  IsOrdered-snoc s [] h b = (tt, tt)
  IsOrdered-snoc s (x ∷ xs) h b = (IsLater-snoc x s xs h.0 b.0, IsOrdered-snoc s xs h.1 b.1)

  IsBefore-snoc :
      (i : ℕ) (s : String) (xs : List String)
      → IsBefore i xs
      → last s < i
      → IsBefore i (xs ++ s ∷ [])
  IsBefore-snoc i s [] h l = (l, tt)
  IsBefore-snoc i s (x ∷ xs) h l = (h.0, IsBefore-snoc i s xs h.1 l)

  -- The first key that may go was used before all others that may.
  first_free_oldest :
      (protect xs : List String) (k s : String)
      → IsOrdered xs
      → first_free protect xs ≡ some k
      → is_in xs s ≡ true
      → is_in protect s ≡ false
      → last k ≤ last s
  unfolding first_free is_in
  first_free_oldest protect [] k s h e m n = cc
  first_free_oldest protect (x ∷ xs) k s h e m n =
      ground (arith, IsLater-lt x xs s h.0, first_free_oldest protect xs k s h.1)

-- The predicates look at the keys of the list alone.
IsLater-agree :
    (f g : String → ℕ) (x : String) (xs : List String)
    → f x ≡ g x
    → ((s : String) → is_in xs s ≡ true → f s ≡ g s)
    → IsLater f x xs
    → IsLater g x xs
unfolding is_in
IsLater-agree f g x [] e agree h = tt
IsLater-agree f g x (y ∷ ys) e agree h =
    (ground (arith, agree y), IsLater-agree f g x ys e (λ s m. agree s (ground arith)) h.1)

IsOrdered-agree :
    (f g : String → ℕ) (xs : List String)
    → ((s : String) → is_in xs s ≡ true → f s ≡ g s)
    → IsOrdered f xs
    → IsOrdered g xs
unfolding is_in
IsOrdered-agree f g [] agree h = tt
IsOrdered-agree f g (x ∷ xs) agree h = (
  IsLater-agree f g x xs (agree x (ground arith)) (λ s m. agree s (ground arith)) h.0,
  IsOrdered-agree f g xs (λ s m. agree s (ground arith)) h.1,
)

IsBefore-agree :
    (f g : String → ℕ) (i : ℕ) (xs : List String)
    → ((s : String) → is_in xs s ≡ true → f s ≡ g s)
    → IsBefore f i xs
    → IsBefore g i xs
unfolding is_in
IsBefore-agree f g i [] agree h = tt
IsBefore-agree f g i (x ∷ xs) agree h =
    (ground (arith, agree x), IsBefore-agree f g i xs (λ s m. agree s (ground arith)) h.1)

-- The order after `i` uses, whose last ones are `last`.
record IsCurrent (i : ℕ) (last : String → ℕ) (p : Lru) : Type 0 where
  distinct : IsDistinct p.order
  ordered : IsOrdered last p.order
  before : IsBefore last i p.order

move_to_end-IsCurrent :
    (i : ℕ) (last : String → ℕ) (xs : List String) (key : String)
    → IsCurrent i last (record { order = xs })
    → IsCurrent (suc i) (stamp i last (insert key)) (record { order = move_to_end xs key })
unfolding stamp
move_to_end-IsCurrent i last xs key c =
    let rest = without key xs in
    let last' = stamp i last (insert key) in
    let agree : (s : String) → is_in rest s ≡ true → last s ≡ last' s =
      λ s m. ground (arith, is_in-without key xs s c.distinct) in
    let now : last' key ≡ i = ground arith in
    let before : IsBefore last' i rest =
      IsBefore-agree last last' i rest agree (IsBefore-without last i key xs c.before) in
    record {
      distinct = move_to_end-IsDistinct xs key c.distinct;
      ordered =
          IsOrdered-snoc last' key rest
            (IsOrdered-agree last last' rest agree (IsOrdered-without last key xs c.ordered))
            (rw now before);
      before =
          IsBefore-snoc last' (suc i) key rest (IsBefore-suc last' i rest before)
            (rw now (omega arith));
    }

untouched-IsCurrent :
    (i : ℕ) (last : String → ℕ) (xs : List String) (key : String)
    → is_in xs key ≡ false
    → IsCurrent i last (record { order = xs })
    → IsCurrent (suc i) (stamp i last (access key)) (record { order = xs })
unfolding stamp
untouched-IsCurrent i last xs key absent c =
    let last' = stamp i last (access key) in
    let agree : (s : String) → is_in xs s ≡ true → last s ≡ last' s = λ s m. ground arith in
    record {
      distinct = c.distinct;
      ordered = IsOrdered-agree last last' xs agree c.ordered;
      before = IsBefore-suc last' i xs (IsBefore-agree last last' i xs agree c.before);
    }

apply-IsCurrent :
    (i : ℕ) (last : String → ℕ) (p : Lru) (u : Use)
    → IsCurrent i last p
    → IsCurrent (suc i) (stamp i last u) (apply p u)
unfolding apply on_insert on_access on_remove stamp
apply-IsCurrent i last p (insert key) c = move_to_end-IsCurrent i last p.order key c
apply-IsCurrent i last p (access key) c = elim (Bool-cases (is_in p.order key)) [
  | inl known ↦ rw (known, on_access) (move_to_end-IsCurrent i last p.order key c)
  | inr unknown ↦ rw (unknown, on_access) (untouched-IsCurrent i last p.order key unknown c)
]
apply-IsCurrent i last p (remove key) c = record {
  distinct = without-IsDistinct key p.order c.distinct;
  ordered = IsOrdered-without last key p.order c.ordered;
  before = IsBefore-suc last i (without key p.order) (IsBefore-without last i key p.order c.before);
}

run-IsCurrent :
    (uses : List Use) (i : ℕ) (last : String → ℕ) (p : Lru)
    → IsCurrent i last p
    → (n : ℕ) × IsCurrent n (last_uses i last uses) (run p uses)
unfolding run last_uses
run-IsCurrent [] i last p c = (i, c)
run-IsCurrent (u ∷ uses) i last p c =
    run-IsCurrent uses (suc i) (stamp i last u) (apply p u) (apply-IsCurrent i last p u c)

-- After any uses the victim is a tracked key outside `protect`, and no other such key was last used
-- before it.
pub victim_least_recent :
    (uses : List Use) (protect : List String) (k : String)
    → victim (run empty uses) protect ≡ some k
    → (is_in (run empty uses).order k ≡ true)
      × (is_in protect k ≡ false)
      × ((s : String)
          → is_in (run empty uses).order s ≡ true
          → is_in protect s ≡ false
          → last_uses 1 (λ _. 0) uses k ≤ last_uses 1 (λ _. 0) uses s)
unfolding victim
victim_least_recent uses protect k h =
    let p = run empty uses in
    let (n, c) =
      run-IsCurrent uses 1 (λ _. 0) empty (record { distinct = tt; ordered = tt; before = tt }) in
    let (tracked, free) = first_free-is_in protect p.order k h in
    (
      tracked,
      free,
      λ s m f. first_free_oldest (last_uses 1 (λ _. 0) uses) protect p.order k s c.ordered h m f,
    )

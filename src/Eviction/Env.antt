-- ===== src/Eviction/Env.antt =====
-- What the world supplies to a call: the clock and Python's `random`.
use redis_like_data_storage.Prelude.{
  ℕ, ◌≤◌, String, List, Bool, true, ◌≡◌, is_in, length, IsDistinct,
}

-- `now` is the clock in whole milliseconds. `sample i xs k` is the i-th `rng.sample(xs, k)` of
-- the call, and `draw d` whether `rng.random() < 1 / d`.
pub record Env : Type 0 where
  pub now : ℕ
  pub draw : ℕ → Bool
  pub sample : ℕ → List String → ℕ → List String

-- What Python documents of them: a sample is `k` members of the population, as long as it is that
-- large, none of them twice, and `random()` is below 1.
pub record IsRandom (env : Env) : Type 0 where
  pub draws_below_one : env.draw 1 ≡ true
  pub members :
      (i : ℕ) (xs : List String) (k : ℕ) (s : String)
      → k ≤ length xs
      → is_in (env.sample i xs k) s ≡ true
      → is_in xs s ≡ true
  pub sizes : (i : ℕ) (xs : List String) (k : ℕ) → k ≤ length xs → length (env.sample i xs k) ≡ k
  pub distinct :
      (i : ℕ) (xs : List String) (k : ℕ)
      → k ≤ length xs
      → IsDistinct xs
      → IsDistinct (env.sample i xs k)

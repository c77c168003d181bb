-- ===== src/Commands/Registry.antt =====
-- engine/commands/registry.py: the metadata of a command, and the readers of arguments.
use redis_like_data_storage.Prelude.{
  ℕ, zero, suc, ◌+◌, ◌-◌, ◌^◌, String, Option, none, some, List, [], ◌∷◌, Bool, false, not, ◌&&◌,
  if◌then◌else◌, leb, ltb, length, take, drop, Result, ok, raise, invalid_argument,
}
use redis_like_data_storage.Prelude.Int.{ℤ, pos, negsuc, ltb_ℤ}
use redis_like_data_storage.Eviction.Env.{Env}
use redis_like_data_storage.Engine.{Arg, text, number, Run}

-- `KeySpec`: with none for a `last` of -1.
pub record KeySpec : Type 0 where
  pub first : ℕ
  pub last : Option ℕ
  pub step : ℕ

abbrev pub single_key : KeySpec
single_key = record { first = 0; last = some 0; step = 1 }

abbrev pub all_keys : KeySpec
all_keys = record { first = 0; last = none; step = 1 }

abbrev pub every_other_key : KeySpec
every_other_key = record { first = 0; last = none; step = 2 }

-- `CommandSpec`, of whose flags the engine reads two.
pub record CommandSpec (V R : Type 0) : Type 0 where
  pub handler : Env → List Arg → Run V R
  pub min_args : ℕ
  pub max_args : Option ℕ
  pub is_write : Bool
  pub denyoom : Bool
  pub key_spec : Option KeySpec

-- `xs[::step]`, with `skip` more items to leave out.
unfoldable pub every : ℕ → ℕ → List Arg → List Arg
every step skip [] = []
every step zero (x ∷ xs) = x ∷ every step (step - 1) xs
every step (suc skip) (x ∷ xs) = every step skip xs

-- `args[first : last + 1 : step]`
abbrev pub key_args : KeySpec → List Arg → List Arg
key_args k args =
    let last : ℕ = elim k.last [ none ↦ length args | some last ↦ last + 1 ] in
    every k.step 0 (drop k.first (take last args))

-- The arguments that are texts.
unfoldable pub texts : List Arg → List String
texts [] = []
texts (text s ∷ args) = s ∷ texts args
texts (number n ∷ args) = texts args

abbrev pub too_many : Option ℕ → ℕ → Bool
too_many none n = false
too_many (some most) n = ltb most n

module _ {V R : Type 0} where
  -- Whether `check_arity` lets the arguments pass.
  unfoldable pub check_arity : CommandSpec V R → List Arg → Bool
  check_arity spec args =
      leb spec.min_args (length args) && not (too_many spec.max_args (length args))

  -- `keys`, without what is no text.
  unfoldable pub keys : CommandSpec V R → List Arg → List String
  unfolding texts every
  keys spec args = elim spec.key_spec [ none ↦ [] | some k ↦ texts (key_args k args) ]

-- `key_arg` and `str_arg`
abbrev pub key_arg : Arg → Result String
key_arg (text s) = ok s
key_arg (number n) = raise invalid_argument

abbrev pub is_int64 : ℤ → Bool
is_int64 n = ltb_ℤ (negsuc (2 ^ 63)) n && ltb_ℤ n (pos (2 ^ 63))

-- `check_int64`
unfoldable pub check_int64 : ℤ → Result ℤ
check_int64 n = if is_int64 n then ok n else raise invalid_argument

-- `int_arg`, where `read` is `int()` of a text.
unfoldable pub int_arg : (String → Option ℤ) → Arg → Result ℤ
unfolding check_int64
int_arg read (number n) = check_int64 n
int_arg read (text s) = elim (read s) [ none ↦ raise invalid_argument | some n ↦ check_int64 n ]

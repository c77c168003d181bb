-- ===== src/Prelude/Exceptions.antt =====
-- Python exceptions as values: a function that may raise returns a `Result`.
use mathlib.Core.Logic.{◌⊎◌, inl, inr}
use mathlib.Core.Option.{Option, none, some}
use mathlib.Core.Path.{◌≡◌, refl}

-- The exceptions that the modelled code can raise.
pub data Error : Type 0 where
  index_error key_error value_error lookup_error runtime_error : Error
  os_error : Error
  -- core/exceptions.py: ProtocolError, WrongTypeError, AOFCorruptedError, CommandError, ...
  protocol_error wrong_type aof_corrupted command_error : Error
  -- ... UnknownCommandError, WrongArityError, InvalidArgumentError, OutOfMemoryError, PersistenceError,
  -- PersistenceWriteError
  unknown_command wrong_arity invalid_argument out_of_memory : Error
  persistence_error persistence_write_error : Error

pub data Result {ℓ} (A : Type ℓ) : Type ℓ where
  ok : A → Result A
  raise : Error → Result A

infixl 5 ◌>>=◌
abbrev pub ◌>>=◌ {ℓ κ} : {A : Type ℓ} {B : Type κ} → Result A → (A → Result B) → Result B
ok a >>= f = f a
raise e >>= f = raise e

-- A chain that returns has returned at each step.
module _ {ℓ κ} {A : Type ℓ} {B : Type κ} (k : A → Result B) (b : B) where
  pub >>=-ok : (r : Result A) → (r >>= k) ≡ ok b → (x : A) × (r ≡ ok x) × (k x ≡ ok b)
  >>=-ok (raise error) e = cc
  >>=-ok (ok x) e = (x, refl, e)

pub Result-cases {ℓ} :
    {A : Type ℓ} (r : Result A) → ((e : Error) × (r ≡ raise e)) ⊎ ((a : A) × (r ≡ ok a))
Result-cases (raise e) = inl (e, refl)
Result-cases (ok a) = inr (a, refl)

-- Of a reader that may need more.
pub Turn-cases {ℓ} :
    {A : Type ℓ} (r : Result (Option A))
    → ((e : Error) × (r ≡ raise e)) ⊎ (r ≡ ok none) ⊎ ((a : A) × (r ≡ ok (some a)))
Turn-cases (raise e) = inl (e, refl)
Turn-cases (ok none) = inr (inl refl)
Turn-cases (ok (some a)) = inr (inr (a, refl))

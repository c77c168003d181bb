-- ===== src/Commands/Strings.antt =====
-- engine/commands/strings.py: the commands on strings, but for INCRBYFLOAT. `upper` is `str.upper`, `read`
-- is `int()` of a text, and `show` is `str()` of an integer.
pub mod Options
use Prim.Native.String.{len, ◌++◌ as ◌<>◌}
use redis_like_data_storage.Prelude.{
  ℕ, zero, suc, ◌+◌, ◌*◌, ◌%◌, String, Option, none, some, List, [], ◌∷◌, ◌++◌, Bool, true, false,
  not, ◌&&◌, ◌||◌, ◌==◌, if◌then◌else◌, length, map, is_in, drop, Result, ok, raise, ◌>>=◌,
  invalid_argument, wrong_arity, wrong_type, index_error,
}
use redis_like_data_storage.Prelude.Int.{ℤ, pos, negsuc, ◌+ℤ◌, ◌-ℤ◌, ◌*ℤ◌, pos_part, leb_ℤ}
use redis_like_data_storage.Eviction.Env.{Env}
use redis_like_data_storage.Store.{Store, Entry, lookup}
use redis_like_data_storage.Store.Interface.{Values, Kind, string, same_kind}
use redis_like_data_storage.Store.Keyspace.{Typed, get, set, delete, set_expiry, read_str}
use redis_like_data_storage.Commands.Registry.{key_arg, int_arg, check_int64}
use redis_like_data_storage.Commands.Keyspace.{
  Reply, nil, done, int, value, given, arg, key_args, effect,
}
use redis_like_data_storage.Engine.{
  Arg, text, number, Engine, Run, return, throw, follow, ◌>>-◌, on_store, propagate,
}

-- The options of SET. `awaits` is the unit of the number that has to follow EX or PX.
pub record SetOptions : Type 0 where
  pub nx : Bool
  pub xx : Bool
  pub get_old : Bool
  pub keep_ttl : Bool
  pub expire_ms : Option ℤ
  pub awaits : Option ℤ

abbrev pub no_options : SetOptions
no_options = record {
  nx = false;
  xx = false;
  get_old = false;
  keep_ttl = false;
  expire_ms = none;
  awaits = none;
}

abbrev pub is_none : {A : Type 0} → Option A → Bool
is_none none = true
is_none (some a) = false

abbrev pub same_text : String → String → Bool
same_text s t = is_in (t ∷ []) s

-- One turn of the loop over the options, ...
unfoldable pub option_word : SetOptions → String → Result SetOptions
option_word o word =
    if same_text word "NX" && not o.xx
    then ok (record o { nx = true })
    else if same_text word "XX" && not o.nx
    then ok (record o { xx = true })
    else if same_text word "GET"
    then ok (record o { get_old = true })
    else if same_text word "KEEPTTL" && is_none o.expire_ms
    then ok (record o { keep_ttl = true })
    else if same_text word "EX" && is_none o.expire_ms && not o.keep_ttl
    then ok (record o { awaits = some (pos 1000) })
    else if same_text word "PX" && is_none o.expire_ms && not o.keep_ttl
    then ok (record o { awaits = some (pos 1) })
    else raise invalid_argument

-- ... where the number behind EX and PX is read.
unfoldable pub option_amount : SetOptions → ℤ → ℤ → Result SetOptions
option_amount o unit amount =
    if leb_ℤ amount (pos 0)
    then raise invalid_argument
    else ok (record o { expire_ms = some (amount *ℤ unit); awaits = none })

module _ (upper : String → String) (read : String → Option ℤ) where
  unfoldable pub option_at : SetOptions → Option ℤ → Arg → Result SetOptions
  unfolding option_word option_amount int_arg
  option_at o (some unit) a = int_arg read a >>= option_amount o unit
  option_at o none (text s) = option_word o (upper s)
  option_at o none (number n) = raise invalid_argument

  -- The loop; an EX or PX that is last is a syntax error.
  unfoldable pub set_options : SetOptions → List Arg → Result SetOptions
  unfolding option_at
  set_options o [] = if is_none o.awaits then ok o else raise invalid_argument
  set_options o (a ∷ args) = option_at o o.awaits a >>= λ o'. set_options o' args

-- Strings among the values: `isinstance(value, str)` and the text.
pub record Texts (vs : Values) : Type 0 where
  pub of_text : String → vs.Value
  pub to_text : vs.Value → String

module _ (vs : Values) (ts : Texts vs) (upper : String → String) (read : String → Option ℤ)
    (show : ℤ → String) where
  open vs use {Value, kind}
  open ts use {of_text, to_text}

  abbrev typed : {A : Type 0} → Typed A → Run Value A
  typed (Typed.reply a) = return a
  typed Typed.wrong_type = throw wrong_type

  -- `ctx.store.read_str(key)`
  unfoldable pub read_text : Env → String → Run Value (Option Value)
  read_text env key = on_store (λ s. read_str vs env s key) >>- typed

  abbrev optional : Option Value → Reply Value
  optional none = nil
  optional (some v) = value v

  -- GET
  unfoldable pub get_text : Env → List Arg → Run Value (Reply Value)
  unfolding arg read_text
  get_text env args =
      given (arg args 0 >>= key_arg) >>- λ key. read_text env key >>- λ v. return (optional v)

  abbrev put : Env → String → Value → Bool → Run Value (Unit {0})
  put env key v keep_ttl = on_store (λ s. set vs env s key v keep_ttl >>= λ s'. ok (tt, s'))

  -- The deadline of SET.
  unfoldable pub set_deadline_in : Env → String → Option ℤ → Run Value (Unit {0})
  set_deadline_in env key none = return tt
  set_deadline_in env key (some ms) =
      let at : ℤ = pos env.now +ℤ ms in
      on_store (λ s. set_expiry env s key (pos_part at)) >>- λ _.
      propagate (effect "PEXPIREAT" (text key ∷ number at ∷ []))

  abbrev keep_option : Bool → List Arg
  keep_option true = text "KEEPTTL" ∷ []
  keep_option false = []

  -- SET behind its tests, ...
  unfoldable pub write_text : Env → String → String → SetOptions → Run Value (Unit {0})
  unfolding set_deadline_in
  write_text env key s o = put env key (of_text s) o.keep_ttl >>- λ _.
      propagate (effect "SET" (text key ∷ text s ∷ keep_option o.keep_ttl)) >>- λ _.
      set_deadline_in env key o.expire_ms

  -- ... and behind its arguments: `old` is none without GET.
  unfoldable pub set_text : Env → String → String → SetOptions → Run Value (Reply Value)
  unfolding read_text write_text
  set_text env key s o = (if o.get_old then read_text env key else return none) >>- λ old.
      on_store (λ st. lookup env st key) >>- λ found.
      let exists : Bool = not (is_none found) in
      if (o.nx && exists) || (o.xx && not exists)
      then return (if o.get_old then optional old else nil)
      else write_text env key s o >>- λ _. return (if o.get_old then optional old else done)

  -- SET
  unfoldable pub set_ : Env → List Arg → Run Value (Reply Value)
  unfolding arg set_options set_text
  set_ env args = given (arg args 0 >>= key_arg) >>- λ key. given (arg args 1 >>= key_arg) >>- λ s.
      given (set_options upper read no_options (drop 2 args)) >>- set_text env key s

  -- SETNX, which is SET with NX.
  abbrev zero_if_nil : Reply Value → Reply Value
  zero_if_nil nil = int (pos 0)
  zero_if_nil _ = int (pos 1)

  unfoldable pub setnx : Env → List Arg → Run Value (Reply Value)
  unfolding arg set_
  setnx env args = given (arg args 0) >>- λ key. given (arg args 1) >>- λ s.
      set_ env (key ∷ s ∷ text "NX" ∷ []) >>- λ r. return (zero_if_nil r)

  -- GETDEL
  unfoldable pub getdel : Env → List Arg → Run Value (Reply Value)
  unfolding arg read_text
  getdel env args = given (arg args 0 >>= key_arg) >>- λ key. read_text env key >>- λ found.
      elim found [
        | none ↦ return nil
        | some v ↦ on_store (λ s. delete env s key) >>- λ _.
            propagate (effect "DEL" (text key ∷ [])) >>- λ _. return (value v)
      ]

  -- MSET: the pairs, ...
  unfoldable pub pairs : List Arg → Result (List (String × String))
  pairs [] = ok []
  pairs (a ∷ []) = raise wrong_arity
  pairs (a ∷ b ∷ args) =
      key_arg a >>= λ key. key_arg b >>= λ s. pairs args >>= λ rest. ok ((key, s) ∷ rest)

  unfoldable pub put_all : Env → List (String × String) → Run Value (Unit {0})
  put_all env [] = return tt
  put_all env ((key, s) ∷ rest) = put env key (of_text s) false >>- λ _. put_all env rest

  -- ... whose number is tested before their types.
  unfoldable pub mset : Env → List Arg → Run Value (Reply Value)
  unfolding pairs put_all
  mset env args =
      if not (length args % 2 == 0)
      then throw wrong_arity
      else given (pairs args) >>- λ ps.
          put_all env ps >>- λ _. propagate (effect "MSET" args) >>- λ _. return done

  -- The number at a key, 0 without one.
  unfoldable pub number_of : Option Value → Result ℤ
  number_of none = ok (pos 0)
  number_of (some v) = elim (read (to_text v)) [ none ↦ raise invalid_argument | some n ↦ ok n ]

  -- `_incr_by`
  unfoldable pub incr_by : Env → String → ℤ → Run Value (Reply Value)
  unfolding read_text number_of check_int64
  incr_by env key delta = read_text env key >>- λ current.
      given (number_of current >>= λ n. check_int64 (n +ℤ delta)) >>- λ result.
      put env key (of_text (show result)) true >>- λ _.
      propagate (effect "INCRBY" (text key ∷ number delta ∷ [])) >>- λ _. return (int result)

  -- INCR and DECR, with 1 and -1.
  unfoldable pub incr : ℤ → Env → List Arg → Run Value (Reply Value)
  unfolding arg incr_by
  incr delta env args = given (arg args 0 >>= key_arg) >>- λ key. incr_by env key delta

  -- INCRBY, and DECRBY with the number negated.
  unfoldable pub incrby : (ℤ → ℤ) → Env → List Arg → Run Value (Reply Value)
  unfolding arg incr_by int_arg
  incrby sign env args = given (arg args 0 >>= key_arg) >>- λ key.
      given (arg args 1 >>= int_arg read) >>- λ n. incr_by env key (sign n)

  abbrev text_of : Option Value → String
  text_of none = ""
  text_of (some v) = to_text v

  -- APPEND, whose reply counts bytes.
  unfoldable pub append : Env → List Arg → Run Value (Reply Value)
  unfolding arg read_text
  append env args = given (arg args 0 >>= key_arg) >>- λ key.
      given (arg args 1 >>= key_arg) >>- λ suffix. read_text env key >>- λ current.
      let s : String = text_of current <> suffix in
      put env key (of_text s) true >>- λ _.
      propagate (effect "APPEND" (text key ∷ text suffix ∷ [])) >>- λ _. return (int (pos (len s)))

  -- STRLEN
  unfoldable pub strlen : Env → List Arg → Run Value (Reply Value)
  unfolding arg read_text
  strlen env args = given (arg args 0 >>= key_arg) >>- λ key.
      read_text env key >>- λ v. return (int (pos (len (text_of v))))

-- ===== src/Commands/Strings/Options.antt =====
-- engine/commands/strings.py: the options of SET.
use redis_like_data_storage.Prelude.{
  String, Option, none, some, List, [], ◌∷◌, false, not, ◌&&◌, ◌≡◌, refl, ok, >>=-ok, arith,
}
use redis_like_data_storage.Prelude.Int.{ℤ}
use redis_like_data_storage.Commands.Registry.{int_arg}
use redis_like_data_storage.Commands.Strings.{
  SetOptions, is_none, option_word, option_amount, option_at, set_options,
}
use redis_like_data_storage.Engine.{Arg, text, number}

-- Options that do not contradict each other.
pub record IsSound (o : SetOptions) : Type 0 where
  pub one_test : o.nx && o.xx ≡ false
  pub one_deadline : o.keep_ttl && not (is_none o.expire_ms && is_none o.awaits) ≡ false

option_word-IsSound :
    (o o' : SetOptions) (word : String)
    → IsSound o
    → o.awaits ≡ none
    → option_word o word ≡ ok o'
    → IsSound o'
unfolding option_word
option_word-IsSound o o' word h idle e = record {
  one_test = ground (arith, h.one_test);
  one_deadline = ground (arith, h.one_deadline, idle);
}

option_amount-IsSound :
    (o o' : SetOptions) (unit amount : ℤ)
    → IsSound o
    → o.awaits ≡ some unit
    → option_amount o unit amount ≡ ok o'
    → IsSound o'
unfolding option_amount
option_amount-IsSound o o' unit amount h waits e = record {
  one_test = ground (arith, h.one_test);
  one_deadline = ground (arith, h.one_deadline, waits);
}

module _ (upper : String → String) (read : String → Option ℤ) where
  option_at-IsSound :
      (o o' : SetOptions) (w : Option ℤ) (a : Arg)
      → IsSound o
      → o.awaits ≡ w
      → option_at upper read o w a ≡ ok o'
      → IsSound o'
  unfolding option_at
  option_at-IsSound o o' none (text s) h idle e = option_word-IsSound o o' (upper s) h idle e
  option_at-IsSound o o' none (number n) h idle e = cc
  option_at-IsSound o o' (some unit) a h waits e =
      let (amount, _, e₁) = >>=-ok (option_amount o unit) o' (int_arg read a) e in
      option_amount-IsSound o o' unit amount h waits e₁

  -- From options of SET that do not contradict each other, such as none, the reading of the
  -- arguments ends, if it does not raise, with such options, never NX with XX nor KEEPTTL with a
  -- deadline, and no EX or PX waits for its number.
  pub set_options-IsSound :
      (o o' : SetOptions) (args : List Arg)
      → IsSound o
      → set_options upper read o args ≡ ok o'
      → IsSound o' × (o'.awaits ≡ none)
  unfolding set_options
  set_options-IsSound o o' [] h e = ground (arith, h)
  set_options-IsSound o o' (a ∷ args) h e =
      let (o₁, first, e₁) = >>=-ok _ o' (option_at upper read o o.awaits a) e in
      set_options-IsSound o₁ o' args (option_at-IsSound o o₁ o.awaits a h refl first) e₁

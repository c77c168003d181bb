-- ===== src/Examples/Engines.antt =====
-- An engine with a log and replicas, over a store of two keys of which one has run out.
use redis_like_data_storage.Prelude.{
  map, ap, String, Option, none, some, List, [], ◌∷◌, true, false, ◌≡◌, refl, is_in, arith,
  str_discrete, if◌then◌else◌, ok, raise, persistence_write_error,
}
use redis_like_data_storage.Prelude.Int.{ℤ, pos, ◌*ℤ◌}
use redis_like_data_storage.Dict
use redis_like_data_storage.Store.{init}
use redis_like_data_storage.Store.Keyspace
use redis_like_data_storage.Store.Interface.{is_hollow, same_kind}
use redis_like_data_storage.Commands.Registry.{CommandSpec, texts, int_arg, check_int64}
use redis_like_data_storage.Commands.Keyspace.{
  Reply, effect, pexpireat, deadline_spec, keyspace_table,
}
use redis_like_data_storage.Commands.Keyspace.Deletes.{minus}
use redis_like_data_storage.Commands.Keyspace.Table.{execute_keyspace_told}
use redis_like_data_storage.Commands.Strings.{
  SetOptions, no_options, set_options, option_at, option_word, option_amount,
}
use redis_like_data_storage.Commands.Strings.Options.{IsSound as IsFree, set_options-IsSound}
use redis_like_data_storage.Engine.{Arg, Effect, Engine, Aof, Feed, propagate}
use redis_like_data_storage.Engine.Execute.{execute}
use redis_like_data_storage.Engine.Effects.{
  Contents, contents, del, IsWorking, IsSound, IsStep, is_logging, is_streaming, all_work, streamed,
  logged,
}
use redis_like_data_storage.Engine.Effects.Unwritten.{propagate_unwritten}
use redis_like_data_storage.Examples.Policies.{front, front-IsRandom}
use redis_like_data_storage.Examples.Stores.{Sample, samples, timed, timed-IsConsistent}

abbrev aof : Aof
aof = record {
  is_open = true;
  write_error = false;
  background_error = false;
  records = [];
  committed = 0;
}

abbrev feed : Feed
feed = record { active = true; stream = []; flushed = 0 }

abbrev node : Engine Sample
node = record {
  store = timed;
  persistence = some aof;
  replication = some feed;
  replaying = false;
  commit_depth = pos 0;
  commands_processed = 0;
  disk = [];
}

node-IsWorking : IsWorking node
unfolding is_logging is_streaming all_work
node-IsWorking = record { is_live = refl; logs = refl; streams = refl; disk_works = refl }

-- A replay that knows DEL.
abbrev step : Effect → Contents Sample → Contents Sample
step x c k = if is_in (texts x.args) k then none else c k

texts_of : (ks : List String) → texts (map Arg.text ks) ≡ ks
unfolding texts
texts_of [] = refl
texts_of (key ∷ ks) = ap (λ xs. key ∷ xs) (texts_of ks)

step-dels :
    (ks : List String) (c : Contents Sample) → step (effect "DEL" (map Arg.text ks)) c ≡ minus ks c
step-dels ks c = ap (λ xs k. if is_in xs k then none else c k) (texts_of ks)

node-IsSound : IsSound (is_hollow samples) node.store
unfolding contents Dict.get Dict.put Keyspace.insert init str_discrete same_kind
node-IsSound = (timed-IsConsistent, λ k v t e. ground (arith, e))

-- DEL of one of the two keys; the store may keep one.
execute_keyspace_told_example :
    (es : List Effect) × IsStep
      (is_hollow samples)
      step
      node
      es
      (execute samples keyspace_table front (λ i. front) "DEL" (Arg.text "b" ∷ []) node).1
execute_keyspace_told_example =
    execute_keyspace_told samples step step-dels front (λ i. front) "DEL" (Arg.text "b" ∷ []) node
      (λ i. front-IsRandom) node-IsWorking node-IsSound

abbrev broken : Engine Sample
broken = record node { disk = false ∷ [] }

propagate_unwritten_example :
    (e₁ e₂ : Engine Sample) × (propagate (del "a") broken ≡ (raise persistence_write_error, e₁))
    × (e₁.store ≡ broken.store)
    × (streamed e₁.replication ≡ [])
    × (propagate (del "b") e₁ ≡ (ok tt, e₂))
    × (streamed e₂.replication ≡ del "b" ∷ [])
    × (logged e₂.persistence ≡ [])
propagate_unwritten_example =
    propagate_unwritten (del "a") (del "b") broken aof feed refl refl refl refl refl refl refl

abbrev as_five : String → Option ℤ
as_five s = some (pos 5)

-- A replica with a log, and a table of PEXPIREAT.
abbrev replica : Engine Sample
replica = record node { replication = none }

abbrev deadlines : String → Option (CommandSpec Sample (Reply Sample))
deadlines command = some (deadline_spec (pexpireat as_five))

-- SET with NX EX 5.
abbrev five_seconds : SetOptions
five_seconds = record no_options { nx = true; expire_ms = some (pos 5000) }

abbrev words : List Arg
words = Arg.text "NX" ∷ Arg.text "EX" ∷ Arg.text "5" ∷ []

set_options_runs : set_options (λ s. s) as_five no_options words ≡ ok five_seconds
unfolding set_options option_at option_word option_amount int_arg check_int64 is_in str_discrete
    ◌*ℤ◌
set_options_runs = refl

set_options-IsSound_example : IsFree five_seconds × (five_seconds.awaits ≡ none)
set_options-IsSound_example =
    set_options-IsSound (λ s. s) as_five no_options five_seconds words
      (record { one_test = refl; one_deadline = refl }) set_options_runs

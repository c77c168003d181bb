-- ===== src/Engine/Effects.antt =====
-- engine/engine.py: the effects that are logged and sent, against what happens to the keyspace. What an
-- effect does to the keyspace where it is replayed is an argument, `step`.
pub mod Log
pub mod Steps
pub mod Faithful
pub mod Told
pub mod Unwritten
use redis_like_data_storage.Prelude.{
  ℕ, zero, suc, String, Option, none, some, List, [], ◌∷◌, ◌++◌, Bool, true, false, not, ◌&&◌, ite,
  str_discrete, map, ◌≡◌, refl, arith, ap, sym, ◌∙◌, Bool-cases, inl, inr, is_in, if◌then◌else◌,
}
use mathlib.Core.List.{append_assoc}
use redis_like_data_storage.Dict
use redis_like_data_storage.Store.{Entry, Store}
use redis_like_data_storage.Store.Consistent.{IsConsistent, view, unmarked}
use redis_like_data_storage.Engine.{Effect, text, Engine, Aof, Feed}

-- A keyspace to its user: the value and the deadline at each key.
abbrev pub Contents : Type 0 → Type 0
Contents V = String → Option (V × Option ℕ)

abbrev pub del : String → Effect
del key = record { command = "DEL"; args = text key ∷ [] }

module _ {V : Type 0} where
  abbrev pub content : Option (Entry V) → Option (V × Option ℕ)
  content none = none
  content (some e) = some (e.value, e.expires_at)

  unfoldable pub contents : Store V → Contents V
  contents s k = content (Dict.get s.entries k)

  content-unmarked : (o : Option (Entry V)) → content (unmarked o) ≡ content o
  content-unmarked none = refl
  content-unmarked (some e) = refl

  pub contents-view : (s : Store V) (k : String) → contents s k ≡ content (view s k)
  unfolding contents
  contents-view s k = sym (content-unmarked (Dict.get s.entries k))

  unfoldable pub without : String → Contents V → Contents V
  without key c k = ite (str_discrete key k) none (c k)

-- What the log has, and the stream.
unfoldable pub logged : Option Aof → List Effect
logged none = []
logged (some a) = a.records

unfoldable pub streamed : Option Feed → List Effect
streamed none = []
streamed (some f) = f.stream

unfoldable pub is_logging : Option Aof → Bool
is_logging none = false
is_logging (some a) = a.is_open && not a.write_error && not a.background_error

unfoldable pub is_streaming : Option Feed → Bool
is_streaming none = false
is_streaming (some f) = f.active

unfoldable pub all_work : List Bool → Bool
all_work [] = true
all_work (b ∷ bs) = b && all_work bs

-- An engine with an open log on a disk that works, and replicas, that is not loading.
pub record IsWorking {V : Type 0} (e : Engine V) : Type 0 where
  pub is_live : e.replaying ≡ false
  pub logs : is_logging e.persistence ≡ true
  pub streams : is_streaming e.replication ≡ true
  pub disk_works : all_work e.disk ≡ true

-- The engine has logged and sent `es`, and is otherwise the same.
pub record IsLogged {V : Type 0} (e : Engine V) (es : List Effect) (e' : Engine V) : Type 0 where
  pub working : IsWorking e'
  pub store : e'.store ≡ e.store
  pub log : logged e'.persistence ≡ logged e.persistence ++ es
  pub stream : streamed e'.replication ≡ streamed e.replication ++ es

module _ {V : Type 0} (step : Effect → Contents V → Contents V) where
  unfoldable pub replay : List Effect → Contents V → Contents V
  replay [] c = c
  replay (x ∷ xs) c = replay xs (step x c)

  pub replay-append :
      (xs ys : List Effect) (c : Contents V) → replay (xs ++ ys) c ≡ replay ys (replay xs c)
  unfolding replay
  replay-append [] ys c = refl
  replay-append (x ∷ xs) ys c = replay-append xs ys (step x c)

  module _ (step-del : (key : String) (c : Contents V) → step (del key) c ≡ without key c) where
    -- The DELs of some keys take them away and leave the others.
    pub replay-dels :
        (ks : List String) (c : Contents V) (k : String)
        → replay (map del ks) c k ≡ (if is_in ks k then none else c k)
    unfolding replay is_in without
    replay-dels [] c k = refl
    replay-dels (key ∷ ks) c k =
        ap (λ c'. replay (map del ks) c' k) (step-del key c)
        ∙ replay-dels ks (without key c) k
        ∙ ground arith

module _ {V : Type 0} (hollow : V → Bool) where
  -- A keyspace keeps no empty collection; `hollow` says what that is.
  abbrev pub IsFull : Contents V → Type 0
  IsFull c = (k : String) (v : V) (t : Option ℕ) → c k ≡ some (v, t) → hollow v ≡ false

  abbrev pub IsSound : Store V → Type 0
  IsSound s = IsConsistent s × IsFull (contents s)

  -- Keys that go leave it so.
  pub IsFull-dels :
      (step : Effect → Contents V → Contents V)
      (step-del : (key : String) (c : Contents V) → step (del key) c ≡ without key c)
      (ks : List String) (c c' : Contents V)
      → c' ≡ replay step (map del ks) c
      → IsFull c
      → IsFull c'
  IsFull-dels step step-del ks c c' told h k v t found =
      h k v t (ground (arith, ap (λ f. f k) told, replay-dels step step-del ks c k, found))

module _ {V : Type 0} (hollow : V → Bool) (step : Effect → Contents V → Contents V) where
  -- The engine has logged and sent `es`, which say what happened to its keyspace.
  pub record IsStep (e : Engine V) (es : List Effect) (e' : Engine V) : Type 0 where
    pub working : IsWorking e'
    pub sound : IsSound hollow e'.store
    pub log : logged e'.persistence ≡ logged e.persistence ++ es
    pub stream : streamed e'.replication ≡ streamed e.replication ++ es
    pub told : contents e'.store ≡ replay step es (contents e.store)

  pub IsStep-append :
      (e e₁ e' : Engine V) (es fs : List Effect)
      → IsStep e es e₁
      → IsStep e₁ fs e'
      → IsStep e (es ++ fs) e'
  IsStep-append e e₁ e' es fs a b = record {
    working = b.working;
    sound = b.sound;
    log = b.log ∙ ap (λ xs. xs ++ fs) a.log ∙ append_assoc (logged e.persistence) es fs;
    stream = b.stream ∙ ap (λ xs. xs ++ fs) a.stream ∙ append_assoc (streamed e.replication) es fs;
    told = b.told ∙ ap (replay step fs) a.told ∙ sym (replay-append step es fs (contents e.store));
  }

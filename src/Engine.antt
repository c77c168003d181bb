-- ===== src/Engine.antt =====
-- engine/engine.py: the state of `Engine`, and the log and the stream that it writes. A method takes the
-- engine and returns its result, or what it raised, beside the new engine.
pub mod Execute
pub mod Replica
pub mod Effects
use redis_like_data_storage.Prelude.{
  ℕ, String, Option, none, some, List, [], ◌∷◌, ◌++◌, Bool, true, false, not, ◌&&◌, ◌||◌,
  if◌then◌else◌, length, Result, ok, raise, Error, persistence_write_error, ◌==◌,
}
use redis_like_data_storage.Prelude.Int.{ℤ, pos, ◌+ℤ◌, ◌-ℤ◌, leb_ℤ}
use redis_like_data_storage.Store.{Store}

-- An argument of a command: a text, or a number that a handler or a caller passes as it is.
pub data Arg : Type 0 where
  text : String → Arg
  number : ℤ → Arg

-- What `propagate` is called with. It is encoded once, for both destinations alike.
pub record Effect : Type 0 where
  pub command : String
  pub args : List Arg

-- What the engine uses of `Persistence`: the records of the current AOF, and how many of them `commit`
-- has handed over.
pub record Aof : Type 0 where
  pub is_open : Bool
  pub write_error : Bool
  pub background_error : Bool
  pub records : List Effect
  pub committed : ℕ

-- The replication stream (`ReplicationFeed`), and how much of it was flushed.
pub record Feed : Type 0 where
  pub active : Bool
  pub stream : List Effect
  pub flushed : ℕ

-- `disk` has for each call of the system to come whether it works; those after its end do.
pub record Engine (V : Type 0) : Type 0 where
  pub store : Store V
  pub persistence : Option Aof
  pub replication : Option Feed
  pub replaying : Bool
  pub commit_depth : ℤ
  pub commands_processed : ℕ
  pub disk : List Bool

-- A method, which may raise and has changed the engine all the same.
abbrev pub Run : Type 0 → Type 0 → Type 0
Run V A = Engine V → Result A × Engine V

abbrev pub is_zero : ℤ → Bool
is_zero n = leb_ℤ n (pos 0) && leb_ℤ (pos 0) n

module _ {V A : Type 0} where
  abbrev pub return : A → Run V A
  return a e = (ok a, e)

  abbrev pub throw : Error → Run V A
  throw error e = (raise error, e)

  -- What follows, if nothing was raised.
  abbrev pub follow : {B : Type 0} → (A → Run V B) → Result A × Engine V → Result B × Engine V
  follow k (raise error, e) = (raise error, e)
  follow k (ok a, e) = k a e

  -- The `finally` of a method: an exception of its own takes the place of what was.
  abbrev pub instead : Result A → Result (Unit {0}) × Engine V → Result A × Engine V
  instead r (raise error, e) = (raise error, e)
  instead r (ok _, e) = (r, e)

  abbrev pub finally : Run V (Unit {0}) → Result A × Engine V → Result A × Engine V
  finally m (r, e) = instead r (m e)

infixl 5 ◌>>-◌
abbrev pub ◌>>-◌ : {V A B : Type 0} → Run V A → (A → Run V B) → Run V B
(m >>- k) e = follow k (m e)

-- The next call of the system.
abbrev pub works : List Bool → Bool
works [] = true
works (b ∷ bs) = b

abbrev pub later : List Bool → List Bool
later [] = []
later (b ∷ bs) = bs

module _ {V : Type 0} where
  -- `_fail`
  abbrev pub fail : Aof → Run V (Unit {0})
  fail a e = (
    raise persistence_write_error,
    record e { persistence = some (record a { write_error = true }) },
  )

  -- `Persistence.append` of an open AOF: a record may fill the buffer, which then is written.
  unfoldable pub append_record : Aof → Effect → Run V (Unit {0})
  append_record a x e =
      if a.write_error
      then (ok tt, e)
      else if works e.disk
      then (
        ok tt,
        record e {
          persistence = some (record a { records = a.records ++ x ∷ [] });
          disk = later e.disk;
        },
      )
      else fail a (record e { disk = later e.disk })

  -- The two halves of `propagate`.
  unfoldable pub append_effect : Effect → Run V (Unit {0})
  unfolding append_record
  append_effect x e = elim e.persistence [
    | none ↦ (ok tt, e)
    | some a ↦ if a.is_open then append_record a x e else (ok tt, e)
  ]

  unfoldable pub feed_effect : Effect → Run V (Unit {0})
  feed_effect x e = elim e.replication [
    | none ↦ (ok tt, e)
    | some f ↦ (
      ok tt,
      if f.active
          then record e { replication = some (record f { stream = f.stream ++ x ∷ [] }) }
          else e,
    )
  ]

  unfoldable pub propagate : Effect → Run V (Unit {0})
  unfolding append_effect feed_effect
  propagate x e = if e.replaying then (ok tt, e) else (append_effect x >>- λ _. feed_effect x) e

  -- `AOFWriter.commit`, and `Persistence.commit`, after which a record may still be short of the disk.
  unfoldable pub commit_records : Aof → Run V (Unit {0})
  commit_records a e =
      if a.committed == length a.records
      then (ok tt, e)
      else if works e.disk
      then (
        ok tt,
        record e {
          persistence = some (record a { committed = length a.records });
          disk = later e.disk;
        },
      )
      else fail a (record e { disk = later e.disk })

  unfoldable pub commit_aof : Run V (Unit {0})
  unfolding commit_records
  commit_aof e = elim e.persistence [
    | none ↦ (ok tt, e)
    | some a ↦
        if not a.is_open || a.write_error
        then (ok tt, e)
        else if a.background_error
        then fail (record a { background_error = false }) e
        else commit_records a e
  ]

  -- `ReplicationFeed.flush`
  unfoldable pub flush : Run V (Unit {0})
  flush e = elim e.replication [
    | none ↦ (ok tt, e)
    | some f ↦ (ok tt, record e { replication = some (record f { flushed = length f.stream }) })
  ]

  -- `_commit`
  unfoldable pub commit : Run V (Unit {0})
  unfolding commit_aof flush
  commit e = finally flush (commit_aof e)

  -- `_expired`, for each key of which a method of the store says that it has expired.
  unfoldable pub announce : List String → Run V (Unit {0})
  announce [] e = (ok tt, e)
  announce (key ∷ keys) e =
      (propagate (record { command = "DEL"; args = text key ∷ [] }) >>- λ _. announce keys) e

  -- A method of the store that calls `on_expire` at its end at most.
  abbrev pub settle : {A : Type 0} → Engine V → Result (A × Store V) → Result A × Engine V
  settle e (raise error) = (raise error, e)
  settle e (ok (a, s)) =
      (announce s.expired_calls >>- λ _. return a)
        (record e { store = record s { expired_calls = [] } })

  abbrev pub on_store : {A : Type 0} → (Store V → Result (A × Store V)) → Run V A
  on_store m e = settle e (m (record e.store { expired_calls = [] }))

  -- `hold_commit` and `release_commit`
  abbrev pub hold_commit : Engine V → Engine V
  hold_commit e = record e { commit_depth = e.commit_depth +ℤ pos 1 }

  -- The commit of a method that may be in a hold.
  unfoldable pub commit_unless_held : Run V (Unit {0})
  unfolding commit
  commit_unless_held e = if is_zero e.commit_depth then commit e else (ok tt, e)

  unfoldable pub release_commit : Run V (Unit {0})
  unfolding commit_unless_held
  release_commit e = commit_unless_held (record e { commit_depth = e.commit_depth -ℤ pos 1 })

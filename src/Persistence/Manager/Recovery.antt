-- ===== src/Persistence/Manager/Recovery.antt =====
-- engine/persistence/manager.py: what a start recovers from what it finds.
use redis_like_data_storage.Prelude.{ℕ, ◌≡◌, Option, none, some, List, [], Bool, true, ok}
use redis_like_data_storage.Protocol.Requests.{Command}
use redis_like_data_storage.Persistence.Manager.{
  Name, Directory, Persistence, replay, cut, load, at_rest, create_directory, append, spill, fsync,
  commit, begin_rewrite, close_previous, finish_copy, write_snapshot, poll, perform_all, delete_ops,
  abandon_copy,
}
use redis_like_data_storage.Persistence.Manager.Found.{Found}

module _ {S : Type 0} (apply : S → Command → S) (empty : S) where
  -- The state after a start.
  abbrev loaded : List Name → Directory S → S → Persistence S
  loaded listing d s = record (at_rest d s) {
    directory = perform_all (delete_ops d.manifest listing) (cut d);
  }

  -- What may happen to a data directory that is in use.
  pub data Step (p : Persistence S) : Persistence S → Type 0 where
    ran : (c : Command) → Step p (append apply c p)
    spilled : (n : ℕ) (part : Bool) → p.dirty ≡ true → Step p (spill n part p)
    committed : (always : Bool) → Step p (commit always p)
    flushed : Step p (fsync p.writer p)
    begun :
        (always : Bool) (q : Persistence S)
        → p.closing ≡ none
        → begin_rewrite always p ≡ ok q
        → Step p q
    closed : (works : Bool) → Step p (close_previous works p)
    copied : Step p (finish_copy p)
    wrote : (works : Bool) → Step p (write_snapshot works p)
    polled : (listing : List Name) → Step p (poll listing p)
    abandoned : Step p (abandon_copy p)
    -- The process is killed or the power fails, and the node starts again.
    restarted :
        (power : Bool) (d : Directory S) (lost : List Command) (listing : List Name)
        (q : Persistence S)
        → Found p power d lost
        → load apply empty listing d ≡ ok q
        → Step p q

  pub data Steps (p : Persistence S) : Persistence S → Type 0 where
    here : Steps p p
    then_ : (q r : Persistence S) → Steps p q → Step q r → Steps p r

  -- The state before a first start, with the effect of the commands in the file of old.
  before_start : Option (List Command × Bool) → Persistence S
  before_start legacy =
      let cs : List Command = elim legacy [ none ↦ [] | some f ↦ f.0 ] in
      record (at_rest (create_directory legacy) (replay apply empty cs)) { dirty = true }

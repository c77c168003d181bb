-- ===== src/Persistence/Writer.antt =====
-- engine/persistence/aof.py, `AOFWriter`, over a file of which the operating system has a part and the
-- disk a part of that. A call of the system that may fail takes whether it does not. The thread of
-- `everysec` takes two steps for an fsync, since the engine writes on meanwhile.
pub mod Durable
use redis_like_data_storage.Prelude.{
  ℕ, suc, ◌+◌, Option, none, some, List, [], ◌∷◌, ◌++◌, Bool, true, false, not, ◌&&◌, if◌then◌else◌,
  length, take, drop, max,
}
use redis_like_data_storage.Protocol.Bytes.{Bytes}
use redis_like_data_storage.Persistence.Records.{frame_record}

-- `FsyncPolicy`
pub data FsyncPolicy : Type 0 where
  always everysec no_fsync : FsyncPolicy

-- An OSError.
pub data OsError : Type 0 where
  flush_failed fsync_failed : OsError

pub record AofWriter : Type 0 where
  pub policy : FsyncPolicy
  -- What is buffered in the process, what the system has, and how much of that is on disk.
  pub buffered : Bytes
  pub handed : Bytes
  pub synced : ℕ
  pub dirty : Bool
  pub unsynced : Bool
  pub fsyncs : ℕ
  pub background_error : Option OsError
  -- What the system had when the fsync that the thread is in began.
  pub fsyncing : Option ℕ

-- `AOFWriter(path, fsync)` on a file that holds `content` on disk.
abbrev pub open_writer : FsyncPolicy → Bytes → AofWriter
open_writer policy content = record {
  policy = policy;
  buffered = [];
  handed = content;
  synced = length content;
  dirty = false;
  unsynced = false;
  fsyncs = 0;
  background_error = none;
  fsyncing = none;
}

-- `append`
unfoldable pub append : (Bytes → ℕ) → Bytes → AofWriter → AofWriter
append crc32 payload w = record w {
  buffered = w.buffered ++ frame_record crc32 payload;
  dirty = true;
}

-- A buffer that is full hands its first bytes over by itself.
unfoldable pub spill : ℕ → AofWriter → AofWriter
spill n w = record w { handed = w.handed ++ take n w.buffered; buffered = drop n w.buffered }

-- `_fsync` in one step.
unfoldable pub fsync : Bool → AofWriter → AofWriter × Option OsError
fsync works w =
    if works
    then (record w { synced = length w.handed; fsyncs = suc w.fsyncs; unsynced = false }, none)
    else (w, some fsync_failed)

-- `self._file.flush()`
abbrev pub flush : AofWriter → AofWriter
flush w = record w { handed = w.handed ++ w.buffered; buffered = []; dirty = false }

-- `commit` behind the flush.
unfoldable pub after_flush : Bool → AofWriter → AofWriter × Option OsError
unfolding fsync
after_flush fsyncs w = elim w.policy [
  | always ↦ fsync fsyncs w
  | _ ↦ (record w { unsynced = true }, none)
]

-- `commit`
unfoldable pub commit : Bool → Bool → AofWriter → AofWriter × Option OsError
unfolding after_flush
commit flushes fsyncs w =
    if not w.dirty
    then (w, none)
    else if flushes
    then after_flush fsyncs (flush w)
    else (w, some flush_failed)

-- `_fsync_every_second`: the test of the flag and the start of `os.fsync`, ...
unfoldable pub thread_starts : AofWriter → AofWriter
thread_starts w = if w.unsynced then record w { fsyncing = some (length w.handed) } else w

-- ... and what follows it.
unfoldable pub thread_ends : Bool → AofWriter → AofWriter
thread_ends works w = elim w.fsyncing [
  | none ↦ w
  | some n ↦
      if works
      then record w {
        synced = max n w.synced;
        fsyncs = suc w.fsyncs;
        unsynced = false;
        fsyncing = none;
      }
      else record w { background_error = some fsync_failed; fsyncing = none }
]

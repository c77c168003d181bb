-- ===== src/Store/Snapshot.antt =====
-- The snapshots of engine/store.py: `snapshot`, and the incremental one of `SnapshotJob`, which
-- copies a slice at a time and what is about to change.
pub mod Records
pub mod Copying
pub mod Slices
pub mod Changes
pub mod Marks
pub mod PointInTime
pub mod Operations
use redis_like_data_storage.Prelude.{
  ℕ, zero, suc, ◌+◌, ◌-◌, String, Option, none, some, List, [], ◌∷◌, ◌++◌, Bool, true, false, leb,
  if◌then◌else◌, length, Result, ok, raise, runtime_error, ◌>>=◌, min, take, drop,
}
use redis_like_data_storage.Prelude.Int.{pos}
use redis_like_data_storage.Dict
use redis_like_data_storage.Dict.{Dict}
use redis_like_data_storage.KeySet
use redis_like_data_storage.Eviction.Env.{Env}
use redis_like_data_storage.Eviction.Policy
use redis_like_data_storage.Store.{
  Entry, Record, Job, Store, is_expired, to_record, snapshot_barrier, lookup,
}

module _ {V : Type 0} where
  -- The records of the entries that are live at `now`.
  unfoldable pub live_records : ℕ → Dict (Entry V) → List (Record V)
  live_records now [] = []
  live_records now ((key, e) ∷ d) =
      let rest = live_records now d in if is_expired e now then rest else to_record key e ∷ rest

  unfoldable pub snapshot : Env → Store V → List (Record V)
  snapshot env s = live_records env.now s.entries

  -- `Store.record`
  unfoldable pub record_of : Env → Store V → String → Result (Option (Record V) × Store V)
  record_of env s key = do
    (found, s') ← lookup env s key
    elim found [ none ↦ ok (none, s') | some e ↦ ok (some (to_record key e), s') ]

  -- `on_done` tells whether a callback is given.
  unfoldable pub begin_snapshot : Env → Bool → Store V → Result (Store V)
  begin_snapshot env on_done s = elim s.snapshot_job [
    | some _ ↦ raise runtime_error
    | none ↦ ok (record s {
      snapshot_epoch = s.snapshot_epoch + 1;
      snapshot_job = some (record {
        keys = Dict.keys s.entries;
        pos = 0;
        epoch = s.snapshot_epoch + 1;
        started_at = env.now;
        on_done = on_done;
        records = [];
      });
    })
  ]

  -- The loop of `step`: what it does to a key is what the barrier does.
  unfoldable pub copy_slice : Store V → List String → Store V
  copy_slice s [] = s
  copy_slice s (key ∷ keys) = copy_slice (snapshot_barrier s key) keys

  -- `step` from `self._pos = end` on.
  unfoldable pub finish_slice : Store V → Job V → ℕ → Bool × Store V
  finish_slice s job end =
      if leb (length job.keys) end
      then (
        true,
        record s {
          snapshot_job = none;
          done_calls = if job.on_done then s.done_calls ++ job.records ∷ [] else s.done_calls;
        },
      )
      else (false, record s { snapshot_job = some (record job { pos = end }) })

  abbrev pub slice_end : Job V → ℕ → ℕ
  slice_end job max_keys = min (job.pos + max_keys) (length job.keys)

  unfoldable pub end_slice : Store V → ℕ → Bool × Store V
  end_slice s end = elim s.snapshot_job [ none ↦ (true, s) | some job ↦ finish_slice s job end ]

  abbrev pub slice_keys : Job V → ℕ → List String
  slice_keys job max_keys = take (slice_end job max_keys - job.pos) (drop job.pos job.keys)

  -- `SnapshotJob.step` of the running job. A finished or abandoned job has no keys, and its step
  -- returns True.
  unfoldable pub step : Store V → ℕ → Bool × Store V
  step s max_keys = elim s.snapshot_job [
    | none ↦ (true, s)
    | some job ↦ end_slice (copy_slice s (slice_keys job max_keys)) (slice_end job max_keys)
  ]

  unfoldable pub abandon_snapshot : Store V → Bool × Store V
  abandon_snapshot s = elim s.snapshot_job [
    | none ↦ (false, s)
    | some _ ↦ (true, record s { snapshot_job = none })
  ]

  -- `clear`, after the running snapshot has copied what is left.
  abbrev pub emptied : Store V → Store V
  emptied s = record s {
    entries = [];
    volatile = KeySet.empty;
    eviction = Policy.clear s.eviction;
    used_memory = pos 0;
  }

  unfoldable pub clear : Store V → Store V
  clear s = elim s.snapshot_job [
    | none ↦ emptied s
    | some job ↦ emptied (step s (length job.keys - job.pos)).1
  ]

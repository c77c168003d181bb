-- ===== src/Examples/Snapshots.antt =====
-- A snapshot of the store of two keys, one of which is removed before it is copied.
use redis_like_data_storage.Prelude.{
  none, some, [], ◌∷◌, true, false, ◌≡◌, ◌⊎◌, ok, raise, runtime_error, refl, arith, str_discrete,
  is_in, Result,
}
use redis_like_data_storage.Prelude.Int.{pos, ◌+ℤ◌, ◌-ℤ◌}
use redis_like_data_storage.Dict
use redis_like_data_storage.KeySet
use redis_like_data_storage.Eviction.Policy
use redis_like_data_storage.Eviction.Lru
use redis_like_data_storage.Store
use redis_like_data_storage.Store.{Store, Entry, Job, Record, snapshot_barrier, remove}
use redis_like_data_storage.Store.Consistent.{IsConsistent}
use redis_like_data_storage.Store.Keyspace
use redis_like_data_storage.Store.Snapshot
use redis_like_data_storage.Store.Snapshot.{begin_snapshot, step, clear}
use redis_like_data_storage.Store.Snapshot.Operations.{set-IsChange}
use redis_like_data_storage.Store.Snapshot.PointInTime.{
  Run, IsDelivered, IsUnderWay, point_in_time, last_slice_delivers, clear_delivers,
}
use redis_like_data_storage.Store.Snapshot.Marks.{IsMarked}
use redis_like_data_storage.Examples.Policies.{front}
use redis_like_data_storage.Examples.Stores.{Sample, samples, text, numbers, two, two-IsConsistent}

-- The snapshot begun, one key copied, and the other one overwritten.
abbrev begun : Store Sample
begun = record two {
  snapshot_epoch = 1;
  snapshot_job = some (record {
    keys = "a" ∷ "b" ∷ [];
    pos = 0;
    epoch = 1;
    started_at = 1000;
    on_done = true;
    records = [];
  });
}

snapshot_runs : Unit {0}
unfolding Store.init Keyspace.insert str_discrete is_in Dict.get Dict.put Dict.remove
    KeySet.contains Policy.on_insert Lru.on_insert Keyspace.entry_size Lru.without ◌+ℤ◌ ◌-ℤ◌
    begin_snapshot step clear Snapshot.copy_slice Snapshot.finish_slice Snapshot.end_slice
    Store.snapshot_barrier Store.copy_once Store.take_record Store.is_expired Keyspace.set
    Keyspace.replace Keyspace.volatile_after KeySet.discard Policy.on_access Lru.on_access
    Snapshot.snapshot Snapshot.live_records
snapshot_runs = tt

begin_runs : begin_snapshot front true two ≡ ok begun
unfolding snapshot_runs
begin_runs = refl

begin_twice : begin_snapshot front true begun ≡ raise runtime_error
unfolding snapshot_runs
begin_twice = refl

abbrev sliced : Store Sample
sliced = (step begun 1).1

-- The result of a call, if it did not raise.
abbrev or_else : Store Sample → Result (Store Sample) → Store Sample
or_else s (ok s') = s'
or_else s (raise e) = s

abbrev overwritten : Store Sample
overwritten =
    or_else sliced (Keyspace.set samples front (snapshot_barrier sliced "b") "b" text false)

overwrite_runs :
    Keyspace.set samples front (snapshot_barrier sliced "b") "b" text false ≡ ok overwritten
unfolding snapshot_runs
overwrite_runs = refl

run : Run begun overwritten
run =
    Run.changed (Run.sliced Run.begun 1) "b"
      (set-IsChange samples front sliced overwritten "b" text overwrite_runs)

two-IsMarked : IsMarked two
unfolding snapshot_runs
two-IsMarked = record { past = λ k e h. ground arith; last = λ job h. cc h }

point_in_time_example :
    ((job : Job Sample) × IsUnderWay two overwritten job) ⊎ IsDelivered front two overwritten
point_in_time_example =
    point_in_time front two begun overwritten two-IsConsistent.is_dict two-IsMarked begin_runs run

abbrev under_way : Job Sample
under_way = record {
  keys = "a" ∷ "b" ∷ [];
  pos = 1;
  epoch = 1;
  started_at = 1000;
  on_done = true;
  records =
      record { key = "a"; payload = text; deadline = none }
      ∷ record { key = "b"; payload = numbers; deadline = none }
      ∷ [];
}

-- The barrier has copied the list that SET overwrote.
under_way_runs : overwritten.snapshot_job ≡ some under_way
unfolding snapshot_runs
under_way_runs = refl

last_slice_delivers_example :
    ((step overwritten 5).0 ≡ true) × IsDelivered front two (step overwritten 5).1
last_slice_delivers_example =
    last_slice_delivers front two begun overwritten 5 under_way two-IsConsistent.is_dict
      two-IsMarked begin_runs run under_way_runs (omega arith)

clear_delivers_example :
    IsDelivered front two (clear overwritten)
    × IsConsistent (clear overwritten)
    × ((clear overwritten).entries ≡ [])
    × ((clear overwritten).used_memory ≡ pos 0)
    × ((clear overwritten).volatile.items ≡ [])
clear_delivers_example =
    clear_delivers front two begun overwritten under_way two-IsConsistent.is_dict two-IsMarked
      begin_runs run under_way_runs

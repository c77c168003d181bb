-- ===== src/Store/Snapshot/PointInTime.antt =====
-- The incremental snapshot of engine/store.py is the keyspace of its start, whatever changes in the
-- meantime.
use redis_like_data_storage.Prelude.{
  ℕ, ◌+◌, ◌-◌, ◌≤◌, String, Option, none, some, List, [], ◌∷◌, ◌++◌, Bool, true, length, Result, ok,
  ◌≡◌, ◌⊎◌, refl, arith, Option-cases, inl, inr, raise, runtime_error, ap, sym, ◌∙◌, subst,
}
use redis_like_data_storage.Dict
use redis_like_data_storage.Dict.{Dict, IsDict, has}
use redis_like_data_storage.Dict.Laws.{is_in-keys}
use redis_like_data_storage.KeySet
use redis_like_data_storage.KeySet.Invariant
use redis_like_data_storage.Prelude.Int.{pos}
use redis_like_data_storage.Eviction.Env.{Env}
use redis_like_data_storage.Eviction.Policy.Tracking.{clear-IsTracking}
use redis_like_data_storage.Store.Consistent.{IsConsistent}
use redis_like_data_storage.Store.{Entry, Record, Job, Store}
use redis_like_data_storage.Store.Snapshot.{snapshot, begin_snapshot, step, clear, emptied}
use redis_like_data_storage.Store.Snapshot.Copying.{IsCopying}
use redis_like_data_storage.Store.Snapshot.Records.{records_of, taken, records_of-live_records}
use redis_like_data_storage.Store.Snapshot.Marks.{IsMarked, step-IsMarked, change-IsMarked}
use redis_like_data_storage.Store.Snapshot.Slices.{Phase, step-Phase, step_ends}
use redis_like_data_storage.Store.Snapshot.Changes.{IsChange, change-Phase}

module _ {V : Type 0} where
  -- Changes of keys under the barrier, and slices of the snapshot.
  pub data Run (s : Store V) : Store V → Type 0 where
    begun : Run s s
    changed : {u v : Store V} → Run s u → (key : String) → IsChange u key v → Run s v
    sliced : {u : Store V} → Run s u → (max_keys : ℕ) → Run s (step u max_keys).1

  run-Phase :
      (o : String → Option (Entry V)) (t : ℕ) (calls : List (List (Record V))) (s : Store V)
      {s' : Store V}
      → Run s s'
      → Phase o t calls s
      → Phase o t calls s'
  run-Phase o t calls s begun p = p
  run-Phase o t calls s (changed {u} {v} r key x) p =
      change-Phase o t calls u v key x (run-Phase o t calls s r p)
  run-Phase o t calls s (sliced {u} r max_keys) p =
      step-Phase o t calls u max_keys (run-Phase o t calls s r p)

  abbrev first_job : Env → Bool → Store V → Job V
  first_job env on_done s = record {
    keys = Dict.keys s.entries;
    pos = 0;
    epoch = s.snapshot_epoch + 1;
    started_at = env.now;
    on_done = on_done;
    records = [];
  }

  abbrev first_store : Env → Bool → Store V → Store V
  first_store env on_done s = record s {
    snapshot_epoch = s.snapshot_epoch + 1;
    snapshot_job = some (first_job env on_done s);
  }

  begin_snapshot-begun :
      (env : Env) (on_done : Bool) (s s' : Store V)
      → begin_snapshot env on_done s ≡ ok s'
      → s' ≡ first_store env on_done s
  unfolding begin_snapshot
  begin_snapshot-begun env on_done s s' began = elim (Option-cases s.snapshot_job) [
    | inl idle ↦ cc (sym began ∙ ap begin idle)
    | inr (job, running) ↦ cc (sym began ∙ ap begin running)
  ]
    where
      begin : Option (Job V) → Result (Store V)
      begin none = ok (first_store env on_done s)
      begin (some job) = raise runtime_error

  first_job-IsCopying :
      (env : Env) (on_done : Bool) (s : Store V)
      → IsMarked s
      → IsCopying (Dict.get s.entries) (first_store env on_done s) (first_job env on_done s)
  unfolding records_of taken
  first_job-IsCopying env on_done s marked = record {
    running = refl;
    epoch = refl;
    pos_le = omega arith;
    balance = λ k. elim (Option-cases (Dict.get s.entries k)) [
      | inl absent ↦ ground arith
      | inr (e, found) ↦ ground (arith, marked.past k e found)
    ];
    ahead = λ k h. is_in-keys s.entries k ∙ (unfold has in ground arith);
  }

  begin_snapshot-Phase :
      (env : Env) (s s' : Store V)
      → IsMarked s
      → begin_snapshot env true s ≡ ok s'
      → Phase (Dict.get s.entries) env.now s.done_calls s'
  unfolding begin_snapshot
  begin_snapshot-Phase env s s' marked began =
      subst (Phase (Dict.get s.entries) env.now s.done_calls)
        (sym (begin_snapshot-begun env true s s' began))
        (inl (first_job env true s, first_job-IsCopying env true s marked, refl, refl, refl))

  -- What a snapshot of `s` may have delivered when the store is `s'`: nothing while it is under way,
  -- and one list when it is over, with the records that a plain snapshot of `s` has of each key.
  abbrev pub IsDelivered : Env → Store V → Store V → Type 0
  IsDelivered env s s' =
      (s'.snapshot_job ≡ none)
      × ((records : List (Record V)) × (s'.done_calls ≡ s.done_calls ++ records ∷ [])
          × ((k : String) → records_of k records ≡ records_of k (snapshot env s)))

  abbrev pub IsUnderWay : Store V → Store V → Job V → Type 0
  IsUnderWay s s' job = (s'.snapshot_job ≡ some job) × (s'.done_calls ≡ s.done_calls)

  -- The phase of a snapshot, said of a plain one.
  delivered :
      (env : Env) (s s' : Store V)
      → IsDict s.entries
      → Phase (Dict.get s.entries) env.now s.done_calls s'
      → ((job : Job V) × IsUnderWay s s' job) ⊎ IsDelivered env s s'
  unfolding snapshot
  delivered env s s' d (inl (job, c, reports, since, called)) = inl (job, (c.running, called))
  delivered env s s' d (inr (idle, (records, called, all))) =
      inr
        (idle, (records, called, λ k. all k ∙ sym (records_of-live_records env.now s.entries k d)))

  -- From the start of a snapshot of a store none of whose entries is marked for a snapshot to come,
  -- through any changes of keys under the barrier and any slices, either the snapshot is still under way and `on_done` was not called, or it is over and `on_done` was called
  -- once. The records that it got are then those of a plain snapshot at the start: of every key the
  -- same ones.
  pub point_in_time :
      (env : Env) (s s₁ s₂ : Store V)
      → IsDict s.entries
      → IsMarked s
      → begin_snapshot env true s ≡ ok s₁
      → Run s₁ s₂
      → ((job : Job V) × IsUnderWay s s₂ job) ⊎ IsDelivered env s s₂
  point_in_time env s s₁ s₂ d marked began run = delivered env s s₂ d (
      run-Phase (Dict.get s.entries) env.now s.done_calls s₁ run
        (begin_snapshot-Phase env s s₁ marked began))

  run-IsMarked : (s : Store V) {s' : Store V} → Run s s' → IsMarked s → IsMarked s'
  run-IsMarked s begun m = m
  run-IsMarked s (changed {u} {v} r key x) m = change-IsMarked u v key x (run-IsMarked s r m)
  run-IsMarked s (sliced {u} r max_keys) m = step-IsMarked u max_keys (run-IsMarked s r m)

  first_store-IsMarked :
      (env : Env) (on_done : Bool) (s : Store V) → IsMarked s → IsMarked (first_store env on_done s)
  first_store-IsMarked env on_done s marked = record {
    past = λ k e h. omega (arith, marked.past k e h);
    last = λ job h. cc h;
  }

  -- No entry is marked for a snapshot to come, also after a snapshot has begun and through any changes
  -- of keys under the barrier and any slices: the next snapshot has every entry before it.
  pub run_begun-IsMarked :
      (env : Env) (on_done : Bool) (s s₁ s₂ : Store V)
      → IsMarked s
      → begin_snapshot env on_done s ≡ ok s₁
      → Run s₁ s₂
      → IsMarked s₂
  run_begun-IsMarked env on_done s s₁ s₂ marked began run = run-IsMarked s₁ run (
      subst IsMarked (sym (begin_snapshot-begun env on_done s s₁ began))
        (first_store-IsMarked env on_done s marked))

  ended :
      (env : Env) (s s₂ : Store V) (max_keys : ℕ) (job : Job V)
      → IsDict s.entries
      → Phase (Dict.get s.entries) env.now s.done_calls s₂
      → s₂.snapshot_job ≡ some job
      → length job.keys ≤ job.pos + max_keys
      → ((step s₂ max_keys).0 ≡ true) × IsDelivered env s (step s₂ max_keys).1
  ended env s s₂ max_keys job d (inr (idle, after)) running enough = ground arith
  ended env s s₂ max_keys job d (inl (job₁, c, reports, since, called)) running enough =
      let same : job₁ ≡ job = cc (c.running, running) in
      let (done, over) = step_ends (Dict.get s.entries) s₂ job₁ max_keys c (rw same enough) in
      let p =
        step-Phase (Dict.get s.entries) env.now s.done_calls s₂ max_keys
          (inl (job₁, c, reports, since, called)) in
      (
        done,
        elim (delivered env s (step s₂ max_keys).1 d p) [
          | inl (job₂, (running₂, called₂)) ↦ absurd (cc (over, running₂))
          | inr all ↦ all
        ],
      )

  -- For a store none of whose entries is marked for a snapshot to come at the start: a slice of a running snapshot that is as long as what is left ends it, whatever was changed since
  -- the start: `on_done` gets what a plain snapshot at the start has of each key.
  pub last_slice_delivers :
      (env : Env) (s s₁ s₂ : Store V) (max_keys : ℕ) (job : Job V)
      → IsDict s.entries
      → IsMarked s
      → begin_snapshot env true s ≡ ok s₁
      → Run s₁ s₂
      → s₂.snapshot_job ≡ some job
      → length job.keys ≤ job.pos + max_keys
      → ((step s₂ max_keys).0 ≡ true) × IsDelivered env s (step s₂ max_keys).1
  last_slice_delivers env s s₁ s₂ max_keys job d marked began run running enough =
      ended env s s₂ max_keys job d
        (run-Phase (Dict.get s.entries) env.now s.done_calls s₁ run
          (begin_snapshot-Phase env s s₁ marked began))
        running enough

  clear-running :
      (s : Store V) (job : Job V)
      → s.snapshot_job ≡ some job
      → clear s ≡ emptied (step s (length job.keys - job.pos)).1
  unfolding clear
  clear-running s job running =
      ap {A = Option (Job V)} {B = Store V}
        (λ o. elim o [ none ↦ emptied s | some j ↦ emptied (step s (length j.keys - j.pos)).1 ])
        running

  -- The invariants hold of an empty store whatever they were before.
  pub emptied-IsConsistent : (s : Store V) → IsConsistent (emptied s)
  unfolding KeySet.contains Dict.get
  emptied-IsConsistent s = record {
    is_dict = tt;
    volatile_valid = Invariant.empty-IsValid;
    volatile_ttl = λ k. refl;
    memory = refl;
    tracking = clear-IsTracking (Entry V) s.eviction;
  }

  -- A FLUSHALL during a snapshot delivers the snapshot whole, whatever was changed since its start,
  -- and leaves a store with the invariants, without a key or a deadline, and with no memory
  -- accounted for.
  pub clear_delivers :
      (env : Env) (s s₁ s₂ : Store V) (job : Job V)
      → IsDict s.entries
      → IsMarked s
      → begin_snapshot env true s ≡ ok s₁
      → Run s₁ s₂
      → s₂.snapshot_job ≡ some job
      → IsDelivered env s (clear s₂)
        × IsConsistent (clear s₂)
        × ((clear s₂).entries ≡ [])
        × ((clear s₂).used_memory ≡ pos 0)
        × ((clear s₂).volatile.items ≡ [])
  unfolding clear
  clear_delivers env s s₁ s₂ job d marked began run running =
      let n = length job.keys - job.pos in
      let (_, all) =
        last_slice_delivers env s s₁ s₂ n job d marked began run running (omega arith) in
      subst
        (λ r.
          IsDelivered env s r
          × IsConsistent r
          × (r.entries ≡ [])
          × (r.used_memory ≡ pos 0)
          × (r.volatile.items ≡ []))
        (sym (clear-running s₂ job running))
        (all, emptied-IsConsistent (step s₂ n).1, refl, refl, refl)

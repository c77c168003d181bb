-- ===== src/Store/Snapshot/Copying.antt =====
-- What the barrier and the slices of the incremental snapshot of engine/store.py keep: what is recorded
-- of a key and what is still to be recorded of it are the key as it was at the start.
use redis_like_data_storage.Prelude.{
  ℕ, ◌≤◌, String, Option, none, some, List, [], ◌∷◌, ◌++◌, Bool, true, false, not, if◌then◌else◌,
  length, drop, ◌≡◌, refl, arith, Option-cases, Bool-cases, inl, inr, ap, sym, ◌∙◌, ◌==◌, is_in,
  subst,
}
use mathlib.Core.List.{append-nil}
use redis_like_data_storage.Dict
use redis_like_data_storage.Dict.{Dict, IsDict}
use redis_like_data_storage.Dict.Laws.{get-put}
use redis_like_data_storage.Store.{
  Entry, Job, Store, is_expired, take_record, stamped, copy_once, snapshot_barrier,
}
use redis_like_data_storage.Store.Snapshot.{copy_slice}
use redis_like_data_storage.Store.Snapshot.Records.{
  records_of, taken, records_of-append, records_of-taken,
}

module _ {V : Type 0} where
  -- An entry that the snapshot has yet to account for.
  abbrev pub is_pending : ℕ → Option (Entry V) → Bool
  is_pending epoch none = false
  is_pending epoch (some e) = not (e.copied == epoch)

  -- What is recorded of a key and what is still to be recorded of it are what the key was at first,
  -- `o`; and what is still to be recorded lies ahead.
  pub record IsCopying (o : String → Option (Entry V)) (s : Store V) (job : Job V) : Type 0 where
    pub running : s.snapshot_job ≡ some job
    pub epoch : job.epoch ≡ s.snapshot_epoch
    pub pos_le : job.pos ≤ length job.keys
    pub balance :
        (k : String)
        → records_of k job.records
            ++ (if is_pending job.epoch (Dict.get s.entries k)
                then taken job.started_at k (Dict.get s.entries k)
                else [])
          ≡ taken job.started_at k (o k)
    pub ahead :
        (k : String)
        → is_pending job.epoch (Dict.get s.entries k) ≡ true
        → is_in (drop job.pos job.keys) k ≡ true

  -- What the barrier for `key` leaves of the job and of the entries that are pending.
  pub record IsBarrier (o : String → Option (Entry V)) (s : Store V) (job : Job V)
      (gone : String → Bool) (s' : Store V) (job' : Job V) : Type 0 where
    pub copying : IsCopying o s' job'
    pub keys : job'.keys ≡ job.keys
    pub pos : job'.pos ≡ job.pos
    pub on_done : job'.on_done ≡ job.on_done
    pub started_at : job'.started_at ≡ job.started_at
    pub calls : s'.done_calls ≡ s.done_calls
    pub pending :
        (k : String)
        → is_pending job'.epoch (Dict.get s'.entries k)
          ≡ (if gone k then false else is_pending job.epoch (Dict.get s.entries k))

  -- `take` appends what is recorded of the entry.
  take_record-eq :
      (job : Job V) (key : String) (e : Entry V)
      → take_record job key e
        ≡ record job { records = job.records ++ taken job.started_at key (some e) }
  unfolding take_record taken
  take_record-eq job key e = elim (Bool-cases (is_expired e job.started_at)) [
    | inl old ↦
        rw (old, take_record, taken)
          (ap (λ rs. record job { records = rs }) (sym (append-nil job.records)))
    | inr live ↦ rw (live, take_record, taken)
  ]

  -- The keyspace with an entry stamped, and its record in the job.
  abbrev copied : Store V → Job V → String → Entry V → Store V
  copied s job key e = record s {
    entries = Dict.put s.entries key (stamped job e);
    snapshot_job = some (record job { records = job.records ++ taken job.started_at key (some e) });
  }

  copied-IsBarrier :
      (o : String → Option (Entry V)) (s : Store V) (job : Job V) (key : String) (e : Entry V)
      → Dict.get s.entries key ≡ some e
      → is_pending job.epoch (some e) ≡ true
      → IsCopying o s job
      → IsBarrier o s job
          (is_in (key ∷ []))
          (copied s job key e)
          (record job { records = job.records ++ taken job.started_at key (some e) })
  copied-IsBarrier o s job key e found pending c = record {
    copying = record {
      running = refl;
      epoch = c.epoch;
      pos_le = c.pos_le;
      balance = λ k.
          let news = taken job.started_at key (some e) in
          ground (
            arith,
            records_of-append k job.records news,
            records_of-taken job.started_at key k (some e),
            get-put s.entries key k (stamped job e),
            c.balance k,
            append-nil (records_of k job.records),
            append-nil (records_of k job.records ++ news),
          );
      ahead = λ k h. ground (arith, get-put s.entries key k (stamped job e), c.ahead k);
    };
    keys = refl;
    pos = refl;
    on_done = refl;
    started_at = refl;
    calls = refl;
    pending = λ k. unfold is_in in ground (arith, get-put s.entries key k (stamped job e));
  }

  untouched-IsBarrier :
      (o : String → Option (Entry V)) (s : Store V) (job : Job V) (key : String)
      → is_pending job.epoch (Dict.get s.entries key) ≡ false
      → IsCopying o s job
      → IsBarrier o s job (is_in (key ∷ [])) s job
  untouched-IsBarrier o s job key settled c = record {
    copying = c;
    keys = refl;
    pos = refl;
    on_done = refl;
    started_at = refl;
    calls = refl;
    pending = λ k. unfold is_in in ground arith;
  }

  abbrev pub Barred :
      (String → Option (Entry V)) → Store V → Job V → (String → Bool) → Store V → Type 0
  Barred o s job gone s' = (job' : Job V) × IsBarrier o s job gone s' job'

  copy_once-IsBarrier :
      (o : String → Option (Entry V)) (s : Store V) (job : Job V) (key : String)
      → IsCopying o s job
      → Barred o s job (is_in (key ∷ [])) (copy_once s job key)
  unfolding copy_once
  copy_once-IsBarrier o s job key c = elim (Option-cases (Dict.get s.entries key)) [
    | inl absent ↦ rw (absent, copy_once) (job, untouched-IsBarrier o s job key (ground arith) c)
    | inr (e, found) ↦ elim (Bool-cases (e.copied == job.epoch)) [
      | inl done ↦
          rw (found, copy_once, done) (job, untouched-IsBarrier o s job key (ground arith) c)
      | inr new ↦
          rw (found, copy_once, new, take_record-eq job key e)
            (
              record job { records = job.records ++ taken job.started_at key (some e) },
              copied-IsBarrier o s job key e found (ground arith) c,
            )
    ]
  ]

  snapshot_barrier-running :
      (s : Store V) (job : Job V) (key : String)
      → s.snapshot_job ≡ some job
      → snapshot_barrier s key ≡ copy_once s job key
  unfolding snapshot_barrier
  snapshot_barrier-running s job key running =
      ap {A = Option (Job V)} {B = Store V} (λ o. elim o [ none ↦ s | some j ↦ copy_once s j key ])
        running

  pub snapshot_barrier-idle :
      (s : Store V) (key : String) → s.snapshot_job ≡ none → snapshot_barrier s key ≡ s
  unfolding snapshot_barrier
  snapshot_barrier-idle s key idle =
      ap {A = Option (Job V)} {B = Store V} (λ o. elim o [ none ↦ s | some j ↦ copy_once s j key ])
        idle

  pub snapshot_barrier-IsBarrier :
      (o : String → Option (Entry V)) (s : Store V) (job : Job V) (key : String)
      → IsCopying o s job
      → Barred o s job (is_in (key ∷ [])) (snapshot_barrier s key)
  snapshot_barrier-IsBarrier o s job key c =
      subst (Barred o s job (is_in (key ∷ []))) (sym (snapshot_barrier-running s job key c.running))
        (copy_once-IsBarrier o s job key c)

  pub copy_slice-IsBarrier :
      (o : String → Option (Entry V)) (s : Store V) (job : Job V) (xs : List String)
      → IsCopying o s job
      → Barred o s job (is_in xs) (copy_slice s xs)
  unfolding copy_slice is_in
  copy_slice-IsBarrier o s job [] c = (
    job,
    record {
      copying = c;
      keys = refl;
      pos = refl;
      on_done = refl;
      started_at = refl;
      calls = refl;
      pending = λ k. refl;
    },
  )
  copy_slice-IsBarrier o s job (key ∷ keys) c =
      let (job₁, b) = snapshot_barrier-IsBarrier o s job key c in
      let (job₂, d) = copy_slice-IsBarrier o (snapshot_barrier s key) job₁ keys b.copying in
      (
        job₂,
        record {
          copying = d.copying;
          keys = d.keys ∙ b.keys;
          pos = d.pos ∙ b.pos;
          on_done = d.on_done ∙ b.on_done;
          started_at = d.started_at ∙ b.started_at;
          calls = d.calls ∙ b.calls;
          pending = λ k. ground (arith, d.pending k, b.pending k);
        },
      )

-- ===== src/Store/Snapshot/Marks.antt =====
-- The marks of the entries of engine/store.py: no entry is marked for a snapshot to come, so that the next
-- snapshot has every entry before it.
use redis_like_data_storage.Prelude.{
  ℕ, ◌≤◌, String, Option, none, some, List, [], ◌∷◌, str_discrete, ◌≡◌, refl, arith, Option-cases,
  Bool-cases, inl, inr, ap, sym, ◌∙◌, ◌==◌, leb, length, subst,
}
use redis_like_data_storage.Dict
use redis_like_data_storage.Dict.Laws.{get-put}
use redis_like_data_storage.Store.{
  Entry, Job, Store, is_expired, take_record, stamped, copy_once, snapshot_barrier,
}
use redis_like_data_storage.Store.Snapshot.{
  copy_slice, finish_slice, end_slice, slice_keys, slice_end, step,
}
use redis_like_data_storage.Store.Snapshot.Slices.{step-running, end_slice-running}
use redis_like_data_storage.Store.Snapshot.Changes.{IsChange}

module _ {V : Type 0} where
  -- No entry is marked for a snapshot to come, and a running one is the last that began.
  pub record IsMarked (s : Store V) : Type 0 where
    pub past :
        (k : String) (e : Entry V) → Dict.get s.entries k ≡ some e → e.copied ≤ s.snapshot_epoch
    pub last : (job : Job V) → s.snapshot_job ≡ some job → job.epoch ≡ s.snapshot_epoch

  abbrev epoch_of : Option (Job V) → ℕ
  epoch_of none = 0
  epoch_of (some job) = job.epoch

  epoch-take_record :
      (job : Job V) (key : String) (e : Entry V) → (take_record job key e).epoch ≡ job.epoch
  unfolding take_record
  epoch-take_record job key e = elim (Bool-cases (is_expired e job.started_at)) [
    | inl old ↦ rw (old, take_record)
    | inr live ↦ rw (live, take_record)
  ]

  copy_once-IsMarked :
      (s : Store V) (job : Job V) (key : String)
      → job.epoch ≡ s.snapshot_epoch
      → IsMarked s
      → IsMarked (copy_once s job key)
  unfolding copy_once
  copy_once-IsMarked s job key now m = elim (Option-cases (Dict.get s.entries key)) [
    | inl absent ↦ rw (absent, copy_once) m
    | inr (e, found) ↦ elim (Bool-cases (e.copied == job.epoch)) [
      | inl done ↦ rw (found, copy_once, done) m
      | inr new ↦
          rw (found, copy_once, new)
            (record {
              past = λ k x h. ground (arith, get-put s.entries key k (stamped job e), m.past k x);
              last = λ j h. cc (ap epoch_of h, epoch-take_record job key e, now);
            })
    ]
  ]

  pub snapshot_barrier-IsMarked :
      (s : Store V) (key : String) → IsMarked s → IsMarked (snapshot_barrier s key)
  unfolding snapshot_barrier
  snapshot_barrier-IsMarked s key m = go s.snapshot_job (λ job h. m.last job h)
    where
      go :
          (o : Option (Job V))
          → ((job : Job V) → o ≡ some job → job.epoch ≡ s.snapshot_epoch)
          → IsMarked (elim o [ none ↦ s | some job ↦ copy_once s job key ])
      go none last = m
      go (some job) last = copy_once-IsMarked s job key (last job refl) m

  copy_slice-IsMarked : (s : Store V) (xs : List String) → IsMarked s → IsMarked (copy_slice s xs)
  unfolding copy_slice
  copy_slice-IsMarked s [] m = m
  copy_slice-IsMarked s (key ∷ keys) m =
      copy_slice-IsMarked (snapshot_barrier s key) keys (snapshot_barrier-IsMarked s key m)

  finish_slice-IsMarked :
      (s : Store V) (job : Job V) (end : ℕ)
      → job.epoch ≡ s.snapshot_epoch
      → IsMarked s
      → IsMarked (finish_slice s job end).1
  unfolding finish_slice
  finish_slice-IsMarked s job end now m = elim (Bool-cases (leb (length job.keys) end)) [
    | inl done ↦ rw (done, finish_slice) (record { past = m.past; last = λ j h. cc })
    | inr more ↦
        rw (more, finish_slice) (record { past = m.past; last = λ j h. cc (ap epoch_of h, now) })
  ]

  end_slice-IsMarked : (s : Store V) (end : ℕ) → IsMarked s → IsMarked (end_slice s end).1
  unfolding end_slice
  end_slice-IsMarked s end m = elim (Option-cases s.snapshot_job) [
    | inl idle ↦ rw (idle, end_slice) m
    | inr (job, running) ↦
        subst (λ r. IsMarked r.1) (sym (end_slice-running s job end running))
          (finish_slice-IsMarked s job end (m.last job running) m)
  ]

  pub step-IsMarked : (s : Store V) (max_keys : ℕ) → IsMarked s → IsMarked (step s max_keys).1
  unfolding step
  step-IsMarked s max_keys m = elim (Option-cases s.snapshot_job) [
    | inl idle ↦ rw (idle, step) m
    | inr (job, running) ↦
        subst (λ r. IsMarked r.1) (sym (step-running s job max_keys running))
          (end_slice-IsMarked (copy_slice s (slice_keys job max_keys)) (slice_end job max_keys)
            (copy_slice-IsMarked s (slice_keys job max_keys) m))
  ]

  pub change-IsMarked :
      (s s' : Store V) (key : String) → IsChange s key s' → IsMarked s → IsMarked s'
  change-IsMarked s s' key x m =
      let b = snapshot_barrier-IsMarked s key m in
      record {
        past = λ k e h. elim (str_discrete key k) [
          | yes same ↦
              ground (arith, x.marked e (ap (λ i. Dict.get s'.entries i) same ∙ h), x.epoch)
          | no apart ↦ ground (arith, b.past k e (sym (x.others k apart) ∙ h), x.epoch)
        ];
        last = λ job h. b.last job (sym x.job ∙ h) ∙ sym x.epoch;
      }

-- ===== src/Store/Snapshot/Slices.antt =====
-- A slice of the incremental snapshot of engine/store.py either leaves it under way or ends it with the
-- right records.
use redis_like_data_storage.Prelude.{
  ℕ, ◌+◌, ◌-◌, ◌≤◌, String, Option, none, some, List, [], ◌∷◌, ◌++◌, Bool, true, false, leb,
  if◌then◌else◌, length, take, drop, take-append-drop, ◌≡◌, ◌⊎◌, refl, arith, Bool-cases, inl, inr,
  ap, sym, ◌∙◌, is_in, is_in-append, subst, length-drop, drop-drop, take_all,
}
use mathlib.Core.List.{append-nil}
use redis_like_data_storage.Dict
use redis_like_data_storage.Dict.{Dict, IsDict, has}
use redis_like_data_storage.Store.{Entry, Record, Job, Store}
use redis_like_data_storage.Store.Snapshot.{
  copy_slice, finish_slice, end_slice, slice_keys, slice_end, step,
}
use redis_like_data_storage.Store.Snapshot.Copying.{
  is_pending, IsCopying, IsBarrier, copy_slice-IsBarrier,
}
use redis_like_data_storage.Store.Snapshot.Records.{records_of, taken}

module _ {V : Type 0} where
  -- A slice that ends before the keys do.
  pub paused-IsCopying :
      (o : String → Option (Entry V)) (s s' : Store V) (job job' : Job V) (n end : ℕ)
      → job.pos + n ≡ end
      → end ≤ length job.keys
      → IsCopying o s job
      → IsBarrier o s job (is_in (take n (drop job.pos job.keys))) s' job'
      → IsCopying o
          (record s' { snapshot_job = some (record job' { pos = end }) })
          (record job' { pos = end })
  paused-IsCopying o s s' job job' n end e fits c b = record {
    running = refl;
    epoch = b.copying.epoch;
    pos_le = rw b.keys fits;
    balance = b.copying.balance;
    ahead = λ k h.
        let left = drop job.pos job.keys in
        rw b.keys (
          ground (
            arith,
            b.pending k,
            c.ahead k,
            is_in-append (take n left) (drop n left) k,
            ap (λ xs. is_in xs k) (take-append-drop n left),
            ap (λ xs. is_in xs k) (drop-drop n job.pos end job.keys e),
            h,
          ));
  }

  -- A slice up to the end of the keys leaves nothing pending.
  settled_records :
      (o : String → Option (Entry V)) (s s' : Store V) (job job' : Job V) (n : ℕ)
      → length job.keys ≤ job.pos + n
      → IsCopying o s job
      → IsBarrier o s job (is_in (take n (drop job.pos job.keys))) s' job'
      → (k : String) → records_of k job'.records ≡ taken job.started_at k (o k)
  settled_records o s s' job job' n ends c b k =
      let left = drop job.pos job.keys in
      let settled : is_pending job'.epoch (Dict.get s'.entries k) ≡ false = ground (
        arith,
        b.pending k,
        c.ahead k,
        ap (λ xs. is_in xs k) (take_all n left (omega (arith, length-drop job.pos job.keys, ends))),
      ) in
      sym (append-nil (records_of k job'.records))
      ∙ ap
          (λ p.
            records_of k job'.records
            ++ (if p then taken job'.started_at k (Dict.get s'.entries k) else []))
          (sym settled)
      ∙ b.copying.balance k
      ∙ ap (λ t. taken t k (o k)) b.started_at

  -- A snapshot under way since `t`, with no call of `on_done` beyond `calls`; or finished, with one
  -- call, of records that are the keyspace `o` as it was at `t`.
  abbrev pub Phase : (String → Option (Entry V)) → ℕ → List (List (Record V)) → Store V → Type 0
  Phase o t calls s =
      ((job : Job V) × IsCopying o s job
        × (job.on_done ≡ true)
        × (job.started_at ≡ t)
        × (s.done_calls ≡ calls))
      ⊎ ((s.snapshot_job ≡ none)
          × ((records : List (Record V)) × (s.done_calls ≡ calls ++ records ∷ [])
              × ((k : String) → records_of k records ≡ taken t k (o k))))

  pub step-running :
      (s : Store V) (job : Job V) (max_keys : ℕ)
      → s.snapshot_job ≡ some job
      → step s max_keys
        ≡ end_slice (copy_slice s (slice_keys job max_keys)) (slice_end job max_keys)
  unfolding step
  step-running s job max_keys running =
      ap {A = Option (Job V)} {B = Bool × Store V}
        (λ o. elim o [
          | none ↦ (true, s)
          | some j ↦ end_slice (copy_slice s (slice_keys j max_keys)) (slice_end j max_keys)
        ])
        running

  pub end_slice-running :
      (s : Store V) (job : Job V) (end : ℕ)
      → s.snapshot_job ≡ some job
      → end_slice s end ≡ finish_slice s job end
  unfolding end_slice
  end_slice-running s job end running =
      ap {A = Option (Job V)} {B = Bool × Store V}
        (λ o. elim o [ none ↦ (true, s) | some j ↦ finish_slice s j end ]) running

  finish_slice-Phase :
      (o : String → Option (Entry V)) (t : ℕ) (calls : List (List (Record V))) (s s' : Store V)
      (job job' : Job V) (n end : ℕ)
      → job.pos + n ≡ end
      → end ≤ length job.keys
      → IsCopying o s job
      → IsBarrier o s job (is_in (take n (drop job.pos job.keys))) s' job'
      → job.on_done ≡ true
      → job.started_at ≡ t
      → s.done_calls ≡ calls
      → Phase o t calls (finish_slice s' job' end).1
  unfolding finish_slice
  finish_slice-Phase o t calls s s' job job' n end e fits c b reports began called =
      elim (Bool-cases (leb (length job'.keys) end)) [
        | inl done ↦
            rw (done, finish_slice)
              (inr (
                refl,
                (
                  job'.records,
                  ground (arith, b.on_done, b.calls),
                  λ k.
                      settled_records o s s' job job' n (ground (arith, b.keys)) c b k
                      ∙ ap (λ i. taken i k (o k)) began,
                ),
              ))
        | inr more ↦
            rw (more, finish_slice)
              (inl (
                record job' { pos = end },
                paused-IsCopying o s s' job job' n end e fits c b,
                b.on_done ∙ reports,
                b.started_at ∙ began,
                b.calls ∙ called,
              ))
      ]

  pub step-Phase :
      (o : String → Option (Entry V)) (t : ℕ) (calls : List (List (Record V))) (s : Store V)
      (max_keys : ℕ)
      → Phase o t calls s
      → Phase o t calls (step s max_keys).1
  unfolding step
  step-Phase o t calls s max_keys (inl (job, c, reports, began, called)) =
      let xs = slice_keys job max_keys in
      let end = slice_end job max_keys in
      let (job', b) = copy_slice-IsBarrier o s job xs c in
      subst (λ r. Phase o t calls r.1)
        (sym (
          step-running s job max_keys c.running
          ∙ end_slice-running (copy_slice s xs) job' end b.copying.running))
        (finish_slice-Phase o t calls s (copy_slice s xs) job job' (end - job.pos) end
          (omega (arith, c.pos_le)) (omega arith) c b reports began called)
  step-Phase o t calls s max_keys (inr (idle, after)) = rw (idle, step) (inr (idle, after))

  -- A slice as long as what is left ends the snapshot.
  pub step_ends :
      (o : String → Option (Entry V)) (s : Store V) (job : Job V) (max_keys : ℕ)
      → IsCopying o s job
      → length job.keys ≤ job.pos + max_keys
      → ((step s max_keys).0 ≡ true) × ((step s max_keys).1.snapshot_job ≡ none)
  unfolding finish_slice
  step_ends o s job max_keys c enough =
      let xs = slice_keys job max_keys in
      let end = slice_end job max_keys in
      let (job', b) = copy_slice-IsBarrier o s job xs c in
      let done : leb (length job'.keys) end ≡ true = rw b.keys (ground arith) in
      subst (λ r. (r.0 ≡ true) × (r.1.snapshot_job ≡ none))
        (sym (
          step-running s job max_keys c.running
          ∙ end_slice-running (copy_slice s xs) job' end b.copying.running))
        (rw (done, finish_slice) (refl, refl))

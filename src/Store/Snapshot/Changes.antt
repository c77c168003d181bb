-- ===== src/Store/Snapshot/Changes.antt =====
-- A change of a key under the barrier of engine/store.py leaves a running snapshot right.
use redis_like_data_storage.Prelude.{
  ℕ, String, Option, some, List, [], ◌∷◌, true, false, str_discrete, ◌≡◌, arith, Option-cases, inl,
  inr, ap, sym, ◌∙◌, is_in, subst, ◌≢◌,
}
use redis_like_data_storage.Dict
use redis_like_data_storage.Dict.{Dict, IsDict, has}
use redis_like_data_storage.Store.{Entry, Record, Job, Store, snapshot_barrier}
use redis_like_data_storage.Store.Snapshot.Copying.{
  snapshot_barrier-idle, is_pending, IsCopying, IsBarrier, snapshot_barrier-IsBarrier,
}
use redis_like_data_storage.Store.Snapshot.Slices.{Phase}

module _ {V : Type 0} where
  -- A command's change of one key under the barrier: what stands at the key afterwards is not part of
  -- a running snapshot, and no other key changes.
  pub record IsChange (s : Store V) (key : String) (s' : Store V) : Type 0 where
    pub others :
        (k : String) → key ≢ k → Dict.get s'.entries k ≡ Dict.get (snapshot_barrier s key).entries k
    pub marked :
        (e : Entry V)
        → Dict.get s'.entries key ≡ some e
        → e.copied ≡ (snapshot_barrier s key).snapshot_epoch
    pub job : s'.snapshot_job ≡ (snapshot_barrier s key).snapshot_job
    pub epoch : s'.snapshot_epoch ≡ (snapshot_barrier s key).snapshot_epoch
    pub calls : s'.done_calls ≡ (snapshot_barrier s key).done_calls

  changed_settled :
      (s s' : Store V) (key : String) (epoch : ℕ)
      → IsChange s key s'
      → epoch ≡ (snapshot_barrier s key).snapshot_epoch
      → is_pending epoch (Dict.get s'.entries key) ≡ false
  changed_settled s s' key epoch x e = elim (Option-cases (Dict.get s'.entries key)) [
    | inl absent ↦ ground arith
    | inr (entry, found) ↦ ground (arith, x.marked entry found)
  ]

  changed-IsCopying :
      (o : String → Option (Entry V)) (s s' : Store V) (key : String) (job job' : Job V)
      → IsChange s key s'
      → IsBarrier o s job (is_in (key ∷ [])) (snapshot_barrier s key) job'
      → IsCopying o s' job'
  changed-IsCopying o s s' key job job' x b =
      let settled = changed_settled s s' key job'.epoch x b.copying.epoch in
      let before : is_pending job'.epoch (Dict.get (snapshot_barrier s key).entries key) ≡ false =
        unfold is_in in ground (arith, b.pending key) in
      record {
        running = x.job ∙ b.copying.running;
        epoch = b.copying.epoch ∙ sym x.epoch;
        pos_le = b.copying.pos_le;
        balance = λ k. elim (str_discrete key k) [
          | no e ↦ rw (x.others k e) (b.copying.balance k)
          | yes e ↦ ground (arith, settled, before, b.copying.balance key, e)
        ];
        ahead = λ k h. elim (str_discrete key k) [
          | no e ↦ b.copying.ahead k (subst (λ d. is_pending job'.epoch d ≡ true) (x.others k e) h)
          | yes e ↦ absurd (ground (arith, settled, e, h))
        ];
      }

  pub change-Phase :
      (o : String → Option (Entry V)) (t : ℕ) (calls : List (List (Record V))) (s s' : Store V)
      (key : String)
      → IsChange s key s'
      → Phase o t calls s
      → Phase o t calls s'
  unfolding snapshot_barrier
  change-Phase o t calls s s' key x (inl (job, c, reports, began, called)) =
      let (job', b) = snapshot_barrier-IsBarrier o s job key c in
      inl (
        job',
        changed-IsCopying o s s' key job job' x b,
        b.on_done ∙ reports,
        b.started_at ∙ began,
        x.calls ∙ b.calls ∙ called,
      )
  change-Phase o t calls s s' key x (inr (idle, (records, called, all))) =
      let unbarred : snapshot_barrier s key ≡ s = snapshot_barrier-idle s key idle in
      inr (
        x.job ∙ ap (λ r. r.snapshot_job) unbarred ∙ idle,
        (records, x.calls ∙ ap (λ r. r.done_calls) unbarred ∙ called, all),
      )

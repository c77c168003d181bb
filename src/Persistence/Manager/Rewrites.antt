-- ===== src/Persistence/Manager/Rewrites.antt =====
-- engine/persistence/manager.py: a rewrite that begins and writes its snapshot keeps the files such that
-- they rebuild the keyspace.
use redis_like_data_storage.Prelude.{
  ℕ, suc, ◌≡◌, refl, sym, ap, subst, ◌∙◌, Option, none, some, List, [], ◌∷◌, ◌++◌, Bool, true,
  false, arith,
}
use redis_like_data_storage.Protocol.Requests.{Command}
use redis_like_data_storage.Persistence.Manager.{
  RewriteJob, Persistence, lists_snapshot, update, logged, any_torn, replay, perform, perform_all,
  switch_aof, rewrite_in_progress, hand_over, write_job, finish_copy, write_snapshot,
}
use redis_like_data_storage.Persistence.Manager.Safe.{
  AllBelow, IsCopy, IsSafe, all_recovered, update_at, some_same, base-update,
}

module _ {S : Type 0} (apply : S → Command → S) (empty : S) where
  -- No rewrite is under way where one begins.
  pub idle :
      (p : Persistence S) → rewrite_in_progress p ≡ false → (p.job ≡ none) × (p.copying ≡ none)
  idle p h = ground arith

  pub AllBelow-later : (n : ℕ) (gs : List ℕ) → AllBelow n gs → AllBelow (suc n) (gs ++ n ∷ [])
  AllBelow-later n [] h = (omega arith, tt)
  AllBelow-later n (g ∷ gs) h = (omega (arith, h.0), AllBelow-later n gs h.1)

  any_torn-one_more :
      (torn : ℕ → Bool) (gs : List ℕ) (g : ℕ)
      → any_torn torn gs ≡ false
      → torn g ≡ false
      → any_torn torn (gs ++ g ∷ []) ≡ false
  unfolding any_torn
  any_torn-one_more torn [] g h e = ground arith
  any_torn-one_more torn (x ∷ gs) g h e = ground (arith, any_torn-one_more torn gs g)

  pub switch_aof-IsSafe :
      (p : Persistence S)
      → IsSafe apply empty p
      → rewrite_in_progress p ≡ false
      → p.dirty ≡ false
      → IsSafe apply empty (switch_aof p)
  unfolding switch_aof perform_all perform
  switch_aof-IsSafe p h free settled =
      let m = p.directory.manifest in
      let aofs = p.directory.aofs in
      let (no_job, no_copy) = idle p free in
      let (no_buffer, untorn) = h.clean settled in
      let new : aofs (suc m.last) ≡ [] = h.fresh_aofs (suc m.last) (omega arith) in
      record {
        current = refl;
        sorted = AllBelow-later m.last m.older h.sorted;
        fresh_aofs = λ g l. h.fresh_aofs g (omega arith);
        fresh_snapshots = λ g l. h.fresh_snapshots g (omega arith);
        start = h.start;
        based = h.based;
        rebuilt =
            ap
              (λ l.
                replay apply
                  (replay apply (replay apply h.start (logged aofs (m.older ++ m.last ∷ []))) l)
                  p.buffered)
              new
            ∙ ap (λ u. replay apply u p.buffered) (all_recovered apply empty h.start p.directory)
            ∙ h.rebuilt;
        whole =
            any_torn-one_more p.directory.torn m.older m.last h.whole
              (ap p.directory.torn (sym h.current) ∙ untorn);
        clean = λ e. (no_buffer, h.fresh_torn (suc m.last) (omega arith));
        fresh_torn = λ g l. h.fresh_torn g (omega arith);
        copies = λ g s e.
            let at_last : g ≡ suc m.last = cc in
            let same : s ≡ p.keyspace = cc in
            (
              at_last,
              ap (λ n. replay apply (replay apply s (aofs n)) p.buffered) at_last
                  ∙ ap (λ l. replay apply (replay apply s l) p.buffered) new
                  ∙ ap (replay apply s) no_buffer
                  ∙ same,
              ap (lists_snapshot m) at_last ∙ h.fresh_snapshots (suc m.last) (omega arith),
            );
        jobs = λ j e. absurd (ground (arith, no_job));
        alone = λ j e. absurd (ground (arith, no_job));
        written = λ j e. absurd (ground (arith, no_job));
      }

  pub hand_over-IsSafe :
      (o : Option (ℕ × S)) (p : Persistence S)
      → p.copying ≡ o
      → IsSafe apply empty p
      → IsSafe apply empty (hand_over o p)
  unfolding hand_over
  hand_over-IsSafe none p e h = h
  hand_over-IsSafe (some (g, s)) p e h = record {
    current = h.current;
    sorted = h.sorted;
    fresh_aofs = h.fresh_aofs;
    fresh_snapshots = h.fresh_snapshots;
    start = h.start;
    based = h.based;
    rebuilt = h.rebuilt;
    whole = h.whole;
    clean = h.clean;
    fresh_torn = h.fresh_torn;
    copies = λ g' s' e'. absurd (ground arith);
    jobs = λ j f. copied j f (h.copies g s e);
    alone = λ j f. refl;
    written = λ j f r. absurd (ground arith);
  }
    where
      copied :
          (j : RewriteJob S)
          → (hand_over (some (g, s)) p).job ≡ some j
          → IsCopy apply empty p g s
          → IsCopy apply empty p j.snapshot j.records
      copied j f k =
          subst (λ (i : RewriteJob S). IsCopy apply empty p i.snapshot i.records)
            (some_same apply empty (record { snapshot = g; records = s; result = none }) j f) k

  pub finish_copy-IsSafe :
      (p : Persistence S) → IsSafe apply empty p → IsSafe apply empty (finish_copy p)
  unfolding finish_copy
  finish_copy-IsSafe p h = hand_over-IsSafe p.copying p refl h

  pub write_job-IsSafe :
      (works : Bool) (job : RewriteJob S) (o : Option Bool) (p : Persistence S)
      → p.job ≡ some job
      → IsSafe apply empty p
      → IsSafe apply empty (write_job works job o p)
  unfolding write_job
  write_job-IsSafe works job (some r) p e h = h
  write_job-IsSafe true job none p e h = record {
    current = h.current;
    sorted = h.sorted;
    fresh_aofs = h.fresh_aofs;
    fresh_snapshots = h.fresh_snapshots;
    start = h.start;
    based = base-update apply empty p.directory job.snapshot job.records (h.jobs job e).2 ∙ h.based;
    rebuilt = h.rebuilt;
    whole = h.whole;
    clean = h.clean;
    fresh_torn = h.fresh_torn;
    copies = h.copies;
    jobs = λ j f.
        subst (λ (i : RewriteJob S). IsCopy apply empty p i.snapshot i.records)
          (some_same apply empty (record job { result = some true }) j f) (h.jobs job e);
    alone = λ j f. h.alone job e;
    written = λ j f r.
        subst
          (λ (i : RewriteJob S).
            update p.directory.snapshots job.snapshot (some job.records) i.snapshot
            ≡ some i.records)
          (some_same apply empty (record job { result = some true }) j f)
          (update_at apply empty p.directory.snapshots job.snapshot job.snapshot (some job.records)
            refl);
  }
  write_job-IsSafe false job none p e h = record {
    current = h.current;
    sorted = h.sorted;
    fresh_aofs = h.fresh_aofs;
    fresh_snapshots = h.fresh_snapshots;
    start = h.start;
    based = h.based;
    rebuilt = h.rebuilt;
    whole = h.whole;
    clean = h.clean;
    fresh_torn = h.fresh_torn;
    copies = h.copies;
    jobs = λ j f.
        subst (λ (i : RewriteJob S). IsCopy apply empty p i.snapshot i.records)
          (some_same apply empty (record job { result = some false }) j f) (h.jobs job e);
    alone = λ j f. h.alone job e;
    written = λ j f r. absurd (ground arith);
  }

  pub write_snapshot-IsSafe :
      (works : Bool) (p : Persistence S)
      → IsSafe apply empty p
      → IsSafe apply empty (write_snapshot works p)
  unfolding write_snapshot
  write_snapshot-IsSafe works p h = go p.job refl
    where
      go :
          (o : Option (RewriteJob S))
          → p.job ≡ o
          → IsSafe apply empty (elim o [ none ↦ p | some job ↦ write_job works job job.result p ])
      go none e = h
      go (some job) e = write_job-IsSafe works job job.result p e h

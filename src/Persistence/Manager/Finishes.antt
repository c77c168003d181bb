-- ===== src/Persistence/Manager/Finishes.antt =====
-- engine/persistence/manager.py: the end of a rewrite keeps the files such that they rebuild the keyspace.
use redis_like_data_storage.Prelude.{
  ℕ, suc, ◌≡◌, refl, sym, ap, ◌∙◌, Option, none, some, List, Bool, true, false, if◌then◌else◌,
  arith, take,
}
use redis_like_data_storage.Protocol.Requests.{Command}
use redis_like_data_storage.Persistence.Manager.{
  Name, RewriteJob, Persistence, logged, any_torn, replay, perform, perform_all, delete_ops,
  finished, finish_ops, is_closing, finish_job, poll, commit_rewrite, abandon_copy,
}
use redis_like_data_storage.Persistence.Manager.Safe.{IsSafe}
use redis_like_data_storage.Persistence.Manager.Kept.{
  kept-IsSafe, deletes-IsKept, delete_all-IsKept,
}

module _ {S : Type 0} (apply : S → Command → S) (empty : S) where
  -- The manifest of a rewrite that has succeeded is saved.
  abbrev pub saved : ℕ → Persistence S → Persistence S
  saved g p = record p {
    directory = record p.directory { manifest = finished g p.directory.manifest };
    job = none;
  }

  pub saved-IsSafe :
      (job : RewriteJob S) (p : Persistence S)
      → p.job ≡ some job
      → job.result ≡ some true
      → IsSafe apply empty p
      → IsSafe apply empty (saved job.snapshot p)
  unfolding logged any_torn
  saved-IsSafe job p e done h =
      let (at_last, replayed, unused) = h.jobs job e in
      record {
        current = h.current;
        sorted = tt;
        fresh_aofs = h.fresh_aofs;
        fresh_snapshots = λ g l. ground (arith, at_last);
        start = job.records;
        based = h.written job e done;
        rebuilt =
            ap (λ n. replay apply (replay apply job.records (p.directory.aofs n)) p.buffered)
              (sym at_last)
            ∙ replayed;
        whole = refl;
        clean = h.clean;
        fresh_torn = h.fresh_torn;
        copies = λ g s f. absurd (ground (arith, h.alone job e));
        jobs = λ j f. absurd (ground arith);
        alone = λ j f. absurd (ground arith);
        written = λ j f. absurd (ground arith);
      }

  -- Where it is saved, and `n` files are deleted.
  pub deleted-IsSafe :
      (listing : List Name) (n : ℕ) (job : RewriteJob S) (p : Persistence S)
      → p.job ≡ some job
      → job.result ≡ some true
      → IsSafe apply empty p
      → IsSafe apply empty (record (saved job.snapshot p) {
        directory =
            perform_all
              (take n (delete_ops (finished job.snapshot p.directory.manifest) listing))
              (saved job.snapshot p).directory;
      })
  deleted-IsSafe listing n job p e done h =
      kept-IsSafe apply empty (saved job.snapshot p)
        (perform_all (take n (delete_ops (finished job.snapshot p.directory.manifest) listing))
          (saved job.snapshot p).directory)
        (saved-IsSafe job p e done h) refl
        (deletes-IsKept listing (finished job.snapshot p.directory.manifest) n
          (saved job.snapshot p).directory refl)

  pub commit_rewrite-IsSafe :
      (listing : List Name) (job : RewriteJob S) (p : Persistence S)
      → p.job ≡ some job
      → job.result ≡ some true
      → IsSafe apply empty p
      → IsSafe apply empty (commit_rewrite listing job.snapshot (record p { job = none }))
  unfolding commit_rewrite finish_ops perform_all perform
  commit_rewrite-IsSafe listing job p e done h =
      let q = saved job.snapshot p in
      let m = q.directory.manifest in
      counted-IsSafe (
        kept-IsSafe apply empty q (perform_all (delete_ops m listing) q.directory)
          (saved-IsSafe job p e done h) refl (delete_all-IsKept listing m q.directory refl))
    where
      counted-IsSafe :
          {q : Persistence S}
          → IsSafe apply empty q
          → IsSafe apply empty
              (record q { rewrites_completed = suc p.rewrites_completed; last_rewrite_ok = true })
      counted-IsSafe h = record {
        current = h.current;
        sorted = h.sorted;
        fresh_aofs = h.fresh_aofs;
        fresh_snapshots = h.fresh_snapshots;
        start = h.start;
        based = h.based;
        rebuilt = h.rebuilt;
        whole = h.whole;
        clean = h.clean;
        fresh_torn = h.fresh_torn;
        copies = h.copies;
        jobs = h.jobs;
        alone = h.alone;
        written = h.written;
      }

  pub finish_job-IsSafe :
      (listing : List Name) (job : RewriteJob S) (o : Option Bool) (p : Persistence S)
      → p.job ≡ some job
      → job.result ≡ o
      → IsSafe apply empty p
      → IsSafe apply empty (finish_job listing job o p)
  unfolding finish_job
  finish_job-IsSafe listing job none p e r h = h
  finish_job-IsSafe listing job (some true) p e r h = commit_rewrite-IsSafe listing job p e r h
  finish_job-IsSafe listing job (some false) p e r h = record {
    current = h.current;
    sorted = h.sorted;
    fresh_aofs = h.fresh_aofs;
    fresh_snapshots = h.fresh_snapshots;
    start = h.start;
    based = h.based;
    rebuilt = h.rebuilt;
    whole = h.whole;
    clean = h.clean;
    fresh_torn = h.fresh_torn;
    copies = h.copies;
    jobs = λ j f. absurd (ground arith);
    alone = λ j f. absurd (ground arith);
    written = λ j f. absurd (ground arith);
  }

  pub poll-IsSafe :
      (listing : List Name) (p : Persistence S)
      → IsSafe apply empty p
      → IsSafe apply empty (poll listing p)
  unfolding poll
  poll-IsSafe listing p h = go p.job refl
    where
      waits :
          (b : Bool) (q : Persistence S)
          → IsSafe apply empty q
          → IsSafe apply empty (if b then p else q)
      waits true q safe = h
      waits false q safe = safe

      go :
          (o : Option (RewriteJob S))
          → p.job ≡ o
          → IsSafe apply empty (elim o [
            | none ↦ p
            | some job ↦ if is_closing p.closing then p else finish_job listing job job.result p
          ])
      go none e = h
      go (some job) e =
          waits (is_closing p.closing) (finish_job listing job job.result p)
            (finish_job-IsSafe listing job job.result p e refl h)

  pub abandon_copy-IsSafe :
      (p : Persistence S) → IsSafe apply empty p → IsSafe apply empty (abandon_copy p)
  abandon_copy-IsSafe p h = record {
    current = h.current;
    sorted = h.sorted;
    fresh_aofs = h.fresh_aofs;
    fresh_snapshots = h.fresh_snapshots;
    start = h.start;
    based = h.based;
    rebuilt = h.rebuilt;
    whole = h.whole;
    clean = h.clean;
    fresh_torn = h.fresh_torn;
    copies = λ g s e. absurd (ground arith);
    jobs = h.jobs;
    alone = λ j e. refl;
    written = h.written;
  }

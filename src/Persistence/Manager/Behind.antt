-- ===== src/Persistence/Manager/Behind.antt =====
-- engine/persistence/manager.py: what a start finds is the directory of a safe state of the same keyspace.
use redis_like_data_storage.Prelude.{
  ℕ, zero, suc, ◌≡◌, refl, sym, ap, ◌∙◌, none, some, List, [], ◌++◌, Bool, true, false, arith, take,
  drop, take-append-drop,
}
use redis_like_data_storage.Protocol.Requests.{Command}
use redis_like_data_storage.Persistence.Manager.{
  Name, RewriteJob, Directory, Persistence, update, replay, cut, commit, switch_ops, switch_aof,
  rewrite_in_progress, finished, finish_ops, perform, perform_all, delete_ops,
}
use redis_like_data_storage.Persistence.Manager.Safe.{
  before_last, IsSafe, logged-update, any_torn-update, update_at, update_off, replay-append,
}
use redis_like_data_storage.Persistence.Manager.Kept.{
  IsKept, IsKept-trans, cut-IsKept, kept-IsSafe, deletes-IsKept,
}
use redis_like_data_storage.Persistence.Manager.Commits.{
  commit-IsSafe, commit-settles, commit-keeps,
}
use redis_like_data_storage.Persistence.Manager.Rewrites.{switch_aof-IsSafe}
use redis_like_data_storage.Persistence.Manager.Finishes.{saved, deleted-IsSafe}
use redis_like_data_storage.Persistence.Manager.Found.{
  Found, between, in_begin_rewrite, in_finish, powerless, in_load, shortened,
}

module _ {S : Type 0} (apply : S → Command → S) (empty : S) where
  -- A safe state that has the directory `d`, and would have `lost` in its buffer.
  pub record IsBehind (p : Persistence S) (d : Directory S) (lost : List Command) : Type 0 where
    pub state : Persistence S
    pub safe : IsSafe apply empty state
    pub directory : state.directory ≡ d
    pub buffered : state.buffered ≡ lost
    pub keyspace : state.keyspace ≡ p.keyspace

  -- Without the rewrite, and with something to commit.
  forgotten-IsSafe :
      (p : Persistence S)
      → IsSafe apply empty p
      → IsSafe apply empty (record p { job = none; copying = none; dirty = true })
  forgotten-IsSafe p h = record {
    current = h.current;
    sorted = h.sorted;
    fresh_aofs = h.fresh_aofs;
    fresh_snapshots = h.fresh_snapshots;
    start = h.start;
    based = h.based;
    rebuilt = h.rebuilt;
    whole = h.whole;
    clean = λ e. absurd (ground arith);
    fresh_torn = h.fresh_torn;
    copies = λ g s e. absurd (ground arith);
    jobs = λ j e. absurd (ground arith);
    alone = λ j e. absurd (ground arith);
    written = λ j e. absurd (ground arith);
  }

  -- What a power failure takes is as good as in the buffer.
  unflushed :
      (xs ys : List Command) (k : ℕ) (s : S)
      → replay apply (replay apply s (take k xs)) (drop k xs ++ ys)
        ≡ replay apply (replay apply s xs) ys
  unflushed xs ys k s =
      replay-append apply empty (replay apply s (take k xs)) (drop k xs) ys
      ∙ ap (λ u. replay apply u ys)
          (sym (replay-append apply empty s (take k xs) (drop k xs))
            ∙ ap (replay apply s) (take-append-drop k xs))

  shortened-IsSafe :
      (k : ℕ) (part : Bool) (p : Persistence S)
      → IsSafe apply empty p
      → IsSafe apply empty (record p {
        directory = shortened k part p.directory;
        buffered = drop k (p.directory.aofs p.directory.manifest.last) ++ p.buffered;
        job = none;
        copying = none;
        dirty = true;
      })
  shortened-IsSafe k part p h =
      let d = p.directory in
      let m = d.manifest in
      let xs = d.aofs m.last in
      record {
        current = h.current;
        sorted = h.sorted;
        fresh_aofs = λ g l.
            update_off apply empty d.aofs m.last g (take k xs) (ground arith) ∙ h.fresh_aofs g l;
        fresh_snapshots = h.fresh_snapshots;
        start = h.start;
        based = h.based;
        rebuilt =
            ap
              (λ l.
                replay apply
                  (replay apply (replay apply h.start l) (update d.aofs m.last (take k xs) m.last))
                  (drop k xs ++ p.buffered))
              (logged-update apply empty d.aofs m.last m.older (take k xs) h.sorted)
            ∙ ap
                (λ l.
                  replay apply (replay apply (before_last apply empty h.start d) l)
                    (drop k xs ++ p.buffered))
                (update_at apply empty d.aofs m.last m.last (take k xs) refl)
            ∙ unflushed xs p.buffered k (before_last apply empty h.start d)
            ∙ h.rebuilt;
        whole = any_torn-update apply empty d.torn m.last m.older part h.sorted ∙ h.whole;
        clean = λ e. absurd (ground arith);
        fresh_torn =
            λ g l. update_off apply empty d.torn m.last g part (ground arith) ∙ h.fresh_torn g l;
        copies = λ g s e. absurd (ground arith);
        jobs = λ j e. absurd (ground arith);
        alone = λ j e. absurd (ground arith);
        written = λ j e. absurd (ground arith);
      }

  pub still_free :
      (always : Bool) (p : Persistence S)
      → rewrite_in_progress p ≡ false
      → rewrite_in_progress (commit always p) ≡ false
  still_free always p free =
      let (same_keyspace, same_job, same_copying) = commit-keeps apply empty always p in
      ground (arith, same_job, same_copying)

  all_switched :
      (n : ℕ) (p : Persistence S)
      → (switch_aof p).directory ≡ perform_all (take (suc n) (switch_ops p)) p.directory
  unfolding switch_aof perform_all
  all_switched zero p = refl
  all_switched (suc n) p = refl

  switch_aof-keeps :
      (p : Persistence S)
      → ((switch_aof p).buffered ≡ p.buffered) × ((switch_aof p).keyspace ≡ p.keyspace)
  unfolding switch_aof
  switch_aof-keeps p = (refl, refl)

  begun-IsBehind :
      (always : Bool) (n : ℕ) (p : Persistence S)
      → rewrite_in_progress p ≡ false
      → IsSafe apply empty p
      → IsBehind p
          (perform_all (take n (switch_ops (commit always p))) (commit always p).directory)
          []
  unfolding perform_all
  begun-IsBehind always zero p free h =
      let safe = commit-IsSafe apply empty always p h in
      record {
        state = commit always p;
        safe = safe;
        directory = refl;
        buffered = (safe.clean (commit-settles apply empty always p)).0;
        keyspace = (commit-keeps apply empty always p).0;
      }
  begun-IsBehind always (suc n) p free h =
      let safe = commit-IsSafe apply empty always p h in
      record {
        state = switch_aof (commit always p);
        safe =
            switch_aof-IsSafe apply empty (commit always p) safe (still_free always p free)
              (commit-settles apply empty always p);
        directory = all_switched n (commit always p);
        buffered =
            (switch_aof-keeps (commit always p)).0
            ∙ (safe.clean (commit-settles apply empty always p)).0;
        keyspace = (switch_aof-keeps (commit always p)).1 ∙ (commit-keeps apply empty always p).0;
      }

  finished-IsBehind :
      (listing : List Name) (n : ℕ) (job : RewriteJob S) (p : Persistence S)
      → p.job ≡ some job
      → job.result ≡ some true
      → IsSafe apply empty p
      → IsBehind p (perform_all (take n (finish_ops listing job.snapshot p)) p.directory) p.buffered
  unfolding finish_ops perform_all perform
  finished-IsBehind listing zero job p e done h = record {
    state = p;
    safe = h;
    directory = refl;
    buffered = refl;
    keyspace = refl;
  }
  finished-IsBehind listing (suc n) job p e done h = record {
    state = record (saved apply empty job.snapshot p) {
      directory =
          perform_all (take n (delete_ops (finished job.snapshot p.directory.manifest) listing))
            (saved apply empty job.snapshot p).directory;
    };
    safe = deleted-IsSafe apply empty listing n job p e done h;
    directory = refl;
    buffered = refl;
    keyspace = refl;
  }

  -- The last AOF is cut, and some files are deleted.
  loaded-IsKept :
      (listing : List Name) (n : ℕ) (p : Persistence S)
      → IsSafe apply empty p
      → IsKept p.directory
          (perform_all (take n (delete_ops p.directory.manifest listing)) (cut p.directory))
  loaded-IsKept listing n p h =
      let d = p.directory in
      let first = cut-IsKept d h.sorted in
      IsKept-trans d (cut d) (perform_all (take n (delete_ops d.manifest listing)) (cut d)) first
        (deletes-IsKept listing d.manifest n (cut d) first.manifest)

  loaded-IsBehind :
      (p : Persistence S) (d : Directory S) (lost : List Command) (listing : List Name) (n : ℕ)
      → IsBehind p d lost
      → IsBehind p (perform_all (take n (delete_ops d.manifest listing)) (cut d)) lost
  loaded-IsBehind p d lost listing n b =
      let q : Persistence S = record b.state { job = none; copying = none; dirty = true } in
      let after : Directory S → Directory S =
        (λ d. perform_all (take n (delete_ops d.manifest listing)) (cut d)) in
      record {
        state = record q { directory = after q.directory };
        safe =
            kept-IsSafe apply empty q (after q.directory) (forgotten-IsSafe b.state b.safe) refl
              (loaded-IsKept listing n b.state b.safe);
        directory = ap after b.directory;
        buffered = b.buffered;
        keyspace = b.keyspace;
      }

  pub Found-IsBehind :
      (p : Persistence S) (power : Bool) (d : Directory S) (lost : List Command)
      → IsSafe apply empty p
      → Found p power d lost
      → IsBehind p d lost
  Found-IsBehind p false d lost h between = record {
    state = p;
    safe = h;
    directory = refl;
    buffered = refl;
    keyspace = refl;
  }
  Found-IsBehind p false d lost h (in_begin_rewrite always n free joined) =
      begun-IsBehind always n p free h
  Found-IsBehind p false d lost h (in_finish listing n job e done joined) =
      finished-IsBehind listing n job p e done h
  Found-IsBehind p true d lost h (powerless k part flushed older) = record {
    state = record p {
      directory = shortened k part p.directory;
      buffered = drop k (p.directory.aofs p.directory.manifest.last) ++ p.buffered;
      job = none;
      copying = none;
      dirty = true;
    };
    safe = shortened-IsSafe k part p h;
    directory = refl;
    buffered = refl;
    keyspace = refl;
  }
  Found-IsBehind p power d lost h (in_load power₁ d₁ lost₁ listing n found) =
      loaded-IsBehind p d₁ lost listing n (Found-IsBehind p power d₁ lost h found)

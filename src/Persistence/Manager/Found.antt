-- ===== src/Persistence/Manager/Found.antt =====
-- engine/persistence/manager.py: what a process that is killed, or a power failure, leaves in the directory.
use redis_like_data_storage.Prelude.{
  ℕ, ◌≤◌, ◌≡◌, none, some, List, [], ◌++◌, Bool, true, false, take, drop, length,
}
use redis_like_data_storage.Protocol.Requests.{Command}
use redis_like_data_storage.Persistence.Manager.{
  Name, RewriteJob, Directory, Persistence, update, is_among, cut, commit, switch_ops,
  rewrite_in_progress, finish_ops, perform_all, delete_ops,
}

module _ {S : Type 0} where
  -- An AOF that has lost what is behind its first `k` records, but for a part of the next.
  abbrev pub shortened : ℕ → Bool → Directory S → Directory S
  shortened k part d =
      let g = d.manifest.last in
      record d { aofs = update d.aofs g (take k (d.aofs g)); torn = update d.torn g part }

  -- The directory that a start finds, after a power failure or not, and the commands whose records
  -- are not in it.
  pub data Found (p : Persistence S) : Bool → Directory S → List Command → Type 0 where
    -- Killed outside of the methods that change more than one file.
    between : Found p false p.directory p.buffered
    -- Killed in `begin_rewrite`.
    in_begin_rewrite :
        (always : Bool) (n : ℕ)
        → rewrite_in_progress p ≡ false
        → p.closing ≡ none
        → Found p false
            (perform_all (take n (switch_ops (commit always p))) (commit always p).directory)
            []
    -- Killed in `_finish`, after `n` of its changes.
    in_finish :
        (listing : List Name) (n : ℕ) (job : RewriteJob S)
        → p.job ≡ some job
        → job.result ≡ some true
        → p.closing ≡ none
        → Found p false
            (perform_all (take n (finish_ops listing job.snapshot p)) p.directory)
            p.buffered
    -- A power failure keeps what was flushed.
    powerless :
        (k : ℕ) (part : Bool)
        → p.directory.synced p.directory.manifest.last ≤ k
        → ((g : ℕ)
            → is_among p.directory.manifest.older g ≡ true
            → length (p.directory.aofs g) ≤ p.directory.synced g)
        → Found p true
            (shortened k part p.directory)
            (drop k (p.directory.aofs p.directory.manifest.last) ++ p.buffered)
    -- The start was killed as well, after `n` of its deletions.
    in_load :
        (power : Bool) (d : Directory S) (lost : List Command) (listing : List Name) (n : ℕ)
        → Found p power d lost
        → Found p power (perform_all (take n (delete_ops d.manifest listing)) (cut d)) lost

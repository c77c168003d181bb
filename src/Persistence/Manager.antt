-- ===== src/Persistence/Manager.antt =====
-- engine/persistence/manager.py and manifest.py: the files of a data directory, and a rewrite of them. An
-- AOF is the list of its commands (Replay has the bytes), a snapshot the state that it holds. The names of
-- files are the generations in them, and 0 is the generation of the file from before manifests.
pub mod Safe
pub mod Kept
pub mod Commits
pub mod Rewrites
pub mod Finishes
pub mod Found
pub mod Behind
pub mod Recovery
use redis_like_data_storage.Prelude.{
  ℕ, zero, suc, ◌+◌, ◌*◌, Option, none, some, List, [], ◌∷◌, ◌++◌, Bool, true, false, ◌&&◌, ◌||◌,
  not, ltb, leb, ◌==◌, if◌then◌else◌, Result, ok, raise, ◌>>=◌, command_error, os_error,
  aof_corrupted, take, drop, length,
}
use redis_like_data_storage.Protocol.Requests.{Command}

-- `Manifest`: the generation of the snapshot, and those of the AOFs before the last, and of the last.
pub record Manifest : Type 0 where
  pub snapshot : Option ℕ
  pub older : List ℕ
  pub last : ℕ

-- `files`, by kind.
abbrev pub is_among : List ℕ → ℕ → Bool
is_among [] g = false
is_among (x ∷ xs) g = g == x || is_among xs g

abbrev pub lists_aof : Manifest → ℕ → Bool
lists_aof m g = g == m.last || is_among m.older g

abbrev pub lists_snapshot : Manifest → ℕ → Bool
lists_snapshot m g = elim m.snapshot [ none ↦ false | some x ↦ g == x ]

-- `_RewriteJob`, with what the thread writes, and how it ended when it has.
pub record RewriteJob (S : Type 0) : Type 0 where
  pub snapshot : ℕ
  pub records : S
  pub result : Option Bool

-- A file of the directory, by the generation in its name.
pub data Name : Type 0 where
  aof_file snapshot_file : ℕ → Name

-- The data directory: the manifest, the records that the system has of each AOF, how many of them are
-- on disk, whether a part of a record is behind them, and the snapshots.
pub record Directory (S : Type 0) : Type 0 where
  pub manifest : Manifest
  pub aofs : ℕ → List Command
  pub synced : ℕ → ℕ
  pub torn : ℕ → Bool
  pub snapshots : ℕ → Option S

-- `Persistence` once it is open, with its directory, and the keyspace that it persists.
pub record Persistence (S : Type 0) : Type 0 where
  pub directory : Directory S
  -- The generation of the AOF that `_writer` appends to, what is in its buffer, and `_dirty`.
  pub writer : ℕ
  pub buffered : List Command
  pub dirty : Bool
  -- `_closing`: the generation of the AOF that the thread closes.
  pub closing : Option ℕ
  pub job : Option (RewriteJob S)
  -- `_copying`: the generation of the snapshot to come, and the keyspace where it was begun.
  pub copying : Option (ℕ × S)
  pub keyspace : S
  pub rewrites_completed : ℕ
  pub rewrites_failed : ℕ
  pub last_rewrite_ok : Bool

abbrev pub update : {A : Type 0} → (ℕ → A) → ℕ → A → ℕ → A
update f g a n = if n == g then a else f n

-- The AOFs of a manifest, in order.
unfoldable pub logged : (ℕ → List Command) → List ℕ → List Command
logged aofs [] = []
logged aofs (g ∷ gs) = aofs g ++ logged aofs gs

-- What a method does to the directory, in order.
pub data FileOp : Type 0 where
  save : Manifest → FileOp
  unlink : Name → FileOp

-- The manifest of a rewrite that begins.
abbrev pub next_manifest : Manifest → Manifest
next_manifest m = record m { older = m.older ++ m.last ∷ []; last = suc m.last }

-- `_delete_unreferenced`, where `listing` is what the directory lists.
abbrev pub is_listed : Manifest → Name → Bool
is_listed m (aof_file g) = lists_aof m g
is_listed m (snapshot_file g) = lists_snapshot m g

unfoldable pub delete_ops : Manifest → List Name → List FileOp
delete_ops m [] = []
delete_ops m (x ∷ xs) =
    let rest = delete_ops m xs in if is_listed m x then rest else unlink x ∷ rest

-- The manifest of a rewrite that has succeeded.
abbrev pub finished : ℕ → Manifest → Manifest
finished g m = record { snapshot = some g; older = []; last = m.last }

abbrev pub is_closing : Option ℕ → Bool
is_closing none = false
is_closing (some g) = true

-- Whether an AOF before the last has a part of a record at its end.
unfoldable pub any_torn : (ℕ → Bool) → List ℕ → Bool
any_torn torn [] = false
any_torn torn (g ∷ gs) = torn g || any_torn torn gs

module _ {S : Type 0} where
  -- `rewrite_in_progress`
  abbrev pub rewrite_in_progress : Persistence S → Bool
  rewrite_in_progress p = elim p.job [
    | some _ ↦ true
    | none ↦ elim p.copying [ some _ ↦ true | none ↦ false ]
  ]

  -- A command that runs, and its record in the buffer of the current AOF.
  unfoldable pub append : (S → Command → S) → Command → Persistence S → Persistence S
  append apply c p = record p {
    buffered = p.buffered ++ c ∷ [];
    dirty = true;
    keyspace = apply p.keyspace c;
  }

  -- `xs` go from the buffer to the system, with a part of the next record if `part`, and `ys` stay.
  unfoldable pub hand_records : List Command → List Command → Bool → Persistence S → Persistence S
  hand_records xs ys part p =
      let d = p.directory in
      record p {
        directory = record d {
          aofs = update d.aofs p.writer (d.aofs p.writer ++ xs);
          torn = update d.torn p.writer part;
        };
        buffered = ys;
      }

  -- A buffer that is full hands its first bytes over by itself.
  unfoldable pub spill : ℕ → Bool → Persistence S → Persistence S
  unfolding hand_records
  spill n part p = hand_records (take n p.buffered) (drop n p.buffered) part p

  -- `os.fsync` of an AOF.
  unfoldable pub fsync : ℕ → Persistence S → Persistence S
  fsync g p =
      let d = p.directory in
      record p { directory = record d { synced = update d.synced g (length (d.aofs g)) } }

  -- `commit` on a system that works, where `always` is the policy of that name.
  unfoldable pub commit : Bool → Persistence S → Persistence S
  unfolding hand_records fsync
  commit always p =
      if not p.dirty
      then p
      else (let q : Persistence S = record (hand_records p.buffered [] false p) { dirty = false } in
          if always then fsync p.writer q else q)

  -- `Manifest.save` replaces the manifest in one step.
  unfoldable pub perform : FileOp → Directory S → Directory S
  perform (save m) d = record d { manifest = m }
  perform (unlink (aof_file g)) d = record d {
    aofs = update d.aofs g [];
    synced = update d.synced g 0;
    torn = update d.torn g false;
  }
  perform (unlink (snapshot_file g)) d = record d { snapshots = update d.snapshots g none }

  unfoldable pub perform_all : List FileOp → Directory S → Directory S
  unfolding perform
  perform_all [] d = d
  perform_all (x ∷ xs) d = perform_all xs (perform x d)

  -- `begin_rewrite` behind the commit: the new AOF is opened to append, so that it is there, and empty unless
  -- it was there before, and put into the manifest.
  abbrev pub switch_ops : Persistence S → List FileOp
  switch_ops p = save (next_manifest p.directory.manifest) ∷ []

  unfoldable pub switch_aof : Persistence S → Persistence S
  unfolding perform_all
  switch_aof p =
      let m = p.directory.manifest in
      record p {
        directory = perform_all (switch_ops p) p.directory;
        writer = suc m.last;
        closing = some m.last;
        copying = some (suc m.last, p.keyspace);
      }

  -- `begin_rewrite`, when the thread of the one before has been joined.
  unfoldable pub begin_rewrite : Bool → Persistence S → Result (Persistence S)
  unfolding switch_aof commit
  begin_rewrite always p =
      if rewrite_in_progress p then raise command_error else ok (switch_aof (commit always p))

  -- `_close_previous`, whose fsync may fail.
  unfoldable pub close_previous : Bool → Persistence S → Persistence S
  unfolding fsync
  close_previous works p = elim p.closing [
    | none ↦ p
    | some g ↦ let q : Persistence S = record p { closing = none } in if works then fsync g q else q
  ]

  -- `finish_copy`, with the records of the keyspace where the copy was begun.
  unfoldable pub hand_over : Option (ℕ × S) → Persistence S → Persistence S
  hand_over none p = p
  hand_over (some (g, s)) p = record p {
    copying = none;
    job = some (record { snapshot = g; records = s; result = none });
  }

  unfoldable pub finish_copy : Persistence S → Persistence S
  unfolding hand_over
  finish_copy p = hand_over p.copying p

  -- The thread that writes the snapshot, once: its file is there when it succeeds.
  unfoldable pub write_job : Bool → RewriteJob S → Option Bool → Persistence S → Persistence S
  write_job works job (some _) p = p
  write_job true job none p = record p {
    directory = record p.directory {
      snapshots = update p.directory.snapshots job.snapshot (some job.records);
    };
    job = some (record job { result = some true });
  }
  write_job false job none p = record p { job = some (record job { result = some false }) }

  unfoldable pub write_snapshot : Bool → Persistence S → Persistence S
  unfolding write_job
  write_snapshot works p = elim p.job [ none ↦ p | some job ↦ write_job works job job.result p ]

  -- `_finish` of a job that succeeded: the manifest, and then what no longer is needed.
  unfoldable pub finish_ops : List Name → ℕ → Persistence S → List FileOp
  unfolding delete_ops
  finish_ops listing g p = let m = finished g p.directory.manifest in save m ∷ delete_ops m listing

  unfoldable pub commit_rewrite : List Name → ℕ → Persistence S → Persistence S
  unfolding finish_ops perform_all
  commit_rewrite listing g p = record p {
    directory = perform_all (finish_ops listing g p) p.directory;
    rewrites_completed = suc p.rewrites_completed;
    last_rewrite_ok = true;
  }

  -- `poll`, and `_finish` where the job is done.
  unfoldable pub finish_job : List Name → RewriteJob S → Option Bool → Persistence S → Persistence S
  unfolding commit_rewrite
  finish_job listing job none p = p
  finish_job listing job (some true) p =
      commit_rewrite listing job.snapshot (record p { job = none })
  finish_job listing job (some false) p = record p {
    job = none;
    rewrites_failed = suc p.rewrites_failed;
    last_rewrite_ok = false;
  }

  unfoldable pub poll : List Name → Persistence S → Persistence S
  unfolding finish_job
  poll listing p = elim p.job [
    | none ↦ p
    | some job ↦ if is_closing p.closing then p else finish_job listing job job.result p
  ]

  -- `abandon_copy`
  abbrev pub abandon_copy : Persistence S → Persistence S
  abandon_copy p = record p { copying = none }

  -- `should_auto_rewrite` of an open AOF of `size` bytes.
  unfoldable pub should_auto_rewrite : ℕ → ℕ → ℕ → ℕ → Persistence S → Bool
  should_auto_rewrite percentage min_bytes base_size size p =
      if rewrite_in_progress p || percentage == 0
      then false
      else if ltb size min_bytes
      then false
      else leb (base_size * percentage) (size * 100)

  abbrev pub replay : (S → Command → S) → S → List Command → S
  replay apply s [] = s
  replay apply s (c ∷ cs) = replay apply (apply s c) cs

  -- The keyspace from which the AOFs go on; a snapshot that is not there makes `load` fail.
  abbrev pub base : S → Directory S → Option S
  base empty d = elim d.manifest.snapshot [ none ↦ some empty | some g ↦ d.snapshots g ]

  -- What `load` rebuilds from a directory, into an empty keyspace.
  unfoldable pub recover : (S → Command → S) → S → Directory S → Result S
  unfolding logged any_torn
  recover apply empty d = elim (base empty d) [
    | none ↦ raise os_error
    | some s ↦
        if any_torn d.torn d.manifest.older
        then raise aof_corrupted
        else ok (replay apply s (logged d.aofs (d.manifest.older ++ d.manifest.last ∷ [])))
  ]

  -- The replay cuts the part of a record off the last AOF.
  unfoldable pub cut : Directory S → Directory S
  cut d = record d { torn = update d.torn d.manifest.last false }

  -- `load` of a directory without a manifest: a new one, or one that has the single file of old, whose
  -- last record may be torn.
  abbrev pub create_directory : Option (List Command × Bool) → Directory S
  create_directory none = record {
    manifest = record { snapshot = none; older = []; last = 1 };
    aofs = λ g. [];
    synced = λ g. 0;
    torn = λ g. false;
    snapshots = λ g. none;
  }
  create_directory (some (legacy, part)) = record {
    manifest = record { snapshot = none; older = []; last = 0 };
    aofs = update (λ g. []) 0 legacy;
    synced = λ g. 0;
    torn = update (λ g. false) 0 part;
    snapshots = λ g. none;
  }

  -- `Persistence` that has opened a directory.
  abbrev pub at_rest : Directory S → S → Persistence S
  at_rest d s = record {
    directory = d;
    writer = d.manifest.last;
    buffered = [];
    dirty = false;
    closing = none;
    job = none;
    copying = none;
    keyspace = s;
    rewrites_completed = 0;
    rewrites_failed = 0;
    last_rewrite_ok = true;
  }

  -- `load` of a directory that has a manifest.
  unfoldable pub load : (S → Command → S) → S → List Name → Directory S → Result (Persistence S)
  unfolding recover cut delete_ops perform_all
  load apply empty listing d = recover apply empty d >>= λ s.
      ok (record (at_rest d s) { directory = perform_all (delete_ops d.manifest listing) (cut d) })

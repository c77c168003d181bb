-- ===== src/Persistence/Manager/Commits.antt =====
-- engine/persistence/manager.py: the buffer of the current AOF, and its way to the disk.
use redis_like_data_storage.Prelude.{
  ℕ, ◌≡◌, refl, sym, ap, subst, ◌∙◌, Option, none, some, List, [], ◌∷◌, ◌++◌, Bool, true, false,
  if◌then◌else◌, not, arith, take, drop, take-append-drop, Bool-cases, inl, inr,
}
use redis_like_data_storage.Protocol.Requests.{Command}
use redis_like_data_storage.Persistence.Manager.{
  Persistence, update, replay, append, hand_records, spill, fsync, commit, close_previous,
}
use redis_like_data_storage.Persistence.Manager.Safe.{
  AllBelow, before_last, recovered, IsSafe, logged-update, any_torn-update, update_at, update_off,
  replay-append, replayed_handed, settled-IsSafe,
}
use mathlib.Core.List.{append-nil}

module _ {S : Type 0} (apply : S → Command → S) (empty : S) where
  pub append-IsSafe :
      (c : Command) (p : Persistence S)
      → IsSafe apply empty p
      → IsSafe apply empty (append apply c p)
  unfolding append
  append-IsSafe c p h = record {
    current = h.current;
    sorted = h.sorted;
    fresh_aofs = h.fresh_aofs;
    fresh_snapshots = h.fresh_snapshots;
    start = h.start;
    based = h.based;
    rebuilt = one_more (recovered apply empty h.start p.directory) h.rebuilt;
    whole = h.whole;
    clean = λ e. absurd (ground arith);
    fresh_torn = h.fresh_torn;
    copies = λ g s e.
        let (at_last, r, unused) = h.copies g s e in
        (at_last, one_more (replay apply s (p.directory.aofs g)) r, unused);
    jobs = λ j e.
        let (at_last, r, unused) = h.jobs j e in
        (at_last, one_more (replay apply j.records (p.directory.aofs j.snapshot)) r, unused);
    alone = h.alone;
    written = h.written;
  }
    where
      one_more :
          (s : S)
          → replay apply s p.buffered ≡ p.keyspace
          → replay apply s (p.buffered ++ c ∷ []) ≡ apply p.keyspace c
      one_more s e = replay-append apply empty s p.buffered (c ∷ []) ∙ ap (λ u. apply u c) e

  pub hand_records-IsSafe :
      (xs ys : List Command) (part : Bool) (p : Persistence S)
      → xs ++ ys ≡ p.buffered
      → p.dirty ≡ true
      → IsSafe apply empty p
      → IsSafe apply empty (hand_records xs ys part p)
  unfolding hand_records
  hand_records-IsSafe xs ys part p split busy h =
      let d = p.directory in
      let m = d.manifest in
      let w = p.writer in
      let below = subst (λ n. AllBelow n m.older) (sym h.current) h.sorted in
      record {
        current = h.current;
        sorted = h.sorted;
        fresh_aofs = λ g l.
            update_off apply empty d.aofs w g (d.aofs w ++ xs) (ground (arith, h.current))
            ∙ h.fresh_aofs g l;
        fresh_snapshots = h.fresh_snapshots;
        start = h.start;
        based = h.based;
        rebuilt =
            ap
              (λ l.
                replay apply
                  (replay apply (replay apply h.start l) (update d.aofs w (d.aofs w ++ xs) m.last))
                  ys)
              (logged-update apply empty d.aofs w m.older (d.aofs w ++ xs) below)
            ∙ moved m.last (before_last apply empty h.start d) (sym h.current) h.rebuilt;
        whole = any_torn-update apply empty d.torn w m.older part below ∙ h.whole;
        clean = λ e. absurd (ground (arith, busy));
        fresh_torn = λ g l.
            update_off apply empty d.torn w g part (ground (arith, h.current)) ∙ h.fresh_torn g l;
        copies = λ g s e.
            let (at_last, r, unused) = h.copies g s e in
            (at_last, moved g s (at_last ∙ sym h.current) r, unused);
        jobs = λ j e.
            let (at_last, r, unused) = h.jobs j e in
            (at_last, moved j.snapshot j.records (at_last ∙ sym h.current) r, unused);
        alone = h.alone;
        written = h.written;
      }
    where
      moved :
          (g : ℕ) (s : S)
          → g ≡ p.writer
          → replay apply (replay apply s (p.directory.aofs g)) p.buffered ≡ p.keyspace
          → replay apply
              (replay apply s
                (update p.directory.aofs p.writer (p.directory.aofs p.writer ++ xs) g))
              ys
            ≡ p.keyspace
      moved g s e r =
          replayed_handed apply empty p.directory.aofs p.writer g xs ys s p.keyspace e
            (ap (replay apply (replay apply s (p.directory.aofs g))) split ∙ r)

  pub spill-IsSafe :
      (n : ℕ) (part : Bool) (p : Persistence S)
      → p.dirty ≡ true
      → IsSafe apply empty p
      → IsSafe apply empty (spill n part p)
  unfolding spill
  spill-IsSafe n part p busy h =
      hand_records-IsSafe (take n p.buffered) (drop n p.buffered) part p
        (take-append-drop n p.buffered) busy h

  pub fsync-IsSafe :
      (g : ℕ) (p : Persistence S) → IsSafe apply empty p → IsSafe apply empty (fsync g p)
  unfolding fsync
  fsync-IsSafe g p h = record {
    current = h.current;
    sorted = h.sorted;
    fresh_aofs = h.fresh_aofs;
    fresh_snapshots = h.fresh_snapshots;
    start = h.start;
    based = h.based;
    rebuilt = h.rebuilt;
    whole = h.whole;
    clean = h.clean;
    fresh_torn = h.fresh_torn;
    copies = h.copies;
    jobs = h.jobs;
    alone = h.alone;
    written = h.written;
  }

  abbrev handed : Persistence S → Persistence S
  handed p = record (hand_records p.buffered [] false p) { dirty = false }

  abbrev closed : Persistence S → Persistence S
  closed p = record p { closing = none }

  handed-IsSafe :
      (p : Persistence S)
      → IsSafe apply empty p
      → p.dirty ≡ true
      → IsSafe apply empty (record (hand_records p.buffered [] false p) { dirty = false })
  unfolding hand_records
  handed-IsSafe p h busy =
      settled-IsSafe apply empty (hand_records p.buffered [] false p)
        (hand_records-IsSafe p.buffered [] false p (append-nil p.buffered) busy h) refl
        (update_at apply empty p.directory.torn p.writer p.writer false refl)

  pub commit-IsSafe :
      (always : Bool) (p : Persistence S)
      → IsSafe apply empty p
      → IsSafe apply empty (commit always p)
  unfolding commit
  commit-IsSafe always p h = go p.dirty refl
    where
      go_on :
          (b : Bool)
          → IsSafe apply empty (handed p)
          → IsSafe apply empty (if b then fsync p.writer (handed p) else (handed p))
      go_on true safe = fsync-IsSafe p.writer (handed p) safe
      go_on false safe = safe

      go :
          (b : Bool)
          → p.dirty ≡ b
          → IsSafe apply empty
              (if not b then p else (if always then fsync p.writer (handed p) else (handed p)))
      go false e = h
      go true e = go_on always (handed-IsSafe p h e)

  pub commit-settles : (always : Bool) (p : Persistence S) → (commit always p).dirty ≡ false
  unfolding commit hand_records fsync
  commit-settles always p = ground arith

  pub commit-keeps :
      (always : Bool) (p : Persistence S)
      → ((commit always p).keyspace ≡ p.keyspace)
        × ((commit always p).job ≡ p.job)
        × ((commit always p).copying ≡ p.copying)
  unfolding commit hand_records fsync
  commit-keeps always p = elim (Bool-cases p.dirty) [
    | inr settled ↦ rw settled (refl, refl, refl)
    | inl busy ↦ rw busy (elim (Bool-cases always) [
      | inl now ↦ rw now (refl, refl, refl)
      | inr later ↦ rw later (refl, refl, refl)
    ])
  ]

  pub close_previous-IsSafe :
      (works : Bool) (p : Persistence S)
      → IsSafe apply empty p
      → IsSafe apply empty (close_previous works p)
  unfolding close_previous
  close_previous-IsSafe works p h = go p.closing refl
    where
      closed-IsSafe : IsSafe apply empty p → IsSafe apply empty (record p { closing = none })
      closed-IsSafe h = record {
        current = h.current;
        sorted = h.sorted;
        fresh_aofs = h.fresh_aofs;
        fresh_snapshots = h.fresh_snapshots;
        start = h.start;
        based = h.based;
        rebuilt = h.rebuilt;
        whole = h.whole;
        clean = h.clean;
        fresh_torn = h.fresh_torn;
        copies = h.copies;
        jobs = h.jobs;
        alone = h.alone;
        written = h.written;
      }

      ended :
          (b : Bool) (g : ℕ)
          → IsSafe apply empty (closed p)
          → IsSafe apply empty (if b then fsync g (closed p) else (closed p))
      ended true g safe = fsync-IsSafe g (closed p) safe
      ended false g safe = safe

      go :
          (o : Option ℕ)
          → p.closing ≡ o
          → IsSafe apply empty
              (elim o [ none ↦ p | some g ↦ if works then fsync g (closed p) else (closed p) ])
      go none e = h
      go (some g) e = ended works g (closed-IsSafe h)

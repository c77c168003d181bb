-- ===== src/Persistence/Manager/Safe.antt =====
-- engine/persistence/manager.py: states whose files rebuild the keyspace.
use redis_like_data_storage.Prelude.{
  ℕ, ◌<◌, ◌≡◌, ◌≢◌, refl, sym, ap, ◌∙◌, none, some, List, [], ◌∷◌, ◌++◌, true, false, arith,
  Option-cases, inl, inr, Bool, ok,
}
use mathlib.Core.List.{append_assoc, append-nil}
use redis_like_data_storage.Protocol.Requests.{Command}
use redis_like_data_storage.Persistence.Manager.{
  RewriteJob, Directory, Persistence, lists_snapshot, update, logged, replay, base, recover,
  any_torn, at_rest,
}

abbrev pub AllBelow : ℕ → List ℕ → Type 0
AllBelow n [] = Unit
AllBelow n (g ∷ gs) = (g < n) × AllBelow n gs

module _ {S : Type 0} (apply : S → Command → S) (empty : S) where
  -- What the AOFs before the last make of the snapshot.
  abbrev pub before_last : S → Directory S → S
  before_last b d = replay apply b (logged d.aofs d.manifest.older)

  -- And all AOFs.
  abbrev pub recovered : S → Directory S → S
  recovered b d = replay apply (before_last b d) (d.aofs d.manifest.last)

  -- The copy `s` of generation `g` is of where the last AOF begins, and its file is not in use yet.
  abbrev pub IsCopy : Persistence S → ℕ → S → Type 0
  IsCopy p g s =
      (g ≡ p.directory.manifest.last)
      × (replay apply (replay apply s (p.directory.aofs g)) p.buffered ≡ p.keyspace)
      × (lists_snapshot p.directory.manifest g ≡ false)

  pub record IsSafe (p : Persistence S) : Type 0 where
    pub current : p.writer ≡ p.directory.manifest.last
    pub sorted : AllBelow p.directory.manifest.last p.directory.manifest.older
    pub fresh_aofs : (g : ℕ) → p.directory.manifest.last < g → p.directory.aofs g ≡ []
    pub fresh_snapshots :
        (g : ℕ) → p.directory.manifest.last < g → lists_snapshot p.directory.manifest g ≡ false
    pub start : S
    pub based : base empty p.directory ≡ some start
    pub rebuilt : replay apply (recovered start p.directory) p.buffered ≡ p.keyspace
    pub whole : any_torn p.directory.torn p.directory.manifest.older ≡ false
    pub clean : p.dirty ≡ false → (p.buffered ≡ []) × (p.directory.torn p.writer ≡ false)
    pub fresh_torn : (g : ℕ) → p.directory.manifest.last < g → p.directory.torn g ≡ false
    pub copies : (g : ℕ) (s : S) → p.copying ≡ some (g, s) → IsCopy p g s
    pub jobs : (j : RewriteJob S) → p.job ≡ some j → IsCopy p j.snapshot j.records
    pub alone : (j : RewriteJob S) → p.job ≡ some j → p.copying ≡ none
    pub written :
        (j : RewriteJob S)
        → p.job ≡ some j
        → j.result ≡ some true
        → p.directory.snapshots j.snapshot ≡ some j.records

  pub replay-append :
      (s : S) (xs ys : List Command)
      → replay apply s (xs ++ ys) ≡ replay apply (replay apply s xs) ys
  replay-append s [] ys = refl
  replay-append s (x ∷ xs) ys = replay-append (apply s x) xs ys

  pub logged-append :
      (aofs : ℕ → List Command) (gs : List ℕ) (g : ℕ)
      → logged aofs (gs ++ g ∷ []) ≡ logged aofs gs ++ aofs g
  unfolding logged
  logged-append aofs [] g = append-nil (aofs g)
  logged-append aofs (x ∷ gs) g =
      ap (◌++◌ (aofs x)) (logged-append aofs gs g)
      ∙ sym (append_assoc (aofs x) (logged aofs gs) (aofs g))

  pub all_recovered :
      (b : S) (d : Directory S)
      → replay apply b (logged d.aofs (d.manifest.older ++ d.manifest.last ∷ [])) ≡ recovered b d
  all_recovered b d =
      let m = d.manifest in
      ap (replay apply b) (logged-append d.aofs m.older m.last)
      ∙ replay-append b (logged d.aofs m.older) (d.aofs m.last)

  -- The files of a safe state rebuild what has left its buffer.
  pub recover-IsSafe :
      (p : Persistence S) (h : IsSafe p)
      → recover apply empty p.directory ≡ ok (recovered h.start p.directory)
  unfolding recover
  recover-IsSafe p h =
      rw (h.based, recover)
        (rw (h.whole, recover) (ap (λ s. ok s) (all_recovered h.start p.directory)))

  -- A state whose files are open again, before the last one has been cut.
  pub opened-IsSafe :
      (p : Persistence S) (h : IsSafe p)
      → IsSafe (record (at_rest p.directory (recovered h.start p.directory)) { dirty = true })
  opened-IsSafe p h = record {
    current = refl;
    sorted = h.sorted;
    fresh_aofs = h.fresh_aofs;
    fresh_snapshots = h.fresh_snapshots;
    start = h.start;
    based = h.based;
    rebuilt = refl;
    whole = h.whole;
    clean = λ e. absurd (ground arith);
    fresh_torn = h.fresh_torn;
    copies = λ g s e. absurd (ground arith);
    jobs = λ j e. absurd (ground arith);
    alone = λ j e. absurd (ground arith);
    written = λ j e. absurd (ground arith);
  }

  -- Nothing is left to commit.
  pub settled-IsSafe :
      (p : Persistence S)
      → IsSafe p
      → p.buffered ≡ []
      → p.directory.torn p.writer ≡ false
      → IsSafe (record p { dirty = false })
  settled-IsSafe p h b t = record {
    current = h.current;
    sorted = h.sorted;
    fresh_aofs = h.fresh_aofs;
    fresh_snapshots = h.fresh_snapshots;
    start = h.start;
    based = h.based;
    rebuilt = h.rebuilt;
    whole = h.whole;
    clean = λ e. (b, t);
    fresh_torn = h.fresh_torn;
    copies = h.copies;
    jobs = h.jobs;
    alone = h.alone;
    written = h.written;
  }

  pub logged-update :
      (aofs : ℕ → List Command) (n : ℕ) (gs : List ℕ) (cs : List Command)
      → AllBelow n gs
      → logged (update aofs n cs) gs ≡ logged aofs gs
  unfolding logged
  logged-update aofs n [] cs h = refl
  logged-update aofs n (g ∷ gs) cs h = ground (arith, logged-update aofs n gs cs)

  pub update_at : {A : Type 0} (f : ℕ → A) (m n : ℕ) (a : A) → n ≡ m → update f m a n ≡ a
  update_at f m n a e = ground arith

  pub update_off : {A : Type 0} (f : ℕ → A) (m n : ℕ) (a : A) → n ≢ m → update f m a n ≡ f n
  update_off f m n a h = ground arith

  -- Records that go from a buffer to the end of the last AOF.
  pub replayed_handed :
      (aofs : ℕ → List Command) (w g : ℕ) (xs ys : List Command) (s t : S)
      → g ≡ w
      → replay apply (replay apply s (aofs g)) (xs ++ ys) ≡ t
      → replay apply (replay apply s (update aofs w (aofs w ++ xs) g)) ys ≡ t
  replayed_handed aofs w g xs ys s t e r =
      ap (λ l. replay apply (replay apply s l) ys)
        (update_at aofs w g (aofs w ++ xs) e ∙ ap (λ n. aofs n ++ xs) (sym e))
      ∙ ap (λ u. replay apply u ys) (replay-append s (aofs g) xs)
      ∙ sym (replay-append (replay apply s (aofs g)) xs ys)
      ∙ r

  pub some_same : {A : Type 0} (a b : A) → some a ≡ some b → a ≡ b
  some_same a b e = cc

  pub base-update :
      (d : Directory S) (g : ℕ) (s : S)
      → lists_snapshot d.manifest g ≡ false
      → base empty (record d { snapshots = update d.snapshots g (some s) }) ≡ base empty d
  base-update d g s h = elim (Option-cases d.manifest.snapshot) [
    | inl none_ ↦ rw none_ refl
    | inr (x, e) ↦ rw e (update_off d.snapshots g x (some s) (ground arith))
  ]

  pub any_torn-update :
      (torn : ℕ → Bool) (n : ℕ) (gs : List ℕ) (b : Bool)
      → AllBelow n gs
      → any_torn (update torn n b) gs ≡ any_torn torn gs
  unfolding any_torn
  any_torn-update torn n [] b h = refl
  any_torn-update torn n (g ∷ gs) b h = ground (arith, any_torn-update torn n gs b)

-- ===== src/Persistence/Manager/Kept.antt =====
-- engine/persistence/manager.py, `_delete_unreferenced`: what it deletes is not needed, all of it or some.
use redis_like_data_storage.Prelude.{
  ℕ, zero, suc, ◌≡◌, refl, sym, ap, ◌∙◌, none, List, [], ◌∷◌, ◌++◌, Bool, true, false, take, arith,
  Option-cases, Bool-cases, inl, inr, subst, length,
}
use redis_like_data_storage.Protocol.Requests.{Command}
use redis_like_data_storage.Persistence.Manager.{
  Manifest, Name, aof_file, snapshot_file, FileOp, unlink, Directory, Persistence, lists_aof,
  is_among, lists_snapshot, is_listed, update, logged, any_torn, base, replay, perform, perform_all,
  delete_ops, cut,
}
use redis_like_data_storage.Persistence.Manager.Safe.{AllBelow, before_last, recovered, IsSafe}

take_all_ops : (xs : List FileOp) → take (length xs) xs ≡ xs
take_all_ops [] = refl
take_all_ops (x ∷ xs) = ap (λ ys. x ∷ ys) (take_all_ops xs)

pub kept_aofs :
    (aofs aofs' : ℕ → List Command) (gs : List ℕ)
    → ((g : ℕ) → is_among gs g ≡ true → aofs' g ≡ aofs g)
    → logged aofs' gs ≡ logged aofs gs
unfolding logged
kept_aofs aofs aofs' [] h = refl
kept_aofs aofs aofs' (x ∷ gs) h =
    ap (λ cs. cs ++ logged aofs' gs) (h x (ground arith))
    ∙ ap (λ cs. aofs x ++ cs) (kept_aofs aofs aofs' gs (λ g l. h g (ground arith)))

pub kept_torn :
    (torn torn' : ℕ → Bool) (gs : List ℕ)
    → ((g : ℕ) → is_among gs g ≡ true → torn' g ≡ torn g)
    → any_torn torn' gs ≡ any_torn torn gs
unfolding any_torn
kept_torn torn torn' [] h = refl
kept_torn torn torn' (x ∷ gs) h =
    let first : torn' x ≡ torn x = h x (ground arith) in
    ground (arith, first, kept_torn torn torn' gs (λ g l. h g (ground arith)))

module _ {S : Type 0} where
  -- The files that the manifest lists are the same, and no AOF has got anything.
  pub record IsKept (d d' : Directory S) : Type 0 where
    pub manifest : d'.manifest ≡ d.manifest
    pub aofs : (g : ℕ) → lists_aof d.manifest g ≡ true → d'.aofs g ≡ d.aofs g
    pub synced : (g : ℕ) → lists_aof d.manifest g ≡ true → d'.synced g ≡ d.synced g
    pub older : (g : ℕ) → is_among d.manifest.older g ≡ true → d'.torn g ≡ d.torn g
    pub untorn : (g : ℕ) → d.torn g ≡ false → d'.torn g ≡ false
    pub snapshots : (g : ℕ) → lists_snapshot d.manifest g ≡ true → d'.snapshots g ≡ d.snapshots g
    pub empties : (g : ℕ) → d.aofs g ≡ [] → d'.aofs g ≡ []

  IsKept-refl : (d : Directory S) → IsKept d d
  IsKept-refl d = record {
    manifest = refl;
    aofs = λ g h. refl;
    synced = λ g h. refl;
    older = λ g h. refl;
    untorn = λ g h. h;
    snapshots = λ g h. refl;
    empties = λ g h. h;
  }

  unlink-IsKept :
      (x : Name) (d : Directory S)
      → is_listed d.manifest x ≡ false
      → IsKept d (perform (unlink x) d)
  unfolding perform
  unlink-IsKept (aof_file n) d h = record {
    manifest = refl;
    aofs = λ g l. ground arith;
    synced = λ g l. ground arith;
    older = λ g l. ground arith;
    untorn = λ g l. ground arith;
    snapshots = λ g l. refl;
    empties = λ g l. ground arith;
  }
  unlink-IsKept (snapshot_file n) d h = record {
    manifest = refl;
    aofs = λ g l. refl;
    synced = λ g l. refl;
    older = λ g l. refl;
    untorn = λ g l. l;
    snapshots = λ g l. ground arith;
    empties = λ g l. l;
  }

  pub IsKept-trans : (d d₁ d₂ : Directory S) → IsKept d d₁ → IsKept d₁ d₂ → IsKept d d₂
  IsKept-trans d d₁ d₂ a b = record {
    manifest = b.manifest ∙ a.manifest;
    aofs = λ g l. b.aofs g (ap (λ m. lists_aof m g) a.manifest ∙ l) ∙ a.aofs g l;
    synced = λ g l. b.synced g (ap (λ m. lists_aof m g) a.manifest ∙ l) ∙ a.synced g l;
    older = λ g l. b.older g (ap (λ m. is_among m.older g) a.manifest ∙ l) ∙ a.older g l;
    untorn = λ g l. b.untorn g (a.untorn g l);
    snapshots =
        λ g l. b.snapshots g (ap (λ m. lists_snapshot m g) a.manifest ∙ l) ∙ a.snapshots g l;
    empties = λ g l. b.empties g (a.empties g l);
  }

  deleted-IsKept :
      (x : Name) (rest : List FileOp) (d : Directory S) (n : ℕ)
      → is_listed d.manifest x ≡ false
      → ((k : ℕ) (d₁ : Directory S)
          → d₁.manifest ≡ d.manifest
          → IsKept d₁ (perform_all (take k rest) d₁))
      → IsKept d (perform_all (take n (unlink x ∷ rest)) d)
  unfolding perform_all
  deleted-IsKept x rest d zero other others = IsKept-refl d
  deleted-IsKept x rest d (suc n) other others =
      let d₁ = perform (unlink x) d in
      let first = unlink-IsKept x d other in
      IsKept-trans d d₁ (perform_all (take n rest) d₁) first (others n d₁ first.manifest)

  -- Any number of the deletions.
  pub deletes-IsKept :
      (listing : List Name) (m : Manifest) (n : ℕ) (d : Directory S)
      → d.manifest ≡ m
      → IsKept d (perform_all (take n (delete_ops m listing)) d)
  unfolding perform_all delete_ops
  deletes-IsKept [] m zero d e = IsKept-refl d
  deletes-IsKept [] m (suc n) d e = IsKept-refl d
  deletes-IsKept (x ∷ xs) m n d e = elim (Bool-cases (is_listed m x)) [
    | inl listed ↦ rw (listed, delete_ops) (deletes-IsKept xs m n d e)
    | inr other ↦
        rw (other, delete_ops)
          (deleted-IsKept x (delete_ops m xs) d n (ap (λ m. is_listed m x) e ∙ other)
            (λ k d₁ e₁. deletes-IsKept xs m k d₁ (e₁ ∙ e)))
  ]

  -- All of them.
  pub delete_all-IsKept :
      (listing : List Name) (m : Manifest) (d : Directory S)
      → d.manifest ≡ m
      → IsKept d (perform_all (delete_ops m listing) d)
  delete_all-IsKept listing m d e =
      subst (λ xs. IsKept d (perform_all xs d)) (take_all_ops (delete_ops m listing))
        (deletes-IsKept listing m (length (delete_ops m listing)) d e)

  -- The replay cuts the last AOF only.
  pub cut-IsKept : (d : Directory S) → AllBelow d.manifest.last d.manifest.older → IsKept d (cut d)
  unfolding cut
  cut-IsKept d h = record {
    manifest = refl;
    aofs = λ g l. refl;
    synced = λ g l. refl;
    older = λ g l. older_uncut d.manifest.older g h l;
    untorn = λ g l. ground arith;
    snapshots = λ g l. refl;
    empties = λ g l. l;
  }
    where
      older_uncut :
          (gs : List ℕ) (g : ℕ)
          → AllBelow d.manifest.last gs
          → is_among gs g ≡ true
          → update d.torn d.manifest.last false g ≡ d.torn g
      older_uncut [] g b l = cc
      older_uncut (x ∷ gs) g b l = ground (arith, older_uncut gs g b.1)

module _ {S : Type 0} (apply : S → Command → S) (empty : S) where
  kept_recovered :
      (b : S) (d d' : Directory S)
      → IsKept d d'
      → recovered apply empty b d' ≡ recovered apply empty b d
  kept_recovered b d d' k =
      ap (λ m. replay apply (replay apply b (logged d'.aofs m.older)) (d'.aofs m.last)) k.manifest
      ∙ ap (λ cs. replay apply (replay apply b cs) (d'.aofs d.manifest.last))
          (kept_aofs d.aofs d'.aofs d.manifest.older (λ g l. k.aofs g (ground arith)))
      ∙ ap (replay apply (before_last apply empty b d)) (k.aofs d.manifest.last (ground arith))

  kept_base : (d d' : Directory S) → IsKept d d' → base empty d' ≡ base empty d
  kept_base d d' k = elim (Option-cases d.manifest.snapshot) [
    | inl none_ ↦ ground (arith, k.manifest, none_)
    | inr (x, e) ↦
        let same : d'.snapshots x ≡ d.snapshots x = k.snapshots x (ground (arith, e)) in
        ground (arith, k.manifest, e, same)
  ]

  -- Without a job under way, what is kept is enough.
  pub kept-IsSafe :
      (p : Persistence S) (d' : Directory S)
      → IsSafe apply empty p
      → p.job ≡ none
      → IsKept p.directory d'
      → IsSafe apply empty (record p { directory = d' })
  kept-IsSafe p d' h idle k =
      let d = p.directory in
      record {
        current = h.current ∙ ap (λ m. m.last) (sym k.manifest);
        sorted = subst (λ m. AllBelow m.last m.older) (sym k.manifest) h.sorted;
        fresh_aofs = λ g l. k.empties g (h.fresh_aofs g (ground (arith, k.manifest)));
        fresh_snapshots = λ g l.
            ap (λ m. lists_snapshot m g) k.manifest
            ∙ h.fresh_snapshots g (ground (arith, k.manifest));
        start = h.start;
        based = kept_base d d' k ∙ h.based;
        rebuilt = ap (λ s. replay apply s p.buffered) (kept_recovered h.start d d' k) ∙ h.rebuilt;
        whole =
            ap (λ m. any_torn d'.torn m.older) k.manifest
            ∙ kept_torn d.torn d'.torn d.manifest.older k.older
            ∙ h.whole;
        clean = λ e. let (b, t) = h.clean e in (b, k.untorn p.writer t);
        fresh_torn = λ g l. k.untorn g (h.fresh_torn g (ground (arith, k.manifest)));
        copies = λ g s e.
            let (at_last, r, unused) = h.copies g s e in
            (
              at_last ∙ ap (λ m. m.last) (sym k.manifest),
              ap (λ cs. replay apply (replay apply s cs) p.buffered)
                    (k.aofs g (ground (arith, at_last)))
                  ∙ r,
              ap (λ m. lists_snapshot m g) k.manifest ∙ unused,
            );
        jobs = λ j e. absurd (ground (arith, idle));
        alone = λ j e. absurd (ground (arith, idle));
        written = λ j e. absurd (ground (arith, idle));
      }

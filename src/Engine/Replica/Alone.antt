-- ===== src/Engine/Replica/Alone.antt =====
-- engine/engine.py: the engine of a replica, which feeds no stream of its own, on a disk that works.
use redis_like_data_storage.Prelude.{
  Option, none, some, [], ◌∷◌, ◌++◌, Bool, true, false, ◌==◌, ◌≡◌, refl, ap, sym, ◌∙◌, arith, ok,
  length, Bool-cases, Option-cases, inl, inr,
}
use redis_like_data_storage.Store.{Store}
use redis_like_data_storage.Engine.{
  Effect, Engine, Aof, later, append_record, append_effect, feed_effect, propagate, commit_records,
  commit_aof, flush, commit, is_zero, commit_unless_held,
}
use redis_like_data_storage.Engine.Effects.{is_logging, all_work}
use redis_like_data_storage.Engine.Effects.Log.{works_first, works_later}

-- Without persistence, or with a log that is open and has not failed.
unfoldable pub may_log : Option Aof → Bool
unfolding is_logging
may_log none = true
may_log (some a) = is_logging (some a)

pub record IsReplica {V : Type 0} (e : Engine V) : Type 0 where
  pub is_live : e.replaying ≡ false
  pub logs : may_log e.persistence ≡ true
  pub feeds_none : e.replication ≡ none
  pub disk_works : all_work e.disk ≡ true

-- The store is the same, and the engine still a replica's.
abbrev pub IsAlone : {V : Type 0} → Engine V → Engine V → Type 0
IsAlone e e' = IsReplica e' × (e'.store ≡ e.store) × (e'.commit_depth ≡ e.commit_depth)

module _ {V : Type 0} where
  pub IsReplica-store :
      (e : Engine V) (s : Store V) → IsReplica e → IsReplica (record e { store = s })
  IsReplica-store e s r = record {
    is_live = r.is_live;
    logs = r.logs;
    feeds_none = r.feeds_none;
    disk_works = r.disk_works;
  }

  pub propagate-IsAlone :
      (x : Effect) (e : Engine V)
      → IsReplica e
      → (e' : Engine V) × (propagate x e ≡ (ok tt, e')) × IsAlone e e'
  unfolding propagate append_effect append_record feed_effect may_log is_logging
  propagate-IsAlone x e r = elim (Option-cases e.persistence) [
    | inl memory ↦ (e, ground (arith, memory, r.feeds_none, r.is_live), (r, refl, refl))
    | inr (a, found) ↦
        let logs : may_log (some a) ≡ true = ap may_log (sym found) ∙ r.logs in
        let e' : Engine V = record e {
          persistence = some (record a { records = a.records ++ x ∷ [] });
          disk = later e.disk;
        } in
        (
          e',
          ground (arith, found, r.feeds_none, r.is_live, logs, works_first e.disk r.disk_works),
          (
            record {
              is_live = r.is_live;
              logs = logs;
              feeds_none = r.feeds_none;
              disk_works = works_later e.disk r.disk_works;
            },
            refl,
            refl,
          ),
        )
  ]

  commit-IsAlone :
      (e : Engine V) → IsReplica e → (e' : Engine V) × (commit e ≡ (ok tt, e')) × IsAlone e e'
  unfolding commit commit_aof commit_records flush may_log is_logging
  commit-IsAlone e r = elim (Option-cases e.persistence) [
    | inl memory ↦ (e, ground (arith, memory, r.feeds_none), (r, refl, refl))
    | inr (a, found) ↦
        let logs : may_log (some a) ≡ true = ap may_log (sym found) ∙ r.logs in
        elim (Bool-cases (a.committed == length a.records)) [
          | inl clean ↦ (e, ground (arith, found, r.feeds_none, logs, clean), (r, refl, refl))
          | inr dirty ↦
              let e' : Engine V = record e {
                persistence = some (record a { committed = length a.records });
                disk = later e.disk;
              } in
              (
                e',
                ground (arith, found, r.feeds_none, logs, dirty, works_first e.disk r.disk_works),
                (
                  record {
                    is_live = r.is_live;
                    logs = logs;
                    feeds_none = r.feeds_none;
                    disk_works = works_later e.disk r.disk_works;
                  },
                  refl,
                  refl,
                ),
              )
        ]
  ]

  pub commit_unless_held-IsAlone :
      (e : Engine V)
      → IsReplica e
      → (e' : Engine V) × (commit_unless_held e ≡ (ok tt, e')) × IsAlone e e'
  unfolding commit_unless_held
  commit_unless_held-IsAlone e r = elim (Bool-cases (is_zero e.commit_depth)) [
    | inl free ↦ let (e', done, l) = commit-IsAlone e r in (e', rw free done, l)
    | inr held ↦ (e, rw held refl, (r, refl, refl))
  ]

-- ===== src/Engine/Effects/Log.antt =====
-- engine/engine.py: what `propagate`, `_expired` and `_commit` do on a disk that works.
use redis_like_data_storage.Prelude.{
  String, some, List, [], ◌∷◌, ◌++◌, Bool, true, map, ◌≡◌, refl, arith, ap, sym, ◌∙◌, Bool-cases,
  Option-cases, inl, inr, ok, length, ◌==◌,
}
use mathlib.Core.List.{append_assoc, append-nil}
use redis_like_data_storage.Engine.{
  Effect, Engine, works, later, append_record, append_effect, feed_effect, propagate, announce,
  commit, commit_aof, commit_records, flush, follow, commit_unless_held, is_zero,
}
use redis_like_data_storage.Engine.Effects.{
  del, logged, streamed, is_logging, is_streaming, all_work, IsWorking, IsLogged,
}

pub works_first : (bs : List Bool) → all_work bs ≡ true → works bs ≡ true
unfolding all_work
works_first [] h = refl
works_first (b ∷ bs) h = ground arith

pub works_later : (bs : List Bool) → all_work bs ≡ true → all_work (later bs) ≡ true
unfolding all_work
works_later [] h = refl
works_later (b ∷ bs) h = ground arith

module _ {V : Type 0} where
  pub IsLogged-[] : (e : Engine V) → IsWorking e → IsLogged e [] e
  IsLogged-[] e w = record {
    working = w;
    store = refl;
    log = sym (append-nil (logged e.persistence));
    stream = sym (append-nil (streamed e.replication));
  }

  pub IsLogged-append :
      (e e₁ e' : Engine V) (es fs : List Effect)
      → IsLogged e es e₁
      → IsLogged e₁ fs e'
      → IsLogged e (es ++ fs) e'
  IsLogged-append e e₁ e' es fs a b = record {
    working = b.working;
    store = b.store ∙ a.store;
    log = b.log ∙ ap (λ xs. xs ++ fs) a.log ∙ append_assoc (logged e.persistence) es fs;
    stream = b.stream ∙ ap (λ xs. xs ++ fs) a.stream ∙ append_assoc (streamed e.replication) es fs;
  }

  pub propagate_logs :
      (x : Effect) (e : Engine V)
      → IsWorking e
      → (e' : Engine V) × (propagate x e ≡ (ok tt, e')) × IsLogged e (x ∷ []) e'
  unfolding propagate append_effect append_record feed_effect is_logging is_streaming all_work
      logged streamed
  propagate_logs x e w = elim (Option-cases e.persistence) [
    | inl none_open ↦ ground (arith, w.logs, none_open)
    | inr (a, found) ↦ elim (Option-cases e.replication) [
      | inl none_fed ↦ ground (arith, w.streams, none_fed)
      | inr (f, fed) ↦
          let e' : Engine V = record e {
            persistence = some (record a { records = a.records ++ x ∷ [] });
            disk = later e.disk;
            replication = some (record f { stream = f.stream ++ x ∷ [] });
          } in
          (
            e',
            ground
                (arith, found, fed, w.is_live, w.logs, w.streams, works_first e.disk w.disk_works),
            record {
              working = record {
                is_live = w.is_live;
                logs = ap is_logging (sym found) ∙ w.logs;
                streams = ap is_streaming (sym fed) ∙ w.streams;
                disk_works = works_later e.disk w.disk_works;
              };
              store = refl;
              log = ap (λ xs. xs ++ x ∷ []) (sym (ap logged found));
              stream = ap (λ xs. xs ++ x ∷ []) (sym (ap streamed fed));
            },
          )
    ]
  ]

  pub announce_logs :
      (ks : List String) (e : Engine V)
      → IsWorking e
      → (e' : Engine V) × (announce ks e ≡ (ok tt, e')) × IsLogged e (map del ks) e'
  unfolding announce
  announce_logs [] e w = (e, refl, IsLogged-[] e w)
  announce_logs (key ∷ ks) e w =
      let (e₁, sent, l₁) = propagate_logs (del key) e w in
      let (e', told, l) = announce_logs ks e₁ l₁.working in
      (
        e',
        ap (follow (λ _. announce ks)) sent ∙ told,
        IsLogged-append e e₁ e' (del key ∷ []) (map del ks) l₁ l,
      )

  -- A commit on a disk that works raises nothing.
  pub commit_logs :
      (e : Engine V) → IsWorking e → (e' : Engine V) × (commit e ≡ (ok tt, e')) × IsLogged e [] e'
  unfolding commit commit_aof commit_records flush is_logging is_streaming all_work logged streamed
  commit_logs e w = elim (Option-cases e.persistence) [
    | inl none_open ↦ ground (arith, w.logs, none_open)
    | inr (a, found) ↦ elim (Option-cases e.replication) [
      | inl none_fed ↦ ground (arith, w.streams, none_fed)
      | inr (f, fed) ↦ elim (Bool-cases (a.committed == length a.records)) [
        | inl clean ↦
            let e' : Engine V = record e {
              replication = some (record f { flushed = length f.stream });
            } in
            (
              e',
              ground (arith, found, fed, clean, w.logs),
              record {
                working = record {
                  is_live = w.is_live;
                  logs = w.logs;
                  streams = ap is_streaming (sym fed) ∙ w.streams;
                  disk_works = w.disk_works;
                };
                store = refl;
                log = sym (append-nil (logged e.persistence));
                stream = ap streamed (sym fed) ∙ sym (append-nil (streamed e.replication));
              },
            )
        | inr dirty ↦
            let e' : Engine V = record e {
              persistence = some (record a { committed = length a.records });
              disk = later e.disk;
              replication = some (record f { flushed = length f.stream });
            } in
            (
              e',
              ground (arith, found, fed, dirty, w.logs, works_first e.disk w.disk_works),
              record {
                working = record {
                  is_live = w.is_live;
                  logs = ap is_logging (sym found) ∙ w.logs;
                  streams = ap is_streaming (sym fed) ∙ w.streams;
                  disk_works = works_later e.disk w.disk_works;
                };
                store = refl;
                log = ap logged (sym found) ∙ sym (append-nil (logged e.persistence));
                stream = ap streamed (sym fed) ∙ sym (append-nil (streamed e.replication));
              },
            )
      ]
    ]
  ]

  pub commit_unless_held_logs :
      (e : Engine V)
      → IsWorking e
      → (e' : Engine V) × (commit_unless_held e ≡ (ok tt, e')) × IsLogged e [] e'
  unfolding commit_unless_held
  commit_unless_held_logs e w = elim (Bool-cases (is_zero e.commit_depth)) [
    | inl free ↦ let (e', done, l) = commit_logs e w in (e', rw free done, l)
    | inr held ↦ (e, rw held refl, IsLogged-[] e w)
  ]

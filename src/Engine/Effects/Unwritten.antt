-- ===== src/Engine/Effects/Unwritten.antt =====
-- engine/engine.py, `propagate`, where the record of an effect cannot be written.
use redis_like_data_storage.Prelude.{
  some, [], ◌∷◌, ◌++◌, true, false, ◌≡◌, refl, arith, ap, ok, raise, persistence_write_error,
}
use redis_like_data_storage.Engine.{
  Effect, Engine, Aof, Feed, works, later, append_record, append_effect, feed_effect, propagate,
}
use redis_like_data_storage.Engine.Effects.{logged, streamed}

module _ {V : Type 0} where
  -- Where the record of an effect cannot be written, `propagate` raises, the stream does not get
  -- the effect and the store keeps what was done; the next effect is sent and not logged, and
  -- nothing is raised.
  pub propagate_unwritten :
      (x y : Effect) (e : Engine V) (a : Aof) (f : Feed)
      → e.replaying ≡ false
      → e.persistence ≡ some a
      → a.is_open ≡ true
      → a.write_error ≡ false
      → e.replication ≡ some f
      → f.active ≡ true
      → works e.disk ≡ false
      → (e₁ e₂ : Engine V) × (propagate x e ≡ (raise persistence_write_error, e₁))
        × (e₁.store ≡ e.store)
        × (streamed e₁.replication ≡ f.stream)
        × (propagate y e₁ ≡ (ok tt, e₂))
        × (streamed e₂.replication ≡ f.stream ++ y ∷ [])
        × (logged e₂.persistence ≡ a.records)
  unfolding propagate append_effect append_record feed_effect logged streamed
  propagate_unwritten x y e a f live logs opened fine feeds active broken =
      let failed : Aof = record a { write_error = true } in
      let e₁ : Engine V = record e { persistence = some failed; disk = later e.disk } in
      let e₂ : Engine V = record e₁ {
        replication = some (record f { stream = f.stream ++ y ∷ [] });
      } in
      (
        e₁,
        e₂,
        ground (arith, live, logs, opened, fine, broken),
        refl,
        ap streamed feeds,
        ground (arith, live, feeds, opened, active),
        refl,
        refl,
      )

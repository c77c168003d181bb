-- ===== src/Replication/State/Fork.antt =====
-- A promotion forks the history: who may go on from where afterwards.
use redis_like_data_storage.Prelude.{
  ℕ, String, true, false, ◌&&◌, ◌||◌, ◌≡◌, ◌≢◌, refl, arith, some, List, [], ◌∷◌, ◌++◌, take, drop,
  length, ◌-◌, ◌≤◌, ◌<◌, take-append_left,
}
use mathlib.Core.List.{flatten, append-nil, append_assoc}
use redis_like_data_storage.Prelude.Int.{ℤ, pos, leb_ℤ}
use redis_like_data_storage.Replication.Backlog
use redis_like_data_storage.Replication.Backlog.{Backlog}
use redis_like_data_storage.Replication.Backlog.Window.{
  IsWindow, append-IsWindow, take-append-since,
}
use redis_like_data_storage.Replication.State.{State, offset, can_continue, fork, same_id}

-- Bytes that the node takes after the fork, in any number of calls of `append`.
unfoldable pub feed_all : Backlog → List (List ℕ) → Backlog
feed_all b [] = b
feed_all b (bytes ∷ rest) = feed_all (Backlog.append b bytes) rest

abbrev pub feed : State → List (List ℕ) → State
feed s parts = record s { backlog = feed_all s.backlog parts }

pub feed_all-IsWindow :
    (base : ℕ) (stream : List ℕ) (parts : List (List ℕ)) (b : Backlog)
    → IsWindow base stream b
    → IsWindow base (stream ++ flatten parts) (feed_all b parts)
unfolding feed_all flatten
feed_all-IsWindow base stream [] b w = rw append-nil w
feed_all-IsWindow base stream (bytes ∷ rest) b w = rw (← append_assoc stream bytes (flatten rest)) (
    feed_all-IsWindow base (stream ++ bytes) rest (Backlog.append b bytes)
      (append-IsWindow base stream bytes b w))

-- Who may go on after a promotion and any writes since: the new history from anywhere in the
-- backlog, the old one up to the fork, and no other.
pub can_continue-fork :
    (s : State) (fresh replid : String) (parts : List (List ℕ)) (o : ℤ)
    → can_continue (feed (fork s fresh) parts) replid o
      ≡ (same_id replid fresh || same_id replid s.replid && leb_ℤ o (pos (offset s)))
        && Backlog.contains (feed_all s.backlog parts) o
unfolding can_continue fork
can_continue-fork s fresh replid parts o = refl

-- A replica of the old history that may go on gets exactly what it lacks: its bytes and the answer
-- are the stream up to the promotion with the new writes behind it.
pub partial_resync :
    (base : ℕ) (stream : List ℕ) (s : State) (fresh : String) (parts : List (List ℕ)) (o : ℕ)
    → IsWindow base stream s.backlog
    → fresh ≢ s.replid
    → can_continue (feed (fork s fresh) parts) s.replid (pos o) ≡ true
    → (bytes : List ℕ) × (Backlog.since (feed_all s.backlog parts) (pos o) ≡ some bytes)
      × (take (o - base) stream ++ bytes ≡ stream ++ flatten parts)
partial_resync base stream s fresh parts o w new h =
    let b = feed_all s.backlog parts in
    let w' = feed_all-IsWindow base stream parts s.backlog w in
    let bytes = drop (o - b.start) b.buf in
    let held : Backlog.contains b (pos o) ≡ true =
      ground (arith, can_continue-fork s fresh s.replid parts (pos o)) in
    let early : o - base ≤ length stream =
      ground (arith, can_continue-fork s fresh s.replid parts (pos o), w.end_at) in
    let answer : Backlog.since b (pos o) ≡ some bytes = unfold Backlog.since in rw held in
    (
      bytes,
      answer,
      rw (← take-append_left (o - base) stream (flatten parts) early)
          (take-append-since base (stream ++ flatten parts) bytes b (pos o) w' answer),
    )

-- A former primary that wrote on past the promotion has to resync fully.
pub diverged_resyncs :
    (s : State) (fresh : String) (parts : List (List ℕ)) (o : ℕ)
    → fresh ≢ s.replid
    → offset s < o
    → can_continue (feed (fork s fresh) parts) s.replid (pos o) ≡ false
diverged_resyncs s fresh parts o new h =
    ground (arith, can_continue-fork s fresh s.replid parts (pos o))

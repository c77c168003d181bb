-- ===== src/Persistence/Writer/Durable.antt =====
-- What `AOFWriter` (engine/persistence/aof.py) promises of the bytes that it was given.
use redis_like_data_storage.Prelude.{
  ℕ, ◌≤◌, ◌<◌, ◌≡◌, refl, sym, ap, ◌∙◌, List, [], ◌∷◌, ◌++◌, true, false, if◌then◌else◌, length,
  length-append, take, drop, take-append-drop, take_all, arith,
}
use mathlib.Core.List.{append_assoc, append-nil}
use redis_like_data_storage.Protocol.Bytes.{Bytes}
use redis_like_data_storage.Persistence.Records.{frame_record}
use redis_like_data_storage.Persistence.Writer.{
  AofWriter, FsyncPolicy, always, everysec, open_writer, append, spill, fsync, after_flush, commit,
  thread_starts, thread_ends,
}

-- Everything that was appended, in order.
abbrev pub written : AofWriter → Bytes
written w = w.handed ++ w.buffered

-- What the engine does with a writer between two commits.
pub data Event : Type 0 where
  appended : Bytes → Event
  spilled : ℕ → Event
  committed : Event

-- The calls of the engine, with a system that does not fail.
unfoldable pub happens : (Bytes → ℕ) → Event → AofWriter → AofWriter
unfolding append spill commit
happens crc32 (appended payload) w = append crc32 payload w
happens crc32 (spilled n) w = if w.dirty then spill n w else w
happens crc32 committed w = (commit true true w).0

unfoldable pub happen : (Bytes → ℕ) → List Event → AofWriter → AofWriter
unfolding happens
happen crc32 [] w = w
happen crc32 (e ∷ es) w = happen crc32 es (happens crc32 e w)

-- What was appended, framed.
unfoldable pub payloads : (Bytes → ℕ) → List Event → Bytes
payloads crc32 [] = []
payloads crc32 (appended payload ∷ es) = frame_record crc32 payload ++ payloads crc32 es
payloads crc32 (spilled n ∷ es) = payloads crc32 es
payloads crc32 (committed ∷ es) = payloads crc32 es

-- A writer whose flags tell the truth, with no fsync of the thread under way.
abbrev pub IsHonest : AofWriter → Type 0
IsHonest w =
    (w.dirty ≡ false → w.buffered ≡ [])
    × (w.dirty ≡ false → w.unsynced ≡ false → w.synced ≡ length w.handed)
    × (w.synced ≤ length w.handed)
    × (w.policy ≡ always → w.unsynced ≡ false)

happens-IsHonest :
    (crc32 : Bytes → ℕ) (e : Event) (w : AofWriter) → IsHonest w → IsHonest (happens crc32 e w)
unfolding happens append spill commit after_flush fsync
happens-IsHonest crc32 (appended payload) w h = ground (arith)
happens-IsHonest crc32 (spilled n) w h = ground (arith, length-append w.handed (take n w.buffered))
happens-IsHonest crc32 committed w h = ground (arith, length-append w.handed w.buffered)

happens-written :
    (crc32 : Bytes → ℕ) (e : Event) (w : AofWriter)
    → IsHonest w
    → written (happens crc32 e w) ≡ written w ++ payloads crc32 (e ∷ [])
unfolding happens append spill commit after_flush fsync payloads
happens-written crc32 (appended payload) w h = ground (
  arith,
  append_assoc w.handed w.buffered (frame_record crc32 payload),
  append-nil (frame_record crc32 payload),
)
happens-written crc32 (spilled n) w h = ground (
  arith,
  append_assoc w.handed (take n w.buffered) (drop n w.buffered),
  take-append-drop n w.buffered,
  append-nil (w.handed ++ w.buffered),
)
happens-written crc32 committed w h = ground (arith, append-nil (w.handed ++ w.buffered))

happens-policy :
    (crc32 : Bytes → ℕ) (e : Event) (w : AofWriter) → (happens crc32 e w).policy ≡ w.policy
unfolding happens append spill commit after_flush fsync
happens-policy crc32 (appended payload) w = refl
happens-policy crc32 (spilled n) w = ground arith
happens-policy crc32 committed w = ground arith

payloads-cons :
    (crc32 : Bytes → ℕ) (e : Event) (es : List Event)
    → payloads crc32 (e ∷ es) ≡ payloads crc32 (e ∷ []) ++ payloads crc32 es
unfolding payloads
payloads-cons crc32 (appended payload) es =
    ap (λ xs. xs ++ payloads crc32 es) (sym (append-nil (frame_record crc32 payload)))
payloads-cons crc32 (spilled n) es = refl
payloads-cons crc32 committed es = refl

-- Nothing is lost, doubled or swapped on the way through the buffer.
happen-written :
    (crc32 : Bytes → ℕ) (es : List Event) (w : AofWriter)
    → IsHonest w
    → IsHonest (happen crc32 es w)
      × (written (happen crc32 es w) ≡ written w ++ payloads crc32 es)
      × ((happen crc32 es w).policy ≡ w.policy)
unfolding happen payloads
happen-written crc32 [] w h = (h, sym (append-nil (written w)), refl)
happen-written crc32 (e ∷ es) w h =
    let (honest, later, policy) =
      happen-written crc32 es (happens crc32 e w) (happens-IsHonest crc32 e w h) in
    (
      honest,
      later
          ∙ ap (λ xs. xs ++ payloads crc32 es) (happens-written crc32 e w h)
          ∙ append_assoc (written w) (payloads crc32 (e ∷ [])) (payloads crc32 es)
          ∙ ap (◌++◌ (written w)) (sym (payloads-cons crc32 e es)),
      policy ∙ happens-policy crc32 e w,
    )

commit-hands :
    (w : AofWriter)
    → IsHonest w
    → ((commit true true w).0.buffered ≡ [])
      × ((commit true true w).0.handed ≡ written w)
      × (w.policy ≡ always → (commit true true w).0.synced ≡ length (commit true true w).0.handed)
unfolding commit after_flush fsync
commit-hands w h = ground (arith, append-nil w.handed)

open_writer-IsHonest :
    (policy : FsyncPolicy) (content : Bytes) → IsHonest (open_writer policy content)
open_writer-IsHonest policy content = ground arith

-- After any appends, spills of the buffer and commits on a system that does not fail, a commit has
-- handed to the system the old content and every appended record in order, with nothing left in the
-- buffer; and under `always` all of that is on disk.
pub commit-durable :
    (crc32 : Bytes → ℕ) (policy : FsyncPolicy) (content : Bytes) (es : List Event)
    → let w = (commit true true (happen crc32 es (open_writer policy content))).0 in
      (w.handed ≡ content ++ payloads crc32 es)
      × (w.buffered ≡ [])
      × (policy ≡ always → take w.synced w.handed ≡ content ++ payloads crc32 es)
commit-durable crc32 policy content es =
    let start = open_writer policy content in
    let before = happen crc32 es start in
    let w = (commit true true before).0 in
    let (honest, wrote, same) =
      happen-written crc32 es start (open_writer-IsHonest policy content) in
    let (empty, handed, synced) = commit-hands before honest in
    let whole : w.handed ≡ content ++ payloads crc32 es =
      handed ∙ wrote ∙ ap (λ xs. xs ++ payloads crc32 es) (append-nil content) in
    (whole, empty, λ e. take_all w.synced w.handed (omega (arith, synced (same ∙ e))) ∙ whole)

-- Where the thread of `everysec` has begun an fsync, and a command is appended and committed before
-- that fsync ends, the writer says afterwards that nothing is unsynced, and reports no error, while
-- the bytes of that command are not on disk.
pub thread_ends-overlap :
    (crc32 : Bytes → ℕ) (payload : Bytes) (w : AofWriter)
    → IsHonest w
    → w.policy ≡ everysec
    → w.unsynced ≡ true
    → let committed_ = (commit true true (append crc32 payload (thread_starts w))).0 in
      let after = thread_ends true committed_ in
      (after.unsynced ≡ false)
      × (after.dirty ≡ false)
      × (after.background_error ≡ w.background_error)
      × (after.synced < length after.handed)
unfolding thread_ends thread_starts commit append after_flush fsync frame_record
thread_ends-overlap crc32 payload w h policy flag = ground (
  arith,
  length-append w.handed (w.buffered ++ frame_record crc32 payload),
  length-append w.buffered (frame_record crc32 payload),
)

-- ===== src/Examples/Streams.antt =====
-- A backlog of four bytes and a promotion in the replication stream.
use text.Mathlib.TextEquality.{eq_iff}
use redis_like_data_storage.Prelude.{
  ℕ, ◌-◌, String, [], ◌∷◌, ◌++◌, ◌≡◌, ◌≢◌, refl, str_discrete, true, false, List, raise,
  value_error, some, none, arith, take,
}
use mathlib.Core.List.{flatten}
use redis_like_data_storage.Prelude.Int.{pos, negsuc}
use redis_like_data_storage.Replication.Backlog
use redis_like_data_storage.Replication.Backlog.{Backlog, append, since, reset}
use redis_like_data_storage.Replication.Backlog.Window.{IsWindow, init-IsWindow, append-IsWindow}
use redis_like_data_storage.Replication.State.{State, can_continue, fork}
use redis_like_data_storage.Replication.State.Fork.{
  feed, feed_all, partial_resync, diverged_resyncs,
}

abbrev fresh : Backlog
fresh = record { capacity = 4; buf = []; start = 10; end = 10 }

abbrev bytes : List ℕ
bytes = 1 ∷ 2 ∷ 3 ∷ 4 ∷ 5 ∷ 6 ∷ []

abbrev full : Backlog
full = append fresh bytes

stream_runs : Unit {0}
unfolding Backlog.init append since reset can_continue fork feed_all str_discrete
stream_runs = tt

-- Six bytes into four: the first two are gone.
full_runs : full ≡ record { capacity = 4; buf = 3 ∷ 4 ∷ 5 ∷ 6 ∷ []; start = 12; end = 16 }
unfolding stream_runs
full_runs = refl

full_serves :
    (since full (pos 14) ≡ some (5 ∷ 6 ∷ []))
    × (since full (pos 11) ≡ none)
    × (since full (negsuc 0) ≡ none)
unfolding stream_runs
full_serves = (refl, refl, refl)

no_capacity : Backlog.init 0 10 ≡ raise value_error
unfolding stream_runs
no_capacity = refl

fresh-IsWindow : IsWindow 10 [] fresh
unfolding stream_runs
fresh-IsWindow = init-IsWindow 4 10 fresh refl

append-IsWindow_example : IsWindow 10 ([] ++ bytes) (append fresh bytes)
append-IsWindow_example = append-IsWindow 10 [] bytes fresh fresh-IsWindow

full-IsWindow : IsWindow 10 bytes full
full-IsWindow = append-IsWindow 10 [] bytes fresh fresh-IsWindow

abbrev primary : State
primary = record { backlog = full; replid = "old"; replid2 = "older"; second_offset = negsuc 0 }

new_id : ◌≢◌ {A = String} "new" "old"
new_id = ground (arith, eq_iff "new" "old")

abbrev writes : List (List ℕ)
writes = (7 ∷ []) ∷ (8 ∷ []) ∷ []

goes_on : can_continue (feed (fork primary "new") writes) "old" (pos 15) ≡ true
unfolding stream_runs
goes_on = refl

partial_resync_example :
    (b : List ℕ) × (since (feed_all primary.backlog writes) (pos 15) ≡ some b)
    × (take (15 - 10) bytes ++ b ≡ bytes ++ flatten writes)
partial_resync_example =
    partial_resync 10 bytes primary "new" writes 15 full-IsWindow new_id goes_on

diverged_resyncs_example : can_continue (feed (fork primary "new") writes) "old" (pos 17) ≡ false
unfolding stream_runs
diverged_resyncs_example = diverged_resyncs primary "new" writes 17 new_id (omega arith)

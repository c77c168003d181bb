-- ===== src/Lib.antt =====
-- kvstore, a Redis-compatible distributed key-value store in Python (src/kvstore): its verification
-- library. Paths are from the repository's root.
--
-- The program. A node reads commands from its clients in the wire protocol of Redis
-- (src/kvstore/protocol/resp.py), and an engine (src/kvstore/engine/engine.py) runs them against one
-- keyspace, in one thread, by the handlers of engine/commands. The keyspace (engine/store.py) maps keys to
-- entries (engine/entry.py), each a value with a deadline and the bytes it is accounted with. It tells an
-- eviction policy (engine/eviction) of every insertion, use and removal, and asks it for victims while it
-- is over a limit; it keeps the keys that have a deadline in a key set (engine/keyset.py), from which it
-- samples for expiry; and it can copy itself in slices between commands, for persistence and for a new
-- replica. What a write did is one command, encoded once, for the append-only file and for the replicas.
-- The file's records carry checksums (engine/persistence/aof.py); a rewrite replaces the file by a snapshot
-- and a new file, and a manifest says which files count (engine/persistence/manager.py). The replicas get
-- one stream of bytes, whose last part the primary keeps as a backlog (replication/stream.py), under a
-- history id that a promotion changes (replication/primary.py). A cluster spreads keys over nodes by a
-- consistent-hash ring (cluster/hash_ring.py).
--
-- The files, all under the module of the same name.
--   Prelude: what the others share: lists, tests, integers, texts, and exceptions as values
--     (`Result`; the errors are those that the modelled code raises).
--   Dict: a Python dict as the list of its items in the order of insertion.
--   KeySet: `SampleableKeySet`, an array with an index map. Invariant has the agreement of the two,
--     and Sets what the operations do to the set.
--   Eviction: Env is the clock and the random source. Lru, Lfu and Simple are the policies of lru.py,
--     lfu.py and simple.py, Policy is any one of them (base.py, and `create_eviction_policy` of
--     __init__.py). Lru/Recency relates the order to the last uses, Lfu/Counters has the bounds of the
--     counters, Lfu/Victim the choice, and Policy/Tracking that a policy tracks the keys of a dict.
--   Store: store.py. The state and `_lookup`, `_remove`, `_expire` and `snapshot_barrier` are in
--     Store, what the store asks of values in Store/Interface, the reads and writes in Store/Keyspace
--     (`get`, `set`, `delete`, `set_expiry`, `persist`, `read`, `write_target`, `refresh`,
--     `load_record`), `evict_if_needed`, `expire_cycle` and `purge_expired` in Store/Limits, `snapshot`,
--     `begin_snapshot`, `SnapshotJob.step`, `abandon_snapshot` and `clear` in Store/Snapshot. The
--     invariants are in Store/Consistent: the policy tracks the keys, the key set holds those with a
--     deadline, and `used_memory` is the sum of the sizes. Store/Lookup and Store/Writes with its children
--     are about the operations, Store/Calls about the calls of `on_expire`, Limits/Evict and Limits/Expiry
--     about the loops, and the children of Snapshot about what a snapshot records: Records, Copying, Slices,
--     Changes, Marks, PointInTime, and Operations, where removals and SET are such changes.
--   Datatypes: `ListValue`, `HashValue` and `SetValue` of engine/datatypes/containers.py, each with its
--     byte estimate; ListValue/Range and ListValue/Sizes are about the first.
--   Protocol: resp.py and core/codec.py. Bytes has the bytes and the searches in them, Decimal the decimal
--     numbers, Codec the UTF-8 with `surrogateescape`, Encoding the encoders, Requests the
--     `RequestParser`, Replies the `ReplyParser`. Requests/Stream has a parser without a buffer to compare
--     with, Requests/Pieces is about requests in pieces, Requests/Oversized about the limit, Replies/Fuel
--     about the recursion, and the modules RoundTrip are about what the encoders wrote.
--   Persistence: Records is the format of aof.py, Replay is `replay_aof`, Writer is `AOFWriter` with its
--     thread, and Manager is `Persistence` of manager.py with its manifest and its rewrites. Records/Headers
--     and Records/RoundTrip are about single records, Replay/Steps, Replay/Records and Replay/Crash about
--     files, Writer/Durable about what is on disk. Of Manager, Safe says when the files and the buffer make the
--     keyspace, Commits, Rewrites and Finishes that the operations keep it so, Kept is about the deletion of
--     files, Found says what a kill or a power failure leaves, Behind that this is as safe, and Recovery is
--     about the next start.
--   Engine: engine.py. The state, `propagate`, `_commit` and the holds are in Engine, `execute`, `_run`
--     and `_apply` in Engine/Execute, `apply_replicated` in Engine/Replica, with Alone about a replica's own effects. Engine/Effects says what it is
--     that the effects tell of the keyspace; Log, Steps, Faithful and Told, its children, go from `propagate` to
--     `execute`, and Unwritten is about a disk that fails.
--   Commands: Registry is the metadata of commands (registry.py), Keyspace the commands on keys of any type
--     (keyspace.py), Strings those on strings (strings.py). Keyspace/Deletes, Told and Table are about
--     the effects of DEL, UNLINK, EXISTS and DBSIZE, Keyspace/Late about deadlines in the stream, Strings/Options about the options of SET.
--   HashRing: `ConsistentHashRing`, with the hash as a parameter; Tag is `hash_slot_key`. Points,
--     Clockwise and Invariant are about the ring, Added, Removed and Removal about its changes.
--   Replication: Backlog is `Backlog`, with the window that it is on the stream in Backlog/Window;
--     Commands is the parser of the stream; State is `ReplicationState`, with promotions in State/Fork.
--   Examples: runs on concrete inputs.
--
-- How the code is modelled. A method is a function from the state, and from what it reads of the world,
-- to its result and the new state; a raise is a value, beside the new state in the engine and the handlers,
-- where what was done before it stays. Deadlines and the clock are whole milliseconds, where the code has
-- float seconds. Byte counts are integers that may be negative, as in the code. A value is of a type that
-- the interface leaves open (Store/Interface), and is never changed in place: a command's change of a
-- collection is `mutate`, which puts the new value at the key and leaves the accounted size, as the code
-- does until `refresh`. The callbacks `on_expire` and `on_done` are the lists of their calls; the engine
-- makes those of `on_expire` when the method of the store returns. `random.sample` and `random.random` are
-- arguments, and `IsRandom` says what Python documents of them. The hash of the ring is an argument, and so
-- are `zlib.crc32`, what `json` reads of an old record, `str.upper`, and `int()` of a command's argument.
--
-- Bytes are numbers, and a text of the wire is the list of its code points. `int()` reads ASCII digits, of
-- any number. A float is the text that `format_float` made of it. A call of the operating system that may
-- fail takes whether it does not, or finds it in a list. The engine's effects are not encoded: they are
-- encoded once, by `encode_command`, for both destinations. In Manager an AOF is the list of its commands,
-- since Replay and Records say how they are read: those in the writer's buffer, those that the system has,
-- how many of these are on disk, and whether a part of a record is behind them. `Manifest.save` replaces
-- the manifest in one step. A method that changes several files is the list of its changes (`FileOp`), of
-- which a kill leaves the first ones. A power failure takes from the last AOF what was not flushed.
--
-- Loops are recursion over a list, but for these. `evict_if_needed` has fuel, one more than there are keys:
-- each turn removes a key, so that the loop ends before the fuel does. `expire_cycle` has the 16 rounds
-- of the code. `replay_aof` has fuel for the bytes of the file, of which a turn takes one at least.
-- `parse_reply` has fuel for the bytes that are unread, of which each level of nesting takes one.
--
-- On a replica a lookup hides an expired key without deleting it. A write that meets such a key would put
-- a new entry beside the accounted size of the old one. So SET and `write_target` have the hypothesis
-- `HidesNothing`, which the primary meets, and a replica too: `apply_replicated` of engine/engine.py
-- turns `expiry_enabled` off while it runs.
--
-- What is not modelled: sorted sets; the commands on values but strings, and KEYS, DUMP, RESTORE, MGET
-- and INCRBYFLOAT; of the engine its
-- loading, rewrites, cron and INFO; of persistence the bytes of a snapshot, and in Manager
-- write errors of the current AOF, and power failures while an AOF before the last is not yet flushed; the replication links, and the rest of the cluster; the
-- servers, clients, settings and metrics, which are input and output. Of store.py the generator `iter_keys`
-- is left out. Time does not pass within a call. Of the ring the property `nodes` is left out. The locks
-- are left out, as all callers of the server are on its one event loop.
mod Prelude
pub mod Dict
pub mod KeySet
pub mod Protocol
pub mod Persistence
pub mod Engine
pub mod Commands
pub mod Replication
pub mod HashRing
mod Examples
pub mod Eviction
pub mod Store
pub mod Datatypes

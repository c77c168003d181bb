-- ===== src/Commands/Keyspace/Late.antt =====
-- engine/engine.py, `apply_replicated` of a PEXPIREAT (engine/commands/keyspace.py), where a replica is late.
use redis_like_data_storage.Dict
use redis_like_data_storage.Eviction.Env.{Env}
use redis_like_data_storage.Store.{Store}
use redis_like_data_storage.Engine.{Engine}

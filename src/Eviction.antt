-- ===== src/Eviction.antt =====
-- engine/eviction: the four policies, as `create_eviction_policy` chooses among them. The store
-- tells its policy of every insert, access and removal, and asks it for victims.
pub mod Env
pub mod Lru
pub mod Lfu
pub mod Simple
pub mod Policy

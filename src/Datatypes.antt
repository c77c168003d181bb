-- ===== src/Datatypes.antt =====
-- engine/datatypes: the collections that a key can hold, each with a running estimate of its bytes.
pub mod ListValue
pub mod HashValue
pub mod SetValue

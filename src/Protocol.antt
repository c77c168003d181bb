-- ===== src/Protocol.antt =====
-- The wire protocol: core/codec.py and protocol/resp.py.
pub mod Bytes
pub mod Decimal
pub mod Codec
pub mod Encoding
pub mod Requests
pub mod Replies

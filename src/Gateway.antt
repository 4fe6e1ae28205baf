-- ===== src/Gateway.antt =====
-- remote/gateway: chunked uploads and pairing.
pub mod Chunks
pub mod Pairing

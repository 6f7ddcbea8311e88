-- ===== src/Discovery.antt =====
-- discovery/impl/local.go: the peers that are kept for a payload.
pub mod Local
pub mod Peers

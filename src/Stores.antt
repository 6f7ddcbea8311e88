-- ===== src/Stores.antt =====
-- stores: the trackers of open blockstores.
pub mod Tracking

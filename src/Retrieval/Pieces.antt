-- ===== src/Retrieval/Pieces.antt =====
-- retrievalmarket/impl/provider_pieces.go: the pieces that hold a payload, and the choice of one of
-- them.
pub mod Failure
pub mod Identity
pub mod Search
pub mod Links
pub mod Choice
pub mod Causes

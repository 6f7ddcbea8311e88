-- ===== src/Retrieval.antt =====
-- retrievalmarket: the retrieval market.
pub mod Params
pub mod Status
pub mod Client
pub mod Voucher
pub mod Provider
pub mod Pieces
pub mod Pricing
pub mod Query
pub mod AskStore
pub mod Validation
pub mod DataTransfer
pub mod Protocol
pub mod Quotes

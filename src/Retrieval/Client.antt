-- ===== src/Retrieval/Client.antt =====
-- retrievalmarket/types.go and retrievalmarket/impl/clientstates: the retrieval client's record of
-- a deal, the table of its deal machine, and the entry function of each state.
pub mod Deal
pub mod Setup
pub mod Transfer
pub mod Closing
pub mod Table
pub mod Env
pub mod Handlers
pub mod Accepts
pub mod Accounts
pub mod Payments
pub mod Lifecycle
pub mod Settling
pub mod Requests

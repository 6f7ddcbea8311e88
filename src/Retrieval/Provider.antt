-- ===== src/Retrieval/Provider.antt =====
-- retrievalmarket/types.go and retrievalmarket/impl/providerstates: the retrieval provider's record
-- of a deal, the table of its deal machine, and the entry function of each state.
pub mod Deal
pub mod Table
pub mod Env
pub mod Handlers
pub mod Accepts
pub mod Funding
pub mod Accounts

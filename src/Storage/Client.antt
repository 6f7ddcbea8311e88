-- ===== src/Storage/Client.antt =====
-- storagemarket/types.go and storagemarket/impl/clientstates: the storage client's record of a deal,
-- the table of its deal machine, and the entry function of each state.
pub mod Deal
pub mod Table
pub mod Actions
pub mod Env
pub mod Handlers
pub mod Closing
pub mod Accepts
pub mod Follows
pub mod Funds
pub mod Release

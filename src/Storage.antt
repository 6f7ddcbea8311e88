-- ===== src/Storage.antt =====
-- storagemarket: the storage market.
pub mod Proposal
pub mod Validation
pub mod Acceptable
pub mod Pricing
pub mod Status
pub mod Stages
pub mod Phases
pub mod Amounts
pub mod Client
pub mod Provider
pub mod Requests
pub mod DataTransfer
pub mod Protocol
pub mod Timeline
pub mod Listing
pub mod Creation
pub mod Pages
pub mod StatusQuery
pub mod Polling
pub mod Ask
pub mod AskKeeping
pub mod AskQuery
pub mod AskAnswers
pub mod Proposing
pub mod Receiving
pub mod Begins
pub mod Import
pub mod Imports
pub mod Connections
pub mod Escrow

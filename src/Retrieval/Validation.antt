-- ===== src/Retrieval/Validation.antt =====
-- retrievalmarket/impl/requestvalidation/requestvalidation.go: what the provider answers to the
-- opening and to the restart of a transfer; retrievalmarket/impl/provider_environments.go: how the
-- deal's state machine is begun.
pub mod Env
pub mod Pull
pub mod Restart
pub mod Debts
pub mod Decision
pub mod Acceptance
pub mod Statuses

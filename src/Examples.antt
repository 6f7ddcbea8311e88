-- ===== src/Examples.antt =====
-- Runs of the model at concrete inputs, and the theorems applied to them.
mod Data
mod Schedules
mod Clients
mod Providers
mod Pulls
mod Searches
mod Storage
mod Pieces
mod StorageData
mod StorageClients
mod StorageProviders
mod StorageTalks
mod Peers
mod StorageAsks

-- ===== src/Storage/Proposal.antt =====
-- storagemarket/types.go: `StorageAsk`; and the proposal of a storage deal, a type of the market
-- actor, with the fields that this repository reads. The label is given by its length.
use go_fil_markets.Prelude.{ℕ, Bool}
use go_fil_markets.Prelude.Int.{ℤ}
use go_fil_markets.Retrieval.Params.{Cid}
use go_fil_markets.Retrieval.Client.Deal.{Address}

pub record StorageAsk : Type 0 where
  pub price : ℤ
  pub verified_price : ℤ
  pub min_piece_size : ℕ
  pub max_piece_size : ℕ
  pub miner : Address
  pub timestamp : ℤ
  pub expiry : ℤ
  pub seq_no : ℕ

pub record StorageProposal : Type 0 where
  pub piece_cid : Cid
  pub piece_size : ℕ
  pub verified_deal : Bool
  pub client : Address
  pub provider : Address
  pub label_length : ℕ
  pub start_epoch : ℤ
  pub end_epoch : ℤ
  pub storage_price_per_epoch : ℤ
  pub provider_collateral : ℤ
  pub client_collateral : ℤ

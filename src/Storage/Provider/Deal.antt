-- ===== src/Storage/Provider/Deal.antt =====
-- storagemarket/types.go: `MinerDeal`; storagemarket/events.go: the events of the provider, each with
-- the values that are passed to its action.
use go_fil_markets.Prelude.{ℕ, Bool, Option, String}
use go_fil_markets.Prelude.Int.{ℤ}
use go_fil_markets.Fsm.{Machine}
use go_fil_markets.Retrieval.Params.{Cid}
use go_fil_markets.Retrieval.Client.Deal.{PeerId, ChannelId}
use go_fil_markets.Storage.Proposal.{StorageProposal}
use go_fil_markets.Storage.Status.{StorageDealStatus, same}
use go_fil_markets.Storage.Client.Deal.{DataRef}

-- `filestore.Path`; the empty path is no file.
abbrev pub FilePath : Type 0
FilePath = String

-- A pointer that may be nil is an `Option`, and so is an amount whose number may be nil. The
-- reference to the data is never nil: `receiveDeal` refuses a proposal without one.
pub record MinerDeal : Type 0 where
  pub proposal : StorageProposal
  pub client_signature : ℕ
  pub proposal_cid : Cid
  pub add_funds_cid : Option Cid
  pub publish_cid : Option Cid
  pub miner : PeerId
  pub client : PeerId
  pub state : StorageDealStatus
  pub piece_path : FilePath
  pub metadata_path : FilePath
  pub slash_epoch : ℤ
  pub fast_retrieval : Bool
  pub message : String
  pub funds_reserved : Option ℤ
  pub ref : DataRef
  pub available_for_retrieval : Bool
  pub deal_id : ℕ
  pub creation_time : ℕ
  pub transfer_channel_id : Option ChannelId
  pub sector_number : ℕ
  pub inbound_car : String

pub data ProviderEvent : Type 0 where
  open_deal : ProviderEvent
  node_errored deal_rejected : String → ProviderEvent
  rejection_sent deal_deciding data_requested : ProviderEvent
  data_transfer_failed : String → ProviderEvent
  data_transfer_initiated data_transfer_restarted : ChannelId → ProviderEvent
  data_transfer_stalled data_transfer_cancelled data_transfer_completed : ProviderEvent
  data_verification_failed : String → FilePath → FilePath → ProviderEvent
  verified_data : FilePath → FilePath → ProviderEvent
  funding_initiated : Cid → ProviderEvent
  funded : ProviderEvent
  deal_publish_initiated : Cid → ProviderEvent
  deal_publish_error send_response_failed : String → ProviderEvent
  deal_published : ℕ → Cid → ProviderEvent
  file_store_errored multistore_errored deal_handoff_failed piece_store_errored :
      String → ProviderEvent
  deal_handed_off : ProviderEvent
  deal_precommit_failed : String → ProviderEvent
  deal_precommitted : ℕ → ProviderEvent
  deal_activation_failed : String → ProviderEvent
  deal_activated finalized : ProviderEvent
  deal_slashed : ℤ → ProviderEvent
  deal_expired : ProviderEvent
  deal_completion_failed : String → ProviderEvent
  provider_failed provider_restart await_transfer_restart_timeout : ProviderEvent
  track_funds_failed : String → ProviderEvent
  funds_reserved funds_released : ℤ → ProviderEvent

-- The state key of the provider's deal machine.
abbrev pub provider_machine : Machine StorageDealStatus MinerDeal
provider_machine = record {
  same = same;
  state_of = λ d. d.state;
  with_state = λ d s. record d { state = s };
}

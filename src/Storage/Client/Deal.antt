-- ===== src/Storage/Client/Deal.antt =====
-- storagemarket/types.go: `DataRef` and `ClientDeal` with its log; storagemarket/events.go: the
-- events of the client, each with the values that are passed to its action.
use go_fil_markets.Prelude.{ℕ, Bool, Option, List, String}
use go_fil_markets.Prelude.Int.{ℤ}
use go_fil_markets.Fsm.{Machine}
use go_fil_markets.Retrieval.Params.{Cid}
use go_fil_markets.Retrieval.Client.Deal.{Address, PeerId, ChannelId}
use go_fil_markets.Storage.Proposal.{StorageProposal}
use go_fil_markets.Storage.Status.{
  StorageDealStatus, same, status_text, status_description, status_duration,
}
use go_fil_markets.Storage.Stages.{DealStage, add_stage_log}

pub record DataRef : Type 0 where
  pub transfer_type : String
  pub root : Cid
  pub piece_cid : Option Cid
  pub piece_size : ℕ
  pub raw_block_size : ℕ

-- A pointer that may be nil is an `Option`, and so is an amount whose number may be nil. The
-- reference to the data is never nil: `ProposeStorageDeal` reads it before it makes the deal.
pub record ClientDeal : Type 0 where
  pub proposal : StorageProposal
  pub client_signature : ℕ
  pub proposal_cid : Cid
  pub add_funds_cid : Option Cid
  pub state : StorageDealStatus
  pub miner : PeerId
  pub miner_worker : Address
  pub deal_id : ℕ
  pub data_ref : DataRef
  pub message : String
  pub deal_stages : Option (List DealStage)
  pub publish_message : Option Cid
  pub slash_epoch : ℤ
  pub poll_retry_count : ℕ
  pub poll_error_count : ℕ
  pub fast_retrieval : Bool
  pub funds_reserved : Option ℤ
  pub creation_time : ℕ
  pub transfer_channel_id : Option ChannelId
  pub sector_number : ℕ

pub data ClientEvent : Type 0 where
  open_deal : ClientEvent
  reserve_funds_failed : String → ClientEvent
  funding_initiated : Cid → ClientEvent
  funds_reserved funds_released : ℤ → ClientEvent
  funding_complete : ClientEvent
  write_proposal_failed read_response_failed : String → ClientEvent
  response_verification_failed initiate_data_transfer : ClientEvent
  unexpected_deal_state : StorageDealStatus → String → ClientEvent
  data_transfer_failed data_transfer_restart_failed : String → ClientEvent
  data_transfer_queued data_transfer_initiated data_transfer_restarted : ChannelId → ClientEvent
  data_transfer_stalled : String → ClientEvent
  data_transfer_cancelled data_transfer_complete : ClientEvent
  wait_for_deal_state : Bool → StorageDealStatus → ClientEvent
  response_deal_did_not_match : Cid → Cid → ClientEvent
  deal_rejected : StorageDealStatus → String → ClientEvent
  deal_accepted : Option Cid → ClientEvent
  stream_close_error deal_publish_failed : String → ClientEvent
  deal_published : ℕ → ClientEvent
  deal_precommit_failed : String → ClientEvent
  deal_precommitted : ℕ → ClientEvent
  deal_activation_failed : String → ClientEvent
  deal_activated : ClientEvent
  deal_slashed : ℤ → ClientEvent
  deal_expired : ClientEvent
  deal_completion_failed : String → ClientEvent
  client_failed client_restart : ClientEvent

-- The texts that go-cid, go-data-transfer and go-libp2p print, which are not in this repository.
pub record Texts : Type 0 where
  pub cid_text : Cid → String
  pub channel_text : ChannelId → String
  pub peer_text : PeerId → String

-- `AddLog`, once the message is formatted, at a time.
unfoldable pub add_log : ℕ → String → ClientDeal → ClientDeal
unfolding add_stage_log status_text status_description status_duration
add_log now msg d = record d {
  deal_stages =
      add_stage_log now (status_text d.state) (status_description d.state) (status_duration d.state)
        msg d.deal_stages;
}

-- The state key of the client's deal machine.
abbrev pub client_machine : Machine StorageDealStatus ClientDeal
client_machine = record {
  same = same;
  state_of = λ d. d.state;
  with_state = λ d s. record d { state = s };
}

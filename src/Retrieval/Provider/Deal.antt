-- ===== src/Retrieval/Provider/Deal.antt =====
-- retrievalmarket/types.go: `ProviderDealState` and its identifier; retrievalmarket/events.go: the
-- events of the provider, each with the values that are passed to its action.
use go_fil_markets.Prelude.{ℕ, Option, List, String}
use go_fil_markets.Prelude.Int.{ℤ}
use go_fil_markets.Fsm.{Machine}
use go_fil_markets.Retrieval.Params.{Cid}
use go_fil_markets.Retrieval.Status.{DealStatus, same}
use go_fil_markets.Retrieval.Client.Deal.{PeerId, ChannelId, DealProposal}

-- piecestore/types.go, `DealInfo` and `PieceInfo`
pub record DealInfo : Type 0 where
  pub deal_id : ℕ
  pub sector_id : ℕ
  pub offset : ℕ
  pub length : ℕ

pub record PieceInfo : Type 0 where
  pub piece_cid : Cid
  pub deals : List DealInfo

-- Amounts start at 0 once the state has been stored.
pub record ProviderDealState : Type 0 where
  pub proposal : DealProposal
  pub open proposal use *
  pub store_id : ℕ
  pub channel_id : Option ChannelId
  pub piece_info : Option PieceInfo
  pub status : DealStatus
  pub receiver : PeerId
  pub funds_received : ℤ
  pub message : String

-- `ProviderDealIdentifier`, `Identifier`
abbrev pub ProviderDealIdentifier : Type 0
ProviderDealIdentifier = PeerId × ℕ

abbrev pub identifier : ProviderDealState → ProviderDealIdentifier
identifier d = (d.receiver, d.id)

pub data ProviderEvent : Type 0 where
  open_deal deal_not_found deal_rejected : ProviderEvent
  deal_accepted : ChannelId → ProviderEvent
  block_sent blocks_completed payment_requested : ProviderEvent
  save_voucher_failed : String → ProviderEvent
  partial_payment_received payment_received : ℤ → ProviderEvent
  complete : ProviderEvent
  unseal_error : String → ProviderEvent
  unseal_complete : ProviderEvent
  data_transfer_error : String → ProviderEvent
  cancel_complete cleanup_complete : ProviderEvent
  multi_store_error : String → ProviderEvent
  client_cancelled last_payment_requested process_payment : ProviderEvent

-- The state key of the provider's deal machine.
abbrev pub provider_machine : Machine DealStatus ProviderDealState
provider_machine = record {
  same = same;
  state_of = λ d. d.status;
  with_state = λ d s. record d { status = s };
}

-- ===== src/Retrieval/Client/Deal.antt =====
-- retrievalmarket/types.go: the proposal, the payment information and `ClientDealState`;
-- retrievalmarket/events.go: the events of the client, each with the values that are passed to its
-- action; retrievalmarket/impl/client.go: the deal that `Retrieve` begins.
use go_fil_markets.Prelude.{ℕ, Bool, false, Option, none, String}
use go_fil_markets.Prelude.Int.{ℤ, pos}
use go_fil_markets.Fsm.{Machine}
use go_fil_markets.Retrieval.Params.{Cid, Params, next_interval_from}
use go_fil_markets.Retrieval.Status.{DealStatus, same}
use go_fil_markets.Retrieval.Status

-- Addresses, peers, data transfer channels and vouchers are only passed on and compared.
abbrev pub Address : Type 0
Address = ℕ

abbrev pub PeerId : Type 0
PeerId = ℕ

abbrev pub ChannelId : Type 0
ChannelId = ℕ

pub record DealProposal : Type 0 where
  pub payload_cid : Cid
  pub id : ℕ
  pub params : Params

pub record PaymentInfo : Type 0 where
  pub pay_ch : Address
  pub lane : ℕ

-- A pointer that may be nil is an `Option`.
pub record ClientDealState : Type 0 where
  pub proposal : DealProposal
  pub open proposal use *
  pub store_id : Option ℕ
  pub channel_id : Option ChannelId
  pub last_payment_requested : Bool
  pub all_blocks_received : Bool
  pub total_funds : ℤ
  pub client_wallet : Address
  pub miner_wallet : Address
  pub payment_info : Option PaymentInfo
  pub status : DealStatus
  pub sender : PeerId
  pub total_received : ℕ
  pub message : String
  pub bytes_paid_for : ℕ
  pub current_interval : ℕ
  pub payment_requested : ℤ
  pub funds_spent : ℤ
  pub unseal_funds_paid : ℤ
  pub wait_msg_cid : Option Cid
  pub voucher_shortfall : ℤ
  pub legacy_protocol : Bool

-- `NextInterval` of a client deal
unfoldable pub next_interval : ClientDealState → Option ℕ
next_interval deal = next_interval_from deal.params deal.current_interval

pub data ClientEvent : Type 0 where
  open_deal : ClientEvent
  write_deal_proposal_errored : String → ClientEvent
  deal_proposed : ChannelId → ClientEvent
  deal_rejected deal_not_found : String → ClientEvent
  deal_accepted provider_cancelled : ClientEvent
  unknown_response_received : DealStatus → ClientEvent
  payment_channel_errored allocate_lane_errored : String → ClientEvent
  payment_channel_create_initiated : Cid → ClientEvent
  payment_channel_ready : Address → ClientEvent
  payment_channel_adding_funds : Cid → Address → ClientEvent
  payment_channel_add_funds_errored : String → ClientEvent
  last_payment_requested : ℤ → ClientEvent
  all_blocks_received : ClientEvent
  payment_requested unseal_payment_requested : ℤ → ClientEvent
  blocks_received : ℕ → ClientEvent
  send_funds : ClientEvent
  funds_expended : ℤ → ClientEvent
  bad_payment_requested create_voucher_failed write_deal_payment_errored : String → ClientEvent
  payment_sent : ℤ → ClientEvent
  complete : ClientEvent
  data_transfer_error : String → ClientEvent
  cancel_complete early_termination complete_verified : ClientEvent
  lane_allocated : ℕ → ClientEvent
  voucher_shortfall : ℤ → ClientEvent
  recheck_funds cancel wait_for_last_blocks payment_channel_skip payment_not_sent : ClientEvent
  blockstore_finalized : ClientEvent
  finalize_blockstore_errored : String → ClientEvent

-- The state key of the client's deal machine.
abbrev pub client_machine : Machine DealStatus ClientDealState
client_machine = record {
  same = same;
  state_of = λ d. d.status;
  with_state = λ d s. record d { status = s };
}

-- The deal that `Retrieve` hands to the machine, for an id that is already assigned.
unfoldable pub new_deal : ℕ → Cid → Params → ℤ → PeerId → Address → Address → ClientDealState
new_deal id payload_cid params total_funds peer client_wallet miner_wallet = record {
  proposal = record { payload_cid = payload_cid; id = id; params = params };
  store_id = none;
  channel_id = none;
  last_payment_requested = false;
  all_blocks_received = false;
  total_funds = total_funds;
  client_wallet = client_wallet;
  miner_wallet = miner_wallet;
  payment_info = none;
  status = Status.DealStatus.new;
  sender = peer;
  total_received = 0;
  message = "";
  bytes_paid_for = 0;
  current_interval = params.payment_interval;
  payment_requested = pos 0;
  funds_spent = pos 0;
  unseal_funds_paid = pos 0;
  wait_msg_cid = none;
  voucher_shortfall = pos 0;
  legacy_protocol = false;
}

-- ===== src/Retrieval/Client/Env.antt =====
-- What the retrieval client's entry functions call: `ClientDealEnvironment` of
-- retrievalmarket/impl/clientstates/client_states.go and the parts of `RetrievalClientNode` that
-- they use. The node, the data transfer module and the blockstores are not in the deal machine, so
-- their answers are a parameter; what is asked of them is recorded in order.
use go_fil_markets.Prelude.{ℕ, Option, List, [], ◌∷◌, String, Result}
use go_fil_markets.Prelude.Int.{ℤ}
use go_fil_markets.Retrieval.Params.{Cid}
use go_fil_markets.Retrieval.Client.Deal.{Address, PeerId, ChannelId, DealProposal, ClientEvent}

-- `DealPayment`, with an opaque signed voucher.
pub record DealPayment : Type 0 where
  pub id : ℕ
  pub payment_channel : Address
  pub payment_voucher : ℕ

-- `ChannelAvailableFunds`
pub record ChannelAvailableFunds : Type 0 where
  pub confirmed_amt : ℤ
  pub pending_amt : ℤ
  pub pending_wait_sentinel : Option Cid
  pub queued_amt : ℤ
  pub voucher_redeemed_amt : ℤ

-- The answer of `CreatePaymentVoucher`: an error may be a `ShortfallError`.
pub data VoucherAnswer : Type 0 where
  voucher : ℕ → VoucherAnswer
  shortfall : ℤ → VoucherAnswer
  failure : String → VoucherAnswer

pub record ClientEnv : Type 0 where
  pub open_data_transfer : PeerId → DealProposal → Result ChannelId
  pub send_data_transfer_voucher : ChannelId → DealPayment → Result (Unit {0})
  pub close_data_transfer : ChannelId → Result (Unit {0})
  pub finalize_blockstore : ℕ → Result (Unit {0})
  pub get_chain_head : Result ℕ
  pub get_or_create_payment_channel : Address → Address → ℤ → ℕ → Result (Address × Cid)
  pub wait_for_payment_channel_ready : Cid → Result Address
  pub allocate_lane : Address → Result ℕ
  pub create_payment_voucher : Address → ℤ → ℕ → ℕ → VoucherAnswer
  pub check_available_funds : Address → Result ChannelAvailableFunds

-- A call that changes something outside the deal, or an event that is triggered.
pub data Act : Type 0 where
  opens_transfer : PeerId → DealProposal → Act
  sends_voucher : ChannelId → DealPayment → Act
  closes_transfer : ChannelId → Act
  finalizes_blockstore : ℕ → Act
  funds_channel : Address → Address → ℤ → Act
  allocates_lane : Address → Act
  creates_voucher : Address → ℤ → ℕ → Act
  trigger : ClientEvent → Act

abbrev pub triggers : List Act → List ClientEvent
triggers [] = []
triggers (trigger e ∷ acts) = e ∷ triggers acts
triggers (_ ∷ acts) = triggers acts

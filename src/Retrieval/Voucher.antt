-- ===== src/Retrieval/Voucher.antt =====
-- retrievalmarket/types.go: what the two sides send each other over a data transfer, and the parts
-- of a data transfer channel that the market reads. A node is decoded by the bindnode registry,
-- which is not in this repository, so a node is given by what it decodes as.
use go_fil_markets.Prelude.{ℕ, Bool, Option, String}
use go_fil_markets.Prelude.Int.{ℤ}
use go_fil_markets.Retrieval.Status.{DealStatus}
use go_fil_markets.Retrieval.Client.Deal.{PeerId, ChannelId, DealProposal}
use go_fil_markets.Retrieval.Client.Env.{DealPayment}

-- `DealResponse`
pub record DealResponse : Type 0 where
  pub status : DealStatus
  pub id : ℕ
  pub payment_owed : ℤ
  pub message : String

-- What `DealPaymentFromNode`, `DealProposalFromNode` and `DealResponseFromNode` return for a node.
pub record Node : Type 0 where
  pub as_payment : Option DealPayment
  pub as_proposal : Option DealProposal
  pub as_response : Option DealResponse

-- `datatransfer.ChannelState`, as far as the market reads it.
pub record ChannelState : Type 0 where
  pub channel_id : ChannelId
  pub other_peer : PeerId
  pub recipient : PeerId
  pub queued : ℕ
  pub received : ℕ
  pub in_finalization : Bool
  pub completed : Bool
  pub message : String
  pub voucher : Option Node
  pub last_voucher : Node
  pub last_voucher_result : Node

-- `datatransfer.ValidationResult`; 0 is no data limit.
pub record ValidationResult : Type 0 where
  pub accepted : Bool
  pub voucher_result : Option DealResponse
  pub force_pause : Bool
  pub data_limit : ℕ
  pub requires_finalization : Bool

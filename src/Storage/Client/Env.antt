-- ===== src/Storage/Client/Env.antt =====
-- What the storage client's entry functions call: `ClientDealEnvironment` of
-- storagemarket/impl/clientstates/client_states.go, and the parts of storagemarket/nodes.go that
-- they use. Their answers are a parameter; what is asked of them is recorded in order. A function
-- that takes a callback is given by what the callback is called with, if it is called at all.
use go_fil_markets.Prelude.{ℕ, Bool, Option, List, [], ◌∷◌, String, Result}
use go_fil_markets.Prelude.Int.{ℤ}
use go_fil_markets.Retrieval.Params.{Cid}
use go_fil_markets.Retrieval.Client.Deal.{Address, PeerId, ChannelId}
use go_fil_markets.Storage.Proposal.{StorageProposal}
use go_fil_markets.Storage.Status.{StorageDealStatus}
use go_fil_markets.Storage.Client.Deal.{DataRef, ClientDeal, ClientEvent}

-- storagemarket/network/types.go, `Proposal`: the signed proposal, the data and the flag.
pub record NetworkProposal : Type 0 where
  pub proposal : StorageProposal
  pub client_signature : ℕ
  pub piece : DataRef
  pub fast_retrieval : Bool

-- `SignedResponse` with its response: a signature is a pointer that may be nil.
pub record SignedResponse : Type 0 where
  pub state : StorageDealStatus
  pub message : String
  pub proposal : Cid
  pub signature : Option ℕ
  pub bytes : ℕ

-- storagemarket/types.go, `ProviderDealState`, with the fields that the client reads.
pub record ProviderDealState : Type 0 where
  pub state : StorageDealStatus
  pub message : String
  pub proposal_cid : Option Cid
  pub publish_cid : Option Cid

-- A message on chain: an exit code, with the text of one that is not Ok, or an error.
pub data MessageAnswer : Type 0 where
  landed : MessageAnswer
  exit_code message_error : String → MessageAnswer

-- `DealSectorPreCommittedCallback`: a sector number, or the deal is active, or an error.
pub data PreCommitAnswer : Type 0 where
  pre_committed : ℕ → PreCommitAnswer
  is_active : PreCommitAnswer
  pre_commit_error : String → PreCommitAnswer

-- `OnDealExpiredOrSlashed`, by the callback that it makes.
pub data EndAnswer : Type 0 where
  expires : EndAnswer
  slashes : ℤ → EndAnswer
  expiry_error slashing_error : String → EndAnswer

pub record ClientEnv : Type 0 where
  pub clean_blockstore : Cid → Result (Unit {0})
  pub new_deal_stream : PeerId → Result (Unit {0})
  pub write_deal_proposal : NetworkProposal → Result (Unit {0})
  pub read_deal_response : Result SignedResponse
  pub start_data_transfer : PeerId → Cid → Cid → Result ChannelId
  pub restart_data_transfer : ChannelId → Result (Unit {0})
  pub get_provider_deal_state : Cid → Result ProviderDealState
  -- The polling timer runs out before the machine is stopped.
  pub timer_fires : Bool
  pub reserve_funds : Address → Address → ℤ → Result Cid
  pub release_funds : Address → ℤ → Result (Unit {0})
  -- A callback may never come.
  pub wait_for_message : Cid → Option MessageAnswer
  pub get_chain_head : Result (ℕ × ℤ)
  pub verify_signature : ℕ → Address → ℕ → ℕ → Result Bool
  pub validate_published_deal : ClientDeal → Result ℕ
  pub on_deal_sector_pre_committed :
      Address → ℕ → StorageProposal → Option Cid → Result (Option PreCommitAnswer)
  pub on_deal_sector_committed :
      Address → ℕ → ℕ → StorageProposal → Option Cid → Result (Option (Result (Unit {0})))
  pub on_deal_expired_or_slashed : ℕ → Result (Option EndAnswer)
  -- `ClientBalanceRequirement` of the market actor.
  pub client_balance_requirement : StorageProposal → ℤ

-- A call that changes something outside the deal, or an event that is triggered.
pub data Act : Type 0 where
  reserves_funds : Address → ℤ → Act
  releases_funds : Address → ℤ → Act
  tags_peer untags_peer : PeerId → Cid → Act
  sends_proposal : NetworkProposal → Act
  starts_transfer : PeerId → Cid → Cid → Act
  restarts_transfer : ChannelId → Act
  cleans_blockstore : Cid → Act
  trigger : ClientEvent → Act

abbrev pub triggers : List Act → List ClientEvent
triggers [] = []
triggers (trigger e ∷ acts) = e ∷ triggers acts
triggers (_ ∷ acts) = triggers acts

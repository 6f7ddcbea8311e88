-- ===== src/Storage/Provider/Env.antt =====
-- What the storage provider's entry functions call: `ProviderDealEnvironment` of
-- storagemarket/impl/providerstates/provider_states.go, and the parts of storagemarket/nodes.go,
-- the file store and the piece store that they use. Their answers are a parameter; what is asked of
-- them is recorded in order.
use go_fil_markets.Prelude.{ℕ, Bool, Option, List, [], ◌∷◌, String, Result}
use go_fil_markets.Prelude.Int.{ℤ}
use go_fil_markets.Retrieval.Params.{Cid}
use go_fil_markets.Retrieval.Client.Deal.{Address, PeerId}
use go_fil_markets.Retrieval.Provider.Deal.{DealInfo}
use go_fil_markets.Piecestore.Store.{BlockLocation}
use go_fil_markets.Storage.Proposal.{StorageProposal}
use go_fil_markets.Storage.Status.{StorageDealStatus}
use go_fil_markets.Storage.Validation.{ProposalEnv}
use go_fil_markets.Storage.Client.Env.{MessageAnswer, PreCommitAnswer, EndAnswer}
use go_fil_markets.Storage.Provider.Deal.{FilePath, MinerDeal, ProviderEvent}

-- storagemarket/network/types.go, `Response`, with the fields that the provider sets.
pub record Response : Type 0 where
  pub state : StorageDealStatus
  pub message : String
  pub proposal : Cid

-- `PackingResult`
pub record PackingResult : Type 0 where
  pub sector_number : ℕ
  pub offset : ℕ
  pub size : ℕ

-- A file that is open, and a CAR file with the answers of its readers.
pub record OpenFile : Type 0 where
  pub os_path : String
  pub size : ℕ

pub record OpenCar : Type 0 where
  pub data_reader : Result ℕ
  pub data_size : ℕ
  pub close : Result (Unit {0})

-- The data that is packed: a file, or a reader of a CAR file.
pub data Payload : Type 0 where
  file_data : FilePath → Payload
  car_data : ℕ → Payload

pub record ProviderEnv : Type 0 where
  pub validation : ProposalEnv
  pub run_custom_decision_logic : MinerDeal → Result (Bool × String)
  pub send_signed_response : Response → Result (Unit {0})
  -- The timer runs out before the machine is stopped.
  pub timeout_fires : Bool
  pub finalize_blockstore : Cid → Result (Unit {0})
  pub generate_piece_commitment : Cid → String → ℕ → Result (Cid × FilePath)
  pub get_chain_head : Result (ℕ × ℤ)
  pub get_miner_worker_address : Address → ℕ → Result Address
  pub reserve_funds : Address → Address → ℤ → Result Cid
  -- A callback may never come.
  pub wait_for_message : Cid → Option MessageAnswer
  pub publish_deals : MinerDeal → Result Cid
  pub wait_for_publish_deals : Cid → StorageProposal → Result (ℕ × Cid)
  pub open_file : FilePath → Result OpenFile
  pub read_car : String → Result OpenCar
  -- `NewInflatorReader` on the payload, its size and the unpadded size of the piece.
  pub inflate : Payload → ℕ → ℕ → Result (Unit {0})
  -- `PieceSize.Unpadded`
  pub unpadded : ℕ → ℕ
  pub on_deal_complete : MinerDeal → ℕ → Payload → Result PackingResult
  pub load_block_locations : FilePath → Result (List (Cid × BlockLocation))
  pub add_piece_block_locations : Cid → List (Cid × BlockLocation) → Result (Unit {0})
  pub add_deal_for_piece : Cid → Cid → DealInfo → Result (Unit {0})
  pub on_deal_sector_pre_committed :
      Address → ℕ → StorageProposal → Option Cid → Result (Option PreCommitAnswer)
  pub on_deal_sector_committed :
      Address → ℕ → ℕ → StorageProposal → Option Cid → Result (Option (Result (Unit {0})))
  pub on_deal_expired_or_slashed : ℕ → Result (Option EndAnswer)
  -- How go-cid prints a CID, and fmt a pointer to one.
  pub cid_text : Cid → String
  pub cid_pointer_text : Option Cid → String

-- A call that changes something outside the deal, or an event that is triggered. The answers of
-- `Disconnect`, `Delete`, `TerminateBlockstore`, `ReleaseFunds`, `RegisterShard`, `AnnounceIndex` and
-- `RemoveIndex` are only logged.
pub data Act : Type 0 where
  tags_peer untags_peer : PeerId → Cid → Act
  sends_response : Response → Act
  disconnects finalizes_blockstore removes_index : Cid → Act
  reserves_funds : Address → ℤ → Act
  releases_funds : Address → ℤ → Act
  publishes_deal : MinerDeal → Act
  packs : MinerDeal → ℕ → Payload → Act
  adds_locations : Cid → List (Cid × BlockLocation) → Act
  adds_deal : Cid → Cid → DealInfo → Act
  registers_shard : Cid → String → Act
  announces_index : Cid → Act
  deletes_file : FilePath → Act
  terminates_blockstore : Cid → String → Act
  trigger : ProviderEvent → Act

abbrev pub triggers : List Act → List ProviderEvent
triggers [] = []
triggers (trigger e ∷ acts) = e ∷ triggers acts
triggers (_ ∷ acts) = triggers acts

-- ===== src/Storage/Proposing.antt =====
-- storagemarket/impl/client.go: `ProposeStorageDeal`, by which a client begins a deal;
-- storagemarket/impl/clientutils/clientutils.go: `CommP` and `LabelField`. The node, the blockstore, the
-- encodings and the tracking of deals are parameters.
use go_fil_markets.Prelude.{
  ℕ, ◌==◌, ltb, Bool, Option, none, some, List, [], ◌∷◌, String, Result, ok, err, ◌>>=◌,
  if◌then◌else◌,
}
use text.Mathlib.Text.{◌==◌ as str_eq}
use go_fil_markets.Prelude.Int.{ℤ, pos, is_zero}
use go_fil_markets.Text.{decimal, enclose, told}
use go_fil_markets.Retrieval.Params.{Cid}
use go_fil_markets.Retrieval.Client.Deal.{Address, PeerId}
use go_fil_markets.Storage.Proposal.{StorageProposal}
use go_fil_markets.Storage.Status.{StorageDealStatus}
use go_fil_markets.Storage.Client.Deal.{DataRef, ClientDeal, ClientEvent}
use go_fil_markets.Storage.AskQuery.{StorageProviderInfo}

-- `ProposeStorageDealParams`; the collateral's number may be nil.
pub record ProposeParams : Type 0 where
  pub addr : Address
  pub info : StorageProviderInfo
  pub data_ref : DataRef
  pub start_epoch : ℤ
  pub end_epoch : ℤ
  pub price : ℤ
  pub collateral : Option ℤ
  pub fast_retrieval : Bool
  pub verified_deal : Bool

-- The encoding of a signed proposal, whose CID both sides compute.
abbrev pub AsIpld : Type 0
AsIpld = StorageProposal → ℕ → Result Cid

pub record ProposeEnv : Type 0 where
  pub get_chain_head : Result (ℕ × ℤ)
  pub get_miner_info : Address → ℕ → Result (Unit {0})
  pub get_blockstore : Cid → Result (Unit {0})
  -- The CAR of a payload: its preparation, its dump, and its commitment with the padded size.
  pub prepare_car : Cid → Result (Unit {0})
  pub dump_car : Cid → Result (Unit {0})
  pub sum : Cid → Result (Cid × ℕ)
  -- `UnpaddedPieceSize.Padded` and `PaddedPieceSize.Unpadded`
  pub padded : ℕ → ℕ
  pub unpadded : ℕ → ℕ
  pub collateral_bounds : ℕ → Bool → Result (ℤ × ℤ)
  -- A CID's version, its text in a base, and the length of the label that the text makes.
  pub version : Cid → ℕ
  pub base58 : Cid → Result String
  pub base64 : Cid → Result String
  pub new_label : String → Result ℕ
  -- The proposal and the signature that the node gives back.
  pub sign_proposal : Address → StorageProposal → Result (StorageProposal × ℕ)
  pub as_ipld : AsIpld
  pub now : ℕ
  pub cid_text : Cid → String
  pub begin : Cid → ClientDeal → Result (Unit {0})
  pub send : Cid → ClientEvent → Result (Unit {0})
  -- The discovery keeps the provider and the piece for the payload.
  pub add_peer : Cid → Address → PeerId → Cid → Result (Unit {0})

-- `CommP`: the piece and its unpadded size.
unfoldable pub comm_p : ProposeEnv → DataRef → Result (Cid × ℕ)
comm_p env d = elim d.piece_cid [
  | some c ↦ ok (c, d.piece_size)
  | none ↦
      if str_eq d.transfer_type "manual"
      then err "Piece CID and size must be set for manual transfer"
      else told "failed to prepare CAR" (env.prepare_car d.root) >>= (λ _.
        told "failed to write CARv1 to commP writer" (env.dump_car d.root) >>= (λ _.
          told "commpWriter.Sum failed" (env.sum d.root)
          >>= (λ piece. ok (piece.0, env.unpadded piece.1))))
]

-- `LabelField`
abbrev pub label_field : ProposeEnv → Cid → Result ℕ
label_field env c = (if env.version c == 0 then env.base58 c else env.base64 c) >>= env.new_label

-- The collateral, which is the least that the node names where none is given.
abbrev pub least_collateral : ProposeEnv → ProposeParams → ℕ → Result ℤ
least_collateral env p size =
    told "computing deal provider collateral bound failed"
      (env.collateral_bounds size p.verified_deal)
    >>= (λ bounds. ok bounds.0)

abbrev pub collateral_for : ProposeEnv → ProposeParams → ℕ → Option ℤ → Result ℤ
collateral_for env p size none = least_collateral env p size
collateral_for env p size (some c) = if is_zero c then least_collateral env p size else ok c

abbrev pub deal_proposal : ProposeParams → Cid → ℕ → ℤ → ℕ → StorageProposal
deal_proposal p piece size collateral label = record {
  piece_cid = piece;
  piece_size = size;
  verified_deal = p.verified_deal;
  client = p.addr;
  provider = p.info.address;
  label_length = label;
  start_epoch = p.start_epoch;
  end_epoch = p.end_epoch;
  storage_price_per_epoch = p.price;
  provider_collateral = collateral;
  client_collateral = pos 0;
}

abbrev pub begun_deal : ProposeParams → Cid → StorageProposal → ℕ → ℕ → ClientDeal
begun_deal p c proposal signature now = record {
  proposal = proposal;
  client_signature = signature;
  proposal_cid = c;
  add_funds_cid = none;
  state = StorageDealStatus.unknown;
  miner = p.info.peer_id;
  miner_worker = p.info.worker;
  deal_id = 0;
  data_ref = p.data_ref;
  message = "";
  deal_stages = some [];
  publish_message = none;
  slash_epoch = pos 0;
  poll_retry_count = 0;
  poll_error_count = 0;
  fast_retrieval = p.fast_retrieval;
  funds_reserved = none;
  creation_time = now;
  transfer_channel_id = none;
  sector_number = 0;
}

-- `addMultiaddrs`, without the addresses that the peer store is given.
abbrev pub add_multiaddrs : ProposeEnv → Address → Result (Unit {0})
add_multiaddrs env a = env.get_chain_head >>= (λ head. env.get_miner_info a head.0)

-- What is computed before the deal is tracked: the deal and its piece.
unfoldable pub prepared : ProposeEnv → ProposeParams → Result (ClientDeal × Cid)
unfolding comm_p
prepared env p = told "looking up addresses" (add_multiaddrs env p.info.address) >>= (λ _.
    told (enclose "failed to get blockstore for imported root " (env.cid_text p.data_ref.root) "")
      (env.get_blockstore p.data_ref.root)
    >>= (λ _. told "computing commP failed" (comm_p env p.data_ref) >>= (λ piece.
        let size = env.padded piece.1 in
        if ltb p.info.sector_size size
        then err (
            enclose "cannot propose a deal whose piece size (" (decimal size)
              (enclose ") is greater than sector size (" (decimal p.info.sector_size) ")"))
        else collateral_for env p size p.collateral >>= (λ collateral.
          told "creating label field in proposal" (label_field env p.data_ref.root) >>= (λ label.
            told "signing deal proposal failed"
              (env.sign_proposal p.addr (deal_proposal p piece.0 size collateral label))
            >>= (λ signed.
                told "getting proposal node failed" (env.as_ipld signed.0 signed.1)
                >>= (λ c. ok (begun_deal p c signed.0 signed.1 env.now, piece.0))))))))

-- What is asked of the state machines and of the discovery.
pub data ProposeAct : Type 0 where
  begins : ClientDeal → ProposeAct
  sends : Cid → ClientEvent → ProposeAct
  adds_peer : Cid → Address → PeerId → Cid → ProposeAct

-- The proposal's CID is returned even if the discovery fails.
pub record Proposed : Type 0 where
  pub acts : List ProposeAct
  pub result : Option Cid
  pub error : Result (Unit {0})

abbrev failed : List ProposeAct → String → Proposed
failed acts e = record { acts = acts; result = none; error = err e }

abbrev pub tracked : ProposeEnv → ProposeParams → ClientDeal → Cid → Proposed
tracked env p d piece =
    let begin = begins d in
    let open_it = sends d.proposal_cid ClientEvent.open_deal in
    elim (told "setting up deal tracking" (env.begin d.proposal_cid d)) [
      | err e ↦ failed (begin ∷ []) e
      | ok _ ↦
          elim (told "initializing state machine" (env.send d.proposal_cid ClientEvent.open_deal)) [
            | err e ↦ failed (begin ∷ open_it ∷ []) e
            | ok _ ↦ record {
              acts =
                  begin
                  ∷ open_it
                  ∷ adds_peer p.data_ref.root p.info.address p.info.peer_id piece
                  ∷ [];
              result = some d.proposal_cid;
              error = env.add_peer p.data_ref.root p.info.address p.info.peer_id piece;
            }
          ]
    ]

abbrev pub tracked_or_failed : ProposeEnv → ProposeParams → Result (ClientDeal × Cid) → Proposed
tracked_or_failed env p (err e) = failed [] e
tracked_or_failed env p (ok (d, piece)) = tracked env p d piece

-- `ProposeStorageDeal`
unfoldable pub propose_storage_deal : ProposeEnv → ProposeParams → Proposed
unfolding prepared
propose_storage_deal env p = tracked_or_failed env p (prepared env p)

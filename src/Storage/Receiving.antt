-- ===== src/Storage/Receiving.antt =====
-- storagemarket/impl/provider.go: `HandleDealStream` with `receiveDeal` and `resendProposalResponse`, by
-- which a provider begins a deal. The stream, the file store, the signature and the tracking of deals
-- are parameters.
use go_fil_markets.Prelude.{
  ℕ, Bool, false, Option, none, some, List, [], ◌∷◌, ◌++◌, Result, ok, err, if◌then◌else◌,
}
use text.Mathlib.Text.{◌==◌ as str_eq}
use go_fil_markets.Prelude.Int.{pos}
use go_fil_markets.Text.{wrap}
use go_fil_markets.Retrieval.Params.{Cid}
use go_fil_markets.Retrieval.Client.Deal.{PeerId}
use go_fil_markets.Storage.Proposal.{StorageProposal}
use go_fil_markets.Storage.Status.{StorageDealStatus}
use go_fil_markets.Storage.Client.Deal.{DataRef}
use go_fil_markets.Storage.Provider.Deal.{FilePath, MinerDeal, ProviderEvent}
use go_fil_markets.Storage.Provider.Env.{Response}
use go_fil_markets.Storage.Proposing.{AsIpld}

-- A proposal as the network gives it: the signed proposal and the data are pointers that may be nil.
pub record ReceivedProposal : Type 0 where
  pub deal_proposal : Option (StorageProposal × ℕ)
  pub piece : Option DataRef
  pub fast_retrieval : Bool

pub record ReceiveEnv : Type 0 where
  pub read_deal_proposal : Result ReceivedProposal
  pub as_ipld : AsIpld
  pub deals : Cid → Result MinerDeal
  pub create_temp : Result FilePath
  pub close_temp : FilePath → Result (Unit {0})
  pub remote_peer : PeerId
  pub id : PeerId
  pub now : ℕ
  pub begin : Cid → MinerDeal → Result (Unit {0})
  pub add_stream : Cid → Result (Unit {0})
  pub send : Cid → ProviderEvent → Result (Unit {0})
  pub sign : Response → Result ℕ
  pub write_deal_response : Response → ℕ → Result (Unit {0})

-- What is done, in order.
pub data ReceiveAct : Type 0 where
  creates removes : FilePath → ReceiveAct
  begins : MinerDeal → ReceiveAct
  adds_stream : Cid → ReceiveAct
  sends : Cid → ProviderEvent → ReceiveAct
  responds : Response → ℕ → ReceiveAct
  closes_stream : ReceiveAct

abbrev pub Received : Type 0
Received = List ReceiveAct × Result (Unit {0})

abbrev pub after : List ReceiveAct → Received → Received
after acts (more, r) = (acts ++ more, r)

abbrev response_to : MinerDeal → Response
response_to d = record { state = d.state; message = d.message; proposal = d.proposal_cid }

-- `resendProposalResponse`
unfoldable pub resend_proposal_response : ReceiveEnv → MinerDeal → Received
resend_proposal_response env d = elim (env.sign (response_to d)) [
  | err e ↦ ([], err (wrap "failed to sign response message" e))
  | ok sig ↦ (
    responds (response_to d) sig ∷ closes_stream ∷ [],
    env.write_deal_response (response_to d) sig,
  )
]

abbrev pub received_deal :
    ReceiveEnv → StorageProposal → ℕ → Cid → DataRef → Bool → FilePath → MinerDeal
received_deal env proposal signature c piece fast path = record {
  proposal = proposal;
  client_signature = signature;
  proposal_cid = c;
  add_funds_cid = none;
  publish_cid = none;
  miner = env.id;
  client = env.remote_peer;
  state = StorageDealStatus.unknown;
  piece_path = "";
  metadata_path = "";
  slash_epoch = pos 0;
  fast_retrieval = fast;
  message = "";
  funds_reserved = none;
  ref = piece;
  available_for_retrieval = false;
  deal_id = 0;
  creation_time = env.now;
  transfer_channel_id = none;
  sector_number = 0;
  inbound_car = path;
}

-- The deal is tracked, its stream kept, and the deal opened.
unfoldable pub track : ReceiveEnv → MinerDeal → Received
track env d = elim (env.begin d.proposal_cid d) [
  | err e ↦ (begins d ∷ [], err e)
  | ok _ ↦ elim (env.add_stream d.proposal_cid) [
    | err e ↦ (begins d ∷ adds_stream d.proposal_cid ∷ [], err e)
    | ok _ ↦ (
      begins d ∷ adds_stream d.proposal_cid ∷ sends d.proposal_cid ProviderEvent.open_deal ∷ [],
      env.send d.proposal_cid ProviderEvent.open_deal,
    )
  ]
]

-- A deal whose data are transferred has an empty file for them.
unfoldable pub with_inbound_car : ReceiveEnv → DataRef → (FilePath → MinerDeal) → Received
unfolding track
with_inbound_car env piece deal =
    if str_eq piece.transfer_type "manual" then track env (deal "") else elim env.create_temp [
      | err e ↦ ([], err (wrap "failed to create an empty temp CARv2 file" e))
      | ok path ↦ elim (env.close_temp path) [
        | err e ↦ (creates path ∷ removes path ∷ [], err (wrap "failed to close temp file" e))
        | ok _ ↦ after (creates path ∷ []) (track env (deal path))
      ]
    ]

abbrev new_or_known : ReceiveEnv → StorageProposal → ℕ → Option DataRef → Bool → Cid → Received
new_or_known env proposal signature piece fast c = elim (env.deals c) [
  | ok d ↦ resend_proposal_response env d
  | err _ ↦ elim piece [
    | none ↦ ([], err "failed to get proposal piece from proposal message")
    | some ref ↦ with_inbound_car env ref (received_deal env proposal signature c ref fast)
  ]
]

-- `receiveDeal`
unfoldable pub receive_deal : ReceiveEnv → Received
unfolding resend_proposal_response with_inbound_car
receive_deal env = elim env.read_deal_proposal [
  | err e ↦ ([], err (wrap "failed to read proposal message" e))
  | ok m ↦ elim m.deal_proposal [
    | none ↦ ([], err "failed to get deal proposal from proposal message")
    | some (proposal, signature) ↦ elim (env.as_ipld proposal signature) [
      | err e ↦ ([], err (wrap "getting deal proposal as IPLD" e))
      | ok c ↦ new_or_known env proposal signature m.piece m.fast_retrieval c
    ]
  ]
]

abbrev pub closed_on_error : Received → List ReceiveAct
closed_on_error (acts, err e) = acts ++ closes_stream ∷ []
closed_on_error (acts, ok _) = acts

-- `HandleDealStream`: the stream is closed after an error.
unfoldable pub handle_deal_stream : ReceiveEnv → List ReceiveAct
unfolding receive_deal
handle_deal_stream env = closed_on_error (receive_deal env)

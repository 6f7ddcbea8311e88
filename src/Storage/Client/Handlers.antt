-- ===== src/Storage/Client/Handlers.antt =====
-- storagemarket/impl/clientstates/client_states.go: the entry function of each state, as what it
-- asks of its environment and the events that it triggers, in order. `none` is a nil pointer that
-- the code follows.
use text.Mathlib.Text.{◌==◌ as str_eq}
use go_fil_markets.Prelude.{
  ℕ, ◌==◌, Bool, true, false, not, ◌||◌, Option, none, some, List, [], ◌∷◌, ◌++◌, Result, ok, err,
  if◌then◌else◌,
}
use go_fil_markets.Prelude.Int.{ℤ, pos, ◌+ℤ◌, ltb_ℤ, is_zero}
use go_fil_markets.Text.{wrap}
use go_fil_markets.Retrieval.Params.{Cid}
use go_fil_markets.Retrieval.Client.Deal.{ChannelId}
use go_fil_markets.Storage.Status.{StorageDealStatus, same}
use go_fil_markets.Storage.Client.Deal.{ClientDeal, ClientEvent}
use go_fil_markets.Storage.Client.Env.{
  NetworkProposal, SignedResponse, ProviderDealState, MessageAnswer, landed, exit_code,
  message_error, ClientEnv, Act, reserves_funds, releases_funds, tags_peer, sends_proposal,
  starts_transfer, restarts_transfer, trigger,
}

-- The undefined CID says that no message was sent.
unfoldable pub reserve_client_funds : ClientEnv → ClientDeal → List Act
reserve_client_funds env d =
    let amount = env.client_balance_requirement d.proposal in
    reserves_funds d.proposal.client amount
    ∷ elim (env.reserve_funds d.proposal.client d.proposal.client amount) [
      | err e ↦ trigger (ClientEvent.reserve_funds_failed e) ∷ []
      | ok mcid ↦
          trigger (ClientEvent.funds_reserved amount)
          ∷ (if mcid == 0
              then trigger ClientEvent.funding_complete
              else trigger (ClientEvent.funding_initiated mcid))
          ∷ []
    ]

abbrev funding_event : MessageAnswer → ClientEvent
funding_event landed = ClientEvent.funding_complete
funding_event (exit_code code) = ClientEvent.reserve_funds_failed (wrap "AddFunds exit code" code)
funding_event (message_error e) = ClientEvent.reserve_funds_failed (wrap "AddFunds err" e)

-- `WaitForFunding`, on the message to wait for.
unfoldable pub wait_for_funding : ClientEnv → Option Cid → Option (List Act)
wait_for_funding env none = none
wait_for_funding env (some mcid) = elim (env.wait_for_message mcid) [
  | none ↦ some []
  | some answer ↦ some (trigger (funding_event answer) ∷ [])
]

abbrev network_proposal : ClientDeal → NetworkProposal
network_proposal d = record {
  proposal = d.proposal;
  client_signature = d.client_signature;
  piece = d.data_ref;
  fast_retrieval = d.fast_retrieval;
}

-- The event of a response whose signature was asked about.
abbrev pub verified_event : SignedResponse → Result Bool → ClientEvent
verified_event r (err e) = ClientEvent.response_verification_failed
verified_event r (ok false) = ClientEvent.response_verification_failed
verified_event r (ok true) =
    if not (same r.state StorageDealStatus.waiting_for_data)
    then ClientEvent.unexpected_deal_state r.state r.message
    else ClientEvent.initiate_data_transfer

-- The end of `ProposeDeal`: the signature is followed once the chain head is known.
unfoldable pub response_event :
    ClientEnv → ClientDeal → SignedResponse → Option ℕ → Result (ℕ × ℤ) → Option ClientEvent
response_event env d r signature (err e) = some ClientEvent.response_verification_failed
response_event env d r none (ok head) = none
response_event env d r (some signature) (ok (tok, epoch)) =
    some (verified_event r (env.verify_signature signature d.miner_worker r.bytes tok))

unfoldable pub read_response : ClientEnv → ClientDeal → Result SignedResponse → Option ClientEvent
unfolding response_event
read_response env d (err e) = some (ClientEvent.read_response_failed e)
read_response env d (ok r) = response_event env d r r.signature env.get_chain_head

abbrev after : List Act → Option ClientEvent → Option (List Act)
after acts none = none
after acts (some e) = some (acts ++ trigger e ∷ [])

-- `ProposeDeal`
unfoldable pub propose_deal : ClientEnv → ClientDeal → Option (List Act)
unfolding read_response
propose_deal env d = elim (env.new_deal_stream d.miner) [
  | err e ↦ some (trigger (ClientEvent.write_proposal_failed e) ∷ [])
  | ok _ ↦
      after (tags_peer d.miner d.proposal_cid ∷ sends_proposal (network_proposal d) ∷ [])
        (elim (env.write_deal_proposal (network_proposal d)) [
          | err e ↦ some (ClientEvent.write_proposal_failed e)
          | ok _ ↦ read_response env d env.read_deal_response
        ])
]

-- `RestartDataTransfer`, on the channel of the deal.
unfoldable pub restart_data_transfer : ClientEnv → Option ChannelId → List Act
restart_data_transfer env none =
    trigger (ClientEvent.data_transfer_restart_failed "channelId on client deal is nil") ∷ []
restart_data_transfer env (some c) = restarts_transfer c ∷ elim (env.restart_data_transfer c) [
  | err e ↦ trigger (ClientEvent.data_transfer_restart_failed e) ∷ []
  | ok _ ↦ []
]

-- `InitiateDataTransfer`: `TTManual` is "manual".
unfoldable pub initiate_data_transfer : ClientEnv → ClientDeal → List Act
initiate_data_transfer env d =
    if str_eq d.data_ref.transfer_type "manual"
    then trigger ClientEvent.data_transfer_complete ∷ []
    else starts_transfer d.miner d.proposal_cid d.data_ref.root
      ∷ elim (env.start_data_transfer d.miner d.proposal_cid d.data_ref.root) [
        | err e ↦
            trigger (ClientEvent.data_transfer_failed (wrap "failed to open push data channel" e))
            ∷ []
        | ok c ↦ []
      ]

-- `isAccepted`, `isFailed`
unfoldable pub is_accepted : StorageDealStatus → Bool
unfolding same
is_accepted s =
    same s StorageDealStatus.staged
    || (same s StorageDealStatus.awaiting_pre_commit
        || (same s StorageDealStatus.sealing
            || (same s StorageDealStatus.active
                || (same s StorageDealStatus.expired || same s StorageDealStatus.slashed))))

unfoldable pub is_failed : StorageDealStatus → Bool
unfolding same
is_failed s = same s StorageDealStatus.failing || same s StorageDealStatus.error

-- `waitAgain`
unfoldable pub wait_again : ClientEnv → Bool → StorageDealStatus → List Act
wait_again env poll_error s =
    if env.timer_fires then trigger (ClientEvent.wait_for_deal_state poll_error s) ∷ [] else []

-- `MaxGraceEpochsForDealAcceptance` epochs after the start the client gives up; an error of the
-- node is no reason to.
abbrev pub too_late : Result (ℕ × ℤ) → ClientDeal → Bool
too_late (err e) d = false
too_late (ok (tok, epoch)) d = ltb_ℤ (d.proposal.start_epoch +ℤ pos 10) epoch

abbrev accepted_event : ClientDeal → ProviderDealState → Option Cid → Option (List Act)
accepted_event d p none = none
accepted_event d p (some c) =
    if not (c == d.proposal_cid)
    then some (trigger (ClientEvent.response_deal_did_not_match c d.proposal_cid) ∷ [])
    else some (trigger (ClientEvent.deal_accepted p.publish_cid) ∷ [])

unfoldable pub polled : ClientEnv → ClientDeal → Result ProviderDealState → Option (List Act)
unfolding wait_again is_failed is_accepted
polled env d (err e) = some (wait_again env true StorageDealStatus.unknown)
polled env d (ok p) =
    if is_failed p.state
    then some (trigger (ClientEvent.deal_rejected p.state p.message) ∷ [])
    else if is_accepted p.state
    then accepted_event d p p.proposal_cid
    else some (wait_again env false p.state)

-- `CheckForDealAcceptance`
unfoldable pub check_for_deal_acceptance : ClientEnv → ClientDeal → Option (List Act)
unfolding polled
check_for_deal_acceptance env d =
    if too_late env.get_chain_head d
    then some (trigger (ClientEvent.deal_rejected d.state "start epoch already elapsed") ∷ [])
    else polled env d (env.get_provider_deal_state d.proposal_cid)

-- `releaseReservedFunds`: the node's answer does not matter.
unfoldable pub release_reserved_funds : ClientDeal → Option ℤ → List Act
release_reserved_funds d none = []
release_reserved_funds d (some f) =
    if is_zero f
    then []
    else releases_funds d.proposal.client f ∷ trigger (ClientEvent.funds_released f) ∷ []

-- ===== src/Storage/Provider/Handlers.antt =====
-- storagemarket/impl/providerstates/provider_states.go: the entry functions up to the publication
-- of a deal, as what they ask of their environment and the events that they trigger, in order.
-- `none` is a nil pointer that the code follows.
use Prim.Native.String.{String, ◌∷◌ as char, [] as empty}
use text.Mathlib.Text.{◌==◌ as str_eq}
use go_fil_markets.Prelude.{
  ℕ, ◌==◌, Bool, true, false, not, ◌||◌, ◌&&◌, Option, none, some, List, [], ◌∷◌, ◌++◌, Result, ok,
  err, if◌then◌else◌,
}
use go_fil_markets.Prelude.Int.{ℤ, pos, is_zero}
use go_fil_markets.Text.{wrap}
use go_fil_markets.Retrieval.Params.{Cid}
use go_fil_markets.Storage.Status.{StorageDealStatus}
use go_fil_markets.Storage.Validation.{Decision, validate_deal_proposal}
use go_fil_markets.Storage.Client.Env.{MessageAnswer, landed, exit_code, message_error}
use go_fil_markets.Storage.Provider.Deal.{MinerDeal, ProviderEvent}
use go_fil_markets.Storage.Provider.Env.{
  Response, ProviderEnv, Act, tags_peer, sends_response, disconnects, finalizes_blockstore,
  reserves_funds, releases_funds, publishes_deal, trigger,
}

abbrev decision_event : Decision → ProviderEvent
decision_event (err reason) = ProviderEvent.deal_rejected reason
decision_event (ok _) = ProviderEvent.deal_deciding

-- `ValidateDealProposal`, with the decision of Storage/Validation.
unfoldable pub validate_entry : ProviderEnv → MinerDeal → List Act
validate_entry env d =
    tags_peer d.client d.proposal_cid
    ∷ trigger (decision_event (validate_deal_proposal env.validation d.proposal))
    ∷ []

abbrev pub intent : MinerDeal → Response
intent d = record {
  state = StorageDealStatus.waiting_for_data;
  message = "";
  proposal = d.proposal_cid;
}

unfoldable pub decide_on_proposal : ProviderEnv → MinerDeal → List Act
decide_on_proposal env d = elim (env.run_custom_decision_logic d) [
  | err e ↦ trigger (ProviderEvent.deal_rejected (wrap "custom deal decision logic failed" e)) ∷ []
  | ok (accept, reason) ↦
      if not accept
      then trigger (ProviderEvent.deal_rejected reason) ∷ []
      else sends_response (intent d) ∷ elim (env.send_signed_response (intent d)) [
        | err e ↦ trigger (ProviderEvent.send_response_failed e) ∷ []
        | ok _ ↦ disconnects d.proposal_cid ∷ trigger ProviderEvent.data_requested ∷ []
      ]
]

unfoldable pub wait_for_transfer_restart : ProviderEnv → List Act
wait_for_transfer_restart env =
    if env.timeout_fires then trigger ProviderEvent.await_transfer_restart_timeout ∷ [] else []

-- The event of `VerifyData` once the blockstore is finalized.
unfoldable pub commitment_event : MinerDeal → Result (Cid × String) → ProviderEvent
commitment_event d (err e) =
    ProviderEvent.data_verification_failed (wrap "error generating CommP" e) "" ""
commitment_event d (ok (piece_cid, metadata)) =
    if not (piece_cid == d.proposal.piece_cid)
    then ProviderEvent.data_verification_failed "proposal CommP doesn't match calculated CommP" ""
        metadata
    else ProviderEvent.verified_data "" metadata

unfoldable pub verify_data : ProviderEnv → MinerDeal → List Act
unfolding commitment_event
verify_data env d =
    finalizes_blockstore d.proposal_cid ∷ elim (env.finalize_blockstore d.proposal_cid) [
      | err e ↦
          trigger (
            ProviderEvent.data_verification_failed
              (wrap "failed to finalize read/write blockstore" e) "" "")
          ∷ []
      | ok _ ↦
          trigger (
            commitment_event d
              (env.generate_piece_commitment d.proposal_cid d.inbound_car d.proposal.piece_size))
          ∷ []
    ]

-- `ReserveProviderFunds` once the worker's address is known. The undefined CID says that no message
-- was sent.
unfoldable pub reserve_for : ProviderEnv → MinerDeal → ℕ → List Act
reserve_for env d worker =
    let amount = d.proposal.provider_collateral in
    reserves_funds d.proposal.provider amount
    ∷ elim (env.reserve_funds worker d.proposal.provider amount) [
      | err e ↦ trigger (ProviderEvent.node_errored (wrap "reserving funds" e)) ∷ []
      | ok mcid ↦
          trigger (ProviderEvent.funds_reserved amount)
          ∷ (if mcid == 0
              then trigger ProviderEvent.funded
              else trigger (ProviderEvent.funding_initiated mcid))
          ∷ []
    ]

unfoldable pub reserve_provider_funds : ProviderEnv → MinerDeal → List Act
unfolding reserve_for
reserve_provider_funds env d = elim env.get_chain_head [
  | err e ↦ trigger (ProviderEvent.node_errored (wrap "acquiring chain head" e)) ∷ []
  | ok (tok, epoch) ↦ elim (env.get_miner_worker_address d.proposal.provider tok) [
    | err e ↦ trigger (ProviderEvent.node_errored (wrap "looking up miner worker" e)) ∷ []
    | ok worker ↦ reserve_for env d worker
  ]
]

abbrev funding_event : MessageAnswer → ProviderEvent
funding_event landed = ProviderEvent.funded
funding_event (exit_code code) = ProviderEvent.node_errored (wrap "AddFunds exit code" code)
funding_event (message_error e) = ProviderEvent.node_errored (wrap "AddFunds errored" e)

-- `WaitForFunding`, on the message to wait for.
unfoldable pub wait_for_funding : ProviderEnv → Option Cid → Option (List Act)
wait_for_funding env none = none
wait_for_funding env (some mcid) = elim (env.wait_for_message mcid) [
  | none ↦ some []
  | some answer ↦ some (trigger (funding_event answer) ∷ [])
]

-- `strings.HasPrefix`, `strings.Contains`
starts_with : String → String → Bool
starts_with s empty = true
starts_with empty (char c p) = false
starts_with (char x s) (char c p) = str_eq (char x empty) (char c empty) && starts_with s p

unfoldable pub contains : String → String → Bool
unfolding starts_with
contains empty p = starts_with empty p
contains (char x s) p = starts_with (char x s) p || contains s p

-- The deal that is handed to the node, with the fields that `PublishDeal` copies; the others are
-- the zero values of Go.
abbrev pub published_deal : MinerDeal → MinerDeal
published_deal d = record d {
  add_funds_cid = none;
  publish_cid = none;
  miner = 0;
  piece_path = "";
  metadata_path = "";
  slash_epoch = pos 0;
  fast_retrieval = false;
  message = "";
  funds_reserved = none;
  available_for_retrieval = false;
  deal_id = 0;
  creation_time = 0;
  transfer_channel_id = none;
  sector_number = 0;
  inbound_car = "";
}

-- A lack of funds leaves the deal where it is.
abbrev publish_acts : Result Cid → List Act
publish_acts (err e) =
    if contains e "not enough funds"
    then []
    else trigger (ProviderEvent.node_errored (wrap "publishing deal" e)) ∷ []
publish_acts (ok mcid) = trigger (ProviderEvent.deal_publish_initiated mcid) ∷ []

unfoldable pub publish_deal : ProviderEnv → MinerDeal → List Act
publish_deal env d =
    publishes_deal (published_deal d) ∷ publish_acts (env.publish_deals (published_deal d))

-- `releaseReservedFunds`: the node's answer does not matter.
unfoldable pub release_reserved_funds : MinerDeal → Option ℤ → List Act
release_reserved_funds d none = []
release_reserved_funds d (some f) =
    if is_zero f
    then []
    else releases_funds d.proposal.provider f ∷ trigger (ProviderEvent.funds_released f) ∷ []

-- `WaitForPublish`, on the message of the publication.
unfoldable pub wait_for_publish : ProviderEnv → MinerDeal → Option Cid → Option (List Act)
unfolding release_reserved_funds
wait_for_publish env d none = none
wait_for_publish env d (some mcid) = elim (env.wait_for_publish_deals mcid d.proposal) [
  | err e ↦
      some (trigger (ProviderEvent.deal_publish_error (wrap "PublishStorageDeals errored" e)) ∷ [])
  | ok (deal_id, final_cid) ↦ some (
      release_reserved_funds d d.funds_reserved
      ++ trigger (ProviderEvent.deal_published deal_id final_cid) ∷ [])
]

unfoldable pub reject_deal : ProviderEnv → MinerDeal → List Act
reject_deal env d =
    let response : Response = record {
      state = StorageDealStatus.failing;
      message = d.message;
      proposal = d.proposal_cid;
    } in
    sends_response response ∷ elim (env.send_signed_response response) [
      | err e ↦ trigger (ProviderEvent.send_response_failed e) ∷ []
      | ok _ ↦ disconnects d.proposal_cid ∷ trigger ProviderEvent.rejection_sent ∷ []
    ]

-- ===== src/Storage/Provider/Closing.antt =====
-- storagemarket/impl/providerstates/provider_states.go: the entry functions of the states in which
-- the deal is sealed, ends or fails, and `ProviderStateEntryFuncs`.
use text.Mathlib.Text.{◌==◌ as str_eq}
use go_fil_markets.Prelude.{
  not, Option, none, some, List, [], ◌∷◌, ◌++◌, Result, ok, err, if◌then◌else◌,
}
use go_fil_markets.Text.{wrap}
use go_fil_markets.Storage.Status.{StorageDealStatus}
use go_fil_markets.Storage.Client.Env.{
  PreCommitAnswer, pre_committed, is_active, pre_commit_error, EndAnswer, expires, slashes,
  expiry_error, slashing_error,
}
use go_fil_markets.Storage.Provider.Deal.{FilePath, MinerDeal, ProviderEvent}
use go_fil_markets.Storage.Provider.Env.{
  ProviderEnv, Act, untags_peer, finalizes_blockstore, removes_index, deletes_file,
  terminates_blockstore, trigger,
}
use go_fil_markets.Storage.Provider.Handlers.{
  validate_entry, decide_on_proposal, wait_for_transfer_restart, verify_data,
  reserve_provider_funds, wait_for_funding, publish_deal, wait_for_publish, reject_deal,
  release_reserved_funds,
}
use go_fil_markets.Storage.Provider.Handoff.{handoff_deal}

-- A file that is there is deleted.
abbrev delete_if_there : FilePath → List Act
delete_if_there p = if not (str_eq p "") then deletes_file p ∷ [] else []

unfoldable pub cleanup_deal : MinerDeal → List Act
cleanup_deal d =
    delete_if_there d.piece_path
    ++ (delete_if_there d.metadata_path
        ++ ((if not (str_eq d.inbound_car "")
              then terminates_blockstore d.proposal_cid d.inbound_car ∷ []
              else [])
            ++ trigger ProviderEvent.finalized ∷ []))

abbrev pre_commit_event : PreCommitAnswer → ProviderEvent
pre_commit_event (pre_committed n) = ProviderEvent.deal_precommitted n
pre_commit_event is_active = ProviderEvent.deal_activated
pre_commit_event (pre_commit_error e) = ProviderEvent.deal_precommit_failed e

unfoldable pub verify_deal_pre_committed : ProviderEnv → MinerDeal → List Act
verify_deal_pre_committed env d =
    elim (env.on_deal_sector_pre_committed d.proposal.provider d.deal_id d.proposal d.publish_cid) [
      | err e ↦ trigger (ProviderEvent.deal_precommit_failed e) ∷ []
      | ok none ↦ []
      | ok (some answer) ↦ trigger (pre_commit_event answer) ∷ []
    ]

abbrev activation_event : Result (Unit {0}) → ProviderEvent
activation_event (err e) = ProviderEvent.deal_activation_failed e
activation_event (ok _) = ProviderEvent.deal_activated

unfoldable pub verify_deal_activated : ProviderEnv → MinerDeal → List Act
verify_deal_activated env d =
    elim (env.on_deal_sector_committed d.proposal.provider d.deal_id d.sector_number d.proposal
      d.publish_cid) [
        | err e ↦ trigger (ProviderEvent.deal_activation_failed e) ∷ []
        | ok none ↦ []
        | ok (some answer) ↦ trigger (activation_event answer) ∷ []
      ]

abbrev end_event : EndAnswer → ProviderEvent
end_event expires = ProviderEvent.deal_expired
end_event (slashes epoch) = ProviderEvent.deal_slashed epoch
end_event (expiry_error e) = ProviderEvent.deal_completion_failed (wrap "deal expiration err" e)
end_event (slashing_error e) = ProviderEvent.deal_completion_failed (wrap "deal slashing err" e)

-- Either callback asks the indexer to remove the deal first.
unfoldable pub wait_for_deal_completion : ProviderEnv → MinerDeal → List Act
wait_for_deal_completion env d =
    untags_peer d.client d.proposal_cid ∷ elim (env.on_deal_expired_or_slashed d.deal_id) [
      | err e ↦ trigger (ProviderEvent.deal_completion_failed e) ∷ []
      | ok none ↦ []
      | ok (some answer) ↦ removes_index d.proposal_cid ∷ trigger (end_event answer) ∷ []
    ]

-- What `FailDeal` does before it releases the funds.
unfoldable pub discard_data : MinerDeal → List Act
discard_data d =
    untags_peer d.client d.proposal_cid
    ∷ (delete_if_there d.piece_path
        ++ (delete_if_there d.metadata_path
            ++ (if not (str_eq d.inbound_car "")
                then finalizes_blockstore d.proposal_cid
                  ∷ terminates_blockstore d.proposal_cid d.inbound_car
                  ∷ []
                else [])))

unfoldable pub fail_deal : MinerDeal → List Act
unfolding release_reserved_funds discard_data
fail_deal d =
    discard_data d
    ++ (release_reserved_funds d d.funds_reserved ++ trigger ProviderEvent.provider_failed ∷ [])

-- `ProviderStateEntryFuncs`: the entry function of the deal's state, if it has one.
unfoldable pub entry_of : ProviderEnv → StorageDealStatus → MinerDeal → Option (List Act)
unfolding validate_entry decide_on_proposal wait_for_transfer_restart verify_data
    reserve_provider_funds wait_for_funding publish_deal wait_for_publish handoff_deal
    verify_deal_pre_committed verify_deal_activated reject_deal cleanup_deal
    wait_for_deal_completion fail_deal
entry_of env StorageDealStatus.validating d = some (validate_entry env d)
entry_of env StorageDealStatus.accept_wait d = some (decide_on_proposal env d)
entry_of env StorageDealStatus.provider_transfer_await_restart d =
    some (wait_for_transfer_restart env)
entry_of env StorageDealStatus.verify_data d = some (verify_data env d)
entry_of env StorageDealStatus.reserve_provider_funds d = some (reserve_provider_funds env d)
entry_of env StorageDealStatus.provider_funding d = wait_for_funding env d.add_funds_cid
entry_of env StorageDealStatus.publish d = some (publish_deal env d)
entry_of env StorageDealStatus.publishing d = wait_for_publish env d d.publish_cid
entry_of env StorageDealStatus.staged d = some (handoff_deal env d)
entry_of env StorageDealStatus.awaiting_pre_commit d = some (verify_deal_pre_committed env d)
entry_of env StorageDealStatus.sealing d = some (verify_deal_activated env d)
entry_of env StorageDealStatus.rejecting d = some (reject_deal env d)
entry_of env StorageDealStatus.finalizing d = some (cleanup_deal d)
entry_of env StorageDealStatus.active d = some (wait_for_deal_completion env d)
entry_of env StorageDealStatus.failing d = some (fail_deal d)
entry_of env _ d = some []

unfoldable pub entry : ProviderEnv → MinerDeal → Option (List Act)
unfolding entry_of
entry env d = entry_of env d.state d

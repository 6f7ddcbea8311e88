-- ===== src/Storage/Client/Closing.antt =====
-- storagemarket/impl/clientstates/client_states.go: the entry functions of the states in which the
-- deal is on chain or fails, and `ClientStateEntryFuncs`.
use go_fil_markets.Prelude.{Option, none, some, List, [], ◌∷◌, ◌++◌, Result, ok, err}
use go_fil_markets.Text.{wrap}
use go_fil_markets.Storage.Status.{StorageDealStatus}
use go_fil_markets.Storage.Client.Deal.{ClientDeal, ClientEvent}
use go_fil_markets.Storage.Client.Env.{
  PreCommitAnswer, pre_committed, is_active, pre_commit_error, EndAnswer, expires, slashes,
  expiry_error, slashing_error, ClientEnv, Act, untags_peer, cleans_blockstore, trigger,
}
use go_fil_markets.Storage.Client.Handlers.{
  reserve_client_funds, wait_for_funding, propose_deal, restart_data_transfer,
  initiate_data_transfer, check_for_deal_acceptance, release_reserved_funds,
}

unfoldable pub validate_deal_published : ClientEnv → ClientDeal → List Act
unfolding release_reserved_funds
validate_deal_published env d = elim (env.validate_published_deal d) [
  | err e ↦ trigger (ClientEvent.deal_publish_failed e) ∷ []
  | ok deal_id ↦
      release_reserved_funds d d.funds_reserved
      ++ untags_peer d.miner d.proposal_cid ∷ trigger (ClientEvent.deal_published deal_id) ∷ []
]

abbrev pre_commit_event : PreCommitAnswer → ClientEvent
pre_commit_event (pre_committed n) = ClientEvent.deal_precommitted n
pre_commit_event is_active = ClientEvent.deal_activated
pre_commit_event (pre_commit_error e) = ClientEvent.deal_precommit_failed e

unfoldable pub verify_deal_pre_committed : ClientEnv → ClientDeal → List Act
verify_deal_pre_committed env d =
    elim (env.on_deal_sector_pre_committed d.proposal.provider d.deal_id d.proposal
      d.publish_message) [
        | err e ↦ trigger (ClientEvent.deal_precommit_failed e) ∷ []
        | ok none ↦ []
        | ok (some answer) ↦ trigger (pre_commit_event answer) ∷ []
      ]

abbrev activation_event : Result (Unit {0}) → ClientEvent
activation_event (err e) = ClientEvent.deal_activation_failed e
activation_event (ok _) = ClientEvent.deal_activated

unfoldable pub verify_deal_activated : ClientEnv → ClientDeal → List Act
verify_deal_activated env d =
    elim (env.on_deal_sector_committed d.proposal.provider d.deal_id d.sector_number d.proposal
      d.publish_message) [
        | err e ↦ trigger (ClientEvent.deal_activation_failed e) ∷ []
        | ok none ↦ []
        | ok (some answer) ↦ trigger (activation_event answer) ∷ []
      ]

abbrev end_event : EndAnswer → ClientEvent
end_event expires = ClientEvent.deal_expired
end_event (slashes epoch) = ClientEvent.deal_slashed epoch
end_event (expiry_error e) = ClientEvent.deal_completion_failed (wrap "deal expiration err" e)
end_event (slashing_error e) = ClientEvent.deal_completion_failed (wrap "deal slashing err" e)

-- An error of the blockstore is only logged.
unfoldable pub wait_for_deal_completion : ClientEnv → ClientDeal → List Act
wait_for_deal_completion env d =
    cleans_blockstore d.data_ref.root ∷ elim (env.on_deal_expired_or_slashed d.deal_id) [
      | err e ↦ trigger (ClientEvent.deal_completion_failed e) ∷ []
      | ok none ↦ []
      | ok (some answer) ↦ trigger (end_event answer) ∷ []
    ]

unfoldable pub fail_deal : ClientDeal → List Act
unfolding release_reserved_funds
fail_deal d =
    release_reserved_funds d d.funds_reserved
    ++ untags_peer d.miner d.proposal_cid
      ∷ cleans_blockstore d.data_ref.root
      ∷ trigger ClientEvent.client_failed
      ∷ []

-- `ClientStateEntryFuncs`: the entry function of the deal's state, if it has one.
unfoldable pub entry_of : ClientEnv → StorageDealStatus → ClientDeal → Option (List Act)
unfolding reserve_client_funds wait_for_funding propose_deal restart_data_transfer
    initiate_data_transfer check_for_deal_acceptance validate_deal_published
    verify_deal_pre_committed verify_deal_activated wait_for_deal_completion fail_deal
entry_of env StorageDealStatus.reserve_client_funds d = some (reserve_client_funds env d)
entry_of env StorageDealStatus.client_funding d = wait_for_funding env d.add_funds_cid
entry_of env StorageDealStatus.funds_reserved d = propose_deal env d
entry_of env StorageDealStatus.start_data_transfer d = some (initiate_data_transfer env d)
entry_of env StorageDealStatus.client_transfer_restart d =
    some (restart_data_transfer env d.transfer_channel_id)
entry_of env StorageDealStatus.check_for_acceptance d = check_for_deal_acceptance env d
entry_of env StorageDealStatus.proposal_accepted d = some (validate_deal_published env d)
entry_of env StorageDealStatus.awaiting_pre_commit d = some (verify_deal_pre_committed env d)
entry_of env StorageDealStatus.sealing d = some (verify_deal_activated env d)
entry_of env StorageDealStatus.active d = some (wait_for_deal_completion env d)
entry_of env StorageDealStatus.failing d = some (fail_deal d)
entry_of env _ d = some []

unfoldable pub entry : ClientEnv → ClientDeal → Option (List Act)
unfolding entry_of
entry env d = entry_of env d.state d

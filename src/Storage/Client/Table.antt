-- ===== src/Storage/Client/Table.antt =====
-- storagemarket/impl/clientstates/client_fsm.go: the edges of `ClientEvents`, and the finality
-- states.
use go_fil_markets.Prelude.{Bool, List, [], ◌∷◌}
use go_fil_markets.Fsm.{Edge, from_many, from_any, to, no_change, just_record, elem}
use go_fil_markets.Storage.Status.{StorageDealStatus, same}
use go_fil_markets.Storage.Client.Deal.{ClientEvent}

abbrev one : StorageDealStatus → List StorageDealStatus
one s = s ∷ []

unfoldable pub edges : ClientEvent → List (Edge StorageDealStatus)
edges ClientEvent.open_deal =
    from_many (one StorageDealStatus.unknown) (to StorageDealStatus.reserve_client_funds) ∷ []
edges (ClientEvent.funding_initiated c) =
    from_many (one StorageDealStatus.reserve_client_funds) (to StorageDealStatus.client_funding)
    ∷ []
edges (ClientEvent.reserve_funds_failed e) =
    from_many (StorageDealStatus.client_funding ∷ StorageDealStatus.reserve_client_funds ∷ [])
      (to StorageDealStatus.failing)
    ∷ []
edges (ClientEvent.funds_reserved a) =
    from_many (one StorageDealStatus.reserve_client_funds) just_record ∷ []
edges (ClientEvent.funds_released a) =
    from_many (StorageDealStatus.proposal_accepted ∷ StorageDealStatus.failing ∷ []) just_record
    ∷ []
edges ClientEvent.funding_complete =
    from_many (StorageDealStatus.reserve_client_funds ∷ StorageDealStatus.client_funding ∷ [])
      (to StorageDealStatus.funds_reserved)
    ∷ []
edges (ClientEvent.write_proposal_failed e) =
    from_many (one StorageDealStatus.funds_reserved) (to StorageDealStatus.error) ∷ []
edges (ClientEvent.read_response_failed e) =
    from_many (one StorageDealStatus.funds_reserved) (to StorageDealStatus.failing) ∷ []
edges ClientEvent.response_verification_failed =
    from_many (one StorageDealStatus.funds_reserved) (to StorageDealStatus.failing) ∷ []
edges ClientEvent.initiate_data_transfer =
    from_many (one StorageDealStatus.funds_reserved) (to StorageDealStatus.start_data_transfer) ∷ []
edges (ClientEvent.unexpected_deal_state s m) =
    from_many (one StorageDealStatus.funds_reserved) (to StorageDealStatus.failing) ∷ []
edges (ClientEvent.data_transfer_failed e) =
    from_many
      (StorageDealStatus.start_data_transfer ∷ StorageDealStatus.transferring
        ∷ StorageDealStatus.transfer_queued ∷ [])
      (to StorageDealStatus.failing)
    ∷ []
edges (ClientEvent.data_transfer_restart_failed e) =
    from_many (one StorageDealStatus.client_transfer_restart) (to StorageDealStatus.failing) ∷ []
edges (ClientEvent.data_transfer_queued c) =
    from_many (one StorageDealStatus.start_data_transfer) (to StorageDealStatus.transfer_queued)
    ∷ []
edges (ClientEvent.data_transfer_initiated c) =
    from_many (one StorageDealStatus.transfer_queued) (to StorageDealStatus.transferring) ∷ []
edges (ClientEvent.data_transfer_restarted c) =
    from_many
      (StorageDealStatus.client_transfer_restart ∷ StorageDealStatus.start_data_transfer
        ∷ StorageDealStatus.transfer_queued ∷ [])
      (to StorageDealStatus.transferring)
    ∷ from_many (one StorageDealStatus.transferring) just_record
    ∷ []
edges (ClientEvent.data_transfer_stalled e) =
    from_many (StorageDealStatus.transferring ∷ StorageDealStatus.transfer_queued ∷ [])
      (to StorageDealStatus.failing)
    ∷ []
edges ClientEvent.data_transfer_cancelled =
    from_many
      (StorageDealStatus.start_data_transfer ∷ StorageDealStatus.transferring
        ∷ StorageDealStatus.client_transfer_restart ∷ StorageDealStatus.transfer_queued ∷ [])
      (to StorageDealStatus.failing)
    ∷ []
edges ClientEvent.data_transfer_complete =
    from_many
      (StorageDealStatus.transferring ∷ StorageDealStatus.start_data_transfer
        ∷ StorageDealStatus.transfer_queued ∷ [])
      (to StorageDealStatus.check_for_acceptance)
    ∷ []
edges (ClientEvent.wait_for_deal_state p s) =
    from_many (one StorageDealStatus.check_for_acceptance) no_change ∷ []
edges (ClientEvent.response_deal_did_not_match r p) =
    from_many (one StorageDealStatus.check_for_acceptance) (to StorageDealStatus.failing) ∷ []
edges (ClientEvent.deal_rejected s m) =
    from_many (one StorageDealStatus.check_for_acceptance) (to StorageDealStatus.failing) ∷ []
edges (ClientEvent.deal_accepted p) =
    from_many (one StorageDealStatus.check_for_acceptance) (to StorageDealStatus.proposal_accepted)
    ∷ []
edges (ClientEvent.stream_close_error e) = from_any (to StorageDealStatus.error) ∷ []
edges (ClientEvent.deal_publish_failed e) =
    from_many (one StorageDealStatus.proposal_accepted) (to StorageDealStatus.error) ∷ []
edges (ClientEvent.deal_published i) =
    from_many (one StorageDealStatus.proposal_accepted) (to StorageDealStatus.awaiting_pre_commit)
    ∷ []
edges (ClientEvent.deal_precommit_failed e) =
    from_many (one StorageDealStatus.awaiting_pre_commit) (to StorageDealStatus.error) ∷ []
edges (ClientEvent.deal_precommitted n) =
    from_many (one StorageDealStatus.awaiting_pre_commit) (to StorageDealStatus.sealing) ∷ []
edges (ClientEvent.deal_activation_failed e) =
    from_many (one StorageDealStatus.sealing) (to StorageDealStatus.error) ∷ []
edges ClientEvent.deal_activated =
    from_many (StorageDealStatus.awaiting_pre_commit ∷ StorageDealStatus.sealing ∷ [])
      (to StorageDealStatus.active)
    ∷ []
edges (ClientEvent.deal_slashed n) =
    from_many (one StorageDealStatus.active) (to StorageDealStatus.slashed) ∷ []
edges ClientEvent.deal_expired =
    from_many (one StorageDealStatus.active) (to StorageDealStatus.expired) ∷ []
edges (ClientEvent.deal_completion_failed e) =
    from_many (one StorageDealStatus.active) (to StorageDealStatus.error) ∷ []
edges ClientEvent.client_failed =
    from_many (one StorageDealStatus.failing) (to StorageDealStatus.error) ∷ []
edges ClientEvent.client_restart =
    from_many (one StorageDealStatus.transferring) (to StorageDealStatus.client_transfer_restart)
    ∷ from_any no_change
    ∷ []

-- `ClientFinalityStates`
abbrev pub client_finality_states : List StorageDealStatus
client_finality_states =
    StorageDealStatus.slashed ∷ StorageDealStatus.expired ∷ StorageDealStatus.error ∷ []

unfoldable pub is_final : StorageDealStatus → Bool
is_final s = elem same s client_finality_states

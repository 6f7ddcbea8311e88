-- ===== src/Storage/Provider/Table.antt =====
-- storagemarket/impl/providerstates/provider_fsm.go: the edges of `ProviderEvents`, and the lists of
-- states.
use go_fil_markets.Prelude.{List, [], ◌∷◌}
use go_fil_markets.Fsm.{Edge, from_many, from_any, to, no_change, just_record}
use go_fil_markets.Storage.Status.{StorageDealStatus}
use go_fil_markets.Storage.Provider.Deal.{ProviderEvent}

abbrev one : StorageDealStatus → List StorageDealStatus
one s = s ∷ []

unfoldable pub edges : ProviderEvent → List (Edge StorageDealStatus)
edges ProviderEvent.open_deal =
    from_many (one StorageDealStatus.unknown) (to StorageDealStatus.validating) ∷ []
edges (ProviderEvent.node_errored e) = from_any (to StorageDealStatus.failing) ∷ []
edges (ProviderEvent.deal_rejected e) =
    from_many
      (StorageDealStatus.validating ∷ StorageDealStatus.verify_data ∷ StorageDealStatus.accept_wait
        ∷ [])
      (to StorageDealStatus.rejecting)
    ∷ []
edges ProviderEvent.rejection_sent =
    from_many (one StorageDealStatus.rejecting) (to StorageDealStatus.failing) ∷ []
edges ProviderEvent.deal_deciding =
    from_many (one StorageDealStatus.validating) (to StorageDealStatus.accept_wait) ∷ []
edges ProviderEvent.data_requested =
    from_many (one StorageDealStatus.accept_wait) (to StorageDealStatus.waiting_for_data) ∷ []
edges (ProviderEvent.data_transfer_failed e) =
    from_many
      (StorageDealStatus.transferring ∷ StorageDealStatus.provider_transfer_await_restart ∷ [])
      (to StorageDealStatus.failing)
    ∷ []
edges (ProviderEvent.data_transfer_initiated c) =
    from_many
      (StorageDealStatus.waiting_for_data ∷ StorageDealStatus.provider_transfer_await_restart ∷ [])
      (to StorageDealStatus.transferring)
    ∷ []
edges (ProviderEvent.data_transfer_restarted c) =
    from_many
      (StorageDealStatus.waiting_for_data ∷ StorageDealStatus.provider_transfer_await_restart ∷ [])
      (to StorageDealStatus.transferring)
    ∷ from_many (one StorageDealStatus.transferring) just_record
    ∷ []
edges ProviderEvent.data_transfer_stalled =
    from_many
      (StorageDealStatus.transferring ∷ StorageDealStatus.provider_transfer_await_restart ∷ [])
      just_record
    ∷ []
edges ProviderEvent.data_transfer_cancelled =
    from_many
      (StorageDealStatus.waiting_for_data ∷ StorageDealStatus.transferring
        ∷ StorageDealStatus.provider_transfer_await_restart ∷ [])
      (to StorageDealStatus.failing)
    ∷ []
edges ProviderEvent.data_transfer_completed =
    from_many
      (StorageDealStatus.transferring ∷ StorageDealStatus.provider_transfer_await_restart ∷ [])
      (to StorageDealStatus.verify_data)
    ∷ []
edges (ProviderEvent.data_verification_failed e p m) =
    from_many (one StorageDealStatus.verify_data) (to StorageDealStatus.failing) ∷ []
edges (ProviderEvent.verified_data p m) =
    from_many (StorageDealStatus.verify_data ∷ StorageDealStatus.waiting_for_data ∷ [])
      (to StorageDealStatus.reserve_provider_funds)
    ∷ []
edges (ProviderEvent.funding_initiated c) =
    from_many (one StorageDealStatus.reserve_provider_funds) (to StorageDealStatus.provider_funding)
    ∷ []
edges ProviderEvent.funded =
    from_many (StorageDealStatus.provider_funding ∷ StorageDealStatus.reserve_provider_funds ∷ [])
      (to StorageDealStatus.publish)
    ∷ []
edges (ProviderEvent.deal_publish_initiated c) =
    from_many (one StorageDealStatus.publish) (to StorageDealStatus.publishing) ∷ []
edges (ProviderEvent.deal_publish_error e) =
    from_many (one StorageDealStatus.publishing) (to StorageDealStatus.failing) ∷ []
edges (ProviderEvent.send_response_failed e) =
    from_many (StorageDealStatus.accept_wait ∷ StorageDealStatus.rejecting ∷ [])
      (to StorageDealStatus.failing)
    ∷ []
edges (ProviderEvent.deal_published i c) =
    from_many (one StorageDealStatus.publishing) (to StorageDealStatus.staged) ∷ []
edges (ProviderEvent.file_store_errored e) =
    from_many
      (StorageDealStatus.staged ∷ StorageDealStatus.awaiting_pre_commit ∷ StorageDealStatus.sealing
        ∷ StorageDealStatus.active ∷ [])
      (to StorageDealStatus.failing)
    ∷ []
edges (ProviderEvent.multistore_errored e) =
    from_many (one StorageDealStatus.staged) (to StorageDealStatus.failing) ∷ []
edges (ProviderEvent.deal_handoff_failed e) =
    from_many (one StorageDealStatus.staged) (to StorageDealStatus.failing) ∷ []
edges (ProviderEvent.piece_store_errored e) =
    from_many (one StorageDealStatus.staged) just_record ∷ []
edges ProviderEvent.deal_handed_off =
    from_many (one StorageDealStatus.staged) (to StorageDealStatus.awaiting_pre_commit) ∷ []
edges (ProviderEvent.deal_precommit_failed e) =
    from_many (one StorageDealStatus.awaiting_pre_commit) (to StorageDealStatus.failing) ∷ []
edges (ProviderEvent.deal_precommitted n) =
    from_many (one StorageDealStatus.awaiting_pre_commit) (to StorageDealStatus.sealing) ∷ []
edges (ProviderEvent.deal_activation_failed e) =
    from_many (one StorageDealStatus.sealing) (to StorageDealStatus.failing) ∷ []
edges ProviderEvent.deal_activated =
    from_many (StorageDealStatus.awaiting_pre_commit ∷ StorageDealStatus.sealing ∷ [])
      (to StorageDealStatus.finalizing)
    ∷ []
edges ProviderEvent.finalized =
    from_many (one StorageDealStatus.finalizing) (to StorageDealStatus.active) ∷ []
edges (ProviderEvent.deal_slashed n) =
    from_many (one StorageDealStatus.active) (to StorageDealStatus.slashed) ∷ []
edges ProviderEvent.deal_expired =
    from_many (one StorageDealStatus.active) (to StorageDealStatus.expired) ∷ []
edges (ProviderEvent.deal_completion_failed e) =
    from_many (one StorageDealStatus.active) (to StorageDealStatus.error) ∷ []
edges ProviderEvent.provider_failed =
    from_many (one StorageDealStatus.failing) (to StorageDealStatus.error) ∷ []
edges ProviderEvent.provider_restart =
    from_many
      (StorageDealStatus.validating ∷ StorageDealStatus.accept_wait ∷ StorageDealStatus.rejecting
        ∷ [])
      (to StorageDealStatus.error)
    ∷ from_many (one StorageDealStatus.transferring)
        (to StorageDealStatus.provider_transfer_await_restart)
    ∷ from_any no_change
    ∷ []
edges ProviderEvent.await_transfer_restart_timeout =
    from_many (one StorageDealStatus.provider_transfer_await_restart) (to StorageDealStatus.failing)
    ∷ from_any just_record
    ∷ []
edges (ProviderEvent.track_funds_failed e) =
    from_many (one StorageDealStatus.reserve_provider_funds) (to StorageDealStatus.failing) ∷ []
edges (ProviderEvent.funds_reserved a) =
    from_many (one StorageDealStatus.reserve_provider_funds) just_record ∷ []
edges (ProviderEvent.funds_released a) =
    from_many (StorageDealStatus.publishing ∷ StorageDealStatus.failing ∷ []) just_record ∷ []

-- `ProviderFinalityStates`, `StatesKnownBySealingSubsystem`
abbrev pub provider_finality_states : List StorageDealStatus
provider_finality_states =
    StorageDealStatus.error ∷ StorageDealStatus.slashed ∷ StorageDealStatus.expired ∷ []

abbrev pub states_known_by_sealing_subsystem : List StorageDealStatus
states_known_by_sealing_subsystem =
    StorageDealStatus.awaiting_pre_commit ∷ StorageDealStatus.sealing ∷ StorageDealStatus.finalizing
    ∷ StorageDealStatus.active ∷ []

-- ===== src/Storage/Provider/Actions.antt =====
-- storagemarket/impl/providerstates/provider_fsm.go: the actions of `ProviderEvents`. An action is
-- `none` where the code panics.
use go_fil_markets.Prelude.{true, Option, none, some, if◌then◌else◌}
use go_fil_markets.Prelude.Int.{ℤ}
use go_fil_markets.Text.{wrap}
use go_fil_markets.Fsm.{Fired, Engine}
use go_fil_markets.Storage.Status.{StorageDealStatus, same}
use go_fil_markets.Storage.Amounts.{plus_reserved, minus_reserved}
use go_fil_markets.Storage.Provider.Deal.{MinerDeal, ProviderEvent, provider_machine}
use go_fil_markets.Storage.Provider.Table.{edges}

-- Funds are released from an amount that is there.
abbrev released : MinerDeal → Option ℤ → Option MinerDeal
released d none = none
released d (some f) = some (record d { funds_reserved = some f })

unfoldable pub action : ProviderEvent → MinerDeal → Option MinerDeal
unfolding wrap same
action (ProviderEvent.node_errored e) d = some (record d { message = wrap "error calling node" e })
action (ProviderEvent.deal_rejected e) d = some (record d { message = wrap "deal rejected" e })
action (ProviderEvent.data_transfer_failed e) d =
    some (record d { message = wrap "error transferring data" e })
action (ProviderEvent.data_transfer_initiated c) d =
    some (record d { transfer_channel_id = some c })
action (ProviderEvent.data_transfer_restarted c) d =
    some (record d { transfer_channel_id = some c; message = "" })
action ProviderEvent.data_transfer_stalled d =
    some
      (record d { message = "data transfer appears to be stalled, awaiting reconnect from client" })
action ProviderEvent.data_transfer_cancelled d =
    some (record d { message = "data transfer cancelled" })
action (ProviderEvent.data_verification_failed e p m) d = some (record d {
  piece_path = p;
  metadata_path = m;
  message = wrap "deal data verification failed" e;
})
action (ProviderEvent.verified_data p m) d = some (record d { piece_path = p; metadata_path = m })
action (ProviderEvent.funding_initiated c) d = some (record d { add_funds_cid = some c })
action (ProviderEvent.deal_publish_initiated c) d = some (record d { publish_cid = some c })
action (ProviderEvent.deal_publish_error e) d =
    some (record d { message = wrap "PublishStorageDeal error" e })
action (ProviderEvent.send_response_failed e) d =
    some (record d { message = wrap "sending response to deal" e })
action (ProviderEvent.deal_published i c) d = some (record d { deal_id = i; publish_cid = some c })
action (ProviderEvent.file_store_errored e) d =
    some (record d { message = wrap "accessing file store" e })
action (ProviderEvent.multistore_errored e) d =
    some (record d { message = wrap "operating on multistore" e })
action (ProviderEvent.deal_handoff_failed e) d =
    some (record d { message = wrap "handing off deal to node" e })
action (ProviderEvent.piece_store_errored e) d =
    some (record d { message = wrap "recording piece for retrieval" e })
action ProviderEvent.deal_handed_off d = some (record d { available_for_retrieval = true })
action (ProviderEvent.deal_precommit_failed e) d =
    some (record d { message = wrap "error awaiting deal pre-commit" e })
action (ProviderEvent.deal_precommitted n) d = some (record d { sector_number = n })
action (ProviderEvent.deal_activation_failed e) d =
    some (record d { message = wrap "error activating deal" e })
action (ProviderEvent.deal_slashed n) d = some (record d { slash_epoch = n })
action (ProviderEvent.deal_completion_failed e) d =
    some (record d { message = wrap "error waiting for deal completion" e })
action ProviderEvent.await_transfer_restart_timeout d = some (
    if same d.state StorageDealStatus.provider_transfer_await_restart
    then record d { message = "timed out waiting for client to restart transfer" }
    else d)
action (ProviderEvent.track_funds_failed e) d =
    some (record d { message = wrap "error tracking deal funds" e })
action (ProviderEvent.funds_reserved a) d =
    some (record d { funds_reserved = some (plus_reserved d.funds_reserved a) })
action (ProviderEvent.funds_released a) d = released d (minus_reserved d.funds_reserved a)
action _ d = some d

-- An event given to the provider's machine.
unfoldable pub fire : Engine provider_machine → ProviderEvent → MinerDeal → Fired MinerDeal
fire engine e d = engine.process (edges e) (action e) d

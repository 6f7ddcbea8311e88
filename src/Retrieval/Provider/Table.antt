-- ===== src/Retrieval/Provider/Table.antt =====
-- retrievalmarket/impl/providerstates/provider_fsm.go: `ProviderEvents` as edges and as actions,
-- and the finality states.
use go_fil_markets.Prelude.{not, Option, some, List, [], ◌∷◌, if◌then◌else◌}
use go_fil_markets.Prelude.Int.{pos, ◌+ℤ◌}
use go_fil_markets.Fsm.{Edge, from_many, from_any, to, no_change, just_record, Fired, Engine}
use go_fil_markets.Retrieval.Status.{DealStatus, same}
use go_fil_markets.Retrieval.Provider.Deal.{ProviderDealState, ProviderEvent, provider_machine}

abbrev one : DealStatus → List DealStatus
one s = s ∷ []

unfoldable pub edges : ProviderEvent → List (Edge DealStatus)
edges ProviderEvent.open_deal = from_many (one DealStatus.new) no_change ∷ []
edges (ProviderEvent.deal_accepted c) =
    from_many (one DealStatus.funds_needed_unseal) no_change
    ∷ from_many (one DealStatus.new) (to DealStatus.unsealing)
    ∷ []
edges (ProviderEvent.unseal_error e) =
    from_many (one DealStatus.unsealing) (to DealStatus.failing) ∷ []
edges ProviderEvent.unseal_complete =
    from_many (one DealStatus.unsealing) (to DealStatus.unsealed) ∷ []
edges ProviderEvent.block_sent =
    from_many (one DealStatus.ongoing) no_change
    ∷ from_many (one DealStatus.unsealed) (to DealStatus.ongoing)
    ∷ []
edges ProviderEvent.payment_requested =
    from_many (DealStatus.ongoing ∷ DealStatus.unsealed ∷ []) (to DealStatus.funds_needed)
    ∷ from_many (one DealStatus.funds_needed) just_record
    ∷ from_many (one DealStatus.new) (to DealStatus.funds_needed_unseal)
    ∷ []
edges ProviderEvent.last_payment_requested =
    from_many (DealStatus.ongoing ∷ DealStatus.unsealed ∷ [])
      (to DealStatus.funds_needed_last_payment)
    ∷ []
edges (ProviderEvent.save_voucher_failed e) =
    from_many
      (DealStatus.funds_needed_unseal ∷ DealStatus.funds_needed
        ∷ DealStatus.funds_needed_last_payment ∷ [])
      (to DealStatus.failing)
    ∷ []
edges (ProviderEvent.partial_payment_received amount) =
    from_many
      (DealStatus.funds_needed_unseal ∷ DealStatus.funds_needed
        ∷ DealStatus.funds_needed_last_payment ∷ [])
      no_change
    ∷ []
edges (ProviderEvent.payment_received amount) =
    from_many (one DealStatus.funds_needed) (to DealStatus.ongoing)
    ∷ from_many (one DealStatus.funds_needed_last_payment) (to DealStatus.finalizing)
    ∷ from_many (one DealStatus.funds_needed_unseal) (to DealStatus.unsealing)
    ∷ from_many (DealStatus.blocks_complete ∷ DealStatus.ongoing ∷ DealStatus.finalizing ∷ [])
        just_record
    ∷ []
edges ProviderEvent.process_payment = from_any no_change ∷ []
edges ProviderEvent.complete = from_any (to DealStatus.completing) ∷ []
edges ProviderEvent.cleanup_complete =
    from_many (one DealStatus.completing) (to DealStatus.completed) ∷ []
edges ProviderEvent.cancel_complete =
    from_many (one DealStatus.cancelling) (to DealStatus.cancelled)
    ∷ from_many (one DealStatus.failing) (to DealStatus.errored)
    ∷ []
edges (ProviderEvent.data_transfer_error e) = from_any (to DealStatus.errored) ∷ []
edges (ProviderEvent.multi_store_error e) = from_any (to DealStatus.errored) ∷ []
edges ProviderEvent.client_cancelled =
    from_many (one DealStatus.failing) just_record
    ∷ from_many (one DealStatus.cancelling) just_record
    ∷ from_any (to DealStatus.cancelling)
    ∷ []
edges _ = []

unfoldable pub action : ProviderEvent → ProviderDealState → Option ProviderDealState
action ProviderEvent.open_deal d = some (record d { funds_received = pos 0 })
action (ProviderEvent.deal_accepted c) d = some (record d { channel_id = some c })
action (ProviderEvent.unseal_error e) d = some (record d { message = e })
action (ProviderEvent.save_voucher_failed e) d = some (record d { message = e })
action (ProviderEvent.partial_payment_received amount) d =
    some (record d { funds_received = d.funds_received +ℤ amount })
action (ProviderEvent.payment_received amount) d =
    some (record d { funds_received = d.funds_received +ℤ amount })
action (ProviderEvent.data_transfer_error e) d = some (record d { message = e })
action (ProviderEvent.multi_store_error e) d = some (record d { message = e })
action ProviderEvent.client_cancelled d = some (
    if not (same d.status DealStatus.failing)
    then record d { message = "Client cancelled retrieval" }
    else d)
action _ d = some d

-- An event given to the provider's machine.
unfoldable pub fire :
    Engine provider_machine → ProviderEvent → ProviderDealState → Fired ProviderDealState
fire engine e d = engine.process (edges e) (action e) d

-- `ProviderFinalityStates`
abbrev pub provider_finality_states : List DealStatus
provider_finality_states = DealStatus.errored ∷ DealStatus.completed ∷ DealStatus.cancelled ∷ []

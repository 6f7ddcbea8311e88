-- ===== src/Retrieval/Client/Transfer.antt =====
-- retrievalmarket/impl/clientstates/client_fsm.go, `ClientEvents`, second part: errors of the
-- transfer, requests for payment, data received and payments sent. An action is `none` where the
-- code panics or its loop over intervals does not end.
use Prim.Native.String.{◌++◌}
use go_fil_markets.Prelude.{true, Option, none, some, List, [], ◌∷◌, leb, if◌then◌else◌}
use go_fil_markets.Prelude.Int.{ℤ, ◌+ℤ◌, ◌-ℤ◌, ◌/ℤ◌, leb_ℤ, is_zero, uint64_of}
use go_fil_markets.Text.{wrap, decimal_ℤ}
use go_fil_markets.Fsm.{Edge, from_many, from_any, to, no_change, just_record}
use go_fil_markets.Retrieval.Status.{DealStatus}
use go_fil_markets.Retrieval.Client.Deal.{ClientDealState, ClientEvent, next_interval}
use go_fil_markets.Retrieval.Client.Setup.{one}

-- `paymentChannelCreationStates`
abbrev pub payment_channel_creation_states : List DealStatus
payment_channel_creation_states =
    DealStatus.wait_for_acceptance ∷ DealStatus.wait_for_acceptance_legacy ∷ DealStatus.accepted
    ∷ DealStatus.payment_channel_creating ∷ DealStatus.payment_channel_adding_initial_funds
    ∷ DealStatus.payment_channel_allocating_lane ∷ []

unfoldable pub transfer_edges : ClientEvent → List (Edge DealStatus)
transfer_edges (ClientEvent.data_transfer_error e) = from_any (to DealStatus.erroring) ∷ []
transfer_edges (ClientEvent.last_payment_requested owed) =
    from_many
      (DealStatus.ongoing ∷ DealStatus.funds_needed_last_payment ∷ DealStatus.funds_needed ∷ [])
      (to DealStatus.funds_needed_last_payment)
    ∷ from_many (one DealStatus.send_funds) (to DealStatus.ongoing)
    ∷ from_many (one DealStatus.check_complete) no_change
    ∷ from_many (one DealStatus.blocks_complete) (to DealStatus.send_funds_last_payment)
    ∷ from_many payment_channel_creation_states just_record
    ∷ []
transfer_edges (ClientEvent.payment_requested owed) =
    from_many
      (DealStatus.ongoing ∷ DealStatus.blocks_complete ∷ DealStatus.funds_needed
        ∷ DealStatus.funds_needed_last_payment ∷ [])
      (to DealStatus.funds_needed)
    ∷ from_many (one DealStatus.send_funds) (to DealStatus.ongoing)
    ∷ from_many (one DealStatus.check_complete) no_change
    ∷ from_many payment_channel_creation_states just_record
    ∷ []
transfer_edges (ClientEvent.unseal_payment_requested owed) =
    from_many (DealStatus.wait_for_acceptance ∷ DealStatus.wait_for_acceptance_legacy ∷ [])
      (to DealStatus.accepted)
    ∷ []
transfer_edges ClientEvent.all_blocks_received =
    from_many (DealStatus.ongoing ∷ DealStatus.blocks_complete ∷ []) (to DealStatus.blocks_complete)
    ∷ from_many payment_channel_creation_states just_record
    ∷ from_many (DealStatus.send_funds ∷ DealStatus.send_funds_last_payment ∷ [])
        (to DealStatus.ongoing)
    ∷ from_many (one DealStatus.funds_needed) no_change
    ∷ from_many (one DealStatus.funds_needed_last_payment) (to DealStatus.send_funds_last_payment)
    ∷ from_many (one DealStatus.client_waiting_for_last_blocks)
        (to DealStatus.finalizing_blockstore)
    ∷ from_many (one DealStatus.check_complete) (to DealStatus.finalizing_blockstore)
    ∷ []
transfer_edges (ClientEvent.blocks_received n) =
    from_many
      (DealStatus.ongoing ∷ DealStatus.funds_needed ∷ DealStatus.funds_needed_last_payment
        ∷ DealStatus.check_complete ∷ DealStatus.client_waiting_for_last_blocks ∷ [])
      no_change
    ∷ from_many (DealStatus.send_funds ∷ DealStatus.send_funds_last_payment ∷ [])
        (to DealStatus.ongoing)
    ∷ from_many payment_channel_creation_states just_record
    ∷ []
transfer_edges ClientEvent.send_funds =
    from_many (DealStatus.send_funds ∷ DealStatus.send_funds_last_payment ∷ [])
      (to DealStatus.ongoing)
    ∷ from_many (one DealStatus.funds_needed) (to DealStatus.send_funds)
    ∷ from_many (one DealStatus.funds_needed_last_payment) (to DealStatus.send_funds_last_payment)
    ∷ []
transfer_edges (ClientEvent.funds_expended shortfall) =
    from_many (one DealStatus.check_funds) (to DealStatus.insufficient_funds) ∷ []
transfer_edges (ClientEvent.bad_payment_requested m) =
    from_many (DealStatus.send_funds ∷ DealStatus.send_funds_last_payment ∷ [])
      (to DealStatus.failing)
    ∷ []
transfer_edges (ClientEvent.create_voucher_failed e) =
    from_many (DealStatus.send_funds ∷ DealStatus.send_funds_last_payment ∷ [])
      (to DealStatus.failing)
    ∷ []
transfer_edges (ClientEvent.voucher_shortfall shortfall) =
    from_many (DealStatus.send_funds ∷ DealStatus.send_funds_last_payment ∷ [])
      (to DealStatus.check_funds)
    ∷ []
transfer_edges (ClientEvent.write_deal_payment_errored e) = from_any (to DealStatus.erroring) ∷ []
transfer_edges ClientEvent.payment_not_sent =
    from_many (one DealStatus.ongoing) just_record
    ∷ from_many (one DealStatus.send_funds) (to DealStatus.ongoing)
    ∷ from_many (one DealStatus.send_funds_last_payment) (to DealStatus.finalizing)
    ∷ []
transfer_edges (ClientEvent.payment_sent amount) =
    from_many (one DealStatus.ongoing) just_record
    ∷ from_many (one DealStatus.blocks_complete) (to DealStatus.check_complete)
    ∷ from_many (one DealStatus.check_complete) no_change
    ∷ from_many
        (DealStatus.funds_needed ∷ DealStatus.funds_needed_last_payment ∷ DealStatus.send_funds
          ∷ [])
        (to DealStatus.ongoing)
    ∷ from_many (one DealStatus.send_funds_last_payment) (to DealStatus.finalizing)
    ∷ []
transfer_edges _ = []

-- The end of the action of `ClientEventPaymentSent`: the interval moves on once the bytes paid for
-- reach it.
unfoldable pub advance_interval : ClientDealState → Option ClientDealState
unfolding next_interval
advance_interval d =
    if leb d.current_interval d.bytes_paid_for
    then elim (next_interval d) [
      | none ↦ none
      | some next ↦ some (record d { current_interval = next })
    ]
    else some d

-- The accounting of a payment, in the order of the code: what was requested, what was spent, the
-- unsealing, and then the bytes.
unfoldable pub record_payment : ℤ → ClientDealState → Option ClientDealState
record_payment voucher_amt d =
    let sent_amt = voucher_amt -ℤ d.funds_spent in
    let sent = record d {
      payment_requested = d.payment_requested -ℤ sent_amt;
      funds_spent = voucher_amt;
    } in
    if leb_ℤ voucher_amt d.params.unseal_price
    then some (record sent { unseal_funds_paid = voucher_amt })
    else if is_zero d.params.price_per_byte
    then some (record sent { unseal_funds_paid = d.params.unseal_price })
    else advance_interval (record sent {
      unseal_funds_paid = d.params.unseal_price;
      bytes_paid_for =
          uint64_of ((voucher_amt -ℤ d.params.unseal_price) /ℤ d.params.price_per_byte);
    })

unfoldable pub transfer_action : ClientEvent → ClientDealState → Option ClientDealState
unfolding wrap record_payment advance_interval
transfer_action (ClientEvent.data_transfer_error e) d =
    some (record d { message = "error generated by data transfer: " ++ e })
transfer_action (ClientEvent.last_payment_requested owed) d =
    some
      (record d { payment_requested = d.payment_requested +ℤ owed; last_payment_requested = true })
transfer_action (ClientEvent.payment_requested owed) d =
    some (record d { payment_requested = d.payment_requested +ℤ owed })
transfer_action (ClientEvent.unseal_payment_requested owed) d =
    some (record d { payment_requested = d.payment_requested +ℤ owed })
transfer_action ClientEvent.all_blocks_received d = some (record d { all_blocks_received = true })
transfer_action (ClientEvent.blocks_received n) d = some (record d { total_received = n })
transfer_action (ClientEvent.funds_expended shortfall) d = some (record d {
  message =
      "not enough current or pending funds in payment channel, shortfall of "
      ++ decimal_ℤ shortfall;
})
transfer_action (ClientEvent.bad_payment_requested m) d = some (record d { message = m })
transfer_action (ClientEvent.create_voucher_failed e) d =
    some (record d { message = wrap "creating payment voucher" e })
transfer_action (ClientEvent.write_deal_payment_errored e) d =
    some (record d { message = wrap "writing deal payment" e })
transfer_action (ClientEvent.payment_sent amount) d = record_payment amount d
transfer_action _ d = some d

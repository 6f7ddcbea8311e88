-- ===== src/Retrieval/Client/Handlers.antt =====
-- retrievalmarket/impl/clientstates/client_states.go: the entry function of each state, as what it
-- asks of its environment and the events that it triggers, in order. `none` is a nil pointer that
-- the code follows.
use go_fil_markets.Prelude.{
  ℕ, not, ◌&&◌, Option, none, some, List, [], ◌∷◌, ok, err, leb, ltb, ◌==◌, if◌then◌else◌,
}
use go_fil_markets.Prelude.Int.{ℤ, pos, ◌+ℤ◌, ◌-ℤ◌, ◌*ℤ◌, ltb_ℤ, leb_ℤ, is_zero}
use go_fil_markets.Prelude.Words.{int64}
use go_fil_markets.Retrieval.Params.{Cid}
use go_fil_markets.Retrieval.Status.{DealStatus}
use go_fil_markets.Retrieval.Client.Deal.{
  Address, ChannelId, PaymentInfo, ClientDealState, ClientEvent,
}
use go_fil_markets.Retrieval.Client.Env.{
  DealPayment, ChannelAvailableFunds, VoucherAnswer, voucher, shortfall, failure, ClientEnv, Act,
  opens_transfer, sends_voucher, closes_transfer, finalizes_blockstore, funds_channel,
  allocates_lane, creates_voucher, trigger,
}

abbrev just : ClientEvent → Option (List Act)
just e = some (trigger e ∷ [])

unfoldable pub propose_deal : ClientEnv → ClientDealState → List Act
propose_deal env d =
    opens_transfer d.sender d.proposal ∷ elim (env.open_data_transfer d.sender d.proposal) [
      | err e ↦ trigger (ClientEvent.write_deal_proposal_errored e) ∷ []
      | ok channel ↦ trigger (ClientEvent.deal_proposed channel) ∷ []
    ]

-- The address and the message CID that `GetOrCreatePaymentChannel` returns; 0 is undefined.
channel_event : Address → Cid → ClientEvent
channel_event paych msg_cid =
    if paych == 0
    then ClientEvent.payment_channel_create_initiated msg_cid
    else if msg_cid == 0
    then ClientEvent.payment_channel_ready paych
    else ClientEvent.payment_channel_adding_funds msg_cid paych

unfoldable pub setup_payment_channel_start : ClientEnv → ClientDealState → List Act
unfolding channel_event
setup_payment_channel_start env d =
    if is_zero d.total_funds
    then trigger ClientEvent.payment_channel_skip ∷ []
    else elim env.get_chain_head [
      | err e ↦ trigger (ClientEvent.payment_channel_errored e) ∷ []
      | ok tok ↦
          funds_channel d.client_wallet d.miner_wallet d.total_funds
          ∷ elim (env.get_or_create_payment_channel d.client_wallet d.miner_wallet d.total_funds
              tok) [
                | err e ↦ trigger (ClientEvent.payment_channel_errored e) ∷ []
                | ok (paych, msg_cid) ↦ trigger (channel_event paych msg_cid) ∷ []
              ]
    ]

unfoldable pub wait_payment_channel_ready : ClientEnv → Option Cid → Option (List Act)
wait_payment_channel_ready env none = none
wait_payment_channel_ready env (some msg) = elim (env.wait_for_payment_channel_ready msg) [
  | err e ↦ just (ClientEvent.payment_channel_errored e)
  | ok paych ↦ just (ClientEvent.payment_channel_ready paych)
]

unfoldable pub allocate_lane : ClientEnv → Option PaymentInfo → Option (List Act)
allocate_lane env none = none
allocate_lane env (some info) = some (
    allocates_lane info.pay_ch ∷ elim (env.allocate_lane info.pay_ch) [
      | err e ↦ trigger (ClientEvent.allocate_lane_errored e) ∷ []
      | ok lane ↦ trigger (ClientEvent.lane_allocated lane) ∷ []
    ])

unfoldable pub ongoing : ClientDealState → List Act
ongoing d =
    if ltb_ℤ (pos 0) d.payment_requested
    then if d.last_payment_requested
      then trigger (ClientEvent.last_payment_requested (pos 0)) ∷ []
      else trigger (ClientEvent.payment_requested (pos 0)) ∷ []
    else []

unfoldable pub process_payment_requested : ClientDealState → List Act
process_payment_requested d =
    if ltb_ℤ d.unseal_funds_paid d.params.unseal_price
    then trigger ClientEvent.send_funds ∷ []
    else if leb d.total_received d.bytes_paid_for
    then []
    else if d.all_blocks_received
    then trigger ClientEvent.send_funds ∷ []
    else if leb d.current_interval d.total_received
    then trigger ClientEvent.send_funds ∷ []
    else []

-- The amount that `SendFunds` pays for all the bytes received so far, with the unsealing.
unfoldable pub total_price : ClientDealState → ℤ
total_price d = int64 d.total_received *ℤ d.params.price_per_byte +ℤ d.params.unseal_price

-- `SendFunds` from the voucher on; the channel and the lane are read first.
send_voucher :
    ClientEnv → ClientDealState → PaymentInfo → VoucherAnswer → Option ChannelId → Option (List Act)
send_voucher env d info (shortfall s) c = just (ClientEvent.voucher_shortfall s)
send_voucher env d info (failure e) c = just (ClientEvent.create_voucher_failed e)
send_voucher env d info (voucher v) none = none
send_voucher env d info (voucher v) (some c) =
    let payment : DealPayment = record {
      id = d.id;
      payment_channel = info.pay_ch;
      payment_voucher = v;
    } in
    some (
      sends_voucher c payment ∷ elim (env.send_data_transfer_voucher c payment) [
        | err e ↦ trigger (ClientEvent.write_deal_payment_errored e) ∷ []
        | ok _ ↦ trigger (ClientEvent.payment_sent (total_price d)) ∷ []
      ])

abbrev before : Act → Option (List Act) → Option (List Act)
before act none = none
before act (some acts) = some (act ∷ acts)

pay : ClientEnv → ClientDealState → ℕ → Option PaymentInfo → Option (List Act)
unfolding send_voucher
pay env d tok none = none
pay env d tok (some info) = before (creates_voucher info.pay_ch (total_price d) info.lane) (
    send_voucher env d info (env.create_payment_voucher info.pay_ch (total_price d) info.lane tok)
      d.channel_id)

unfoldable pub send_funds : ClientEnv → ClientDealState → Option (List Act)
unfolding pay
send_funds env d =
    if leb_ℤ d.params.unseal_price d.unseal_funds_paid
      && not d.all_blocks_received
      && ltb d.total_received d.current_interval
    then just ClientEvent.payment_not_sent
    else elim env.get_chain_head [
      | err e ↦ just (ClientEvent.create_voucher_failed e)
      | ok tok ↦
          if leb_ℤ (total_price d) d.funds_spent
          then just ClientEvent.payment_not_sent
          else pay env d tok d.payment_info
    ]

-- `CheckFunds` on the funds that the channel reports.
funds_event : ClientDealState → Address → ChannelAvailableFunds → ClientEvent
funds_event d pay_ch funds =
    let unredeemed = funds.confirmed_amt -ℤ funds.voucher_redeemed_amt in
    let short = d.payment_requested -ℤ unredeemed in
    let in_flight = funds.pending_amt +ℤ funds.queued_amt in
    if leb_ℤ short (pos 0)
    then ClientEvent.payment_channel_ready pay_ch
    else if ltb_ℤ in_flight short
    then ClientEvent.funds_expended (short -ℤ in_flight)
    else elim funds.pending_wait_sentinel [
      | none ↦ ClientEvent.funds_expended (short -ℤ in_flight)
      | some sentinel ↦ ClientEvent.payment_channel_adding_funds sentinel pay_ch
    ]

unfoldable pub check_funds :
    ClientEnv → ClientDealState → Option Cid → Option PaymentInfo → Option (List Act)
unfolding funds_event
check_funds env d wait none = none
check_funds env d (some msg) (some info) =
    just (ClientEvent.payment_channel_adding_funds msg info.pay_ch)
check_funds env d none (some info) = elim (env.check_available_funds info.pay_ch) [
  | err e ↦ just (ClientEvent.payment_channel_errored e)
  | ok funds ↦ just (funds_event d info.pay_ch funds)
]

-- `CancelDeal` after the blockstore, whose error is only logged.
close_transfer : ClientEnv → Option ChannelId → List Act
close_transfer env none = trigger ClientEvent.cancel_complete ∷ []
close_transfer env (some c) = closes_transfer c ∷ elim (env.close_data_transfer c) [
  | err e ↦ trigger (ClientEvent.data_transfer_error e) ∷ []
  | ok _ ↦ trigger ClientEvent.cancel_complete ∷ []
]

unfoldable pub cancel_deal : ClientEnv → ClientDealState → List Act
unfolding close_transfer
cancel_deal env d = finalizes_blockstore d.id ∷ close_transfer env d.channel_id

unfoldable pub check_complete : ClientDealState → List Act
check_complete d =
    if d.all_blocks_received
    then trigger ClientEvent.complete_verified ∷ []
    else if is_zero d.params.price_per_byte
    then trigger ClientEvent.wait_for_last_blocks ∷ []
    else trigger ClientEvent.early_termination ∷ []

unfoldable pub finalize_blockstore : ClientEnv → ClientDealState → List Act
finalize_blockstore env d = finalizes_blockstore d.id ∷ elim (env.finalize_blockstore d.id) [
  | err e ↦ trigger (ClientEvent.finalize_blockstore_errored e) ∷ []
  | ok _ ↦ trigger ClientEvent.blockstore_finalized ∷ []
]

unfoldable pub failsafe_finalize_blockstore : ClientDealState → List Act
failsafe_finalize_blockstore d =
    finalizes_blockstore d.id ∷ trigger ClientEvent.blockstore_finalized ∷ []

-- `ClientStateEntryFuncs`: the entry function of the deal's state, if it has one.
unfoldable pub entry_of : ClientEnv → DealStatus → ClientDealState → Option (List Act)
unfolding propose_deal setup_payment_channel_start wait_payment_channel_ready allocate_lane ongoing
    process_payment_requested send_funds check_funds cancel_deal check_complete finalize_blockstore
    failsafe_finalize_blockstore
entry_of env DealStatus.new d = some (propose_deal env d)
entry_of env DealStatus.retry_legacy d = some (propose_deal env d)
entry_of env DealStatus.accepted d = some (setup_payment_channel_start env d)
entry_of env DealStatus.payment_channel_creating d = wait_payment_channel_ready env d.wait_msg_cid
entry_of env DealStatus.payment_channel_adding_initial_funds d =
    wait_payment_channel_ready env d.wait_msg_cid
entry_of env DealStatus.payment_channel_allocating_lane d = allocate_lane env d.payment_info
entry_of env DealStatus.ongoing d = some (ongoing d)
entry_of env DealStatus.funds_needed d = some (process_payment_requested d)
entry_of env DealStatus.funds_needed_last_payment d = some (process_payment_requested d)
entry_of env DealStatus.send_funds d = send_funds env d
entry_of env DealStatus.send_funds_last_payment d = send_funds env d
entry_of env DealStatus.check_funds d = check_funds env d d.wait_msg_cid d.payment_info
entry_of env DealStatus.payment_channel_adding_funds d =
    wait_payment_channel_ready env d.wait_msg_cid
entry_of env DealStatus.failing d = some (cancel_deal env d)
entry_of env DealStatus.cancelling d = some (cancel_deal env d)
entry_of env DealStatus.check_complete d = some (check_complete d)
entry_of env DealStatus.finalizing_blockstore d = some (finalize_blockstore env d)
entry_of env DealStatus.erroring d = some (failsafe_finalize_blockstore d)
entry_of env DealStatus.rejecting d = some (failsafe_finalize_blockstore d)
entry_of env DealStatus.deal_not_found_cleanup d = some (failsafe_finalize_blockstore d)
entry_of env _ d = some []

unfoldable pub entry : ClientEnv → ClientDealState → Option (List Act)
unfolding entry_of
entry env d = entry_of env d.status d

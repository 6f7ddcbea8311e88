-- ===== src/Storage/Client/Actions.antt =====
-- storagemarket/impl/clientstates/client_fsm.go: the actions of `ClientEvents`. An action is `none`
-- where the code panics.
use Prim.Native.String.{◌++◌}
use go_fil_markets.Prelude.{ℕ, Bool, Option, none, some, String, if◌then◌else◌}
use go_fil_markets.Prelude.Int.{ℤ}
use go_fil_markets.Prelude.Words.{add64}
use go_fil_markets.Text.{wrap, enclose, decimal, decimal_ℤ}
use go_fil_markets.Fsm.{Fired, Engine}
use go_fil_markets.Storage.Status.{StorageDealStatus, code, status_text}
use go_fil_markets.Storage.Amounts.{plus_reserved, minus_reserved}
use go_fil_markets.Storage.Client.Deal.{ClientDeal, ClientEvent, Texts, add_log, client_machine}
use go_fil_markets.Storage.Client.Table.{edges}

-- The message of the deal, and the same in its log.
unfoldable pub noted : ℕ → String → ClientDeal → ClientDeal
unfolding add_log
noted now msg d = add_log now msg (record d { message = msg })

-- Funds are released from an amount that is there.
abbrev released : ℕ → ℤ → ClientDeal → Option ℤ → Option ClientDeal
released now a d none = none
released now a d (some f) = some (
    add_log now (enclose "funds released, amount <" (decimal_ℤ a) ">")
      (record d { funds_reserved = some f }))

-- What the log says of the provider's state while the client waits.
abbrev waiting_log : StorageDealStatus → String → String
waiting_log StorageDealStatus.verify_data m = "provider is verifying the data"
waiting_log StorageDealStatus.publish m = "waiting for provider to publish the deal on-chain"
waiting_log StorageDealStatus.publishing m =
    "provider has submitted the deal on-chain and is waiting for confirmation"
waiting_log StorageDealStatus.provider_funding m =
    "waiting for provider to lock collateral on-chain"
waiting_log s m = m

-- The counters of the polls are uint64.
unfoldable pub waited : ℕ → Bool → StorageDealStatus → ClientDeal → ClientDeal
unfolding add_log status_text
waited now failed s d =
    let m = "Provider state: " ++ status_text s in
    add_log now (waiting_log s m) (record d {
      poll_retry_count = add64 d.poll_retry_count 1;
      poll_error_count = if failed then add64 d.poll_error_count 1 else d.poll_error_count;
      message = m;
    })

unfoldable pub action : Texts → ℕ → ClientEvent → ClientDeal → Option ClientDeal
unfolding add_log noted waited wrap enclose decimal decimal_ℤ
action texts now (ClientEvent.funding_initiated c) d = some (
    add_log now (enclose "reserving funds for storage deal, message cid: <" (texts.cid_text c) ">")
      (record d { add_funds_cid = some c }))
action texts now (ClientEvent.reserve_funds_failed e) d =
    some (noted now (wrap "adding market funds failed" e) d)
action texts now (ClientEvent.funds_reserved a) d = some (
    add_log now (enclose "funds reserved, amount <" (decimal_ℤ a) ">")
      (record d { funds_reserved = some (plus_reserved d.funds_reserved a) }))
action texts now (ClientEvent.funds_released a) d =
    released now a d (minus_reserved d.funds_reserved a)
action texts now (ClientEvent.write_proposal_failed e) d =
    some (noted now (wrap "sending proposal to storage provider failed" e) d)
action texts now (ClientEvent.read_response_failed e) d =
    some (noted now (wrap "error reading Response message from provider" e) d)
action texts now ClientEvent.response_verification_failed d =
    some (noted now "unable to verify signature on deal response" d)
action texts now ClientEvent.initiate_data_transfer d =
    some (add_log now "opening data transfer to storage provider" d)
action texts now (ClientEvent.unexpected_deal_state s m) d = some (
    noted now
      (enclose "unexpected deal status while waiting for data request: " (decimal (code s))
        (enclose " (" (status_text s) (enclose "). Provider message: " m "")))
      d)
action texts now (ClientEvent.data_transfer_failed e) d =
    some (noted now (wrap "failed to complete data transfer" e) d)
action texts now (ClientEvent.data_transfer_restart_failed e) d =
    some (noted now (wrap "failed to restart data transfer" e) d)
action texts now (ClientEvent.data_transfer_queued c) d = some (
    add_log now
      (enclose "provider data transfer request added to client's queue: channel id <"
        (texts.channel_text c) ">")
      d)
action texts now (ClientEvent.data_transfer_initiated c) d = some (
    add_log now (enclose "data transfer initiated on channel id <" (texts.channel_text c) ">")
      (record d { transfer_channel_id = some c }))
action texts now (ClientEvent.data_transfer_restarted c) d = some (
    add_log now (enclose "data transfer restarted on channel id <" (texts.channel_text c) ">")
      (record d { transfer_channel_id = some c; message = "" }))
action texts now (ClientEvent.data_transfer_stalled e) d = some (
    noted now
      ("could not complete data transfer, could not connect to provider "
        ++ texts.peer_text d.miner)
      d)
action texts now ClientEvent.data_transfer_cancelled d =
    some (noted now "data transfer cancelled" d)
action texts now (ClientEvent.wait_for_deal_state p s) d = some (waited now p s d)
action texts now (ClientEvent.response_deal_did_not_match r p) d = some (
    noted now
      (enclose "miner responded to a wrong proposal: " (texts.cid_text r)
        (enclose " != " (texts.cid_text p) ""))
      d)
action texts now (ClientEvent.deal_rejected s m) d =
    some (noted now (enclose "deal failed: (State=" (decimal (code s)) (enclose ") " m "")) d)
action texts now (ClientEvent.deal_accepted p) d = some (
    add_log now "deal has been accepted by storage provider"
      (record d { publish_message = p; message = "" }))
action texts now (ClientEvent.stream_close_error e) d =
    some (noted now (wrap "error attempting to close stream" e) d)
action texts now (ClientEvent.deal_publish_failed e) d =
    some (noted now (wrap "error validating deal published" e) d)
action texts now (ClientEvent.deal_published i) d = some (add_log now "" (record d { deal_id = i }))
action texts now (ClientEvent.deal_precommit_failed e) d =
    some (noted now (wrap "error waiting for deal pre-commit message to appear on chain" e) d)
action texts now (ClientEvent.deal_precommitted n) d =
    some
      (add_log now "deal pre-commit message has landed on chain" (record d { sector_number = n }))
action texts now (ClientEvent.deal_activation_failed e) d =
    some (noted now (wrap "error in deal activation" e) d)
action texts now ClientEvent.deal_activated d = some (add_log now "deal activated" d)
action texts now (ClientEvent.deal_slashed n) d = some (
    add_log now (enclose "deal slashed at epoch <" (decimal_ℤ n) ">")
      (record d { slash_epoch = n }))
action texts now (ClientEvent.deal_completion_failed e) d =
    some (noted now (wrap "error waiting for deal completion" e) d)
action texts now ClientEvent.client_failed d = some (add_log now "" d)
action texts now _ d = some d

-- An event, at a time, given to the client's machine.
unfoldable pub fire :
    Engine client_machine → Texts → ℕ × ClientEvent → ClientDeal → Fired ClientDeal
fire engine texts (now, e) d = engine.process (edges e) (action texts now e) d

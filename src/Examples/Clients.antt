-- ===== src/Examples/Clients.antt =====
-- retrievalmarket/impl/clientstates at concrete deals.
use go_fil_markets.Prelude.{◌≡◌, refl, true, false, some, List, [], ◌∷◌, All, arith}
use go_fil_markets.Prelude.Int.{pos, ◌+ℤ◌, ◌*ℤ◌, ◌<ℤ◌}
use go_fil_markets.Fsm.{run, reference_engine}
use go_fil_markets.Retrieval.Params.{outstanding_balance}
use go_fil_markets.Retrieval.Status.{DealStatus, same}
use go_fil_markets.Retrieval.Client.Deal.{ClientDealState, ClientEvent, client_machine}
use go_fil_markets.Retrieval.Client.Env.{Act, trigger, triggers}
use go_fil_markets.Retrieval.Client.Table.{fire, edges, action}
use go_fil_markets.Retrieval.Client.Transfer.{record_payment}
use go_fil_markets.Retrieval.Client.Handlers.{
  total_price, process_payment_requested, send_funds, entry, entry_of,
}
use go_fil_markets.Retrieval.Client.Accepts.{Handled, entry-Handled}
use go_fil_markets.Retrieval.Client.Accounts.{ledger, asked_in, ledger-run}
use go_fil_markets.Retrieval.Client.Lifecycle.{any_accepting, unopened, opened_needs_acceptance}
use go_fil_markets.Retrieval.Client.Payments.{InStep, record_payment-InStep}
use go_fil_markets.Retrieval.Client.Settling.{Cooperates, limit_paid}
use go_fil_markets.Examples.Data.{
  terms, client_info, client_deal, waiting_deal, funding_deal, client_env,
}
use go_fil_markets.Examples.Schedules.{limit_of_37}

in_step : InStep client_deal
in_step = (1, refl, omega arith)

total_of_25 : total_price client_deal ≡ pos 82
unfolding total_price ◌*ℤ◌ ◌+ℤ◌
total_of_25 = refl

cooperates : Cooperates client_env client_deal
cooperates = record {
  token = 100;
  info = client_info;
  channel = 6;
  signed = 77;
  head = refl;
  has_info = refl;
  has_channel = refl;
  creates = refl;
  takes = refl;
}

limit_paid_example :
    (process_payment_requested client_deal ≡ trigger ClientEvent.send_funds ∷ [])
    × ((acts : List Act) × (send_funds client_env client_deal ≡ some acts)
        × (triggers acts ≡ ClientEvent.payment_sent (total_price client_deal) ∷ []))
    × (pos 37 <ℤ total_price client_deal)
    × (outstanding_balance terms (total_price client_deal) 25 false ≡ some (pos 0))
limit_paid_example =
    limit_paid client_env client_deal 10 3 7 (refl, refl) (omega arith) (omega arith) (omega arith)
      (omega arith) refl in_step refl refl limit_of_37 cooperates

record_payment-InStep_example :
    (d' : ClientDealState) × (record_payment (pos 82) client_deal ≡ some d')
    × InStep d'
    × (d'.bytes_paid_for ≡ 25)
    × (d'.unseal_funds_paid ≡ pos 7)
    × (d'.funds_spent ≡ pos 82)
record_payment-InStep_example =
    record_payment-InStep client_deal 25 3 7 (refl, refl) (omega arith) (omega arith) (omega arith)
      (omega arith) (omega arith) in_step

abbrev requests : List ClientEvent
requests =
    ClientEvent.deal_accepted
    ∷ ClientEvent.payment_requested (pos 30)
    ∷ ClientEvent.send_funds
    ∷ ClientEvent.payment_sent (pos 82)
    ∷ []

ledger-run_example :
    ledger (run (fire (reference_engine client_machine)) client_deal requests)
    ≡ ledger client_deal +ℤ asked_in (reference_engine client_machine) client_deal requests
ledger-run_example = ledger-run (reference_engine client_machine) requests client_deal

abbrev opening : List ClientEvent
opening = ClientEvent.deal_accepted ∷ ClientEvent.payment_channel_skip ∷ []

opened_run :
    unopened (run (fire (reference_engine client_machine)) waiting_deal opening).status ≡ false
unfolding run fire edges action same
opened_run = refl

opened_needs_acceptance_example : any_accepting opening ≡ true
opened_needs_acceptance_example =
    opened_needs_acceptance (reference_engine client_machine) opening waiting_deal refl opened_run

abbrev completed_deal : ClientDealState
completed_deal = record client_deal { status = DealStatus.completed }

funding_acts :
    entry client_env funding_deal
    ≡ some (trigger (ClientEvent.payment_channel_errored "no message") ∷ [])
unfolding entry entry_of
funding_acts = refl

entry-Handled_example :
    All
      (Handled DealStatus.payment_channel_adding_initial_funds)
      (ClientEvent.payment_channel_errored "no message" ∷ [])
entry-Handled_example = entry-Handled client_env funding_deal _ funding_acts

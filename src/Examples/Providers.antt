-- ===== src/Examples/Providers.antt =====
-- retrievalmarket/impl/providerstates at concrete deals.
use go_fil_markets.Prelude.{◌≡◌, refl, true, false, some, List, [], ◌∷◌, All, arith}
use go_fil_markets.Prelude.Int.{ℤ, pos, ◌+ℤ◌, ◌-ℤ◌, ◌*ℤ◌, ◌/ℤ◌}
use go_fil_markets.Fsm.{moved, run, reference_engine}
use go_fil_markets.Retrieval.Params.{
  outstanding_balance, next_interval, interval_paid_for, for_transfer, next_interval_from,
  next_loop, owed_for, minimum_bytes_to_pay,
}
use go_fil_markets.Retrieval.Status.{DealStatus, same}
use go_fil_markets.Retrieval.Voucher.{ValidationResult}
use go_fil_markets.Retrieval.Provider.Deal.{ProviderEvent, ProviderDealState, provider_machine}
use go_fil_markets.Retrieval.Provider.Env.{
  Act, saves_voucher, prepares_blockstore, trigger, triggers,
}
use go_fil_markets.Retrieval.Provider.Table.{fire}
use go_fil_markets.Retrieval.Provider.Handlers.{
  update_funding, process_last_voucher, save_payment, funded, funding_acts, funding_response, entry,
  entry_of, response,
}
use go_fil_markets.Retrieval.Provider.Accepts.{accepted, entry-accepted}
use go_fil_markets.Retrieval.Provider.Accounts.{paid_in, funds_received-run}
use go_fil_markets.Retrieval.Provider.Funding.{
  Saved, pays_in_full, Asked, last_payment_completes, short_payment_holds,
}
use go_fil_markets.Examples.Data.{proposal, payment, channel, provider_deal, provider_env}

saved : (amount : ℤ) → Saved (provider_env amount) channel amount
saved amount = record { payment = payment; token = 100; carries = refl; head = refl; saves = refl }

sum_to_82 : pos 37 +ℤ pos 45 ≡ pos 82
unfolding ◌+ℤ◌
sum_to_82 = refl

last_payment_completes_example :
    (acts : List Act) × (result : ValidationResult) × (update_funding
        (provider_env (pos 45))
        provider_deal
        channel
      ≡ some (acts, result))
    × (triggers acts ≡ ProviderEvent.payment_received (pos 45) ∷ [])
    × (result.accepted ≡ true)
    × (result.requires_finalization ≡ false)
    × (result.voucher_result
        ≡ some
            (record { status = DealStatus.completed; id = 1; payment_owed = pos 0; message = "" }))
    × (fire
          (reference_engine provider_machine)
          (ProviderEvent.payment_received (pos 45))
          provider_deal
        ≡ moved
            (record provider_deal { status = DealStatus.finalizing; funds_received = pos 82 })
            true)
last_payment_completes_example =
    last_payment_completes (reference_engine provider_machine) (provider_env (pos 45)) provider_deal
      channel 3 7 (pos 45) (refl, refl) (omega arith) (omega arith) (omega arith) refl
      (saved (pos 45)) sum_to_82

sum_to_80 : pos 37 +ℤ pos 43 ≡ pos 80
unfolding ◌+ℤ◌
sum_to_80 = refl

-- The deal after 43 of the 45 that were missing.
abbrev short_acts : List Act
short_acts = saves_voucher 9 77 ∷ trigger (ProviderEvent.partial_payment_received (pos 43)) ∷ []

abbrev short_result : ValidationResult
short_result = record {
  accepted = true;
  voucher_result = some (record {
    status = DealStatus.funds_needed_last_payment;
    id = 1;
    payment_owed = pos 2;
    message = "";
  });
  force_pause = false;
  data_limit = 25;
  requires_finalization = true;
}

short_run :
    update_funding (provider_env (pos 43)) provider_deal channel ≡ some (short_acts, short_result)
unfolding update_funding process_last_voucher save_payment funded funding_acts funding_response
    outstanding_balance next_interval interval_paid_for for_transfer next_interval_from next_loop
    owed_for minimum_bytes_to_pay same ◌+ℤ◌ ◌-ℤ◌ ◌*ℤ◌ ◌/ℤ◌
short_run = refl

short_payment_holds_example :
    (true ≡ true)
    × All (λ e. pays_in_full e ≡ false) (ProviderEvent.partial_payment_received (pos 43) ∷ [])
    × Asked provider_deal (pos 43) 2 short_result.voucher_result
short_payment_holds_example =
    short_payment_holds (reference_engine provider_machine) (provider_env (pos 43)) provider_deal
      channel 3 7 (pos 43) 80 short_acts short_result (refl, refl) (omega arith) refl
      (saved (pos 43)) sum_to_80 (omega arith) short_run

abbrev unsealing_deal : ProviderDealState
unsealing_deal = record provider_deal { status = DealStatus.unsealing }

unsealing_acts :
    entry (provider_env (pos 0)) unsealing_deal
    ≡ some (prepares_blockstore 1 40 ∷ trigger ProviderEvent.unseal_complete ∷ [])
unfolding entry entry_of
unsealing_acts = refl

entry-accepted_example :
    All (λ e. accepted DealStatus.unsealing e ≡ true) (ProviderEvent.unseal_complete ∷ [])
entry-accepted_example = entry-accepted (provider_env (pos 0)) unsealing_deal _ unsealing_acts

abbrev payments : List ProviderEvent
payments =
    ProviderEvent.partial_payment_received (pos 43)
    ∷ ProviderEvent.open_deal
    ∷ ProviderEvent.payment_received (pos 2)
    ∷ []

abbrev after_payments : ProviderDealState
after_payments = run (fire (reference_engine provider_machine)) provider_deal payments

funds_received-run_example :
    (after_payments.funds_received
      ≡ pos 37 +ℤ paid_in (reference_engine provider_machine) provider_deal payments)
    × (after_payments.proposal ≡ proposal)
    × (after_payments.receiver ≡ 14)
    × (same after_payments.status DealStatus.new ≡ false)
unfolding same
funds_received-run_example =
    funds_received-run (reference_engine provider_machine) payments provider_deal refl

short_answer :
    funding_response provider_deal (pos 43) (pos 2)
    ≡ some (response provider_deal DealStatus.funds_needed_last_payment (pos 2))
unfolding funding_response
short_answer = refl

-- ===== src/Examples/Pulls.antt =====
-- retrievalmarket/impl/requestvalidation/requestvalidation.go at concrete requests.
use go_fil_markets.Prelude.{false, ℕ, suc, ◌≡◌, refl, true, none, some, List, [], ◌∷◌, arith, ok}
use go_fil_markets.Prelude.Int.{◌+ℤ◌, ◌*ℤ◌, pos, ◌-ℤ◌, ◌/ℤ◌}
use go_fil_markets.Retrieval.Params.{
  next_loop, outstanding_balance, next_interval, interval_paid_for, for_transfer,
  next_interval_from, owed_for, minimum_bytes_to_pay,
}
use go_fil_markets.Retrieval.Params.Thresholds.{threshold, LastBelow}
use go_fil_markets.Retrieval.Status.{DealStatus, same}
use go_fil_markets.Retrieval.Voucher.{DealResponse, ValidationResult}
use go_fil_markets.Retrieval.Client.Deal.{DealProposal, client_machine}
use go_fil_markets.Retrieval.Client.Table.{fire}
use go_fil_markets.Retrieval.DataTransfer.{client_event_for_response}
use go_fil_markets.Retrieval.Protocol.{acceptance_agreed}
use go_fil_markets.Fsm.{moved, reference_engine}
use go_fil_markets.Retrieval.Pieces.Search.{
  get_best_piece_info_match, best_match, in_unsealed_sector, get_all_piece_info, read_pieces,
  get_piece_info,
}
use go_fil_markets.Retrieval.Pieces.Causes.{Foreign}
use go_fil_markets.Retrieval.Pricing.{get_piece, get_ask, get_dynamic_ask, check_deal_params}
use go_fil_markets.Retrieval.Provider.Deal.{ProviderEvent}
use go_fil_markets.Retrieval.Validation.Env.{Call, begins, sends, requested_deal, begin_tracking}
use go_fil_markets.Retrieval.Validation.Pull.{validate_pull, accept_proposal}
use go_fil_markets.Retrieval.Validation.Decision.{Checks, Passed, validate_pull-Checks}
use go_fil_markets.Retrieval.Validation.Acceptance.{
  Asks, validate_pull_accepts, zero_interval_hangs,
}
use go_fil_markets.Retrieval.Validation.Restart.{requires_finalization, validate_restart}
use go_fil_markets.Retrieval.Validation.Debts.{restart_requires_payment}
use go_fil_markets.Examples.Data.{
  waiting_deal, channel, provider_deal, proposal, endless_proposal, piece, ask, index,
  validation_env,
}

abbrev begun : DealProposal → List Call
begun p =
    begins (record (requested_deal 13 p) { piece_info = some piece })
    ∷ sends (13, p.id) ProviderEvent.payment_requested
    ∷ []

checks : Checks validation_env (requested_deal 13 proposal) (begun proposal)
unfolding get_piece get_ask get_all_piece_info read_pieces get_piece_info get_best_piece_info_match
    best_match in_unsealed_sector get_dynamic_ask check_deal_params begin_tracking
checks = record {
  piece = piece;
  unsealed = true;
  ask = ask;
  reason = "";
  located = refl;
  asked = refl;
  within = refl;
  agreed = refl;
  begun = refl;
}

endless-Checks : Checks validation_env (requested_deal 13 endless_proposal) (begun endless_proposal)
unfolding get_piece get_ask get_all_piece_info read_pieces get_piece_info get_best_piece_info_match
    best_match in_unsealed_sector get_dynamic_ask check_deal_params begin_tracking
endless-Checks = record {
  piece = piece;
  unsealed = true;
  ask = ask;
  reason = "";
  located = refl;
  asked = refl;
  within = refl;
  agreed = refl;
  begun = refl;
}

validate_pull_accepts_example :
    (j : ℕ) × (result : ValidationResult) × (answer : DealResponse) × LastBelow proposal.params 0 j
    × (validate_pull validation_env 13 proposal 50 1 ≡ some (begun proposal, ok result))
    × (result.accepted ≡ true)
    × (result.force_pause ≡ true)
    × (result.requires_finalization ≡ true)
    × (result.data_limit ≡ threshold proposal.params (suc j))
    × (result.voucher_result ≡ some answer)
    × Asks proposal 7 answer
validate_pull_accepts_example =
    validate_pull_accepts validation_env 13 proposal 50 1 (begun proposal) 3 7 (refl, refl, checks)
      (refl, refl) (omega arith) (omega arith) (omega arith)

acceptance_agreed_example :
    (result : ValidationResult) × (answer : DealResponse) × (validate_pull validation_env 13
        proposal 50 1
      ≡ some (begun proposal, ok result))
    × (result.voucher_result ≡ some answer)
    × (fire (reference_engine client_machine) (client_event_for_response answer) waiting_deal
        ≡ moved
            (record waiting_deal {
              status = DealStatus.accepted;
              payment_requested = pos 0 +ℤ pos 7;
            })
            true)
acceptance_agreed_example =
    acceptance_agreed (reference_engine client_machine) waiting_deal validation_env 13 proposal 50 1
      (begun proposal) 3 7 (refl, refl, checks) (refl, refl) (omega arith) (omega arith)
      (omega arith) refl

zero_interval_hangs_example :
    (validate_pull validation_env 13 endless_proposal 50 1 ≡ none)
    × ((fuel : ℕ) → next_loop fuel 0 0 0 0 ≡ none)
zero_interval_hangs_example =
    zero_interval_hangs validation_env 13 endless_proposal 50 1 (begun endless_proposal) 3 7
      (refl, refl, endless-Checks) (refl, refl) (omega arith) refl refl

accepted_run :
    validate_pull validation_env 13 proposal 50 1
    ≡ some (begun proposal, ok (accept_proposal proposal (pos 7) 10))
unfolding validate_pull get_piece get_ask get_all_piece_info read_pieces get_piece_info
    get_best_piece_info_match best_match in_unsealed_sector get_dynamic_ask check_deal_params
    begin_tracking outstanding_balance next_interval interval_paid_for for_transfer
    next_interval_from next_loop ◌-ℤ◌ ◌/ℤ◌
accepted_run = refl

validate_pull-Checks_example : Passed validation_env 13 proposal 50 1 (begun proposal)
validate_pull-Checks_example =
    validate_pull-Checks validation_env 13 proposal 50 1 (begun proposal)
      (accept_proposal proposal (pos 7) 10) accepted_run

index-Foreign : Foreign index
index-Foreign c e h = ground (arith, h)

abbrev restart_result : ValidationResult
restart_result = record {
  accepted = true;
  voucher_result = none;
  force_pause = false;
  data_limit = 25;
  requires_finalization = true;
}

restarted_run : validate_restart validation_env proposal channel ≡ some restart_result
unfolding validate_restart requires_finalization outstanding_balance owed_for minimum_bytes_to_pay
    next_interval interval_paid_for for_transfer next_interval_from next_loop same ◌-ℤ◌ ◌*ℤ◌ ◌/ℤ◌
restarted_run = refl

restart_requires_payment_example : restart_result.requires_finalization ≡ true
restart_requires_payment_example =
    restart_requires_payment validation_env proposal channel provider_deal restart_result 3 7 37
      refl (refl, refl) (omega arith) refl refl (omega arith) restarted_run

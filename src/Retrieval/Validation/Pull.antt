-- ===== src/Retrieval/Validation/Pull.antt =====
-- retrievalmarket/impl/requestvalidation/requestvalidation.go: `ValidatePush`, `ValidatePull`, and
-- the event that is published. `none` is a nil pointer that is followed, an identity CID nested
-- too deep, or a loop over payment intervals that does not end.
use go_fil_markets.Prelude.{
  ℕ, Bool, true, false, not, ◌==◌, Option, none, some, List, [], ◌∷◌, String, Result, ok, err,
  if◌then◌else◌,
}
use go_fil_markets.Prelude.Int.{ℤ, pos, ltb_ℤ}
use go_fil_markets.Retrieval.Params.{Cid, Params, outstanding_balance, next_interval}
use go_fil_markets.Retrieval.Status.{DealStatus}
use go_fil_markets.Retrieval.Voucher.{DealResponse, ValidationResult}
use go_fil_markets.Retrieval.Client.Deal.{PeerId, DealProposal}
use go_fil_markets.Retrieval.Pieces.Failure.{text, is_not_found, Found, found, failed}
use go_fil_markets.Retrieval.Pricing.{Ask, get_piece, get_ask, check_deal_params}
use go_fil_markets.Retrieval.Provider.Deal.{PieceInfo, ProviderDealState}
use go_fil_markets.Retrieval.Validation.Env.{
  ValidationEnv, Call, requested_deal, run_deal_decisioning_logic, begin_tracking,
}

-- What a validation does and returns.
abbrev pub Answer : Type 0
Answer = Option (List Call × Result ValidationResult)

-- `rejectProposal`
abbrev pub reject_proposal : DealProposal → DealStatus → String → ValidationResult
reject_proposal proposal status reason = record {
  accepted = false;
  voucher_result =
      some (record { status = status; id = proposal.id; payment_owed = pos 0; message = reason });
  force_pause = false;
  data_limit = 0;
  requires_finalization = false;
}

abbrev pub rejected : DealProposal → DealStatus → String → Answer
rejected proposal status reason = some ([], ok (reject_proposal proposal status reason))

-- The status of the response to an accepted proposal.
abbrev pub opening_status : Params → DealStatus
opening_status p =
    if ltb_ℤ (pos 0) p.unseal_price then DealStatus.funds_needed_unseal else DealStatus.accepted

abbrev pub accept_proposal : DealProposal → ℤ → ℕ → ValidationResult
accept_proposal proposal owed limit = record {
  accepted = true;
  voucher_result = some (record {
    status = opening_status proposal.params;
    id = proposal.id;
    payment_owed = owed;
    message = "";
  });
  force_pause = true;
  data_limit = limit;
  requires_finalization = true;
}

-- The end of `validatePull`, on the balance and the first interval.
abbrev pub opened : DealProposal → List Call → Option ℤ → Option ℕ → Answer
opened proposal calls (some owed) (some limit) =
    some (calls, ok (accept_proposal proposal owed limit))
opened proposal calls _ _ = none

abbrev pub tracked : DealProposal → List Call × Result (Unit {0}) → Answer
tracked proposal (calls, err e) = some (calls, err e)
tracked proposal (calls, ok _) =
    opened proposal calls (outstanding_balance proposal.params (pos 0) 0 false)
      (next_interval proposal.params (pos 0))

abbrev pub decided : ValidationEnv → ProviderDealState → PieceInfo → Result (Bool × String) → Answer
decided env d piece (err e) = rejected d.proposal DealStatus.errored e
decided env d piece (ok (false, reason)) = rejected d.proposal DealStatus.rejected reason
decided env d piece (ok (true, reason)) =
    tracked d.proposal (begin_tracking env (record d { piece_info = some piece }))

abbrev pub checked : ValidationEnv → ProviderDealState → PieceInfo → Result (Unit {0}) → Answer
checked env d piece (err e) = rejected d.proposal DealStatus.rejected e
checked env d piece (ok _) = decided env d piece (run_deal_decisioning_logic env d)

abbrev pub with_ask : ValidationEnv → ProviderDealState → PieceInfo → Option (Result Ask) → Answer
with_ask env d piece none = none
with_ask env d piece (some (err e)) = rejected d.proposal DealStatus.errored e
with_ask env d piece (some (ok ask)) = checked env d piece (
    check_deal_params ask d.params.price_per_byte d.params.payment_interval
      d.params.payment_interval_increase d.params.unseal_price)

abbrev pub with_piece :
    ValidationEnv → ProviderDealState → Option (Found (PieceInfo × Bool)) → Answer
with_piece env d none = none
with_piece env d (some (failed e)) =
    rejected d.proposal (if is_not_found e then DealStatus.deal_not_found else DealStatus.errored)
      (text e)
with_piece env d (some (found (piece, unsealed))) =
    with_ask env d piece
      (get_ask env.pricing d.payload_cid d.params.piece_cid piece unsealed d.receiver)

-- The selector that a proposal stands for.
abbrev pub selector_or : ℕ → Params → ℕ
selector_or all p = elim p.selector [ none ↦ all | some s ↦ s ]

-- `validatePull`
unfoldable pub validate_pull : ValidationEnv → PeerId → DealProposal → Cid → ℕ → Answer
validate_pull env receiver proposal base_cid selector =
    if not (proposal.payload_cid == base_cid)
    then rejected proposal DealStatus.rejected "incorrect CID for this proposal"
    else if not (selector_or env.all_selector proposal.params == selector)
    then rejected proposal DealStatus.rejected "incorrect selector specified for this proposal"
    else with_piece env (requested_deal receiver proposal)
        (get_piece env.pricing proposal.payload_cid proposal.params.piece_cid)

-- `ValidatePush`
abbrev pub validate_push : Answer
validate_push = some ([], err "No pushes accepted")

-- `ProviderValidationEvent`, without the selector.
pub record ValidationEvent : Type 0 where
  pub is_restart : Bool
  pub receiver : PeerId
  pub proposal : DealProposal
  pub base_cid : Cid
  pub response : Option DealResponse
  pub error : Option String

abbrev pub event_error : ValidationEnv → Result ValidationResult → Option String
event_error env (err e) = some e
event_error env (ok r) = if r.accepted then none else some env.err_rejected

abbrev pub event_response : Result ValidationResult → Option DealResponse
event_response (err e) = none
event_response (ok r) = r.voucher_result

-- `publishValidationEvent`
unfoldable pub validation_event :
    ValidationEnv → Bool → PeerId → DealProposal → Cid → Result ValidationResult → ValidationEvent
validation_event env restart receiver proposal base_cid answer = record {
  is_restart = false;
  receiver = receiver;
  proposal = proposal;
  base_cid = base_cid;
  response = event_response answer;
  error = event_error env answer;
}

-- `ValidatePull`: the voucher is decoded by the registry, which gives its own error.
unfoldable pub validate_pull_voucher :
    ValidationEnv
    → PeerId
    → Result DealProposal
    → Cid
    → ℕ
    → Option (List Call × List ValidationEvent × Result ValidationResult)
unfolding validation_event validate_pull
validate_pull_voucher env receiver (err e) base_cid selector = some ([], [], err e)
validate_pull_voucher env receiver (ok proposal) base_cid selector =
    elim (validate_pull env receiver proposal base_cid selector) [
      | none ↦ none
      | some (calls, answer) ↦
          some (calls, validation_event env false receiver proposal base_cid answer ∷ [], answer)
    ]

-- ===== src/Retrieval/Validation/Restart.antt =====
-- retrievalmarket/impl/requestvalidation/requestvalidation.go: `ValidateRestart`.
use go_fil_markets.Prelude.{
  ℕ, Bool, true, not, ◌||◌, ◌&&◌, Option, none, some, List, [], ◌∷◌, Result, ok, err, if◌then◌else◌,
}
use go_fil_markets.Prelude.Int.{ℤ, pos, ltb_ℤ}
use go_fil_markets.Retrieval.Params.{Cid, outstanding_balance, next_interval}
use go_fil_markets.Retrieval.Status.{DealStatus, same}
use go_fil_markets.Retrieval.Voucher.{ChannelState, ValidationResult}
use go_fil_markets.Retrieval.Client.Deal.{DealProposal}
use go_fil_markets.Retrieval.Provider.Deal.{ProviderDealState}
use go_fil_markets.Retrieval.Provider.Handlers.{error_deal_response}
use go_fil_markets.Retrieval.Validation.Env.{ValidationEnv}
use go_fil_markets.Retrieval.Validation.Pull.{ValidationEvent, validation_event}

abbrev pub still_owed : Option ℤ → Option Bool
still_owed none = none
still_owed (some owed) = some (ltb_ℤ (pos 0) owed)

-- `requiresFinalization`
unfoldable pub requires_finalization : ProviderDealState → ChannelState → Option Bool
requires_finalization d channel =
    if not (same d.status DealStatus.funds_needed_last_payment)
      && not (same d.status DealStatus.finalizing)
    then some true
    else still_owed
        (outstanding_balance d.params d.funds_received channel.queued channel.in_finalization)

abbrev pub restarted : ProviderDealState → Option Bool → Option ℕ → Option ValidationResult
restarted d (some finalization) (some limit) = some (record {
  accepted = true;
  voucher_result = none;
  force_pause = same d.status DealStatus.unsealing || same d.status DealStatus.funds_needed_unseal;
  data_limit = limit;
  requires_finalization = finalization;
})
restarted d _ _ = none

abbrev pub answer_restart :
    DealProposal → ChannelState → Result ProviderDealState → Option ValidationResult
answer_restart proposal channel (err e) = some (error_deal_response proposal.id e)
answer_restart proposal channel (ok d) =
    restarted d (requires_finalization d channel) (next_interval d.params d.funds_received)

-- `validateRestart`
unfoldable pub validate_restart :
    ValidationEnv → DealProposal → ChannelState → Option ValidationResult
validate_restart env proposal channel =
    answer_restart proposal channel (env.get (channel.other_peer, proposal.id))

-- `ValidateRestart`
unfoldable pub validate_restart_voucher :
    ValidationEnv → Cid → ChannelState → Option (List ValidationEvent × Result ValidationResult)
unfolding validate_restart validation_event
validate_restart_voucher env base_cid channel = elim channel.voucher [
  | none ↦ some ([], err "wrong voucher type")
  | some voucher ↦ elim voucher.as_proposal [
    | none ↦ some ([], err "wrong voucher type")
    | some proposal ↦ elim (validate_restart env proposal channel) [
      | none ↦ none
      | some r ↦
          some (validation_event env true channel.other_peer proposal base_cid (ok r) ∷ [], ok r)
    ]
  ]
]

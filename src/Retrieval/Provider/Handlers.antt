-- ===== src/Retrieval/Provider/Handlers.antt =====
-- retrievalmarket/impl/providerstates/provider_states.go: the entry function of each state, as what
-- it asks of its environment and the events that it triggers, in order. `none` is a nil pointer
-- that the code follows, or a loop over intervals that does not end.
use go_fil_markets.Prelude.{
  ℕ, true, false, not, ◌||◌, Option, none, some, List, [], ◌∷◌, ◌++◌, String, Result, ok, err,
  if◌then◌else◌,
}
use go_fil_markets.Prelude.Int.{ℤ, pos, ◌+ℤ◌, ltb_ℤ}
use go_fil_markets.Retrieval.Params.{outstanding_balance, next_interval}
use go_fil_markets.Retrieval.Status.{DealStatus, same}
use go_fil_markets.Retrieval.Voucher.{DealResponse, Node, ChannelState, ValidationResult}
use go_fil_markets.Retrieval.Client.Deal.{ChannelId}
use go_fil_markets.Retrieval.Client.Env.{DealPayment}
use go_fil_markets.Retrieval.Provider.Deal.{PieceInfo, ProviderDealState, ProviderEvent}
use go_fil_markets.Retrieval.Provider.Env.{
  closed, terminated, close_error, ProviderEnv, Act, prepares_blockstore, deletes_store,
  resumes_transfer, closes_transfer, saves_voucher, updates_validation, trigger,
}

unfoldable pub unseal_data : ProviderEnv → ProviderDealState → Option PieceInfo → Option (List Act)
unseal_data env d none = none
unseal_data env d (some piece) = some (
    prepares_blockstore d.id piece.piece_cid ∷ elim (env.prepare_blockstore d.id piece.piece_cid) [
      | err e ↦ trigger (ProviderEvent.unseal_error e) ∷ []
      | ok _ ↦ trigger ProviderEvent.unseal_complete ∷ []
    ])

unfoldable pub unpause_deal : ProviderEnv → Option ChannelId → List Act
unpause_deal env none = []
unpause_deal env (some c) = resumes_transfer c ∷ elim (env.resume_data_transfer c) [
  | err e ↦ trigger (ProviderEvent.data_transfer_error e) ∷ []
  | ok _ ↦ []
]

-- `savePayment`
unfoldable pub save_payment : ProviderEnv → DealPayment → List Act × Result (Option ℤ)
save_payment env p = elim env.get_chain_head [
  | err e ↦ (trigger (ProviderEvent.save_voucher_failed e) ∷ [], err e)
  | ok tok ↦ elim (env.save_payment_voucher p.payment_channel p.payment_voucher tok) [
    | err e ↦ (
      saves_voucher p.payment_channel p.payment_voucher
          ∷ trigger (ProviderEvent.save_voucher_failed e)
          ∷ [],
      err e,
    )
    | ok received ↦ (saves_voucher p.payment_channel p.payment_voucher ∷ [], ok received)
  ]
]

-- `processLastVoucher`: a payment is saved, a proposal pays nothing, and any other voucher is an
-- error.
unfoldable pub process_last_voucher : ProviderEnv → Node → List Act × Result (Option ℤ)
process_last_voucher env node = elim node.as_payment [
  | some payment ↦ save_payment env payment
  | none ↦ elim node.as_proposal [
    | some proposal ↦ ([], ok (some (pos 0)))
    | none ↦ ([], err "wrong voucher type")
  ]
]

abbrev pub or_zero : Option ℤ → ℤ
or_zero none = pos 0
or_zero (some a) = a

-- `errorDealResponse`
abbrev pub error_deal_response : ℕ → String → ValidationResult
error_deal_response id message = record {
  accepted = false;
  voucher_result =
      some
        (record { status = DealStatus.errored; id = id; payment_owed = pos 0; message = message });
  force_pause = false;
  data_limit = 0;
  requires_finalization = false;
}

abbrev pub response : ProviderDealState → DealStatus → ℤ → DealResponse
response d s owed = record { status = s; id = d.id; payment_owed = owed; message = "" }

-- The events of `updateFunding`, on what was received and what is still owed.
unfoldable pub funding_acts : ℤ → ℤ → List Act
funding_acts received owed =
    if ltb_ℤ (pos 0) owed
    then if ltb_ℤ (pos 0) received
      then trigger (ProviderEvent.partial_payment_received received) ∷ []
      else []
    else trigger (ProviderEvent.payment_received received) ∷ []

-- The voucher that `updateFunding` sends back.
unfoldable pub funding_response : ProviderDealState → ℤ → ℤ → Option DealResponse
funding_response d received owed =
    if ltb_ℤ (pos 0) owed
    then if ltb_ℤ (pos 0) received || not (same d.status DealStatus.funds_needed_unseal)
      then some (response d d.status owed)
      else none
    else if same d.status DealStatus.funds_needed_last_payment
    then some (response d DealStatus.completed (pos 0))
    else none

abbrev pub funding_result : ProviderDealState → ℤ → ℤ → ℕ → ValidationResult
funding_result d received owed limit = record {
  accepted = true;
  voucher_result = funding_response d received owed;
  force_pause = same d.status DealStatus.unsealing || same d.status DealStatus.funds_needed_unseal;
  data_limit = limit;
  requires_finalization =
      ltb_ℤ (pos 0) owed || not (same d.status DealStatus.funds_needed_last_payment);
}

-- `updateFunding` once the balance and the data limit are known.
abbrev pub funding_outcome :
    ProviderDealState → List Act → ℤ → Option ℤ → Option ℕ → Option (List Act × ValidationResult)
funding_outcome d acts received (some owed) (some limit) =
    some (acts ++ funding_acts received owed, funding_result d received owed limit)
funding_outcome d acts received _ _ = none

-- `updateFunding` once the last voucher is processed.
unfoldable pub funded :
    ProviderDealState
    → ChannelState
    → List Act
    → Result (Option ℤ)
    → Option (List Act × ValidationResult)
funded d channel acts (err e) = some (acts, error_deal_response d.id e)
funded d channel acts (ok amount) =
    let received = or_zero amount in
    let total_paid = d.funds_received +ℤ received in
    funding_outcome d acts received
      (outstanding_balance d.params total_paid channel.queued channel.in_finalization)
      (next_interval d.params total_paid)

-- `updateFunding`
unfoldable pub update_funding :
    ProviderEnv → ProviderDealState → ChannelState → Option (List Act × ValidationResult)
update_funding env d channel =
    let (acts, received) = process_last_voucher env channel.last_voucher in
    funded d channel acts received

-- The end of `UpdateFunding`: the result goes to the channel.
publish_funding : ProviderEnv → ChannelId → List Act × ValidationResult → List Act
publish_funding env c (acts, result) =
    acts
    ++ updates_validation c result ∷ elim (env.update_validation_status c result) [
      | err e ↦ trigger (ProviderEvent.data_transfer_error e) ∷ []
      | ok _ ↦ []
    ]

-- `UpdateFunding`
unfoldable pub funding_entry :
    ProviderEnv → ProviderDealState → Option ChannelId → Option (List Act)
unfolding process_last_voucher save_payment funded funding_acts funding_response update_funding
    publish_funding
funding_entry env d none = some []
funding_entry env d (some c) = elim (env.channel_state c) [
  | err e ↦ some (trigger (ProviderEvent.data_transfer_error e) ∷ [])
  | ok channel ↦ elim (update_funding env d channel) [
    | none ↦ none
    | some result ↦ some (publish_funding env c result)
  ]
]

close_transfer : ProviderEnv → Option ChannelId → List Act
close_transfer env none = trigger ProviderEvent.cancel_complete ∷ []
close_transfer env (some c) = closes_transfer c ∷ elim (env.close_data_transfer c) [
  | closed ↦ trigger ProviderEvent.cancel_complete ∷ []
  | terminated ↦ trigger ProviderEvent.cancel_complete ∷ []
  | close_error e ↦ trigger (ProviderEvent.data_transfer_error e) ∷ []
]

unfoldable pub cancel_deal : ProviderEnv → ProviderDealState → List Act
unfolding close_transfer
cancel_deal env d = deletes_store d.id ∷ elim (env.delete_store d.id) [
  | err e ↦ trigger (ProviderEvent.multi_store_error e) ∷ []
  | ok _ ↦ close_transfer env d.channel_id
]

unfoldable pub cleanup_deal : ProviderEnv → ProviderDealState → List Act
cleanup_deal env d = deletes_store d.id ∷ elim (env.delete_store d.id) [
  | err e ↦ trigger (ProviderEvent.multi_store_error e) ∷ []
  | ok _ ↦ trigger ProviderEvent.cleanup_complete ∷ []
]

-- `ProviderStateEntryFuncs`: the entry function of the deal's state, if it has one.
unfoldable pub entry_of : ProviderEnv → DealStatus → ProviderDealState → Option (List Act)
unfolding unseal_data unpause_deal funding_entry cancel_deal cleanup_deal
entry_of env DealStatus.unsealing d = unseal_data env d d.piece_info
entry_of env DealStatus.unsealed d = some (unpause_deal env d.channel_id)
entry_of env DealStatus.funds_needed d = funding_entry env d d.channel_id
entry_of env DealStatus.funds_needed_unseal d = funding_entry env d d.channel_id
entry_of env DealStatus.funds_needed_last_payment d = funding_entry env d d.channel_id
entry_of env DealStatus.failing d = some (cancel_deal env d)
entry_of env DealStatus.cancelling d = some (cancel_deal env d)
entry_of env DealStatus.completing d = some (cleanup_deal env d)
entry_of env _ d = some []

unfoldable pub entry : ProviderEnv → ProviderDealState → Option (List Act)
unfolding entry_of
entry env d = entry_of env d.status d

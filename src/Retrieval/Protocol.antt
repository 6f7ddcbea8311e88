-- ===== src/Retrieval/Protocol.antt =====
-- The two sides together: what the provider answers (requestvalidation.go and provider_states.go of
-- retrievalmarket/impl) against the event that it becomes at the client (dtutils.go) and what the
-- client's table (client_fsm.go) does with it.
use go_fil_markets.Prelude.{
  ℕ, zero, suc, ◌<◌, ◌≡◌, refl, true, Option, none, some, List, [], ◌∷◌, ok, ltb, if◌then◌else◌,
  String, arith, ◌∙◌, subst,
}
use go_fil_markets.Prelude.Int.{ℤ, pos, ◌+ℤ◌, int_laws}
use go_fil_markets.Fsm.{Engine, moved, elem}
use go_fil_markets.Retrieval.Status.{DealStatus, same}
use go_fil_markets.Retrieval.Voucher.{DealResponse, ValidationResult}
use go_fil_markets.Retrieval.Client.Deal.{PeerId, DealProposal, ClientDealState, client_machine}
use go_fil_markets.Retrieval.Client.Table.{fire, edges, action}
use go_fil_markets.Retrieval.Client.Accounts.{asked}
use go_fil_markets.Retrieval.Client.Payments.{Prices}
use go_fil_markets.Retrieval.Provider.Deal.{ProviderDealState}
use go_fil_markets.Retrieval.Provider.Handlers.{funding_response, response}
use go_fil_markets.Retrieval.Validation.Env.{ValidationEnv, Call}
use go_fil_markets.Retrieval.Validation.Pull.{validate_pull}
use go_fil_markets.Retrieval.Validation.Decision.{Passed}
use go_fil_markets.Retrieval.Validation.Acceptance.{validate_pull_accepts}
use go_fil_markets.Retrieval.Params.{Cid}
use go_fil_markets.Retrieval.Params.Thresholds.{Advances, Fits}
use go_fil_markets.Retrieval.DataTransfer.{client_event_for_response, event_for_status}

asked_nothing : (a : ℤ) → a ≡ a +ℤ pos 0
asked_nothing a = omega int_laws

-- What the client's table makes of the answer to an accepted pull.
accepted_by_client :
    (engine : Engine client_machine) (d : ClientDealState) (unseal : ℕ) (status : DealStatus)
    (id : ℕ) (owed : ℤ) (message : String)
    → status ≡ (if ltb 0 unseal then DealStatus.funds_needed_unseal else DealStatus.accepted)
    → owed ≡ pos unseal
    → d.status ≡ DealStatus.wait_for_acceptance
    → fire engine
        (client_event_for_response
          (record { status = status; id = id; payment_owed = owed; message = message }))
        d
      ≡ moved
          (record d {
            status = DealStatus.accepted;
            payment_requested = d.payment_requested +ℤ pos unseal;
          })
          true
unfolding fire edges action same client_event_for_response
accepted_by_client engine d zero status id owed message st o s =
    rw st (engine.process_lem _ _ d ∙ ground (arith, s, asked_nothing d.payment_requested))
accepted_by_client engine d (suc n) status id owed message st o s =
    rw (st, o) (engine.process_lem _ _ d ∙ ground (arith, s))

-- When the provider's validation accepts a pull because all checks have passed, a client that waits
-- for the answer has its deal accepted by the event that the answer becomes, and is asked to pay for
-- unsealing exactly what that costs, which may be nothing. The price is not 0, the schedule moves
-- and the counters do not wrap.
pub acceptance_agreed :
    (engine : Engine client_machine) (d : ClientDealState) (env : ValidationEnv) (receiver : PeerId)
    (proposal : DealProposal) (base_cid : Cid) (selector : ℕ) (calls : List Call) (price unseal : ℕ)
    → Passed env receiver proposal base_cid selector calls
    → Prices proposal.params price unseal
    → 0 < price
    → Advances proposal.params
    → Fits proposal.params 0
    → d.status ≡ DealStatus.wait_for_acceptance
    → (result : ValidationResult) × (answer : DealResponse) × (validate_pull env receiver proposal
          base_cid selector
        ≡ some (calls, ok result))
      × (result.voucher_result ≡ some answer)
      × (fire engine (client_event_for_response answer) d
          ≡ moved
              (record d {
                status = DealStatus.accepted;
                payment_requested = d.payment_requested +ℤ pos unseal;
              })
              true)
acceptance_agreed engine d env receiver proposal base_cid selector calls price unseal passed prices
      h a fits s =
    let (_, result, answer, _, run, _, _, _, _, voucher, asks) =
      validate_pull_accepts env receiver proposal base_cid selector calls price unseal passed prices
        h a fits in
    (
      result,
      answer,
      run,
      voucher,
      accepted_by_client engine d unseal answer.status answer.id answer.payment_owed answer.message
          asks.0 asks.2 s,
    )

-- The states in which the provider waits for money.
abbrev pub waiting : List DealStatus
waiting =
    DealStatus.funds_needed_unseal ∷ DealStatus.funds_needed ∷ DealStatus.funds_needed_last_payment
    ∷ []

asked_when_waiting :
    (s : DealStatus) (r : DealResponse)
    → elem same s waiting ≡ true
    → asked (event_for_status s r) ≡ r.payment_owed
unfolding same
asked_when_waiting DealStatus.funds_needed r h = refl
asked_when_waiting DealStatus.funds_needed_unseal r h = refl
asked_when_waiting DealStatus.funds_needed_last_payment r h = refl
asked_when_waiting _ r h = ground (arith, h)

abbrev Asked : ℤ → Option DealResponse → Type 0
Asked owed none = Unit
Asked owed (some r) = asked (client_event_for_response r) ≡ owed

-- When the provider that waits for money finds a payment too small and answers, the answer asks the
-- client for exactly what is still owed.
pub shortfall_agreed :
    (d : ProviderDealState) (received : ℤ) (owed : ℕ) (r : DealResponse)
    → elem same d.status waiting ≡ true
    → 0 < owed
    → funding_response d received (pos owed) ≡ some r
    → asked (client_event_for_response r) ≡ pos owed
unfolding funding_response client_event_for_response same
shortfall_agreed d received owed r s h e =
    subst (Asked (pos owed)) e
      (ground (arith, asked_when_waiting d.status (response d d.status (pos owed)) s))

-- ===== src/Retrieval/Client/Lifecycle.antt =====
-- retrievalmarket/impl/clientstates: how a retrieval client's deal moves through its states under
-- any events at all.
use go_fil_markets.Prelude.{
  Bool, true, false, ◌||◌, ◌≡◌, refl, Option, none, some, List, [], ◌∷◌, arith, sym, subst, ◌∙◌,
  inl, inr, Bool-cases,
}
use go_fil_markets.Fsm.{
  Engine, moved, Dest, to, no_change, just_record, declared, settle, run, arrive, resolve-moved,
}
use go_fil_markets.Retrieval.Status.{DealStatus, same}
use go_fil_markets.Retrieval.Client.Deal.{ClientEvent, ClientDealState, client_machine}
use go_fil_markets.Retrieval.Client.Table.{edges, action, fire, is_finality_state}
use go_fil_markets.Retrieval.Client.Accounts.{asked, Balanced, action-Balanced}

-- The events by which a provider takes a deal on.
abbrev pub accepting : ClientEvent → Bool
accepting ClientEvent.deal_accepted = true
accepting (ClientEvent.unseal_payment_requested owed) = true
accepting _ = false

-- The states that a client's deal can be in before it is taken on, and those in which it ends
-- without having been.
abbrev pub unopened : DealStatus → Bool
unopened DealStatus.new = true
unopened DealStatus.wait_for_acceptance = true
unopened DealStatus.wait_for_acceptance_legacy = true
unopened DealStatus.retry_legacy = true
unopened DealStatus.rejecting = true
unopened DealStatus.rejected = true
unopened DealStatus.deal_not_found_cleanup = true
unopened DealStatus.deal_not_found = true
unopened DealStatus.failing = true
unopened DealStatus.erroring = true
unopened DealStatus.errored = true
unopened DealStatus.cancelling = true
unopened DealStatus.cancelled = true
unopened _ = false

abbrev Arrives : (DealStatus → Bool) → DealStatus → Option (Dest DealStatus) → Type 0
Arrives p s none = Unit
Arrives p s (some (to t)) = p t ≡ true
Arrives p s (some no_change) = p s ≡ true
Arrives p s (some just_record) = p s ≡ true

edges-unopened :
    (e : ClientEvent) (s : DealStatus)
    → accepting e ≡ false
    → unopened s ≡ true
    → Arrives unopened s (declared same (edges e) s)
unfolding edges same
edges-unopened ClientEvent.open_deal s h u = ground arith
edges-unopened _ s h u = ground arith

-- The events that the table takes from any state.
abbrev pub from_everywhere : ClientEvent → Bool
from_everywhere (ClientEvent.write_deal_proposal_errored e) = true
from_everywhere (ClientEvent.unknown_response_received s) = true
from_everywhere (ClientEvent.data_transfer_error e) = true
from_everywhere (ClientEvent.write_deal_payment_errored e) = true
from_everywhere ClientEvent.provider_cancelled = true
from_everywhere ClientEvent.cancel = true
from_everywhere _ = false

abbrev Rests : Option (Dest DealStatus) → Type 0
Rests none = Unit
Rests (some (to t)) = ⊥
Rests (some no_change) = ⊥
Rests (some just_record) = Unit

edges-final :
    (e : ClientEvent) (s : DealStatus)
    → from_everywhere e ≡ false
    → is_finality_state s ≡ true
    → Rests (declared same (edges e) s)
unfolding edges same is_finality_state
edges-final ClientEvent.open_deal s h u = ground arith
edges-final _ s h u = ground arith

-- Only a record of the event is left in such a state.
rested :
    (dest : Dest DealStatus) (d₁ d d' : ClientDealState) (enters : Bool)
    → Rests (some dest)
    → d₁.status ≡ d.status
    → arrive client_machine dest d₁ ≡ moved d' enters
    → (d'.status ≡ d.status) × (enters ≡ false)
rested just_record d₁ d d' enters r e m = ground arith
rested (to t) d₁ d d' enters r e m = elim r [ ]
rested no_change d₁ d d' enters r e m = elim r [ ]

abbrev pub any_accepting : List ClientEvent → Bool
any_accepting [] = false
any_accepting (e ∷ es) = accepting e || any_accepting es

module _ (engine : Engine client_machine) where
  fire-unopened :
      (e : ClientEvent) (d : ClientDealState)
      → accepting e ≡ false
      → unopened d.status ≡ true
      → unopened (settle (fire engine) d (fire engine e d)).status ≡ true
  unfolding fire
  fire-unopened e d h u =
      rw (engine.process_lem (edges e) (action e) d)
        (ground (arith, action-Balanced e d, edges-unopened e d.status h u))

  -- A deal that no provider has taken on reaches none of the states of payment, transfer and
  -- completion by any events unless one of them is an acceptance by a provider.
  pub opened_needs_acceptance :
      (es : List ClientEvent) (d : ClientDealState)
      → unopened d.status ≡ true
      → unopened (run (fire engine) d es).status ≡ false
      → any_accepting es ≡ true
  unfolding run
  opened_needs_acceptance [] d u o = cc
  opened_needs_acceptance (e ∷ es) d u o = elim (Bool-cases (accepting e)) [
    | inl yes_it_is ↦ rw yes_it_is refl
    | inr h ↦ rw h (
        opened_needs_acceptance es (settle (fire engine) d (fire engine e d))
          (fire-unopened e d h u) o)
  ]

  -- In a finality state only the events that the table takes from any state move a deal: any other
  -- is refused, or recorded without a change of state and without an entry function.
  pub final_rests :
      (e : ClientEvent) (d d' : ClientDealState) (enters : Bool)
      → from_everywhere e ≡ false
      → is_finality_state d.status ≡ true
      → fire engine e d ≡ moved d' enters
      → (d'.status ≡ d.status) × (enters ≡ false)
  unfolding fire
  final_rests e d d' enters h f m =
      let (dest, d₁, found, done, at) =
        resolve-moved client_machine (declared same (edges e) d.status) (action e d) d' enters
          (sym (engine.process_lem (edges e) (action e) d) ∙ m) in
      rested dest d₁ d d' enters (subst Rests found (edges-final e d.status h f))
        (subst (Balanced (asked e) d) done (action-Balanced e d)).2 at

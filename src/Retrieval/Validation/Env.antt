-- ===== src/Retrieval/Validation/Env.antt =====
-- retrievalmarket/impl/provider_environments.go: `RunDealDecisioningLogic`, `BeginTracking`, `Get`.
-- The state machines' group, the configured decider and the equality of selectors are a parameter.
use go_fil_markets.Prelude.{
  ℕ, Bool, true, Option, none, some, List, [], ◌∷◌, String, Result, ok, err, if◌then◌else◌,
}
use go_fil_markets.Prelude.Int.{pos, ltb_ℤ}
use go_fil_markets.Retrieval.Status.{DealStatus}
use go_fil_markets.Retrieval.Client.Deal.{PeerId, DealProposal}
use go_fil_markets.Retrieval.Pricing.{Pricing}
use go_fil_markets.Retrieval.Provider.Deal.{
  ProviderDealState, ProviderDealIdentifier, identifier, ProviderEvent,
}

pub record ValidationEnv : Type 0 where
  pub pricing : Pricing
  pub decider : Option (ProviderDealState → Result (Bool × String))
  -- `Begin`, `Send` and `GetSync` of the state machines
  pub begin : ProviderDealState → Result (Unit {0})
  pub send : ProviderDealIdentifier → ProviderEvent → Result (Unit {0})
  pub get : ProviderDealIdentifier → Result ProviderDealState
  -- The selector that explores everything.
  pub all_selector : ℕ
  -- The text of datatransfer.ErrRejected.
  pub err_rejected : String

-- A call that changes the state machines.
pub data Call : Type 0 where
  begins : ProviderDealState → Call
  sends : ProviderDealIdentifier → ProviderEvent → Call

-- The deal of a new request.
abbrev pub requested_deal : PeerId → DealProposal → ProviderDealState
requested_deal receiver proposal = record {
  proposal = proposal;
  store_id = 0;
  channel_id = none;
  piece_info = none;
  status = DealStatus.new;
  receiver = receiver;
  funds_received = pos 0;
  message = "";
}

-- `RunDealDecisioningLogic`
abbrev pub run_deal_decisioning_logic : ValidationEnv → ProviderDealState → Result (Bool × String)
run_deal_decisioning_logic env d = elim env.decider [
  | none ↦ ok (true, "")
  | some decide ↦ decide d
]

-- The first event of a deal: it is asked to be paid for if the data must be unsealed.
abbrev pub first_event : ProviderDealState → ProviderEvent
first_event d =
    if ltb_ℤ (pos 0) d.params.unseal_price
    then ProviderEvent.payment_requested
    else ProviderEvent.open_deal

-- `BeginTracking`
unfoldable pub begin_tracking : ValidationEnv → ProviderDealState → List Call × Result (Unit {0})
begin_tracking env d = elim (env.begin d) [
  | err e ↦ (begins d ∷ [], err e)
  | ok _ ↦ (
    begins d ∷ sends (identifier d) (first_event d) ∷ [],
    env.send (identifier d) (first_event d),
  )
]

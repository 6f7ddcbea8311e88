-- ===== src/Storage/Protocol.antt =====
-- The storage client and the storage provider together: a deal that the provider has taken on takes
-- the data that the client pushes.
use go_fil_markets.Prelude.{
  true, false, ◌≡◌, ◌↔◌, refl, ◌∙◌, ap, Option, none, some, List, [], ◌∷◌, String, Result, ok, err,
  arith,
}
use text.Mathlib.Text.{◌==◌ as str_eq}
use go_fil_markets.Fsm.{Engine, elem, settle}
use go_fil_markets.Retrieval.Params.{Cid}
use go_fil_markets.Storage.Status.{StorageDealStatus, same, status_text}
use go_fil_markets.Storage.Client.Deal.{ClientDeal, ClientEvent, DataRef}
use go_fil_markets.Storage.Client.Env.{ClientEnv, SignedResponse, Act as ClientAct, starts_transfer}
use go_fil_markets.Storage.Client.Handlers.{initiate_data_transfer, verified_event}
use go_fil_markets.Storage.Provider.Deal.{ProviderEvent, MinerDeal, provider_machine}
use go_fil_markets.Storage.Provider.Env.{ProviderEnv, Act, sends_response, disconnects, trigger}
use go_fil_markets.Storage.Provider.Table.{edges}
use go_fil_markets.Storage.Provider.Actions.{action, fire}
use go_fil_markets.Storage.Provider.Closing.{entry, entry_of}
use go_fil_markets.Storage.Provider.Handlers.{decide_on_proposal, intent}
use go_fil_markets.Storage.Requests.{
  check_deal, validate_push_deal, PushDeals, Voucher, data_transfer_states, validate_push,
}

-- A push that belongs to a deal: the voucher names it, its payload is the one that is pushed, and it
-- is in a state in which data may be transferred.
pub record Belongs (deals : PushDeals) (voucher : Voucher) (base : Cid) : Type 0 where
  pub proposal : Cid
  pub deal : MinerDeal
  pub named : voucher ≡ ok proposal
  pub known : deals proposal ≡ ok deal
  pub payload : deal.ref.root ≡ base
  pub state_fits : elem same deal.state data_transfer_states ≡ true

module _ (cid_text : Cid → String) (deals : PushDeals) where
  check_deal-ok :
      (root base piece : Cid) (s : StorageDealStatus) (t : String)
      → check_deal cid_text root base piece s t ≡ ok tt
      → (root ≡ base) × (elem same s data_transfer_states ≡ true)
  unfolding check_deal
  check_deal-ok root base piece s t h = ground (arith, h)

  accepted_deal :
      (proposal base : Cid) (r : Result MinerDeal)
      → deals proposal ≡ r
      → validate_push cid_text (some deals) (ok proposal) base ≡ ok true
      → Belongs deals (ok proposal) base
  unfolding validate_push
  accepted_deal proposal base (err e) q h = absurd (ground (arith, q, h))
  accepted_deal proposal base (ok d) q h =
      let (payload, fits) =
        check_deal-ok d.ref.root base d.proposal.piece_cid d.state (status_text d.state)
          (ground (arith, q, h)) in
      record {
        proposal = proposal;
        deal = d;
        named = refl;
        known = q;
        payload = payload;
        state_fits = fits;
      }

  refused_voucher :
      (e : String) (base : Cid)
      → validate_push cid_text (some deals) (err e) base ≡ ok true
      → Belongs deals (err e) base
  unfolding validate_push
  refused_voucher e base h = absurd (ground (arith, h))

  accepted_voucher :
      (voucher : Voucher) (base : Cid)
      → validate_push cid_text (some deals) voucher base ≡ ok true
      → Belongs deals voucher base
  accepted_voucher (err e) base h = refused_voucher e base h
  accepted_voucher (ok proposal) base h = accepted_deal proposal base (deals proposal) refl h

  belonging_accepted :
      (voucher : Voucher) (base : Cid)
      → Belongs deals voucher base
      → validate_push cid_text (some deals) voucher base ≡ ok true
  unfolding validate_push check_deal
  belonging_accepted voucher base b =
      rw b.named (rw (b.known, validate_push_deal) (ground (arith, b.payload, b.state_fits)))

  -- A provider accepts a push exactly when it belongs to a deal: the voucher names the deal, the
  -- deal's payload is the one that is pushed, and the deal is in a state in which data may come.
  pub push_accepted_iff :
      (voucher : Voucher) (base : Cid)
      → (validate_push cid_text (some deals) voucher base ≡ ok true) ↔ Belongs deals voucher base
  push_accepted_iff voucher base = (accepted_voucher voucher base, belonging_accepted voucher base)

-- What a client does first.
abbrev pub first_act : List ClientAct → Option ClientAct
first_act [] = none
first_act (a ∷ acts) = some a

-- What a provider that decides for a proposal and whose answer is sent asks and triggers.
abbrev pub taken_on : MinerDeal → List Act
taken_on d =
    sends_response (intent d)
    ∷ disconnects d.proposal_cid
    ∷ trigger ProviderEvent.data_requested
    ∷ []

module _ (engine : Engine provider_machine) where
  -- The deal that waits for the data.
  abbrev pub waiting : MinerDeal → MinerDeal
  waiting d = settle (fire engine) d (fire engine ProviderEvent.data_requested d)

  waits :
      (d : MinerDeal)
      → d.state ≡ StorageDealStatus.accept_wait
      → ((waiting d).state ≡ StorageDealStatus.waiting_for_data) × ((waiting d).ref ≡ d.ref)
  unfolding fire edges action same
  waits d s = rw (engine.process_lem _ _ d) (ground arith)

  -- When a provider decides for a proposal and its answer is sent, client and provider agree: a client
  -- that verifies the answer goes on to the data transfer, pushes the payload of its deal with a
  -- voucher for its proposal if the transfer is not manual, and the provider accepts that push.
  pub push_agreed :
      (cid_text : Cid → String) (deals : PushDeals) (env : ProviderEnv) (client_env : ClientEnv)
      (c : ClientDeal) (d : MinerDeal) (r : SignedResponse) (reason : String)
      → d.state ≡ StorageDealStatus.accept_wait
      → d.ref ≡ c.data_ref
      → env.run_custom_decision_logic d ≡ ok (true, reason)
      → env.send_signed_response (intent d) ≡ ok tt
      → r.state ≡ (intent d).state
      → deals c.proposal_cid ≡ ok (waiting d)
      → str_eq c.data_ref.transfer_type "manual" ≡ false
      → (entry env d ≡ some (taken_on d))
        × (verified_event r (ok true) ≡ ClientEvent.initiate_data_transfer)
        × (first_act (initiate_data_transfer client_env c)
            ≡ some (starts_transfer c.miner c.proposal_cid c.data_ref.root))
        × (validate_push cid_text (some deals) (ok c.proposal_cid) c.data_ref.root ≡ ok true)
  unfolding entry entry_of decide_on_proposal initiate_data_transfer same
  push_agreed cid_text deals env client_env c d r reason s same_data decides sent answer known
        pushes =
      let (waits_for_data, same_ref) = waits d s in
      (
        ground arith,
        ground arith,
        ground arith,
        belonging_accepted cid_text deals (ok c.proposal_cid) c.data_ref.root (record {
          proposal = c.proposal_cid;
          deal = waiting d;
          named = refl;
          known = known;
          payload = ap (λ (x : DataRef). x.root) (same_ref ∙ same_data);
          state_fits = rw waits_for_data refl;
        }),
      )

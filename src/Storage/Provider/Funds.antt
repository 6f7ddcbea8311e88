-- ===== src/Storage/Provider/Funds.antt =====
-- storagemarket/impl/providerstates: the funds that a storage provider's deal keeps track of, under
-- any events at all.
use go_fil_markets.Prelude.{◌≡◌, refl, ◌∙◌, List, arith}
use go_fil_markets.Prelude.Int.{ℤ, pos, ◌-ℤ◌}
use go_fil_markets.Fsm.{Engine, run, Adds, AddsIfDone, weighed, run-Adds}
use go_fil_markets.Storage.Amounts.{tracked, eq-add_zero, eq-zero_add, sub-eq-add}
use go_fil_markets.Storage.Provider.Deal.{ProviderEvent, MinerDeal, provider_machine}
use go_fil_markets.Storage.Provider.Table.{edges}
use go_fil_markets.Storage.Provider.Actions.{action, fire}

-- What an event adds.
abbrev pub added : ProviderEvent → ℤ
added (ProviderEvent.funds_reserved a) = a
added (ProviderEvent.funds_released a) = pos 0 -ℤ a
added _ = pos 0

-- What a deal is about.
abbrev pub SameDeal : MinerDeal → MinerDeal → Type 0
SameDeal d d' =
    (d'.proposal ≡ d.proposal)
    × (d'.proposal_cid ≡ d.proposal_cid)
    × (d'.ref ≡ d.ref)
    × (d'.client ≡ d.client)
    × (d'.inbound_car ≡ d.inbound_car)

abbrev pub funds : MinerDeal → ℤ
funds d = tracked d.funds_reserved

action-AddsIfDone :
    (e : ProviderEvent) (d : MinerDeal) → AddsIfDone SameDeal funds d (added e) (action e d)
unfolding action
action-AddsIfDone ProviderEvent.open_deal d = ground (arith, eq-add_zero (funds d))
action-AddsIfDone (ProviderEvent.funds_reserved a) d =
    ground (arith, eq-zero_add a, eq-add_zero (funds d))
action-AddsIfDone (ProviderEvent.funds_released a) d = ground (arith, sub-eq-add (funds d) a)
action-AddsIfDone _ d = ground (arith, eq-add_zero (funds d))

-- In every run of a storage provider's deal the funds that it keeps track of are those that it had,
-- and what the accepted events reserved less what they released; the proposal, its CID, the client,
-- the data that it is about and the file that the data goes to stay.
pub provider_funds-run :
    (engine : Engine provider_machine) (es : List ProviderEvent) (d : MinerDeal)
    → Adds SameDeal funds d (weighed (fire engine) added d es) (run (fire engine) d es)
unfolding fire
provider_funds-run engine es d =
    run-Adds SameDeal funds provider_machine engine edges action added
      (λ d. (refl, refl, refl, refl, refl))
      (λ d₀ d₁ d₂ p q. (q.0 ∙ p.0, q.1 ∙ p.1, q.2 ∙ p.2, q.3 ∙ p.3, q.4 ∙ p.4))
      (λ d s. (refl, (refl, refl, refl, refl, refl))) action-AddsIfDone es d

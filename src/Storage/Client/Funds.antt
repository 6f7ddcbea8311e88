-- ===== src/Storage/Client/Funds.antt =====
-- storagemarket/impl/clientstates: the funds that a storage client's deal keeps track of, under any
-- events at all.
use go_fil_markets.Prelude.{ℕ, ◌≡◌, refl, ◌∙◌, List, arith}
use go_fil_markets.Prelude.Int.{ℤ, pos, ◌-ℤ◌}
use go_fil_markets.Fsm.{Engine, run, Adds, AddsIfDone, weighed, run-Adds}
use go_fil_markets.Storage.Amounts.{tracked, eq-add_zero, eq-zero_add, sub-eq-add}
use go_fil_markets.Storage.Client.Deal.{ClientEvent, ClientDeal, Texts, client_machine}
use go_fil_markets.Storage.Client.Table.{edges}
use go_fil_markets.Storage.Client.Actions.{action, fire}

-- What an event adds.
abbrev pub added : ClientEvent → ℤ
added (ClientEvent.funds_reserved a) = a
added (ClientEvent.funds_released a) = pos 0 -ℤ a
added _ = pos 0

-- What a deal is about.
abbrev pub SameDeal : ClientDeal → ClientDeal → Type 0
SameDeal d d' =
    (d'.proposal ≡ d.proposal) × (d'.proposal_cid ≡ d.proposal_cid) × (d'.data_ref ≡ d.data_ref)

abbrev pub funds : ClientDeal → ℤ
funds d = tracked d.funds_reserved

action-AddsIfDone :
    (texts : Texts) (e : ℕ × ClientEvent) (d : ClientDeal)
    → AddsIfDone SameDeal funds d (added e.1) (action texts e.0 e.1 d)
unfolding action
action-AddsIfDone texts (now, ClientEvent.open_deal) d = ground (arith, eq-add_zero (funds d))
action-AddsIfDone texts (now, ClientEvent.funds_reserved a) d =
    ground (arith, eq-zero_add a, eq-add_zero (funds d))
action-AddsIfDone texts (now, ClientEvent.funds_released a) d =
    ground (arith, sub-eq-add (funds d) a)
action-AddsIfDone texts (now, _) d = ground (arith, eq-add_zero (funds d))

-- In every run of a storage client's deal the funds that it keeps track of are those that it had,
-- and what the accepted events reserved less what they released; the proposal, its CID and the
-- data that it is about stay.
pub client_funds-run :
    (engine : Engine client_machine) (texts : Texts) (es : List (ℕ × ClientEvent)) (d : ClientDeal)
    → Adds SameDeal funds d
        (weighed (fire engine texts) (λ (e : ℕ × ClientEvent). added e.1) d es)
        (run (fire engine texts) d es)
unfolding fire
client_funds-run engine texts es d =
    run-Adds SameDeal funds client_machine engine (λ (e : ℕ × ClientEvent). edges e.1)
      (λ (e : ℕ × ClientEvent). action texts e.0 e.1) (λ (e : ℕ × ClientEvent). added e.1)
      (λ d. (refl, refl, refl)) (λ d₀ d₁ d₂ p q. (q.0 ∙ p.0, q.1 ∙ p.1, q.2 ∙ p.2))
      (λ d s. (refl, (refl, refl, refl))) (action-AddsIfDone texts) es d

-- ===== src/Storage/Provider/Follows.antt =====
-- storagemarket/impl/providerstates: the provider's deal machine refines the life of a deal.
use go_fil_markets.Prelude.{refl, inl, List, arith}
use go_fil_markets.Fsm.{Engine, declared, run, run-Paced, Paced, Stays}
use go_fil_markets.Storage.Status.{StorageDealStatus, same}
use go_fil_markets.Storage.Phases.{
  phase, Reaches, Onward, Checked, Checked-Leads, Moves, Paced-Reaches,
}
use go_fil_markets.Storage.Provider.Deal.{ProviderEvent, MinerDeal, provider_machine}
use go_fil_markets.Storage.Provider.Table.{edges}
use go_fil_markets.Storage.Provider.Actions.{action, fire}

edges-Checked : (e : ProviderEvent) (s : StorageDealStatus) → Checked s (declared same (edges e) s)
unfolding edges same phase
edges-Checked ProviderEvent.open_deal s = ground arith
edges-Checked _ s = ground arith

action-Stays : (e : ProviderEvent) (d : MinerDeal) → Stays Onward provider_machine d (action e d)
unfolding action
action-Stays ProviderEvent.open_deal d = refl
action-Stays _ d = ground arith

-- In every run of a storage provider's deal, whatever events come, each event leaves the deal in its phase
-- or takes it one step of the life of a deal: it moves on to the next phase or fails. So the phase
-- that the run ends in is reached from the first by such steps.
pub provider_run-Reaches :
    (engine : Engine provider_machine) (es : List ProviderEvent) (d : MinerDeal)
    → Paced (fire engine) (λ c d. Moves (phase c.state) (phase d.state)) es d
      × Reaches (phase d.state) (phase (run (fire engine) d es).state)
unfolding fire
provider_run-Reaches engine es d =
    let paced =
      run-Paced Onward provider_machine (λ s. inl refl) (λ d s. refl) engine edges action
        (λ e s. Checked-Leads s (declared same (edges e) s) (edges-Checked e s)) action-Stays es
        d in
    (paced, Paced-Reaches (fire engine) (λ d. d.state) es d paced)

-- ===== src/Storage/Client/Follows.antt =====
-- storagemarket/impl/clientstates: the client's deal machine refines the life of a deal.
use go_fil_markets.Prelude.{ℕ, refl, inl, List, arith}
use go_fil_markets.Fsm.{Engine, declared, run, run-Paced, Paced, Stays}
use go_fil_markets.Storage.Status.{StorageDealStatus, same}
use go_fil_markets.Storage.Phases.{
  phase, Reaches, Onward, Checked, Checked-Leads, Moves, Paced-Reaches,
}
use go_fil_markets.Storage.Client.Deal.{ClientEvent, ClientDeal, Texts, client_machine}
use go_fil_markets.Storage.Client.Table.{edges}
use go_fil_markets.Storage.Client.Actions.{action, fire}

edges-Checked : (e : ClientEvent) (s : StorageDealStatus) → Checked s (declared same (edges e) s)
unfolding edges same phase
edges-Checked ClientEvent.open_deal s = ground arith
edges-Checked _ s = ground arith

action-Stays :
    (texts : Texts) (e : ℕ × ClientEvent) (d : ClientDeal)
    → Stays Onward client_machine d (action texts e.0 e.1 d)
unfolding action
action-Stays texts (now, ClientEvent.open_deal) d = refl
action-Stays texts (now, _) d = ground arith

-- In every run of a storage client's deal, whatever events come, each event leaves the deal in its phase
-- or takes it one step of the life of a deal: it moves on to the next phase or fails. So the phase
-- that the run ends in is reached from the first by such steps.
pub client_run-Reaches :
    (engine : Engine client_machine) (texts : Texts) (es : List (ℕ × ClientEvent)) (d : ClientDeal)
    → Paced (fire engine texts) (λ c d. Moves (phase c.state) (phase d.state)) es d
      × Reaches (phase d.state) (phase (run (fire engine texts) d es).state)
unfolding fire
client_run-Reaches engine texts es d =
    let paced =
      run-Paced Onward client_machine (λ s. inl refl) (λ d s. refl) engine
        (λ (e : ℕ × ClientEvent). edges e.1) (λ (e : ℕ × ClientEvent). action texts e.0 e.1)
        (λ e s. Checked-Leads s (declared same (edges e.1) s) (edges-Checked e.1 s))
        (action-Stays texts) es d in
    (paced, Paced-Reaches (fire engine texts) (λ d. d.state) es d paced)

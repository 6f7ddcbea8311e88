-- ===== src/Retrieval/Client/Table.antt =====
-- retrievalmarket/impl/clientstates/client_fsm.go: `ClientEvents` as a whole, and the finality
-- states. An event stands in one part of the table, so the other parts give it no edge and leave
-- the deal alone.

use go_fil_markets.Prelude.{Bool, Option, none, some, List, [], ◌∷◌}
use mathlib.Core.List.{◌++◌ as append}
use go_fil_markets.Fsm.{Edge, Fired, Engine, elem}
use go_fil_markets.Retrieval.Status.{DealStatus, same}
use go_fil_markets.Retrieval.Client.Deal.{ClientDealState, ClientEvent, client_machine}
use go_fil_markets.Retrieval.Client.Setup.{setup_edges, setup_action}
use go_fil_markets.Retrieval.Client.Transfer.{transfer_edges, transfer_action}
use go_fil_markets.Retrieval.Client.Closing.{closing_edges, closing_action}

unfoldable pub edges : ClientEvent → List (Edge DealStatus)
unfolding setup_edges transfer_edges closing_edges
edges e = append (setup_edges e) (append (transfer_edges e) (closing_edges e))

-- The action of the part that the event stands in; the actions of the other parts do nothing.
unfoldable pub action : ClientEvent → ClientDealState → Option ClientDealState
unfolding setup_action transfer_action closing_action
action e d = elim (setup_action e d) [
  | none ↦ none
  | some d' ↦ elim (transfer_action e d') [ none ↦ none | some d'' ↦ closing_action e d'' ]
]

-- An event given to the client's machine.
unfoldable pub fire : Engine client_machine → ClientEvent → ClientDealState → Fired ClientDealState
fire engine e d = engine.process (edges e) (action e) d

-- `ClientFinalityStates`, `IsFinalityState`
abbrev pub client_finality_states : List DealStatus
client_finality_states =
    DealStatus.errored ∷ DealStatus.completed ∷ DealStatus.cancelled ∷ DealStatus.rejected
    ∷ DealStatus.deal_not_found ∷ []

unfoldable pub is_finality_state : DealStatus → Bool
is_finality_state s = elem same s client_finality_states

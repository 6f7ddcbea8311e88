-- ===== src/Storage/Provider/Streams.antt =====
-- storagemarket/impl/provider_environments.go and storagemarket/impl/connmanager/connmanager.go: the
-- stream of a proposal after a response.
use go_fil_markets.Prelude.{ℕ, ◌≡◌, refl, none, String, Result, ok, err}
use go_fil_markets.Storage.Connections.{Connections, deal_stream, disconnect_forgets}
use go_fil_markets.Storage.Provider.Env.{Response}
use go_fil_markets.Storage.Provider.Environment.{send_signed_response}

-- A response that cannot be written ends the connection: the proposal has no stream then, so a later
-- response is an error too, and a client that proposes again can be given a new stream.
pub failed_response_disconnects :
    (close : ℕ → Result (Unit {0})) (sign : Response → Result ℕ)
    (write : ℕ → Response → ℕ → Result (Unit {0})) (conns : Connections) (r : Response)
    (stream sig : ℕ) (e : String)
    → deal_stream conns r.proposal ≡ ok stream
    → sign r ≡ ok sig
    → write stream r sig ≡ err e
    → ((send_signed_response close sign write conns r).1 ≡ err e)
      × ((send_signed_response close sign write conns r).0 r.proposal ≡ none)
unfolding send_signed_response
failed_response_disconnects close sign write conns r stream sig e d s w =
    rw (d, send_signed_response) (rw s (rw w (refl, disconnect_forgets close conns r.proposal)))

-- ===== src/Storage/Connections.antt =====
-- storagemarket/impl/connmanager/connmanager.go: the streams of the proposals that a provider has
-- received.
use go_fil_markets.Prelude.{
  ℕ, ◌==◌, ◌≡◌, refl, Option, none, some, String, Result, ok, err, if◌then◌else◌, arith,
}
use go_fil_markets.Text.{enclose}
use go_fil_markets.Retrieval.Params.{Cid}
use go_fil_markets.Piecestore.Table.{Cells, put, put-Put, present}

-- A stream is a number.
abbrev pub Connections : Type 0
Connections = Cells ℕ

abbrev pub without : Connections → Cid → Connections
without conns c c' = if c' == c then none else conns c'

abbrev stream_or_error : Option ℕ → Result ℕ
stream_or_error none = err "no connection to provider"
stream_or_error (some s) = ok s

-- `DealStream`
unfoldable pub deal_stream : Connections → Cid → Result ℕ
deal_stream conns c = stream_or_error (conns c)

-- `AddStream`
unfoldable pub add_stream : (Cid → String) → Connections → Cid → ℕ → Result Connections
add_stream cid_text conns c s =
    if present (conns c)
    then err (enclose "already have connected for proposal " (cid_text c) "")
    else ok (put conns c s)

abbrev closed :
    (ℕ → Result (Unit {0})) → Connections → Cid → Option ℕ → Connections × Result (Unit {0})
closed close conns c none = (conns, ok tt)
closed close conns c (some s) = (without conns c, close s)

-- `Disconnect`: the stream is forgotten even if it does not close.
unfoldable pub disconnect :
    (ℕ → Result (Unit {0})) → Connections → Cid → Connections × Result (Unit {0})
disconnect close conns c = closed close conns c (conns c)

without_same : (conns : Connections) (c : Cid) → without conns c c ≡ none
without_same conns c = ground arith

closed-forgets :
    (close : ℕ → Result (Unit {0})) (conns : Connections) (c : Cid) (o : Option ℕ)
    → conns c ≡ o
    → (closed close conns c o).0 c ≡ none
closed-forgets close conns c none h = h
closed-forgets close conns c (some s) h = without_same conns c

-- A proposal that was disconnected has no stream.
pub disconnect_forgets :
    (close : ℕ → Result (Unit {0})) (conns : Connections) (c : Cid)
    → (disconnect close conns c).0 c ≡ none
unfolding disconnect
disconnect_forgets close conns c = closed-forgets close conns c (conns c) refl

-- After a disconnection a new stream can be added for the proposal, whatever the close of the old one
-- answered, and is the one that is found.
pub reconnects :
    (close : ℕ → Result (Unit {0})) (cid_text : Cid → String) (conns : Connections) (c : Cid)
    (s : ℕ)
    → (conns' : Connections) × (add_stream cid_text (disconnect close conns c).0 c s ≡ ok conns')
      × (deal_stream conns' c ≡ ok s)
unfolding add_stream disconnect deal_stream
reconnects close cid_text conns c s =
    let after = (disconnect close conns c).0 in
    (put after c s, rw (disconnect_forgets close conns c) refl, rw (put-Put after c s).0 refl)

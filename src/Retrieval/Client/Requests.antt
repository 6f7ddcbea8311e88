-- ===== src/Retrieval/Client/Requests.antt =====
-- retrievalmarket/impl/client.go: `Retrieve`, `TryRestartInsufficientFunds` and `CancelDeal`;
-- shared/timecounter.go: `Next`, which names a deal.
use go_fil_markets.Prelude.{
  ℕ, ◌+◌, ◌^◌, ◌<◌, ◌==◌, Bool, true, false, ◌≢◌, Option, none, some, List, [], ◌∷◌, Result, ok,
  err, if◌then◌else◌, ◌>>=◌, arith,
}
use go_fil_markets.Prelude.Int.{ℤ}
use go_fil_markets.Prelude.Words.{add64}
use go_fil_markets.Retrieval.Params.{Cid, Params}
use go_fil_markets.Retrieval.Status.{DealStatus, same}
use go_fil_markets.Retrieval.Query.{QueryResponse}
use go_fil_markets.Discovery.Local.{RetrievalPeer}
use go_fil_markets.Retrieval.Client.Deal.{
  Address, PeerId, PaymentInfo, ClientDealState, ClientEvent, new_deal,
}

-- The node, and the deals' state machines.
pub record RetrieveEnv : Type 0 where
  pub get_chain_head : Result (ℕ × ℤ)
  pub get_known_addresses : PeerId → ℕ → Result (Unit {0})
  pub begin : ClientDealState → Result (Unit {0})
  pub send : ℕ → ClientEvent → Result (Unit {0})

pub data RetrieveAct : Type 0 where
  begins : ClientDealState → RetrieveAct
  sends : ℕ → ClientEvent → RetrieveAct

-- `TimeCounter.Next`, on the counter that it leaves, which is also what it returns.
abbrev pub next_id : ℕ → ℕ
next_id counter = add64 counter 1

-- The id of a deal, and the counter then.
abbrev pub assigned : ℕ → ℕ → ℕ × ℕ
assigned counter id = if id == 0 then (next_id counter, next_id counter) else (id, counter)

-- The deal is begun and opened.
abbrev started : RetrieveEnv → ClientDealState → List RetrieveAct × Result ℕ
started env d = elim (env.begin d) [
  | err e ↦ (begins d ∷ [], err e)
  | ok _ ↦ (
    begins d ∷ sends d.proposal.id ClientEvent.open_deal ∷ [],
    env.send d.proposal.id ClientEvent.open_deal >>= (λ _. ok d.proposal.id),
  )
]

-- `Retrieve`, on the counter: what it asks, its answer, and the counter then.
unfoldable pub retrieve :
    RetrieveEnv
    → ℕ
    → ℕ
    → Cid
    → Params
    → ℤ
    → PeerId
    → Address
    → Address
    → (List RetrieveAct × Result ℕ) × ℕ
retrieve env counter id payload params total_funds p client_wallet miner_wallet =
    elim (env.get_chain_head >>= (λ head. env.get_known_addresses p head.0)) [
      | err e ↦ (([], err e), counter)
      | ok _ ↦
          let named = assigned counter id in
          (
            started env (new_deal named.0 payload params total_funds p client_wallet miner_wallet),
            named.1,
          )
    ]

abbrev pays_by : Address → Option PaymentInfo → Option Bool
pays_by channel none = none
pays_by channel (some info) = some (info.pay_ch == channel)

-- Whether a deal waits for funds on the channel, `none` where a nil pointer is followed.
abbrev pub waits_for : Address → ClientDealState → Option Bool
waits_for channel d =
    if same d.status DealStatus.insufficient_funds
    then pays_by channel d.payment_info
    else some false

-- `TryRestartInsufficientFunds`: which deals are sent the event, and the answer.
unfoldable pub try_restart_insufficient_funds :
    RetrieveEnv → Address → List ClientDealState → Option (List ℕ × Result (Unit {0}))
try_restart_insufficient_funds env channel [] = some ([], ok tt)
try_restart_insufficient_funds env channel (d ∷ ds) =
    let rest = try_restart_insufficient_funds env channel ds in
    elim (waits_for channel d) [
      | none ↦ none
      | some false ↦ rest
      | some true ↦ elim (env.send d.proposal.id ClientEvent.recheck_funds) [
        | err e ↦ some (d.proposal.id ∷ [], err e)
        | ok _ ↦ elim rest [ none ↦ none | some (ids, answer) ↦ some (d.proposal.id ∷ ids, answer) ]
      ]
    ]

-- `FindProviders`: an error finds none.
abbrev pub find_providers : Result (List RetrievalPeer) → List RetrievalPeer
find_providers (err e) = []
find_providers (ok peers) = peers

-- The network: a stream is opened, the query written and the response read.
pub record QueryNetwork : Type 0 where
  pub new_query_stream : PeerId → Result (Unit {0})
  pub write_query : Cid → Option Cid → Result (Unit {0})
  pub read_query_response : Result QueryResponse

-- `Query`
unfoldable pub query : RetrieveEnv → QueryNetwork → PeerId → Cid → Option Cid → Result QueryResponse
query env net p payload piece = do
  head ← env.get_chain_head
  _ ← env.get_known_addresses p head.0
  _ ← net.new_query_stream p
  _ ← net.write_query payload piece
  net.read_query_response

-- `CancelDeal`
abbrev pub cancel_deal : RetrieveEnv → ℕ → Result (Unit {0})
cancel_deal env id = env.send id ClientEvent.cancel

-- Deals that are named one after another get different ids, none of them 0, while the counter does not
-- wrap.
pub assigned_differ :
    (counter : ℕ)
    → counter + 2 < 2 ^ 64
    → let (id, counter') = assigned counter 0 in
      let (id', _) = assigned counter' 0 in (id ≢ 0) × (id' ≢ 0) × (id ≢ id')
assigned_differ counter h = ground arith

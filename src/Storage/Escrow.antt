-- ===== src/Storage/Escrow.antt =====
-- storagemarket/impl/client.go: `GetPaymentEscrow`, `AddPaymentEscrow` and `restartDeals`;
-- storagemarket/impl/provider.go: `AddStorageCollateral` and `GetStorageCollateral`, which add and read the
-- provider's funds in the same way. The node and the trackers of deals are parameters.
use go_fil_markets.Prelude.{
  ℕ, arith, ◌≡◌, refl, Option, none, some, List, [], ◌∷◌, Result, ok, err, ◌>>=◌, if◌then◌else◌,
}
use go_fil_markets.Prelude.Int.{ℤ}
use go_fil_markets.Text.{wrap}
use go_fil_markets.Retrieval.Params.{Cid}
use go_fil_markets.Retrieval.Client.Deal.{Address}
use go_fil_markets.Storage.Client.Deal.{ClientDeal}
use go_fil_markets.Storage.Client.Table.{is_final}
use go_fil_markets.Storage.Client.Env.{MessageAnswer, landed, exit_code, message_error}

-- `Balance`
pub record Balance : Type 0 where
  pub locked : ℤ
  pub available : ℤ

pub record EscrowEnv : Type 0 where
  pub get_chain_head : Result (ℕ × ℤ)
  pub get_balance : Address → ℕ → Result Balance
  pub add_funds : Address → ℤ → Result Cid
  -- `WaitForMessage`, with what its callback is called with, if it is.
  pub wait_for_message : Cid → Result (Option MessageAnswer)

-- `GetPaymentEscrow`, and of the provider's actor `GetStorageCollateral`
unfoldable pub get_escrow : EscrowEnv → Address → Result Balance
get_escrow env a = env.get_chain_head >>= (λ head. env.get_balance a head.0)

abbrev pub funds_answer : MessageAnswer → Result (Unit {0})
funds_answer landed = ok tt
funds_answer (exit_code code) = err (wrap "AddFunds error, exit code" code)
funds_answer (message_error e) = err (wrap "AddFunds errored" e)

-- The channel is read, which waits for ever if nothing comes.
abbrev waited : Result (Option MessageAnswer) → Option (Result (Unit {0}))
waited (err e) = some (err e)
waited (ok none) = none
waited (ok (some answer)) = some (funds_answer answer)

-- `AddPaymentEscrow`, and of the provider's actor `AddStorageCollateral`: `none` where they wait for
-- ever.
unfoldable pub add_escrow : EscrowEnv → Address → ℤ → Option (Result (Unit {0}))
add_escrow env a amount = elim (env.add_funds a amount) [
  | err e ↦ some (err e)
  | ok mcid ↦ waited (env.wait_for_message mcid)
]

-- The client's `restartDeals`: the deals that are sent the event, and the answer; the addresses of
-- their providers are looked up first.
unfoldable pub restart_client_deals :
    (Address → Result (Unit {0}))
    → (Cid → Result (Unit {0}))
    → List ClientDeal
    → List Cid × Result (Unit {0})
unfolding is_final
restart_client_deals add_multiaddrs send [] = ([], ok tt)
restart_client_deals add_multiaddrs send (d ∷ ds) =
    let (sent, answer) = restart_client_deals add_multiaddrs send ds in
    if is_final d.state then (sent, answer) else elim (add_multiaddrs d.proposal.provider) [
      | err e ↦ ([], err e)
      | ok _ ↦ elim (send d.proposal_cid) [
        | err e ↦ (d.proposal_cid ∷ [], err e)
        | ok _ ↦ (d.proposal_cid ∷ sent, answer)
      ]
    ]

-- The deals that are not final, in their order.
abbrev pub active_deals : List ClientDeal → List Cid
active_deals [] = []
active_deals (d ∷ ds) =
    let rest = active_deals ds in if is_final d.state then rest else d.proposal_cid ∷ rest

-- When no call fails, exactly the deals that are not final are restarted.
pub restart_client_deals-active :
    (add_multiaddrs : Address → Result (Unit {0})) (send : Cid → Result (Unit {0}))
    → ((a : Address) → add_multiaddrs a ≡ ok tt)
    → ((c : Cid) → send c ≡ ok tt)
    → (ds : List ClientDeal)
    → restart_client_deals add_multiaddrs send ds ≡ (active_deals ds, ok tt)
unfolding restart_client_deals
restart_client_deals-active add_multiaddrs send a s [] = refl
restart_client_deals-active add_multiaddrs send a s (d ∷ ds) = ground (
  arith,
  restart_client_deals-active add_multiaddrs send a s ds,
  a d.proposal.provider,
  s d.proposal_cid,
)

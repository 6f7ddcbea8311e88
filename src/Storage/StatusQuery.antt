-- ===== src/Storage/StatusQuery.antt =====
-- storagemarket/impl/provider.go: `HandleDealStatusStream` and `processDealStatusRequest`, by which a
-- client asks for the state of its deal; storagemarket/impl/client.go: `GetProviderDealState`, which
-- asks. What the network, the node and the encodings answer is a parameter.
use go_fil_markets.Prelude.{ℕ, Bool, true, false, none, some, Result, ok, err, ◌>>=◌}
use go_fil_markets.Prelude.Int.{ℤ}
use go_fil_markets.Text.{told}
use go_fil_markets.Retrieval.Params.{Cid}
use go_fil_markets.Retrieval.Client.Deal.{Address, PeerId}
use go_fil_markets.Storage.Status.{StorageDealStatus}
use go_fil_markets.Storage.Validation.{Decision, verify_signature}
use go_fil_markets.Storage.Ask.{sign_miner_data}
use go_fil_markets.Storage.Client.Deal.{ClientDeal}
use go_fil_markets.Storage.Client.Env.{ProviderDealState}
use go_fil_markets.Storage.Provider.Deal.{MinerDeal}

-- What the provider's handler asks: its deals, the encodings and the node, which names the chain head
-- once for the request and once more for the signing of the answer.
pub record AnswerEnv : Type 0 where
  pub deals : Cid → Result MinerDeal
  pub dump : Cid → Result ℕ
  pub get_chain_head : Result (ℕ × ℤ)
  pub verify : ℕ → Address → ℕ → ℕ → Result Bool
  pub actor : Address
  pub get_chain_head_to_sign : Result (ℕ × ℤ)
  pub dump_state : ProviderDealState → Result ℕ
  pub get_miner_worker_address : Address → ℕ → Result Address
  pub sign_bytes : Address → ℕ → Result ℕ

abbrev pub reported : MinerDeal → ProviderDealState
reported d = record {
  state = d.state;
  message = d.message;
  proposal_cid = some d.proposal_cid;
  publish_cid = d.publish_cid;
}

abbrev checked : MinerDeal → Decision → Result ProviderDealState
checked d (err e) = err "internal error"
checked d (ok _) = ok (reported d)

-- `processDealStatusRequest`, on the proposal and the signature of the request.
unfoldable pub process_deal_status_request : AnswerEnv → Cid → ℕ → Result ProviderDealState
process_deal_status_request env proposal signature = elim (env.deals proposal) [
  | err e ↦ err "no such proposal"
  | ok d ↦ elim (env.dump proposal) [
    | err e ↦ err "internal error"
    | ok bytes ↦ elim env.get_chain_head [
      | err e ↦ err "internal error"
      | ok (tok, epoch) ↦
          checked d (verify_signature (env.verify signature d.proposal.client bytes tok))
    ]
  ]
]

-- An error is answered by the state of a failed deal, with its text.
abbrev pub answer_state : Result ProviderDealState → ProviderDealState
answer_state (ok s) = s
answer_state (err e) = record {
  state = StorageDealStatus.error;
  message = e;
  proposal_cid = none;
  publish_cid = none;
}

-- `sign`, on the state that is answered
unfoldable pub sign : AnswerEnv → ProviderDealState → Result ℕ
sign env s = told "couldn't get chain head" env.get_chain_head_to_sign >>= (λ head.
    sign_miner_data (env.dump_state s) env.actor head.0 env.get_miner_worker_address env.sign_bytes)

-- `HandleDealStatusStream`: the state that is answered and its signature; an error sends nothing.
unfoldable pub handle_deal_status : AnswerEnv → Cid → ℕ → Result (ProviderDealState × ℕ)
unfolding process_deal_status_request sign
handle_deal_status env proposal signature =
    let s = answer_state (process_deal_status_request env proposal signature) in
    sign env s >>= (λ mine. ok (s, mine))

-- What the client asks, and how a request is answered over the network.
pub record AskEnv : Type 0 where
  pub deals : Cid → Result ClientDeal
  pub open_stream : PeerId → Result (Unit {0})
  pub dump : Cid → Result ℕ
  pub sign_bytes : Address → ℕ → Result ℕ
  pub write_request : Cid → ℕ → Result (Unit {0})
  -- What comes back for the request.
  pub read_response : Cid → ℕ → Result (ProviderDealState × ℕ)
  pub verify_response : Address → ProviderDealState → ℕ → Result Bool

abbrev believed : ProviderDealState → Result Bool → Result ProviderDealState
believed s (err e) = err e
believed s (ok false) = err "invalid deal status response signature"
believed s (ok true) = ok s

-- `GetProviderDealState`
unfoldable pub get_provider_deal_state : AskEnv → Cid → Result ProviderDealState
get_provider_deal_state env proposal = do
  d ← told "could not get client deal state" (env.deals proposal)
  _ ← told "failed to open stream to miner" (env.open_stream d.miner)
  bytes ← told "failed serialize deal status request" (env.dump d.proposal_cid)
  signature ← told "failed to sign deal status request" (env.sign_bytes d.proposal.client bytes)
  _ ← told "failed to send deal status request" (env.write_request proposal signature)
  answer ← told "failed to read deal status response" (env.read_response proposal signature)
  believed answer.0 (env.verify_response d.miner_worker answer.0 answer.1)

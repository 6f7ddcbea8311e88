-- ===== src/Storage/Polling.antt =====
-- storagemarket/impl/clientstates and storagemarket/impl/provider.go together: what a storage client
-- that polls makes of the provider's answers.
use go_fil_markets.Prelude.{
  ℕ, ==_iff, true, false, ◌≡◌, refl, some, [], ◌∷◌, String, ok, err, arith, ◌∙◌, ap,
}
use go_fil_markets.Prelude.Int.{ℤ}
use go_fil_markets.Retrieval.Params.{Cid}
use go_fil_markets.Storage.Status.{StorageDealStatus, same}
use go_fil_markets.Storage.Client.Deal.{ClientDeal, ClientEvent}
use go_fil_markets.Storage.Client.Env.{ClientEnv, ProviderDealState, trigger}
use go_fil_markets.Storage.Client.Handlers.{
  check_for_deal_acceptance, polled, is_accepted, is_failed, too_late,
}
use go_fil_markets.Storage.Provider.Deal.{MinerDeal}
use go_fil_markets.Storage.StatusQuery.{
  AnswerEnv, AskEnv, sign, reported, answer_state, process_deal_status_request, handle_deal_status,
  get_provider_deal_state,
}

-- What fails while the provider looks for the state of a deal, and the text of the answer.
pub data Trouble (answer : AnswerEnv) (k : Cid) (signature : ℕ) : String → Type 0 where
  not_found : {e : String} → answer.deals k ≡ err e → Trouble answer k signature "no such proposal"
  not_encoded :
      {d : MinerDeal} {e : String}
      → answer.deals k ≡ ok d
      → answer.dump k ≡ err e
      → Trouble answer k signature "internal error"
  no_head :
      {d : MinerDeal} {bytes : ℕ} {e : String}
      → answer.deals k ≡ ok d
      → answer.dump k ≡ ok bytes
      → answer.get_chain_head ≡ err e
      → Trouble answer k signature "internal error"
  not_verified :
      {d : MinerDeal} {bytes tok : ℕ} {epoch : ℤ} {e : String}
      → answer.deals k ≡ ok d
      → answer.dump k ≡ ok bytes
      → answer.get_chain_head ≡ ok (tok, epoch)
      → answer.verify signature d.proposal.client bytes tok ≡ err e
      → Trouble answer k signature "internal error"

answered_error :
    (answer : AnswerEnv) (k : Cid) (signature : ℕ) (message : String)
    → Trouble answer k signature message
    → process_deal_status_request answer k signature ≡ err message
unfolding process_deal_status_request
answered_error answer k signature _ (Trouble.not_found h) = rw (h, process_deal_status_request) refl
answered_error answer k signature _ (Trouble.not_encoded h b) =
    rw (h, process_deal_status_request) (rw b refl)
answered_error answer k signature _ (Trouble.no_head h b n) =
    rw (h, process_deal_status_request) (rw b (rw n refl))
answered_error answer k signature _ (Trouble.not_verified h b n v) =
    rw (h, process_deal_status_request) (rw b (rw n (rw v refl)))

-- The client asks the provider of the deal, and both can sign and are believed.
pub record Connected (ask : AskEnv) (answer : AnswerEnv) (c : ClientDeal) : Type 0 where
  pub bytes : ℕ
  pub signature : ℕ
  pub known : ask.deals c.proposal_cid ≡ ok c
  pub opens : ask.open_stream c.miner ≡ ok tt
  pub dumps : ask.dump c.proposal_cid ≡ ok bytes
  pub signs : ask.sign_bytes c.proposal.client bytes ≡ ok signature
  pub writes : ask.write_request c.proposal_cid signature ≡ ok tt
  pub reads :
      ask.read_response c.proposal_cid signature
      ≡ handle_deal_status answer c.proposal_cid signature
  pub mine : ProviderDealState → ℕ
  pub answers : (s : ProviderDealState) → sign answer s ≡ ok (mine s)
  pub believes : (s : ProviderDealState) → ask.verify_response c.miner_worker s (mine s) ≡ ok true

accepted-fails : (s : StorageDealStatus) → is_accepted s ≡ true → is_failed s ≡ false
unfolding is_accepted is_failed
accepted-fails s h = ground arith

polled-accepted :
    (env : ClientEnv) (c : ClientDeal) (d : MinerDeal)
    → d.proposal_cid ≡ c.proposal_cid
    → is_accepted d.state ≡ true
    → polled env c (ok (reported d)) ≡ some (trigger (ClientEvent.deal_accepted d.publish_cid) ∷ [])
unfolding polled
polled-accepted env c d q a =
    rw (accepted-fails d.state a) (rw a (rw ((==_iff d.proposal_cid c.proposal_cid).1 q) refl))

module _ (ask : AskEnv) (answer : AnswerEnv) (c : ClientDeal) (link : Connected ask answer c) where
  -- What the client hears is what the provider found, or the state of a failed deal.
  heard :
      get_provider_deal_state ask c.proposal_cid
      ≡ ok (answer_state (process_deal_status_request answer c.proposal_cid link.signature))
  unfolding get_provider_deal_state handle_deal_status
  heard =
      let s = answer_state (process_deal_status_request answer c.proposal_cid link.signature) in
      rw link.known (
        rw link.opens (
          rw link.dumps (
            rw link.signs
              (rw link.writes (rw link.reads (rw (link.answers s) (rw (link.believes s) refl)))))))

  -- The client's environment asks the provider, and it is not too late.
  pub record Polls (env : ClientEnv) : Type 0 where
    pub asks :
        env.get_provider_deal_state c.proposal_cid ≡ get_provider_deal_state ask c.proposal_cid
    pub in_time : too_late env.get_chain_head c ≡ false

  check-polled :
      (env : ClientEnv)
      → Polls env
      → check_for_deal_acceptance env c
        ≡ polled env c
            (ok (answer_state (process_deal_status_request answer c.proposal_cid link.signature)))
  unfolding check_for_deal_acceptance
  check-polled env p = rw p.in_time (ap (polled env c) (p.asks ∙ heard))

  -- A provider whose datastore, encoding or node fails when the client asks for the state of the deal,
  -- but that can sign its answer, for which the node must name the chain head again, makes the client
  -- give the deal up: whichever of them fails, the error is answered as the state of a failed deal,
  -- with a text that names no cause.
  pub own_error_fails_deal :
      (env : ClientEnv) (message : String)
      → Polls env
      → Trouble answer c.proposal_cid link.signature message
      → check_for_deal_acceptance env c
        ≡ some (trigger (ClientEvent.deal_rejected StorageDealStatus.error message) ∷ [])
  unfolding polled is_failed same
  own_error_fails_deal env message p trouble =
      check-polled env p
      ∙ ap (λ r. polled env c (ok (answer_state r)))
          (answered_error answer c.proposal_cid link.signature message trouble)
      ∙ refl

  -- A client that polls in time a provider that knows the deal and verifies the client's signature
  -- goes on, with the message that published the deal, when the provider's record is of its proposal
  -- and in one of the states past publication.
  pub poll_accepts :
      (env : ClientEnv) (d : MinerDeal) (bytes tok : ℕ) (epoch : ℤ)
      → Polls env
      → answer.deals c.proposal_cid ≡ ok d
      → answer.dump c.proposal_cid ≡ ok bytes
      → answer.get_chain_head ≡ ok (tok, epoch)
      → answer.verify link.signature d.proposal.client bytes tok ≡ ok true
      → d.proposal_cid ≡ c.proposal_cid
      → is_accepted d.state ≡ true
      → check_for_deal_acceptance env c
        ≡ some (trigger (ClientEvent.deal_accepted d.publish_cid) ∷ [])
  unfolding process_deal_status_request
  poll_accepts env d bytes tok epoch p k b h v q a =
      check-polled env p
      ∙ rw (k, process_deal_status_request) (rw b (rw h (rw v (polled-accepted env c d q a))))

-- ===== src/Retrieval/Provider/Accounts.antt =====
-- retrievalmarket/impl/providerstates: what holds of the funds of a retrieval provider's deal under
-- any events at all.
use go_fil_markets.Prelude.{◌≡◌, refl, false, List, [], ◌∷◌, arith, ◌∙◌, sym, ap, subst}
use go_fil_markets.Prelude.Int.{ℤ, pos, ◌+ℤ◌, int_laws, +ℤ_assoc}
use go_fil_markets.Fsm.{Engine, Fired, refused, faulted, moved, settle, run, resolve, declared}
use go_fil_markets.Retrieval.Status.{DealStatus, same}
use go_fil_markets.Retrieval.Provider.Deal.{ProviderEvent, ProviderDealState, provider_machine}
use go_fil_markets.Retrieval.Provider.Table.{edges, action, fire}

-- What an event says was received.
abbrev pub paid : ProviderEvent → ℤ
paid (ProviderEvent.partial_payment_received amount) = amount
paid (ProviderEvent.payment_received amount) = amount
paid _ = pos 0

abbrev pub counted : ℤ → Fired ProviderDealState → ℤ
counted amount refused = pos 0
counted amount faulted = pos 0
counted amount (moved d enters) = amount

unpaid : (a : ℤ) → a ≡ a +ℤ pos 0
unpaid a = omega int_laws

-- A deal that is past its opening stays so, keeps its proposal and receiver, and adds up what it is
-- paid.
abbrev Kept : ProviderEvent → ProviderDealState → Fired ProviderDealState → Type 0
Kept e d refused = Unit
Kept e d faulted = Unit
Kept e d (moved d' enters) =
    (d'.funds_received ≡ d.funds_received +ℤ paid e)
    × (d'.proposal ≡ d.proposal)
    × (d'.receiver ≡ d.receiver)
    × (same d'.status DealStatus.new ≡ false)

transition-Kept :
    (e : ProviderEvent) (s : DealStatus) (d : ProviderDealState)
    → d.status ≡ s
    → same s DealStatus.new ≡ false
    → Kept e d (resolve provider_machine (declared same (edges e) s) (action e d))
unfolding edges action same
transition-Kept e s d q h = ground (arith, q, h, unpaid d.funds_received)

module _ (engine : Engine provider_machine) where
  -- What the events that were not refused paid, in a run from a deal.
  unfoldable pub paid_in : ProviderDealState → List ProviderEvent → ℤ
  paid_in d [] = pos 0
  paid_in d (e ∷ es) =
      counted (paid e) (fire engine e d) +ℤ paid_in (settle (fire engine) d (fire engine e d)) es

  fire-Kept :
      (e : ProviderEvent) (d : ProviderDealState)
      → same d.status DealStatus.new ≡ false
      → Kept e d (fire engine e d)
  unfolding fire
  fire-Kept e d h =
      subst (Kept e d) (sym (engine.process_lem (edges e) (action e) d))
        (transition-Kept e d.status d refl h)

  settle-Kept :
      (e : ProviderEvent) (d : ProviderDealState)
      → same d.status DealStatus.new ≡ false
      → ((settle (fire engine) d (fire engine e d)).funds_received
          ≡ d.funds_received +ℤ counted (paid e) (fire engine e d))
        × ((settle (fire engine) d (fire engine e d)).proposal ≡ d.proposal)
        × ((settle (fire engine) d (fire engine e d)).receiver ≡ d.receiver)
        × (same (settle (fire engine) d (fire engine e d)).status DealStatus.new ≡ false)
  settle-Kept e d h = ground (arith, h, fire-Kept e d h, unpaid d.funds_received)

  -- In every run of a deal that has begun, the funds received grow by exactly what the accepted
  -- payment events brought, the proposal and the receiver stay, and the deal never starts anew.
  pub funds_received-run :
      (es : List ProviderEvent) (d : ProviderDealState)
      → same d.status DealStatus.new ≡ false
      → ((run (fire engine) d es).funds_received ≡ d.funds_received +ℤ paid_in d es)
        × ((run (fire engine) d es).proposal ≡ d.proposal)
        × ((run (fire engine) d es).receiver ≡ d.receiver)
        × (same (run (fire engine) d es).status DealStatus.new ≡ false)
  unfolding run paid_in
  funds_received-run [] d h = (unpaid d.funds_received, refl, refl, h)
  funds_received-run (e ∷ es) d h =
      let d' = settle (fire engine) d (fire engine e d) in
      let (f, p, r, n) = settle-Kept e d h in
      let (f', p', r', n') = funds_received-run es d' n in
      let amount = counted (paid e) (fire engine e d) in
      (
        f'
            ∙ ap (λ (a : ℤ). a +ℤ paid_in d' es) f
            ∙ +ℤ_assoc d.funds_received amount (paid_in d' es),
        p' ∙ p,
        r' ∙ r,
        n',
      )

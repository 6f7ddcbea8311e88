-- ===== src/Retrieval/Provider/Funding.antt =====
-- retrievalmarket/impl/providerstates: what the provider does with a payment, against what the
-- client owes.
use go_fil_markets.Prelude.{
  ℕ, suc, ◌+◌, ◌-◌, ◌*◌, ◌^◌, ◌<◌, Bool, true, false, ◌≡◌, refl, Option, none, some, List, [], ◌∷◌,
  ltb, ◌⊎◌, inl, inr, Bool-cases, if◌then◌else◌, All, arith, ◌∙◌, ap, subst, sym, ok, dec_lt,
}
use go_fil_markets.Prelude.Int.{ℤ, pos, ◌+ℤ◌, ltb_ℤ}
use go_fil_markets.Fsm.{Engine, moved}
use go_fil_markets.Retrieval.Status.{DealStatus, same}
use go_fil_markets.Retrieval.Params.{Params, outstanding_balance, next_interval}
use go_fil_markets.Retrieval.Params.Schedule.{minimum_bytes_to_pay}
use go_fil_markets.Retrieval.Params.Thresholds.{threshold, Advances, Fits, intervals-LastBelow}
use go_fil_markets.Retrieval.Params.Balance.{
  payment_settles, next_interval-paid, outstanding_balance-pos, outstanding_balance-unseal,
}
use go_fil_markets.Retrieval.Voucher.{DealResponse, ChannelState, ValidationResult}
use go_fil_markets.Retrieval.Client.Deal.{Address}
use go_fil_markets.Retrieval.Client.Env.{DealPayment}
use go_fil_markets.Retrieval.Client.Payments.{Prices}
use go_fil_markets.Retrieval.Provider.Deal.{ProviderEvent, ProviderDealState, provider_machine}
use go_fil_markets.Retrieval.Provider.Env.{ProviderEnv, Act, saves_voucher, triggers}
use go_fil_markets.Retrieval.Provider.Table.{fire, edges, action}
use go_fil_markets.Retrieval.Provider.Handlers.{
  save_payment, process_last_voucher, funded, funding_acts, funding_outcome, funding_result,
  update_funding, funding_response,
}

-- The channel's last voucher is a payment that the node saves, and `received` is what it adds.
pub record Saved (env : ProviderEnv) (channel : ChannelState) (received : ℤ) : Type 0 where
  pub payment : DealPayment
  pub token : ℕ
  pub carries : channel.last_voucher.as_payment ≡ some payment
  pub head : env.get_chain_head ≡ ok token
  pub saves :
      env.save_payment_voucher payment.payment_channel payment.payment_voucher token
      ≡ ok (some received)

processed :
    (env : ProviderEnv) (channel : ChannelState) (received : ℤ) (s : Saved env channel received)
    → process_last_voucher env channel.last_voucher
      ≡ (saves_voucher s.payment.payment_channel s.payment.payment_voucher ∷ [], ok (some received))
unfolding process_last_voucher save_payment
processed env channel received s = ground (arith, s.carries, s.head, s.saves)

update_funding-outcome :
    (env : ProviderEnv) (d : ProviderDealState) (channel : ChannelState) (received : ℤ)
    (s : Saved env channel received) (owed : Option ℤ)
    → outstanding_balance d.params
        (d.funds_received +ℤ received)
        channel.queued
        channel.in_finalization
      ≡ owed
    → update_funding env d channel
      ≡ funding_outcome d
          (saves_voucher s.payment.payment_channel s.payment.payment_voucher ∷ [])
          received
          owed
          (next_interval d.params (d.funds_received +ℤ received))
unfolding update_funding funded
update_funding-outcome env d channel received s owed o =
    rw (processed env channel received s) (rw o refl)

-- What `updateFunding` does when the balance and the next interval are known.
update_funding-known :
    (env : ProviderEnv) (d : ProviderDealState) (channel : ChannelState) (received owed : ℤ)
    (limit : ℕ) (s : Saved env channel received)
    → outstanding_balance d.params
        (d.funds_received +ℤ received)
        channel.queued
        channel.in_finalization
      ≡ some owed
    → next_interval d.params (d.funds_received +ℤ received) ≡ some limit
    → update_funding env d channel
      ≡ some (
        saves_voucher s.payment.payment_channel s.payment.payment_voucher
            ∷ funding_acts received owed,
        funding_result d received owed limit,
      )
update_funding-known env d channel received owed limit s o n =
    update_funding-outcome env d channel received s (some owed) o ∙ rw n refl

-- The event that lets a deal go on.
abbrev pub pays_in_full : ProviderEvent → Bool
pays_in_full (ProviderEvent.payment_received amount) = true
pays_in_full _ = false

-- What a client that has paid too little must pay next: what is missing of the price of unsealing,
-- or, once that is paid, what is missing of the price of all bytes queued.
abbrev pub shortfall : (price unseal queued paid : ℕ) → ℕ
shortfall price unseal queued paid =
    if ltb paid unseal then unseal - paid else (queued * price + unseal) - paid

-- What is missing of a short payment is asked for.
pub short-owed :
    (p : Params) (price unseal paid queued : ℕ)
    → Prices p price unseal
    → queued < 2 ^ 63
    → paid < queued * price + unseal
    → (k : ℕ) × (shortfall price unseal queued paid ≡ suc k)
      × (outstanding_balance p (pos paid) queued true ≡ some (pos (suc k)))
unfolding minimum_bytes_to_pay
short-owed p price unseal paid queued prices small short = elim (dec_lt paid unseal) [
  | yes q ↦ (
    (unseal - paid) - 1,
    ground (arith, q),
    outstanding_balance-unseal p price unseal prices.0 prices.1 paid queued true q
        ∙ ap (λ (n : ℕ). some (pos n)) (omega arith),
  )
  | no q ↦ (
    (queued * price - (paid - unseal)) - 1,
    ground (arith, q),
    ap (λ (n : ℕ). outstanding_balance p (pos n) queued true) (omega arith)
        ∙ outstanding_balance-pos p price unseal prices.0 prices.1 (paid - unseal) queued queued
            true refl small
        ∙ ap (λ (n : ℕ). some (pos n)) (omega arith),
  )
]

-- The client is asked for what is owed, unless nothing was received and the deal waits for the price
-- of unsealing.
abbrev pub Asked : ProviderDealState → ℤ → ℕ → Option DealResponse → Type 0
Asked d received owed answer =
    (answer ≡ some (record { status = d.status; id = d.id; payment_owed = pos owed; message = "" }))
    ⊎ ((answer ≡ none)
        × (ltb_ℤ (pos 0) received ≡ false)
        × (d.status ≡ DealStatus.funds_needed_unseal))

waits_for_unseal :
    (s : DealStatus)
    → same s DealStatus.funds_needed_unseal ≡ true
    → s ≡ DealStatus.funds_needed_unseal
unfolding same
waits_for_unseal DealStatus.funds_needed_unseal h = refl
waits_for_unseal _ h = absurd (ground (arith, h))

funding_response-Asked :
    (d : ProviderDealState) (received : ℤ) (k : ℕ)
    → Asked d received (suc k) (funding_response d received (pos (suc k)))
unfolding funding_response
funding_response-Asked d received k = elim (Bool-cases (ltb_ℤ (pos 0) received)) [
  | inl q ↦ inl (ground (arith, q))
  | inr q ↦ elim (Bool-cases (same d.status DealStatus.funds_needed_unseal)) [
    | inl w ↦ inr (ground (arith, q, w), q, waits_for_unseal d.status w)
    | inr w ↦ inl (ground (arith, w))
  ]
]

-- The deal does not go on: finalization is still required, no full payment is triggered, and the
-- client is asked for what is owed.
abbrev Holds : ProviderDealState → ℤ → ℕ → Option (List Act × ValidationResult) → Type 0
Holds d received owed none = Unit {0}
Holds d received owed (some (acts, result)) =
    (result.requires_finalization ≡ true)
    × All (λ e. pays_in_full e ≡ false) (triggers acts)
    × Asked d received owed result.voucher_result

outcome-unpaid :
    (channel : Address) (voucher : ℕ) (received : ℤ) (k : ℕ)
    → All
        (λ e. pays_in_full e ≡ false)
        (triggers (saves_voucher channel voucher ∷ funding_acts received (pos (suc k))))
unfolding funding_acts
outcome-unpaid channel voucher received k = ground arith

outcome-owed :
    (d : ProviderDealState) (channel : Address) (voucher : ℕ) (received : ℤ) (k : ℕ)
    (limit : Option ℕ)
    → Holds d received
        (suc k)
        (funding_outcome d (saves_voucher channel voucher ∷ []) received (some (pos (suc k))) limit)
outcome-owed d channel voucher received k none = tt
outcome-owed d channel voucher received k (some limit) =
    (ground arith, outcome-unpaid channel voucher received k, funding_response-Asked d received k)

module _ (engine : Engine provider_machine) (env : ProviderEnv) (d : ProviderDealState)
    (channel : ChannelState) (price unseal : ℕ) where
  -- In the last payment, a client that pays for all bytes queued and for the unsealing is done: the
  -- provider records the payment and asks for nothing more, so the channel need not be finalized
  -- again, and the deal goes on to its finalizing state with the funds added. The price is not 0,
  -- the schedule moves and the counters do not wrap.
  pub last_payment_completes :
      (received : ℤ)
      → Prices d.params price unseal
      → 0 < price
      → Advances d.params
      → Fits d.params channel.queued
      → d.status ≡ DealStatus.funds_needed_last_payment
      → (s : Saved env channel received)
      → d.funds_received +ℤ received ≡ pos (channel.queued * price + unseal)
      → (acts : List Act) × (result : ValidationResult) × (update_funding env d channel
          ≡ some (acts, result))
        × (triggers acts ≡ ProviderEvent.payment_received received ∷ [])
        × (result.accepted ≡ true)
        × (result.requires_finalization ≡ false)
        × (result.voucher_result
            ≡ some (record {
              status = DealStatus.completed;
              id = d.id;
              payment_owed = pos 0;
              message = "";
            }))
        × (fire engine (ProviderEvent.payment_received received) d
            ≡ moved
                (record d {
                  status = DealStatus.finalizing;
                  funds_received = pos (channel.queued * price + unseal);
                })
                true)
  unfolding fire edges action same funding_acts funding_response
  last_payment_completes received prices h a fits s v paid =
      let (j, last, _, found) = intervals-LastBelow d.params channel.queued a fits in
      let limit =
        next_interval-paid d.params price unseal prices.0 prices.1 channel.queued h (omega arith)
        ∙ found in
      let owed =
        payment_settles d.params price unseal prices.0 prices.1 channel.queued
          channel.in_finalization a fits in
      (
        saves_voucher v.payment.payment_channel v.payment.payment_voucher
            ∷ funding_acts received (pos 0),
        funding_result d received (pos 0) (threshold d.params (suc j)),
        update_funding-known env d channel received (pos 0) _ v (rw paid owed) (rw paid limit),
        refl,
        refl,
        rw s refl,
        rw s refl,
        engine.process_lem _ _ d ∙ ground (arith, paid),
      )

  -- A payment that falls short of the bytes queued and the unsealing never completes a deal: while
  -- the channel is finalized, the provider still requires finalization and triggers no full payment.
  -- It asks the client for what is missing of the price of unsealing, or, once that is paid, for what
  -- is missing in all; it asks for nothing only when nothing was received and the deal waits for the
  -- price of unsealing.
  pub short_payment_holds :
      (received : ℤ) (paid : ℕ) (acts : List Act) (result : ValidationResult)
      → Prices d.params price unseal
      → channel.queued < 2 ^ 63
      → channel.in_finalization ≡ true
      → Saved env channel received
      → d.funds_received +ℤ received ≡ pos paid
      → paid < channel.queued * price + unseal
      → update_funding env d channel ≡ some (acts, result)
      → (result.requires_finalization ≡ true)
        × All (λ e. pays_in_full e ≡ false) (triggers acts)
        × Asked d received (shortfall price unseal channel.queued paid) result.voucher_result
  short_payment_holds received paid acts result prices small fin v total short u =
      let (k, what, owed) =
        short-owed d.params price unseal paid channel.queued prices small short in
      let asked =
        ap (λ (t : ℤ). outstanding_balance d.params t channel.queued channel.in_finalization) total
        ∙ ap (outstanding_balance d.params (pos paid) channel.queued) fin
        ∙ owed in
      let outcome = sym (update_funding-outcome env d channel received v _ asked) ∙ u in
      rw what (
        subst (Holds d received (suc k)) outcome (
          outcome-owed d v.payment.payment_channel v.payment.payment_voucher received k
            (next_interval d.params (d.funds_received +ℤ received))))

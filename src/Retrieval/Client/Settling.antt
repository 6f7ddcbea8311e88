-- ===== src/Retrieval/Client/Settling.antt =====
-- retrievalmarket/impl/clientstates: a client that has received what the provider's data limit
-- allows pays, and the provider is then owed nothing.
use native.Mathlib.Nat.{mul-lt-mul_of_pos_right}
use go_fil_markets.Prelude.{
  ℕ, suc, ◌+◌, ◌*◌, ◌^◌, ◌≤◌, ◌<◌, false, ◌≡◌, refl, some, List, [], ◌∷◌, arith, ok,
}
use go_fil_markets.Prelude.Int.{pos, ◌<ℤ◌, +ℤ-pos, *ℤ-pos}
use go_fil_markets.Prelude.Words.{int64_small}
use go_fil_markets.Retrieval.Params.{outstanding_balance, next_interval}
use go_fil_markets.Retrieval.Params.Thresholds.{
  threshold, Advances, Fits, intervals-LastBelow, threshold-suc_le,
}
use go_fil_markets.Retrieval.Params.Balance.{payment_settles, next_interval-paid}
use go_fil_markets.Retrieval.Client.Deal.{ClientEvent, ClientDealState, PaymentInfo, ChannelId}
use go_fil_markets.Retrieval.Client.Env.{
  ClientEnv, voucher, DealPayment, Act, creates_voucher, sends_voucher, trigger, triggers,
}
use go_fil_markets.Retrieval.Client.Handlers.{total_price, process_payment_requested, send_funds}
use go_fil_markets.Retrieval.Client.Payments.{InStep, Prices}

total_price-pos :
    (d : ClientDealState) (price unseal : ℕ)
    → Prices d.params price unseal
    → d.total_received < 2 ^ 63
    → total_price d ≡ pos (d.total_received * price + unseal)
unfolding total_price
total_price-pos d price unseal prices small =
    simp (prices.0, prices.1, int64_small d.total_received small, *ℤ-pos, +ℤ-pos)

-- The client's interval never passes the provider's data limit.
pub interval-le-limit :
    (d : ClientDealState) (n limit price unseal : ℕ)
    → Prices d.params price unseal
    → 0 < price
    → Advances d.params
    → Fits d.params n
    → d.bytes_paid_for ≡ n
    → InStep d
    → next_interval d.params (pos (n * price + unseal)) ≡ some limit
    → (d.current_interval ≤ limit) × (n < limit)
interval-le-limit d n limit price unseal prices h a fits e (k, in_step, below) found =
    let (j, last, _, found') = intervals-LastBelow d.params n a fits in
    let limit_eq : threshold d.params (suc j) ≡ limit = cc (
      found,
      found',
      next_interval-paid d.params price unseal prices.0 prices.1 n h (omega arith),
    ) in
    (omega (arith, threshold-suc_le d.params k j n (omega arith) last.1), omega arith)

-- A node and a provider that give and take vouchers.
pub record Cooperates (env : ClientEnv) (d : ClientDealState) : Type 0 where
  pub token : ℕ
  pub info : PaymentInfo
  pub channel : ChannelId
  pub signed : ℕ
  pub head : env.get_chain_head ≡ ok token
  pub has_info : d.payment_info ≡ some info
  pub has_channel : d.channel_id ≡ some channel
  pub creates :
      env.create_payment_voucher info.pay_ch (total_price d) info.lane token ≡ voucher signed
  pub takes :
      env.send_data_transfer_voucher channel
        (record { id = d.id; payment_channel = info.pay_ch; payment_voucher = signed })
      ≡ ok tt

send_funds-pays :
    (env : ClientEnv) (d : ClientDealState)
    → Cooperates env d
    → d.current_interval ≤ d.total_received
    → d.funds_spent <ℤ total_price d
    → (acts : List Act) × (send_funds env d ≡ some acts)
      × (triggers acts ≡ ClientEvent.payment_sent (total_price d) ∷ [])
unfolding send_funds
send_funds-pays env d c reached more =
    let payment : DealPayment = record {
      id = d.id;
      payment_channel = c.info.pay_ch;
      payment_voucher = c.signed;
    } in
    (
      creates_voucher c.info.pay_ch (total_price d) c.info.lane
          ∷ sends_voucher c.channel payment
          ∷ trigger (ClientEvent.payment_sent (total_price d))
          ∷ [],
      ground (arith, c.head, c.has_info, c.has_channel, c.creates, c.takes),
      refl,
    )

-- A client that has paid for n bytes and the unsealing, and has now received what the provider's
-- data limit allows, asks itself to send funds, pays for all that it received, and after that the
-- provider is owed nothing; its payment is more than what it spent before. The node and the
-- provider cooperate, the schedule moves and the counters do not wrap.
pub limit_paid :
    (env : ClientEnv) (d : ClientDealState) (n price unseal : ℕ)
    → Prices d.params price unseal
    → 0 < price
    → Advances d.params
    → Fits d.params n
    → Fits d.params d.total_received
    → d.bytes_paid_for ≡ n
    → InStep d
    → d.funds_spent ≡ pos (n * price + unseal)
    → d.unseal_funds_paid ≡ pos unseal
    → next_interval d.params d.funds_spent ≡ some d.total_received
    → Cooperates env d
    → (process_payment_requested d ≡ trigger ClientEvent.send_funds ∷ [])
      × ((acts : List Act) × (send_funds env d ≡ some acts)
          × (triggers acts ≡ ClientEvent.payment_sent (total_price d) ∷ []))
      × (d.funds_spent <ℤ total_price d)
      × (outstanding_balance d.params (total_price d) d.total_received false ≡ some (pos 0))
unfolding process_payment_requested
limit_paid env d n price unseal prices h a fits fits' e in_step spent unsealed found c =
    let total = total_price-pos d price unseal prices (omega arith) in
    let (reached, more) =
      interval-le-limit d n d.total_received price unseal prices h a fits e in_step
        (rw (← spent) found) in
    let grows : d.funds_spent <ℤ total_price d =
      simp (spent, total) (omega (arith, mul-lt-mul_of_pos_right more h)) in
    (
      rw (unsealed, prices.1) (ground arith),
      send_funds-pays env d c reached grows,
      grows,
      rw total
          (payment_settles d.params price unseal prices.0 prices.1 d.total_received false a fits'),
    )

-- ===== src/Retrieval/Client/Payments.antt =====
-- retrievalmarket/impl/clientstates against retrievalmarket/types.go: the client's payment
-- intervals and the provider's data limit.
use native.Mathlib.Nat.{mul-div_cancel, mul-pos}
use go_fil_markets.Prelude.{
  ℕ, zero, suc, ◌+◌, ◌*◌, ◌^◌, ◌≤◌, ◌<◌, ◌≡◌, refl, some, arith, ◌∙◌, leb, leb→le, Bool-cases, inl,
  inr,
}
use go_fil_markets.Prelude.Int.{pos, ◌-ℤ◌, ◌/ℤ◌, -ℤ-pos, uint64_of}
use go_fil_markets.Retrieval.Params.{Params}
use go_fil_markets.Retrieval.Params.Thresholds.{threshold, Advances, Fits, intervals-LastBelow}
use go_fil_markets.Retrieval.Client.Deal.{ClientDealState, next_interval as own_next_interval}
use go_fil_markets.Retrieval.Client.Transfer.{record_payment, advance_interval}

-- The current interval is the threshold after one that is already paid for.
abbrev pub InStep : ClientDealState → Type 0
InStep d =
    (k : ℕ) × (d.current_interval ≡ threshold d.params (suc k))
    × (threshold d.params k ≤ d.bytes_paid_for)

abbrev pub Prices : Params → ℕ → ℕ → Type 0
Prices p price unseal = (p.price_per_byte ≡ pos price) × (p.unseal_price ≡ pos unseal)

advance_interval-InStep :
    (d : ClientDealState)
    → Advances d.params
    → Fits d.params d.current_interval
    → InStep d
    → (d' : ClientDealState) × (advance_interval d ≡ some d')
      × InStep d'
      × (d'.bytes_paid_for ≡ d.bytes_paid_for)
      × (d'.unseal_funds_paid ≡ d.unseal_funds_paid)
      × (d'.funds_spent ≡ d.funds_spent)
unfolding advance_interval own_next_interval
advance_interval-InStep d a fits (k, e, below) =
    elim (Bool-cases (leb d.current_interval d.bytes_paid_for)) [
      | inl reached ↦
          let (j, last, _, found) = intervals-LastBelow d.params d.current_interval a fits in
          (
            record d { current_interval = threshold d.params (suc j) },
            rw (reached, found) refl,
            (j, refl, omega (arith, last.0, leb→le d.current_interval d.bytes_paid_for reached)),
            refl,
            refl,
            refl,
          )
      | inr still ↦ (d, rw still refl, (k, e, below), refl, refl, refl)
    ]

-- The bytes that a voucher for n bytes and the unsealing is recorded as.
bytes_recorded :
    (n price unseal : ℕ)
    → 0 < price
    → n < 2 ^ 64
    → uint64_of ((pos (n * price + unseal) -ℤ pos unseal) /ℤ pos price) ≡ n
unfolding ◌/ℤ◌
bytes_recorded n price unseal h small =
    rw (-ℤ-pos (n * price) unseal, mul-div_cancel n h) (omega arith)

-- The deal that the last part of a payment's action is given.
abbrev after_voucher : ClientDealState → ℕ → ℕ → ℕ → ClientDealState
after_voucher d n price unseal = record d {
  payment_requested = d.payment_requested -ℤ (pos (n * price + unseal) -ℤ d.funds_spent);
  funds_spent = pos (n * price + unseal);
  unseal_funds_paid = pos unseal;
  bytes_paid_for = n;
}

record_payment-bytes :
    (d : ClientDealState) (n price unseal : ℕ)
    → Prices d.params price unseal
    → 0 < price
    → 0 < n
    → n < 2 ^ 64
    → record_payment (pos (n * price + unseal)) d
      ≡ advance_interval (after_voucher d n price unseal)
unfolding record_payment
record_payment-bytes d n price unseal prices h some_bytes small =
    simp (prices.0, prices.1, bytes_recorded n price unseal h small)
      (ground (arith, mul-pos some_bytes h))

record_payment-none :
    (d : ClientDealState) (price unseal : ℕ)
    → Prices d.params price unseal
    → d.bytes_paid_for ≡ 0
    → record_payment (pos (0 * price + unseal)) d ≡ some (after_voucher d 0 price unseal)
unfolding record_payment
record_payment-none d price unseal prices e = ground arith

-- A payment for n bytes and the unsealing, no fewer bytes than before, is recorded: the action
-- ends, the deal has paid for n bytes and the unsealing, and its interval is in step with the
-- schedule.
pub record_payment-InStep :
    (d : ClientDealState) (n price unseal : ℕ)
    → Prices d.params price unseal
    → 0 < price
    → Advances d.params
    → Fits d.params d.current_interval
    → n < 2 ^ 64
    → d.bytes_paid_for ≤ n
    → InStep d
    → (d' : ClientDealState) × (record_payment (pos (n * price + unseal)) d ≡ some d')
      × InStep d'
      × (d'.bytes_paid_for ≡ n)
      × (d'.unseal_funds_paid ≡ pos unseal)
      × (d'.funds_spent ≡ pos (n * price + unseal))
record_payment-InStep d zero price unseal prices h a fits small more (k, e, below) = (
  after_voucher d 0 price unseal,
  record_payment-none d price unseal prices (omega arith),
  (k, e, omega arith),
  refl,
  refl,
  refl,
)
record_payment-InStep d (suc n) price unseal prices h a fits small more (k, e, below) =
    let paid = after_voucher d (suc n) price unseal in
    let (d', moved, step, bytes, unsealed, spent) =
      advance_interval-InStep paid a fits (k, e, omega arith) in
    (
      d',
      record_payment-bytes d (suc n) price unseal prices h (omega arith) small ∙ moved,
      step,
      bytes,
      unsealed,
      spent,
    )

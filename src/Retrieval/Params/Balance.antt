-- ===== src/Retrieval/Params/Balance.antt =====
-- retrievalmarket/types.go: what the provider charges, against what the client pays. Prices are
-- not negative here, and counters do not wrap.
use native.Mathlib.Nat.{mul-div_cancel, mul-le-mul_right, mul-sub, mul_comm}
use go_fil_markets.Prelude.{
  ◌∙◌, ap, dec_lt, if◌then◌else◌, ltb, ℕ, suc, ◌+◌, ◌-◌, ◌*◌, ◌^◌, ◌≤◌, ◌<◌, ◌≡◌, refl, Bool, true,
  false, some, arith,
}
use go_fil_markets.Prelude.Int.{pos, *ℤ-pos, ◌-ℤ◌, ◌/ℤ◌}
use go_fil_markets.Prelude.Words.{int64_small}
use go_fil_markets.Retrieval.Params.Schedule.{
  Params, owed_for, minimum_bytes_to_pay, outstanding_balance, for_transfer, interval_paid_for,
  next_interval, next_interval_from,
}
use go_fil_markets.Retrieval.Params.Thresholds.{
  threshold, Advances, Fits, LastBelow, intervals-LastBelow, threshold-le_of_lt,
}

sub_mul : (m n k : ℕ) → (m - n) * k ≡ m * k - n * k
sub_mul m n k = rw (mul_comm (m - n) k, mul-sub k m n, mul_comm k m, mul_comm k n)

covered : (t n price : ℕ) → t ≤ n → some (pos (t * price - n * price)) ≡ some (pos 0)
covered t n price h = ap (λ (k : ℕ). some (pos k)) (omega (arith, mul-le-mul_right price h))

module _ (p : Params) (price unseal : ℕ) (hp : p.price_per_byte ≡ pos price)
    (hu : p.unseal_price ≡ pos unseal) where
  owed_for-pos :
      (paid m : ℕ) → m < 2 ^ 63 → owed_for p (pos (paid + unseal)) m ≡ pos (m * price - paid)
  unfolding owed_for ◌-ℤ◌
  owed_for-pos paid m h = rw (hp, hu, int64_small m h, *ℤ-pos m price) (ground arith)

  for_transfer-pos : (paid : ℕ) → for_transfer p (pos (paid + unseal)) ≡ pos paid
  unfolding for_transfer ◌-ℤ◌
  for_transfer-pos paid = rw hu (ground arith)

  interval_paid_for-bytes :
      (n : ℕ) → 0 < price → n < 2 ^ 64 → interval_paid_for p (pos (n * price + unseal)) ≡ n
  unfolding interval_paid_for ◌/ℤ◌
  interval_paid_for-bytes n h small =
      rw (for_transfer-pos (n * price), hp, mul-div_cancel n h) (ground arith)

  -- What is owed for `m` bytes once the unsealing and `paid` more have been received.
  pub outstanding_balance-pos :
      (paid sent m : ℕ) (in_finalization : Bool)
      → minimum_bytes_to_pay p sent in_finalization ≡ some m
      → m < 2 ^ 63
      → outstanding_balance p (pos (paid + unseal)) sent in_finalization
        ≡ some (pos (m * price - paid))
  unfolding outstanding_balance
  outstanding_balance-pos paid sent m fin e h =
      rw e (simp (hu, hp) (ground (arith, owed_for-pos paid m h)))

  -- Before the unsealing is paid for, what is missing of it is owed, whatever was sent.
  pub outstanding_balance-unseal :
      (paid sent : ℕ) (in_finalization : Bool)
      → paid < unseal
      → outstanding_balance p (pos paid) sent in_finalization ≡ some (pos (unseal - paid))
  unfolding outstanding_balance ◌-ℤ◌
  outstanding_balance-unseal paid sent fin h = rw hu (ground arith)

  -- A client that pays the unsealing and every byte received owes nothing for these bytes, neither
  -- while the transfer runs nor when it is finalized. The schedule moves, and the counters do not
  -- wrap.
  pub payment_settles :
      (received : ℕ) (in_finalization : Bool)
      → Advances p
      → Fits p received
      → outstanding_balance p (pos (received * price + unseal)) received in_finalization
        ≡ some (pos 0)
  unfolding minimum_bytes_to_pay
  payment_settles n true a fits =
      outstanding_balance-pos (n * price) n n true refl (omega arith)
      ∙ covered n n price (omega arith)
  payment_settles n false a fits =
      let (j, last, under, found) = intervals-LastBelow p n a fits in
      outstanding_balance-pos (n * price) n (threshold p j) false under (omega arith)
      ∙ covered (threshold p j) n price last.0

  pub next_interval-paid :
      (n : ℕ)
      → 0 < price
      → n < 2 ^ 64
      → next_interval p (pos (n * price + unseal)) ≡ next_interval_from p n
  unfolding next_interval
  next_interval-paid n h small = rw (interval_paid_for-bytes n h small, hp) (ground arith)

  -- What a threshold owes, relative to the limit that it lies at or below.
  owed_at :
      (n sent limit i j : ℕ)
      → LastBelow p n j
      → LastBelow p sent i
      → threshold p (suc j) ≡ limit
      → sent ≤ limit
      → some (pos (threshold p i * price - n * price))
        ≡ some (pos (if ltb sent limit then 0 else (limit - n) * price))
  owed_at n sent limit i j last last' e below = elim (dec_lt sent limit) [
    | yes q ↦
        covered (threshold p i) n price (omega (arith, threshold-le_of_lt p i j (omega arith)))
        ∙ ap (λ (k : ℕ). some (pos k)) (ground arith)
    | no q ↦
        ap (λ (k : ℕ). some (pos k)) (ground (arith, sub_mul limit n price, at_limit (omega arith)))
  ]
    where
      at_limit : sent ≡ limit → threshold p i ≡ limit
      at_limit s = omega (arith, threshold-le_of_lt p (suc j) i (omega arith))

  -- The data limit and the balance agree: once n bytes and the unsealing are paid for, the limit
  -- lies above n; nothing is owed while less than the limit has been sent, and at the limit the
  -- bytes between n and the limit are.
  pub data_limit_exact :
      (n sent limit : ℕ)
      → 0 < price
      → Advances p
      → Fits p n
      → Fits p sent
      → next_interval p (pos (n * price + unseal)) ≡ some limit
      → sent ≤ limit
      → (n < limit)
        × (outstanding_balance p (pos (n * price + unseal)) sent false
            ≡ some (pos (if ltb sent limit then 0 else (limit - n) * price)))
  unfolding minimum_bytes_to_pay
  data_limit_exact n sent limit h a fits fits' e below =
      let (j, last, _, found) = intervals-LastBelow p n a fits in
      let (i, last', under, _) = intervals-LastBelow p sent a fits' in
      let limit_eq : threshold p (suc j) ≡ limit =
        cc (found, next_interval-paid n h (omega arith)) in
      (
        omega arith,
        outstanding_balance-pos (n * price) sent (threshold p i) false under (omega arith)
            ∙ owed_at n sent limit i j last last' limit_eq below,
      )

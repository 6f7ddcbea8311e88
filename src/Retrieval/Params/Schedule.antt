-- ===== src/Retrieval/Params/Schedule.antt =====
-- retrievalmarket/types.go: the loops over payment intervals, the outstanding balance, and the
-- interval that a payment unlocks. `none` is a loop that has not ended in the rounds that it is
-- given; Retrieval/Params/Thresholds shows that these are enough wherever the loop ends at all
-- before the counters wrap.
use go_fil_markets.Prelude.{
  ℕ, zero, suc, ◌+◌, Bool, true, false, Option, none, some, leb, if◌then◌else◌,
}
use go_fil_markets.Prelude.Int.{ℤ, pos, ◌-ℤ◌, ◌*ℤ◌, ◌/ℤ◌, ltb_ℤ, is_zero, uint64_of}
use go_fil_markets.Prelude.Words.{add64, int64}

-- A CID, an address, a peer or a selector is only compared, so it is a number; 0 is the undefined
-- CID and the undefined address.
abbrev pub Cid : Type 0
Cid = ℕ

-- `Params`. A selector is absent when it is null, a piece CID when the pointer is nil.
pub record Params : Type 0 where
  pub selector : Option ℕ
  pub piece_cid : Option Cid
  pub price_per_byte : ℤ
  pub payment_interval : ℕ
  pub payment_interval_increase : ℕ
  pub unseal_price : ℤ

-- `SelectorSpecified`
abbrev pub selector_specified : Params → Bool
selector_specified p = elim p.selector [ none ↦ false | some s ↦ true ]

-- The rounds given to a loop that looks for the threshold above `current`.
abbrev pub rounds : ℕ → ℕ
rounds current = suc (current + 2)

-- The loop of `IntervalLowerBound`.
unfoldable pub lower_loop : ℕ → ℕ → ℕ → ℕ → ℕ → ℕ → Option ℕ
lower_loop zero increase current lower_bound target size = none
lower_loop (suc fuel) increase current lower_bound target size = elim (leb target current) [
  | true ↦ lower_loop fuel increase current target (add64 target size) (add64 size increase)
  | false ↦ some lower_bound
]

unfoldable pub interval_lower_bound : Params → ℕ → Option ℕ
interval_lower_bound p current =
    lower_loop (rounds current) p.payment_interval_increase current 0 0 p.payment_interval

-- The loop of `nextInterval`.
unfoldable pub next_loop : ℕ → ℕ → ℕ → ℕ → ℕ → Option ℕ
next_loop zero increase current next size = none
next_loop (suc fuel) increase current next size = elim (leb next current) [
  | true ↦ next_loop fuel increase current (add64 next size) (add64 size increase)
  | false ↦ some next
]

-- `nextInterval`
unfoldable pub next_interval_from : Params → ℕ → Option ℕ
next_interval_from p current =
    next_loop (rounds current) p.payment_interval_increase current 0 p.payment_interval

-- The last part of `OutstandingBalance`, on the bytes that must be paid for.
unfoldable pub owed_for : Params → ℤ → ℕ → ℤ
owed_for p funds_received minimum_bytes =
    let transfer_payment = funds_received -ℤ p.unseal_price in
    let owed = int64 minimum_bytes *ℤ p.price_per_byte -ℤ transfer_payment in
    if ltb_ℤ owed (pos 0) then pos 0 else owed

-- The bytes that `OutstandingBalance` asks to be paid for.
unfoldable pub minimum_bytes_to_pay : Params → ℕ → Bool → Option ℕ
minimum_bytes_to_pay p sent true = some sent
minimum_bytes_to_pay p sent false = interval_lower_bound p sent

-- `OutstandingBalance`
unfoldable pub outstanding_balance : Params → ℤ → ℕ → Bool → Option ℤ
outstanding_balance p funds_received sent in_finalization =
    if ltb_ℤ funds_received p.unseal_price
    then some (p.unseal_price -ℤ funds_received)
    else if is_zero p.price_per_byte
    then some (pos 0)
    else elim (minimum_bytes_to_pay p sent in_finalization) [
      | none ↦ none
      | some minimum ↦ some (owed_for p funds_received minimum)
    ]

-- The part of a payment that is left for the transfer, in `NextInterval`.
unfoldable pub for_transfer : Params → ℤ → ℤ
for_transfer p funds_received =
    if is_zero p.unseal_price then funds_received else funds_received -ℤ p.unseal_price

-- The bytes that a payment covers, as `NextInterval` computes them.
unfoldable pub interval_paid_for : Params → ℤ → ℕ
interval_paid_for p funds_received =
    let bytes_paid = for_transfer p funds_received /ℤ p.price_per_byte in
    if ltb_ℤ (pos 0) bytes_paid then uint64_of bytes_paid else 0

-- `NextInterval`: the data limit that a payment unlocks; 0 stands for no limit.
unfoldable pub next_interval : Params → ℤ → Option ℕ
next_interval p funds_received =
    if is_zero p.price_per_byte
    then some 0
    else next_interval_from p (interval_paid_for p funds_received)

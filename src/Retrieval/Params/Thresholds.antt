-- ===== src/Retrieval/Params/Thresholds.antt =====
-- The interval loops of retrievalmarket/types.go against the thresholds that they search.
use mathlib.Core.Path.{subst}
use native.Mathlib.Nat.{add-zero, add-suc}
use go_fil_markets.Prelude.{
  ℕ, zero, suc, ◌+◌, ◌*◌, ◌^◌, ◌≤◌, ◌<◌, ◌≡◌, refl, none, some, arith, ◌∙◌, ◌-◌, dec_le,
}
use go_fil_markets.Retrieval.Params.Schedule.{
  Params, lower_loop, next_loop, interval_lower_bound, next_interval_from,
}

-- The gap after the k-th threshold, and the k-th threshold.
abbrev pub gap : Params → ℕ → ℕ
gap p zero = p.payment_interval
gap p (suc k) = gap p k + p.payment_interval_increase

abbrev pub threshold : Params → ℕ → ℕ
threshold p zero = 0
threshold p (suc k) = threshold p k + gap p k

-- Deals whose schedule moves, and counters that stay below 2^64 while it is searched.
abbrev pub Advances : Params → Type 0
Advances p = 0 < p.payment_interval + p.payment_interval_increase

abbrev pub Fits : Params → ℕ → Type 0
Fits p current = 3 * current + p.payment_interval + 2 * p.payment_interval_increase < 2 ^ 64

gap-le :
    (p : Params) (k : ℕ)
    → gap p k ≤ p.payment_interval + p.payment_interval_increase + 2 * threshold p k
gap-le p zero = omega arith
gap-le p (suc k) = omega arith

gap-ge : (p : Params) (k : ℕ) → p.payment_interval + p.payment_interval_increase ≤ gap p (suc k)
gap-ge p zero = omega arith
gap-ge p (suc k) = omega (arith, gap-ge p k)

threshold-ge : (p : Params) (k : ℕ) → Advances p → k ≤ threshold p (suc k)
threshold-ge p zero h = omega arith
threshold-ge p (suc k) h = omega (arith, threshold-ge p k h, gap-ge p k)

-- The position of the last threshold at or below `current`.
abbrev pub LastBelow : Params → ℕ → ℕ → Type 0
LastBelow p current j = (threshold p j ≤ current) × (current < threshold p (suc j))

-- One more round, on counters that do not wrap.
next_loop-more :
    (fuel increase current next size : ℕ)
    → next ≤ current
    → next + size + increase < 2 ^ 64
    → next_loop (suc fuel) increase current next size
      ≡ next_loop fuel increase current (next + size) (size + increase)
unfolding next_loop
next_loop-more fuel increase current next size h small = ground arith

lower_loop-more :
    (fuel increase current lower target size : ℕ)
    → target ≤ current
    → target + size + increase < 2 ^ 64
    → lower_loop (suc fuel) increase current lower target size
      ≡ lower_loop fuel increase current target (target + size) (size + increase)
unfolding lower_loop
lower_loop-more fuel increase current lower target size h small = ground arith

next_loop-done :
    (fuel increase current next size : ℕ)
    → current < next
    → next_loop (suc fuel) increase current next size ≡ some next
unfolding next_loop
next_loop-done fuel increase current next size h = ground arith

lower_loop-done :
    (fuel increase current lower target size : ℕ)
    → current < target
    → lower_loop (suc fuel) increase current lower target size ≡ some lower
unfolding lower_loop
lower_loop-done fuel increase current lower target size h = ground arith

no_wrap :
    (p : Params) (current k : ℕ)
    → Fits p current
    → threshold p k ≤ current
    → threshold p k + gap p k + p.payment_interval_increase < 2 ^ 64
no_wrap p current k fits below = omega (arith, gap-le p k)

search_from :
    (p : Params) (current : ℕ)
    → Advances p
    → Fits p current
    → (fuel k : ℕ) → current + 2 ≤ fuel + k
    → threshold p k ≤ current
    → (j : ℕ) × LastBelow p current j
      × (next_loop fuel p.payment_interval_increase current (threshold p (suc k)) (gap p (suc k))
          ≡ some (threshold p (suc j)))
      × (lower_loop fuel p.payment_interval_increase current
            (threshold p k)
            (threshold p (suc k))
            (gap p (suc k))
          ≡ some (threshold p j))
search_from p current a fits zero zero enough below = absurd (omega arith)
search_from p current a fits zero (suc k) enough below = absurd (omega (arith, threshold-ge p k a))
search_from p current a fits (suc fuel) k enough below =
    elim (dec_le (threshold p (suc k)) current) [
      | yes more ↦
          let (j, last, found, under) =
            search_from p current a fits fuel (suc k) (omega arith) more in
          let small = no_wrap p current (suc k) fits more in
          (
            j,
            last,
            next_loop-more fuel _ _ _ _ more small ∙ found,
            lower_loop-more fuel _ _ _ _ _ more small ∙ under,
          )
      | no done ↦ (
        k,
        (below, omega arith),
        next_loop-done fuel _ _ _ _ (omega arith),
        lower_loop-done fuel _ _ _ _ _ (omega arith),
      )
    ]

-- For a schedule that moves and counters that do not wrap, both loops end in the rounds given:
-- `IntervalLowerBound` at the last threshold at or below `current`, `nextInterval` at the one
-- after it.
pub intervals-LastBelow :
    (p : Params) (current : ℕ)
    → Advances p
    → Fits p current
    → (j : ℕ) × LastBelow p current j
      × (interval_lower_bound p current ≡ some (threshold p j))
      × (next_interval_from p current ≡ some (threshold p (suc j)))
unfolding interval_lower_bound next_interval_from
intervals-LastBelow p current a fits =
    let (j, last, found, under) =
      search_from p current a fits (current + 2) 0 (omega arith) (omega arith) in
    let small = no_wrap p current 0 fits (omega arith) in
    (
      j,
      last,
      lower_loop-more (current + 2) _ _ _ _ _ (omega arith) small ∙ under,
      next_loop-more (current + 2) _ _ _ _ (omega arith) small ∙ found,
    )

next_loop-zero : (fuel current : ℕ) → next_loop fuel 0 current 0 0 ≡ none
unfolding next_loop
next_loop-zero zero current = refl
next_loop-zero (suc fuel) current = ground (arith, next_loop-zero fuel current)

lower_loop-zero : (fuel current : ℕ) → lower_loop fuel 0 current 0 0 0 ≡ none
unfolding lower_loop
lower_loop-zero zero current = refl
lower_loop-zero (suc fuel) current = ground (arith, lower_loop-zero fuel current)

-- A deal whose interval and increase are both 0 makes either loop run for ever, however many
-- rounds it is given.
pub intervals-stuck :
    (p : Params) (fuel current : ℕ)
    → p.payment_interval ≡ 0
    → p.payment_interval_increase ≡ 0
    → (next_loop fuel p.payment_interval_increase current 0 p.payment_interval ≡ none)
      × (lower_loop fuel p.payment_interval_increase current 0 0 p.payment_interval ≡ none)
intervals-stuck p fuel current i j =
    rw (i, j) (next_loop-zero fuel current, lower_loop-zero fuel current)

threshold-le-add : (p : Params) (i k : ℕ) → threshold p i ≤ threshold p (i + k)
threshold-le-add p i zero = simp add-zero (omega arith)
threshold-le-add p i (suc k) = rw add-suc (omega (arith, threshold-le-add p i k))

-- Thresholds grow, so a bound between two of them compares their positions.
threshold_mono : (p : Params) (i j : ℕ) → i ≤ j → threshold p i ≤ threshold p j
threshold_mono p i j h =
    subst (λ (m : ℕ). threshold p i ≤ threshold p m) {x = i + (j - i)} (omega arith)
      (threshold-le-add p i (j - i))

pub threshold-le_of_lt :
    (p : Params) (i j : ℕ) → threshold p i < threshold p (suc j) → threshold p i ≤ threshold p j
threshold-le_of_lt p i j h = elim (dec_le i j) [
  | yes below ↦ threshold_mono p i j below
  | no above ↦ absurd (omega (arith, threshold_mono p (suc j) i (omega arith)))
]

pub threshold-suc_le :
    (p : Params) (k j n : ℕ)
    → threshold p k ≤ n
    → n < threshold p (suc j)
    → threshold p (suc k) ≤ threshold p (suc j)
threshold-suc_le p k j n below above = elim (dec_le k j) [
  | yes ordered ↦ threshold_mono p (suc k) (suc j) (omega arith)
  | no later ↦ absurd (omega (arith, threshold_mono p (suc j) k (omega arith)))
]

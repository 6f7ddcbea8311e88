-- ===== src/Retrieval/Validation/Acceptance.antt =====
-- retrievalmarket/impl/requestvalidation/requestvalidation.go: what the provider answers to a pull
-- that passes its checks, and the terms for which it never answers.
use go_fil_markets.Prelude.{
  ℕ, suc, ◌*◌, ◌-◌, ◌<◌, ◌≡◌, refl, false, not, ◌==◌, Option, none, some, List, ok, true, ltb,
  if◌then◌else◌, arith, ◌∙◌, ap, dec_lt,
}
use go_fil_markets.Prelude.Int.{ℤ, pos, ◌/ℤ◌, ◌-ℤ◌}
use go_fil_markets.Retrieval.Status.{DealStatus}
use go_fil_markets.Retrieval.Voucher.{DealResponse, ValidationResult}
use go_fil_markets.Retrieval.Params.{Cid, Params}
use go_fil_markets.Retrieval.Params.Schedule.{
  outstanding_balance, minimum_bytes_to_pay, next_interval, next_loop, next_interval_from,
  interval_paid_for, for_transfer,
}
use go_fil_markets.Retrieval.Params.Thresholds.{
  threshold, Advances, Fits, LastBelow, intervals-LastBelow, intervals-stuck,
}
use go_fil_markets.Retrieval.Params.Balance.{outstanding_balance-pos, outstanding_balance-unseal}
use go_fil_markets.Retrieval.Client.Deal.{PeerId, DealProposal}
use go_fil_markets.Retrieval.Client.Payments.{Prices}
use go_fil_markets.Retrieval.Validation.Env.{ValidationEnv, Call, requested_deal}
use go_fil_markets.Retrieval.Validation.Pull.{
  Answer, opening_status, opened, tracked, decided, checked, with_ask, with_piece, validate_pull,
}
use go_fil_markets.Retrieval.Validation.Decision.{Passed}

past_guards :
    (a b s t : ℕ) (x y z : Answer)
    → a ≡ b
    → s ≡ t
    → (if not (a == b) then x else if not (s == t) then y else z) ≡ z
past_guards a b s t x y z h k = ground arith

-- Once every check has passed, the answer is the end of `validatePull`.
validate_pull-opened :
    (env : ValidationEnv) (receiver : PeerId) (proposal : DealProposal) (base_cid : Cid)
    (selector : ℕ) (calls : List Call)
    → Passed env receiver proposal base_cid selector calls
    → validate_pull env receiver proposal base_cid selector
      ≡ opened proposal calls
          (outstanding_balance proposal.params (pos 0) 0 false)
          (next_interval proposal.params (pos 0))
unfolding validate_pull
validate_pull-opened env receiver proposal base_cid selector calls (p, s, c) =
    let d = requested_deal receiver proposal in
    past_guards proposal.payload_cid base_cid _ selector _ _ _ p s
    ∙ ap (with_piece env d) c.located
    ∙ ap (with_ask env d c.piece) c.asked
    ∙ ap (checked env d c.piece) c.within
    ∙ ap (decided env d c.piece) c.agreed
    ∙ ap (tracked proposal) c.begun

next_interval-start :
    (p : Params) (price unseal : ℕ)
    → Prices p price unseal
    → 0 < price
    → next_interval p (pos 0) ≡ next_interval_from p 0
unfolding next_interval interval_paid_for for_transfer ◌/ℤ◌ ◌-ℤ◌
next_interval-start p price unseal (hp, hu) h = rw (hp, hu) (ground arith)

start_owed :
    (p : Params) (price unseal : ℕ)
    → Prices p price unseal
    → Advances p
    → Fits p 0
    → outstanding_balance p (pos 0) 0 false ≡ some (pos unseal)
unfolding minimum_bytes_to_pay
start_owed p price unseal (hp, hu) a fits = elim (dec_lt 0 unseal) [
  | yes q ↦
      outstanding_balance-unseal p price unseal hp hu 0 0 false q
      ∙ ap (λ (n : ℕ). some (pos n)) (omega arith)
  | no q ↦
      let (j, last, under, _) = intervals-LastBelow p 0 a fits in
      ap (λ (n : ℕ). outstanding_balance p (pos n) 0 false) (omega arith)
      ∙ outstanding_balance-pos p price unseal hp hu 0 0 (threshold p j) false under (omega arith)
      ∙ ap (λ (t : ℕ). some (pos (t * price - 0))) {y = 0} (omega arith)
      ∙ ap (λ (n : ℕ). some (pos n)) (omega arith)
]

opening_status-unseal :
    (p : Params) (unseal : ℕ)
    → p.unseal_price ≡ pos unseal
    → opening_status p
      ≡ (if ltb 0 unseal then DealStatus.funds_needed_unseal else DealStatus.accepted)
opening_status-unseal p unseal h = rw h (ground arith)

-- What the client is answered when its pull is accepted: the price of unsealing is owed, and the
-- deal waits for it unless it is 0.
abbrev pub Asks : DealProposal → ℕ → DealResponse → Type 0
Asks proposal unseal answer =
    (answer.status ≡ (if ltb 0 unseal then DealStatus.funds_needed_unseal else DealStatus.accepted))
    × (answer.id ≡ proposal.id)
    × (answer.payment_owed ≡ pos unseal)
    × (answer.message ≡ "")

-- A pull whose checks have passed, so that its deal is begun, is accepted: the transfer is paused and
-- limited to the threshold after the last one at 0, it will have to be finalized, and the client is
-- asked for the price of unsealing and for nothing else. The price is not 0, the schedule moves and
-- the counters do not wrap.
pub validate_pull_accepts :
    (env : ValidationEnv) (receiver : PeerId) (proposal : DealProposal) (base_cid : Cid)
    (selector : ℕ) (calls : List Call) (price unseal : ℕ)
    → Passed env receiver proposal base_cid selector calls
    → Prices proposal.params price unseal
    → 0 < price
    → Advances proposal.params
    → Fits proposal.params 0
    → (j : ℕ) × (result : ValidationResult) × (answer : DealResponse) × LastBelow proposal.params 0
        j
      × (validate_pull env receiver proposal base_cid selector ≡ some (calls, ok result))
      × (result.accepted ≡ true)
      × (result.force_pause ≡ true)
      × (result.requires_finalization ≡ true)
      × (result.data_limit ≡ threshold proposal.params (suc j))
      × (result.voucher_result ≡ some answer)
      × Asks proposal unseal answer
validate_pull_accepts env receiver proposal base_cid selector calls price unseal passed prices h a
      fits =
    let (j, last, _, limit) = intervals-LastBelow proposal.params 0 a fits in
    let started = next_interval-start proposal.params price unseal prices h ∙ limit in
    let found =
      validate_pull-opened env receiver proposal base_cid selector calls passed
      ∙ ap (λ (o : Option ℤ). opened proposal calls o (next_interval proposal.params (pos 0)))
          (start_owed proposal.params price unseal prices a fits)
      ∙ ap (opened proposal calls (some (pos unseal))) started in
    let status = opening_status-unseal proposal.params unseal prices.1 in
    (j, _, _, last, found, refl, refl, refl, refl, refl, (status, refl, refl, refl))

-- A proposal whose payment interval and increase are both 0 passes the provider's checks as soon as
-- its prices and the other conditions are met, since the checks only bound both numbers from above.
-- The deal is then begun, but the validation never answers: the loop over the intervals does not
-- end, however many rounds it is given. The price is not 0.
pub zero_interval_hangs :
    (env : ValidationEnv) (receiver : PeerId) (proposal : DealProposal) (base_cid : Cid)
    (selector : ℕ) (calls : List Call) (price unseal : ℕ)
    → Passed env receiver proposal base_cid selector calls
    → Prices proposal.params price unseal
    → 0 < price
    → proposal.params.payment_interval ≡ 0
    → proposal.params.payment_interval_increase ≡ 0
    → (validate_pull env receiver proposal base_cid selector ≡ none)
      × ((fuel : ℕ)
          → next_loop fuel proposal.params.payment_interval_increase 0 0
              proposal.params.payment_interval
            ≡ none)
unfolding next_interval_from
zero_interval_hangs env receiver proposal base_cid selector calls price unseal passed prices h i j =
    let p = proposal.params in
    let stuck = next_interval-start p price unseal prices h ∙ (intervals-stuck p 3 0 i j).0 in
    (
      validate_pull-opened env receiver proposal base_cid selector calls passed
          ∙ ap (opened proposal calls (outstanding_balance p (pos 0) 0 false)) stuck
          ∙ unanswered _,
      λ fuel. (intervals-stuck p fuel 0 i j).0,
    )
  where
    unanswered : (owed : Option ℤ) → opened proposal calls owed none ≡ none
    unanswered none = refl
    unanswered (some owed) = refl

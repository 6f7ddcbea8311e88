-- ===== src/Retrieval/Validation/Decision.antt =====
-- retrievalmarket/impl/requestvalidation/requestvalidation.go: when a pull is accepted, and what a
-- rejection leaves behind.
use go_fil_markets.Prelude.{
  ℕ, ◌≤◌, ◌≡◌, refl, Bool, true, false, not, ◌==◌, Option, none, some, List, [], String, Result, ok,
  err, if◌then◌else◌, arith, subst, ◌↔◌, ap,
}
use go_fil_markets.Prelude.Int.{ℤ, ltb_ℤ}
use go_fil_markets.Retrieval.Params.{Cid}
use go_fil_markets.Retrieval.Voucher.{ValidationResult}
use go_fil_markets.Retrieval.Client.Deal.{PeerId, DealProposal}
use go_fil_markets.Retrieval.Pieces.Failure.{Found, found, failed}
use go_fil_markets.Retrieval.Pricing.{Ask, get_piece, get_ask, below, check_deal_params}
use go_fil_markets.Retrieval.Provider.Deal.{PieceInfo, ProviderDealState}
use go_fil_markets.Retrieval.Validation.Env.{
  ValidationEnv, Call, requested_deal, run_deal_decisioning_logic, begin_tracking,
}
use go_fil_markets.Retrieval.Validation.Pull.{
  Answer, selector_or, opened, tracked, decided, checked, with_ask, with_piece, validate_pull,
}

-- The checks of a request for a deal, passed, and the calls that begin the deal.
pub record Checks (env : ValidationEnv) (d : ProviderDealState) (calls : List Call) : Type 0 where
  pub piece : PieceInfo
  pub unsealed : Bool
  pub ask : Ask
  pub reason : String
  pub located :
      get_piece env.pricing d.payload_cid d.params.piece_cid ≡ some (found (piece, unsealed))
  pub asked :
      get_ask env.pricing d.payload_cid d.params.piece_cid piece unsealed d.receiver ≡ some (ok ask)
  pub within :
      check_deal_params ask d.params.price_per_byte d.params.payment_interval
        d.params.payment_interval_increase d.params.unseal_price
      ≡ ok tt
  pub agreed : run_deal_decisioning_logic env d ≡ ok (true, reason)
  pub begun : begin_tracking env (record d { piece_info = some piece }) ≡ (calls, ok tt)

-- What an answer shows: an acceptance, that P holds of its calls; a rejection, that it made none.
abbrev Shows : (List Call → Type 0) → Answer → Type 0
Shows P none = Unit
Shows P (some (calls, err e)) = Unit
Shows P (some (calls, ok r)) = if r.accepted then P calls else (calls ≡ [])

opened-Shows :
    (P : List Call → Type 0) (proposal : DealProposal) (calls : List Call) (owed : Option ℤ)
    (limit : Option ℕ)
    → P calls
    → Shows P (opened proposal calls owed limit)
opened-Shows P proposal calls (some owed) (some limit) h = h
opened-Shows P proposal calls (some owed) none h = tt
opened-Shows P proposal calls none limit h = tt

tracked-Shows :
    (P : List Call → Type 0) (proposal : DealProposal) (t : List Call × Result (Unit {0}))
    → (t.1 ≡ ok tt → P t.0)
    → Shows P (tracked proposal t)
tracked-Shows P proposal (calls, err e) h = tt
tracked-Shows P proposal (calls, ok u) h = opened-Shows P proposal calls _ _ (h refl)

decided-Shows :
    (P : List Call → Type 0) (env : ValidationEnv) (d : ProviderDealState) (piece : PieceInfo)
    (r : Result (Bool × String))
    → ((reason : String) (calls : List Call)
        → r ≡ ok (true, reason)
        → begin_tracking env (record d { piece_info = some piece }) ≡ (calls, ok tt)
        → P calls)
    → Shows P (decided env d piece r)
decided-Shows P env d piece (err e) h = refl
decided-Shows P env d piece (ok (false, reason)) h = refl
decided-Shows P env d piece (ok (true, reason)) h =
    tracked-Shows P d.proposal (begin_tracking env (record d { piece_info = some piece })) (λ e.
      h reason _ refl (
        ap
          (λ (t : Result (Unit {0})).
            ((begin_tracking env (record d { piece_info = some piece })).0, t))
          e))

module _ (P : List Call → Type 0) (env : ValidationEnv) (d : ProviderDealState)
    (sound : (calls : List Call) → Checks env d calls → P calls) where
  with_ask-Shows :
      (piece : PieceInfo) (unsealed : Bool)
      → get_piece env.pricing d.payload_cid d.params.piece_cid ≡ some (found (piece, unsealed))
      → (o : Option (Result Ask))
      → get_ask env.pricing d.payload_cid d.params.piece_cid piece unsealed d.receiver ≡ o
      → Shows P (with_ask env d piece o)
  with_ask-Shows piece unsealed located none a = tt
  with_ask-Shows piece unsealed located (some (err e)) a = refl
  with_ask-Shows piece unsealed located (some (ok ask)) a = checked_part _ refl
    where
      checked_part :
          (c : Result (Unit {0}))
          → check_deal_params ask d.params.price_per_byte d.params.payment_interval
              d.params.payment_interval_increase d.params.unseal_price
            ≡ c
          → Shows P (checked env d piece c)
      checked_part (err e) h = refl
      checked_part (ok u) h =
          decided-Shows P env d piece (run_deal_decisioning_logic env d)
            (λ reason calls agreed begun. sound calls (record {
              piece = piece;
              unsealed = unsealed;
              ask = ask;
              reason = reason;
              located = located;
              asked = a;
              within = h;
              agreed = agreed;
              begun = begun;
            }))

  with_piece-Shows :
      (o : Option (Found (PieceInfo × Bool)))
      → get_piece env.pricing d.payload_cid d.params.piece_cid ≡ o
      → Shows P (with_piece env d o)
  with_piece-Shows none h = tt
  with_piece-Shows (some (failed e)) h = refl
  with_piece-Shows (some (found (piece, unsealed))) h = with_ask-Shows piece unsealed h _ refl

if-Shows :
    (P : List Call → Type 0) (b : Bool) (x y : Answer)
    → (b ≡ true → Shows P x)
    → (b ≡ false → Shows P y)
    → Shows P (if b then x else y)
if-Shows P true x y h k = h refl
if-Shows P false x y h k = k refl

abbrev pub Passed : ValidationEnv → PeerId → DealProposal → Cid → ℕ → List Call → Type 0
Passed env receiver proposal base_cid selector calls =
    (proposal.payload_cid ≡ base_cid)
    × (selector_or env.all_selector proposal.params ≡ selector)
    × Checks env (requested_deal receiver proposal) calls

-- A pull that is answered is accepted only after every check has passed: the payload and the
-- selector are those of the transfer, a piece is found and priced, the terms are within the ask,
-- the decider agrees and the deal is begun. A pull that is rejected has begun nothing.
pub validate_pull-Checks :
    (env : ValidationEnv) (receiver : PeerId) (proposal : DealProposal) (base_cid : Cid)
    (selector : ℕ) (calls : List Call) (r : ValidationResult)
    → validate_pull env receiver proposal base_cid selector ≡ some (calls, ok r)
    → if r.accepted then Passed env receiver proposal base_cid selector calls else (calls ≡ [])
unfolding validate_pull
validate_pull-Checks env receiver proposal base_cid selector calls r h =
    let P : List Call → Type 0 = Passed env receiver proposal base_cid selector in
    let d = requested_deal receiver proposal in
    subst (Shows P) h (
      if-Shows P (not (proposal.payload_cid == base_cid)) _ _ (λ q. refl)
        (λ q.
          if-Shows P (not (selector_or env.all_selector proposal.params == selector)) _ _
            (λ q'. refl)
            (λ q'.
              with_piece-Shows P env d
                (λ calls checks. (ground (arith, q), ground (arith, q'), checks)) _ refl)))

-- The terms that the checks let through are within the ask.
pub check_deal_params-within :
    (ask : Ask) (price : ℤ) (interval increase : ℕ) (unseal : ℤ)
    → (check_deal_params ask price interval increase unseal ≡ ok tt) ↔ (
        (ltb_ℤ price ask.price_per_byte ≡ false)
        × (interval ≤ ask.payment_interval)
        × (increase ≤ ask.payment_interval_increase)
        × (below unseal ask.unseal_price ≡ false))
unfolding check_deal_params
check_deal_params-within ask price interval increase unseal = ground arith

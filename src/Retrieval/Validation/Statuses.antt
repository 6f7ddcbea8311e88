-- ===== src/Retrieval/Validation/Statuses.antt =====
-- retrievalmarket/impl/requestvalidation/requestvalidation.go: the statuses that the provider
-- answers to a pull.
use go_fil_markets.Prelude.{
  ℕ, ◌≡◌, refl, Bool, true, false, not, ◌==◌, Option, none, some, List, [], ◌∷◌, Result, ok, err,
  if◌then◌else◌, arith, subst,
}
use go_fil_markets.Prelude.Int.{ℤ}
use go_fil_markets.Fsm.{elem}
use go_fil_markets.Retrieval.Params.{Cid}
use go_fil_markets.Retrieval.Status.{DealStatus, same}
use go_fil_markets.Retrieval.Voucher.{DealResponse, ValidationResult}
use go_fil_markets.Retrieval.Client.Deal.{PeerId, DealProposal}
use go_fil_markets.Retrieval.Pieces.Failure.{Found, found, failed}
use go_fil_markets.Retrieval.Pieces.Causes.{Foreign, WrapsAny, get_piece-Wraps}
use go_fil_markets.Retrieval.Pricing.{Ask}
use go_fil_markets.Retrieval.Provider.Deal.{PieceInfo, ProviderDealState}
use go_fil_markets.Retrieval.Validation.Env.{ValidationEnv, Call, requested_deal}
use go_fil_markets.Retrieval.Validation.Pull.{
  Answer, selector_or, rejected, opened, tracked, decided, checked, with_ask, with_piece,
  validate_pull,
}

-- The statuses of the responses that are given.
abbrev pub given_statuses : List DealStatus
given_statuses =
    DealStatus.rejected ∷ DealStatus.errored ∷ DealStatus.accepted ∷ DealStatus.funds_needed_unseal
    ∷ []

abbrev InResponse : Option DealResponse → Type 0
InResponse none = Unit
InResponse (some response) = elem same response.status given_statuses ≡ true

abbrev InAnswer : Answer → Type 0
InAnswer none = Unit
InAnswer (some (calls, err e)) = Unit
InAnswer (some (calls, ok r)) = InResponse r.voucher_result

opened_given :
    (proposal : DealProposal) (calls : List Call) (owed : Option ℤ) (limit : Option ℕ)
    → InAnswer (opened proposal calls owed limit)
unfolding same
opened_given proposal calls (some owed) (some limit) = ground arith
opened_given proposal calls (some owed) none = tt
opened_given proposal calls none limit = tt

tracked_given :
    (proposal : DealProposal) (t : List Call × Result (Unit {0})) → InAnswer (tracked proposal t)
tracked_given proposal (calls, err e) = tt
tracked_given proposal (calls, ok u) = opened_given proposal calls _ _

decided_given :
    (env : ValidationEnv) (d : ProviderDealState) (piece : PieceInfo) (r : Result (Bool × _))
    → InAnswer (decided env d piece r)
unfolding same
decided_given env d piece (err e) = refl
decided_given env d piece (ok (false, reason)) = refl
decided_given env d piece (ok (true, reason)) = tracked_given d.proposal _

checked_given :
    (env : ValidationEnv) (d : ProviderDealState) (piece : PieceInfo) (r : Result (Unit {0}))
    → InAnswer (checked env d piece r)
unfolding same
checked_given env d piece (err e) = refl
checked_given env d piece (ok u) = decided_given env d piece _

with_ask_given :
    (env : ValidationEnv) (d : ProviderDealState) (piece : PieceInfo) (o : Option (Result Ask))
    → InAnswer (with_ask env d piece o)
unfolding same
with_ask_given env d piece none = tt
with_ask_given env d piece (some (err e)) = refl
with_ask_given env d piece (some (ok ask)) = checked_given env d piece _

with_piece_given :
    (env : ValidationEnv) (d : ProviderDealState) (o : Option (Found (PieceInfo × Bool)))
    → WrapsAny o
    → InAnswer (with_piece env d o)
unfolding same
with_piece_given env d none w = tt
with_piece_given env d (some (failed e)) w = rw w refl
with_piece_given env d (some (found (piece, unsealed))) w = with_ask_given env d piece _

if_given : (b : Bool) (x y : Answer) → InAnswer x → InAnswer y → InAnswer (if b then x else y)
if_given true x y h k = h
if_given false x y h k = k

-- A response to a pull is a rejection, an error, an acceptance or a request to pay for unsealing.
-- In particular the provider never answers that it does not have the deal's data: that answer is
-- for an error that is the value `ErrNotFound`, and the search for pieces only returns errors that
-- wrap it. The decoding of identity CIDs does not return that value either.
pub validate_pull_statuses :
    (env : ValidationEnv) (receiver : PeerId) (proposal : DealProposal) (base_cid : Cid)
    (selector : ℕ) (calls : List Call) (r : ValidationResult) (response : DealResponse)
    → Foreign env.pricing.store.index
    → validate_pull env receiver proposal base_cid selector ≡ some (calls, ok r)
    → r.voucher_result ≡ some response
    → elem same response.status given_statuses ≡ true
unfolding validate_pull same
validate_pull_statuses env receiver proposal base_cid selector calls r response foreign h v =
    let piece =
      get_piece-Wraps env.pricing proposal.payload_cid proposal.params.piece_cid foreign in
    subst InResponse v (
      subst InAnswer h (
        if_given (not (proposal.payload_cid == base_cid)) _ _ refl (
          if_given (not (selector_or env.all_selector proposal.params == selector))
            (rejected proposal DealStatus.rejected "incorrect selector specified for this proposal")
            _ refl (with_piece_given env (requested_deal receiver proposal) _ piece))))

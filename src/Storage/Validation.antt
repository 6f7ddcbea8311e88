-- ===== src/Storage/Validation.antt =====
-- storagemarket/impl/providerstates/provider_states.go: `ValidateDealProposal`, as its decision: an
-- error is the cause of ProviderEventDealRejected, `ok` is ProviderEventDealDeciding;
-- storagemarket/impl/providerutils/providerutils.go: `VerifyProposal` and `VerifySignature`.
use go_fil_markets.Prelude.{
  ℕ, ◌^◌, ◌==◌, ltb, Bool, true, false, not, ◌||◌, Option, none, some, String, Result, ok, err,
  if◌then◌else◌,
}
use go_fil_markets.Prelude.Int.{ℤ, pos, ◌+ℤ◌, ◌*ℤ◌, ◌/ℤ◌, ltb_ℤ, leb_ℤ}
use go_fil_markets.Prelude.Words.{int64}
use go_fil_markets.Text.{decimal, decimal_ℤ, wrap, enclose}
use go_fil_markets.Retrieval.Params.{Cid}
use go_fil_markets.Retrieval.Client.Deal.{Address}
use go_fil_markets.Storage.Proposal.{StorageAsk, StorageProposal}

-- What the validation asks: the node, the ask, and what the actors' library says of a proposal.
pub record ProposalEnv : Type 0 where
  pub address : Address
  pub ask : StorageAsk
  -- A tipset and its epoch.
  pub chain_head : Result (ℕ × ℤ)
  pub dump : StorageProposal → Result ℕ
  -- The client's signature of the proposal, and its check.
  pub client_signature : ℕ
  pub verify_signature : ℕ → Address → ℕ → ℕ → Result Bool
  pub collateral_bounds : ℕ → Bool → Result (ℤ × ℤ)
  pub balance_available : Address → ℕ → Result ℤ
  -- The data cap is a pointer that may be nil.
  pub data_cap : Address → ℕ → Result (Option ℤ)
  -- `PieceSize.Validate`, the prefix of piece CIDs, `DealDurationBounds`, `Duration`,
  -- `ClientBalanceRequirement`, `MaxSectorExpirationExtension`
  pub piece_size_error : ℕ → Option String
  pub is_piece_cid : Cid → Bool
  pub duration_bounds : ℕ → ℤ × ℤ
  pub duration : StorageProposal → ℤ
  pub client_balance_requirement : StorageProposal → ℤ
  pub max_extension : ℤ

abbrev pub Decision : Type 0
Decision = Result (Unit {0})

-- A guard with an early return.
unfoldable pub refuse_if : Bool → String → Decision → Decision
refuse_if true reason rest = err reason
refuse_if false reason rest = rest

abbrev less : String → ℤ → ℤ → String
less what a b = enclose what (decimal_ℤ a) (enclose " < " (decimal_ℤ b) "")

abbrev more : String → ℤ → ℤ → String
more what a b = enclose what (decimal_ℤ a) (enclose " > " (decimal_ℤ b) "")

-- `VerifySignature`
abbrev pub verify_signature : Result Bool → Decision
verify_signature (err e) = err (wrap "verifying" e)
verify_signature (ok false) = err "could not verify signature"
verify_signature (ok true) = ok tt

-- `VerifyProposal`
abbrev pub verify_proposal : ProposalEnv → StorageProposal → ℕ → Decision
verify_proposal env p tok = elim (env.dump p) [
  | err e ↦ err e
  | ok bytes ↦ verify_signature (env.verify_signature env.client_signature p.client bytes tok)
]

-- The checks of a verified deal.
unfoldable pub check_data_cap : StorageProposal → Result (Option ℤ) → Decision
check_data_cap p (err e) = err (wrap "node error fetching verified data cap" e)
check_data_cap p (ok none) =
    err "node error fetching verified data cap: data cap missing -- client not verified"
check_data_cap p (ok (some cap)) =
    refuse_if (ltb_ℤ cap (pos p.piece_size))
      "verified deal DataCap too small for proposed piece size" (ok tt)

unfoldable pub check_verified : ProposalEnv → ℕ → StorageProposal → Decision
check_verified env tok p =
    if p.verified_deal then check_data_cap p (env.data_cap p.client tok) else ok tt

unfoldable pub check_balance : ProposalEnv → ℕ → StorageProposal → Result ℤ → Decision
check_balance env tok p (err e) = err (wrap "node error getting client market balance failed" e)
check_balance env tok p (ok available) =
    refuse_if (ltb_ℤ available (env.client_balance_requirement p))
      (less "clientMarketBalance.Available too small: " available
        (env.client_balance_requirement p))
      (check_verified env tok p)

-- The price that the ask sets for the deal, and what it comes to for an epoch.
abbrev pub ask_price : StorageAsk → StorageProposal → ℤ
ask_price ask p = if p.verified_deal then ask.verified_price else ask.price

unfoldable pub min_price : StorageAsk → StorageProposal → ℤ
min_price ask p = (ask_price ask p *ℤ int64 p.piece_size) /ℤ pos (2 ^ 30)

unfoldable pub check_ask : ProposalEnv → StorageProposal → Decision → Decision
unfolding min_price
check_ask env p rest =
    refuse_if (ltb_ℤ p.storage_price_per_epoch (min_price env.ask p))
      (less "storage price per epoch less than asking price: " p.storage_price_per_epoch
        (min_price env.ask p))
      (refuse_if (ltb p.piece_size env.ask.min_piece_size)
        (less "piece size less than minimum required size: " (pos p.piece_size)
          (pos env.ask.min_piece_size))
        (refuse_if (ltb env.ask.max_piece_size p.piece_size)
          (more "piece size more than maximum allowed size: " (pos p.piece_size)
            (pos env.ask.max_piece_size))
          rest))

unfoldable pub check_collateral : StorageProposal → Result (ℤ × ℤ) → Decision → Decision
check_collateral p (err e) rest = err (wrap "node error getting collateral bounds" e)
check_collateral p (ok (least, most)) rest =
    refuse_if (ltb_ℤ p.provider_collateral least)
      (less "proposed provider collateral below minimum: " p.provider_collateral least)
      (refuse_if (ltb_ℤ most p.provider_collateral)
        (more "proposed provider collateral above maximum: " p.provider_collateral most) rest)

-- The checks of the epochs.
unfoldable pub check_epochs : ProposalEnv → ℤ → StorageProposal → Decision → Decision
check_epochs env epoch p rest =
    let (shortest, longest) = env.duration_bounds p.piece_size in
    let duration = env.duration p in
    refuse_if (leb_ℤ p.end_epoch p.start_epoch) "proposal end before proposal start" (
      refuse_if (ltb_ℤ p.start_epoch epoch) "deal start epoch has already elapsed" (
        refuse_if (ltb_ℤ duration shortest || ltb_ℤ longest duration)
          (enclose "deal duration out of bounds (min, max, provided): " (decimal_ℤ shortest)
            (enclose ", " (decimal_ℤ longest) (enclose ", " (decimal_ℤ duration) "")))
          (refuse_if (ltb_ℤ (epoch +ℤ env.max_extension) p.end_epoch)
            (enclose "invalid deal end epoch " (decimal_ℤ p.end_epoch) (
              enclose ": cannot be more than " (decimal_ℤ env.max_extension)
                (enclose " past current epoch " (decimal_ℤ epoch) "")))
            rest)))

abbrev pub check_piece_size : Option String → Decision → Decision
check_piece_size (some e) rest = err (wrap "proposal piece size is invalid" e)
check_piece_size none rest = rest

-- The checks of the parties and of the piece.
unfoldable pub check_form : ProposalEnv → StorageProposal → Decision → Decision
check_form env p rest = refuse_if (not (p.provider == env.address)) "incorrect provider for deal" (
    refuse_if (ltb 256 p.label_length)
      (enclose "deal label can be at most 256 bytes, is " (decimal p.label_length) "")
      (check_piece_size (env.piece_size_error p.piece_size) (
        refuse_if (p.piece_cid == 0) "proposal PieceCID undefined" (
          refuse_if (not (env.is_piece_cid p.piece_cid)) "proposal PieceCID had wrong prefix"
            rest))))

abbrev pub check_signed : Decision → Decision → Decision
check_signed (err e) rest = err (wrap "verifying StorageDealProposal" e)
check_signed (ok u) rest = rest

-- The checks at a tipset and its epoch, in the order of the code.
unfoldable pub check_proposal : ProposalEnv → ℕ → ℤ → StorageProposal → Decision
unfolding check_form check_epochs check_ask
check_proposal env tok epoch p = check_signed (verify_proposal env p tok) (
    check_form env p (
      check_epochs env epoch p (
        check_collateral p (env.collateral_bounds p.piece_size p.verified_deal)
          (check_ask env p (check_balance env tok p (env.balance_available p.client tok))))))

abbrev pub decide_at : ProposalEnv → StorageProposal → Result (ℕ × ℤ) → Decision
decide_at env p (err e) = err (wrap "node error getting most recent state id" e)
decide_at env p (ok (tok, epoch)) = check_proposal env tok epoch p

-- `ValidateDealProposal`
unfoldable pub validate_deal_proposal : ProposalEnv → StorageProposal → Decision
validate_deal_proposal env p = decide_at env p env.chain_head

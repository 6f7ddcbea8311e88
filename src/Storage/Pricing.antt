-- ===== src/Storage/Pricing.antt =====
-- storagemarket/impl/providerstates/provider_states.go: what the price check of
-- `ValidateDealProposal` means for the amounts.
use go_fil_markets.Prelude.{ℕ, suc, ◌*◌, ◌^◌, ◌<◌, ◌/◌, ◌≡◌, refl, subst, arith, ok}
use go_fil_markets.Prelude.Int.{ℤ, pos, ◌≤ℤ◌, ◌/ℤ◌, *ℤ-pos}
use go_fil_markets.Prelude.Words.{int64_small}
use go_fil_markets.Storage.Proposal.{StorageProposal}
use go_fil_markets.Storage.Validation.{ProposalEnv, ask_price, min_price, validate_deal_proposal}
use go_fil_markets.Storage.Acceptable.{validate_deal_proposal-Acceptable}

min_price-pos :
    (env : ProposalEnv) (p : StorageProposal) (asked : ℕ)
    → ask_price env.ask p ≡ pos asked
    → p.piece_size < 2 ^ 63
    → min_price env.ask p ≡ pos (asked * p.piece_size / 2 ^ 30)
unfolding min_price ◌/ℤ◌
min_price-pos env p asked e small =
    rw (e, int64_small p.piece_size small, *ℤ-pos asked p.piece_size) refl

-- A provider that asks `asked` for a GiB and an epoch takes on no deal that pays it a whole unit
-- less: what the piece costs at that price for an epoch is below the price offered and one more.
-- Prices are not negative and the piece size fits an int64.
pub accepted_price :
    (env : ProposalEnv) (p : StorageProposal) (asked offered : ℕ)
    → ask_price env.ask p ≡ pos asked
    → p.storage_price_per_epoch ≡ pos offered
    → p.piece_size < 2 ^ 63
    → validate_deal_proposal env p ≡ ok tt
    → asked * p.piece_size < suc offered * 2 ^ 30
accepted_price env p asked offered e o small h =
    let (tok, epoch, head, a) = validate_deal_proposal-Acceptable env p h in
    let low : pos (asked * p.piece_size / 2 ^ 30) ≤ℤ pos offered =
      subst (λ (x : ℤ). x ≤ℤ pos offered) (min_price-pos env p asked e small)
        (subst (λ (x : ℤ). min_price env.ask p ≤ℤ x) o a.paid) in
    omega (arith, low)

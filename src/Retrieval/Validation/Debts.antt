-- ===== src/Retrieval/Validation/Debts.antt =====
-- retrievalmarket/impl/requestvalidation/requestvalidation.go: what a restart does not forget.
use go_fil_markets.Prelude.{
  ℕ, suc, ◌+◌, ◌*◌, ◌^◌, ◌<◌, ◌≡◌, refl, Bool, true, Option, none, some, ok, arith, ◌∙◌, ap, sym,
  subst,
}
use go_fil_markets.Prelude.Int.{pos}
use go_fil_markets.Retrieval.Params.{outstanding_balance, next_interval}
use go_fil_markets.Retrieval.Status.{same}
use go_fil_markets.Retrieval.Voucher.{ChannelState, ValidationResult}
use go_fil_markets.Retrieval.Client.Deal.{DealProposal}
use go_fil_markets.Retrieval.Client.Payments.{Prices}
use go_fil_markets.Retrieval.Provider.Deal.{ProviderDealState}
use go_fil_markets.Retrieval.Provider.Funding.{short-owed}
use go_fil_markets.Retrieval.Validation.Env.{ValidationEnv}
use go_fil_markets.Retrieval.Validation.Restart.{
  requires_finalization, restarted, answer_restart, validate_restart,
}

requires-owed :
    (d : ProviderDealState) (channel : ChannelState) (k : ℕ)
    → outstanding_balance d.params d.funds_received channel.queued channel.in_finalization
      ≡ some (pos (suc k))
    → requires_finalization d channel ≡ some true
unfolding requires_finalization same
requires-owed d channel k h = rw h (ground arith)

abbrev Requires : Option ValidationResult → Type 0
Requires none = Unit
Requires (some r) = r.requires_finalization ≡ true

restarted-Requires :
    (d : ProviderDealState) (limit : Option ℕ) → Requires (restarted d (some true) limit)
restarted-Requires d none = tt
restarted-Requires d (some limit) = refl

-- A restart does not forget what is owed: while the channel is finalized and the deal has received
-- less than the price of the bytes queued and of the unsealing, the restarted transfer still
-- requires finalization, in whichever state the deal is.
pub restart_requires_payment :
    (env : ValidationEnv) (proposal : DealProposal) (channel : ChannelState) (d : ProviderDealState)
    (r : ValidationResult) (price unseal paid : ℕ)
    → env.get (channel.other_peer, proposal.id) ≡ ok d
    → Prices d.params price unseal
    → channel.queued < 2 ^ 63
    → channel.in_finalization ≡ true
    → d.funds_received ≡ pos paid
    → paid < channel.queued * price + unseal
    → validate_restart env proposal channel ≡ some r
    → r.requires_finalization ≡ true
unfolding validate_restart
restart_requires_payment env proposal channel d r price unseal paid known prices small fin f short
      h =
    let (k, _, owed) = short-owed d.params price unseal paid channel.queued prices small short in
    let due = requires-owed d channel k (rw (f, fin) owed) in
    let limit = next_interval d.params d.funds_received in
    subst Requires
      (sym (
          ap (answer_restart proposal channel) known
          ∙ ap (λ (o : Option Bool). restarted d o limit) due)
        ∙ h)
      (restarted-Requires d limit)

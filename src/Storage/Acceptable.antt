-- ===== src/Storage/Acceptable.antt =====
-- storagemarket/impl/providerstates/provider_states.go: which proposals `ValidateDealProposal` lets
-- through, as conditions on the proposal.
use go_fil_markets.Prelude.{
  ℕ, ◌≤◌, ◌<◌, ◌≡◌, refl, Bool, true, false, ◌||◌, Option, none, some, String, Result, ok, err,
  arith, if◌then◌else◌, ◌∙◌, sym,
}
use go_fil_markets.Prelude.Int.{ℤ, pos, ◌+ℤ◌, ◌≤ℤ◌, ◌<ℤ◌, ltb_ℤ, leb_ℤ}
use go_fil_markets.Storage.Proposal.{StorageProposal}
use go_fil_markets.Storage.Validation.{
  ProposalEnv, Decision, refuse_if, verify_signature, verify_proposal, check_data_cap,
  check_verified, check_balance, min_price, check_ask, check_collateral, check_epochs, check_form,
  check_signed, check_proposal, decide_at, validate_deal_proposal,
}

refuse_if-ok :
    (b : Bool) (reason : String) (rest : Decision)
    → refuse_if b reason rest ≡ ok tt
    → (b ≡ false) × (rest ≡ ok tt)
unfolding refuse_if
refuse_if-ok true reason rest h = ground (arith, h)
refuse_if-ok false reason rest h = (refl, h)

ltb_ℤ→le : (a b : ℤ) → ltb_ℤ a b ≡ false → b ≤ℤ a
ltb_ℤ→le a b h = ground (arith, h)

leb_ℤ→lt : (a b : ℤ) → leb_ℤ a b ≡ false → b <ℤ a
leb_ℤ→lt a b h = ground (arith, h)

check_form-ok :
    (env : ProposalEnv) (p : StorageProposal) (rest : Decision)
    → check_form env p rest ≡ ok tt
    → (p.provider ≡ env.address)
      × (p.label_length ≤ 256)
      × (env.piece_size_error p.piece_size ≡ none)
      × (0 < p.piece_cid)
      × (env.is_piece_cid p.piece_cid ≡ true)
      × (rest ≡ ok tt)
unfolding check_form refuse_if
check_form-ok env p rest h = ground (arith, h)

or-left : (a b : Bool) → (a || b) ≡ false → a ≡ false
or-left a b h = ground (arith, h)

or-right : (a b : Bool) → (a || b) ≡ false → b ≡ false
or-right a b h = ground (arith, h)

check_epochs-ok :
    (env : ProposalEnv) (epoch : ℤ) (p : StorageProposal) (rest : Decision)
    → check_epochs env epoch p rest ≡ ok tt
    → (p.start_epoch <ℤ p.end_epoch)
      × (epoch ≤ℤ p.start_epoch)
      × ((env.duration_bounds p.piece_size).0 ≤ℤ env.duration p)
      × (env.duration p ≤ℤ (env.duration_bounds p.piece_size).1)
      × (p.end_epoch ≤ℤ epoch +ℤ env.max_extension)
      × (rest ≡ ok tt)
unfolding check_epochs
check_epochs-ok env epoch p rest h =
    let (shortest, longest) = env.duration_bounds p.piece_size in
    let (a, h₁) = refuse_if-ok _ _ _ h in
    let (b, h₂) = refuse_if-ok _ _ _ h₁ in
    let (c, h₃) = refuse_if-ok _ _ _ h₂ in
    let (e, h₄) = refuse_if-ok _ _ _ h₃ in
    (
      leb_ℤ→lt p.end_epoch p.start_epoch a,
      ltb_ℤ→le p.start_epoch epoch b,
      ltb_ℤ→le (env.duration p) shortest (or-left _ (ltb_ℤ longest (env.duration p)) c),
      ltb_ℤ→le longest (env.duration p) (or-right (ltb_ℤ (env.duration p) shortest) _ c),
      ltb_ℤ→le (epoch +ℤ env.max_extension) p.end_epoch e,
      h₄,
    )

check_ask-ok :
    (env : ProposalEnv) (p : StorageProposal) (rest : Decision)
    → check_ask env p rest ≡ ok tt
    → (min_price env.ask p ≤ℤ p.storage_price_per_epoch)
      × (env.ask.min_piece_size ≤ p.piece_size)
      × (p.piece_size ≤ env.ask.max_piece_size)
      × (rest ≡ ok tt)
unfolding check_ask
check_ask-ok env p rest h =
    let (a, h₁) = refuse_if-ok _ _ _ h in
    let (b, h₂) = refuse_if-ok _ _ _ h₁ in
    let (c, h₃) = refuse_if-ok _ _ _ h₂ in
    (
      ltb_ℤ→le p.storage_price_per_epoch (min_price env.ask p) a,
      ground (arith, b),
      ground (arith, c),
      h₃,
    )

check_collateral-ok :
    (p : StorageProposal) (r : Result (ℤ × ℤ)) (rest : Decision)
    → check_collateral p r rest ≡ ok tt
    → (least : ℤ) × (most : ℤ) × (r ≡ ok (least, most))
      × (least ≤ℤ p.provider_collateral)
      × (p.provider_collateral ≤ℤ most)
      × (rest ≡ ok tt)
unfolding check_collateral
check_collateral-ok p (err e) rest h = ground (arith, h)
check_collateral-ok p (ok (least, most)) rest h =
    let (a, h₁) = refuse_if-ok _ _ _ h in
    let (b, h₂) = refuse_if-ok _ _ _ h₁ in
    (
      least,
      most,
      refl,
      ltb_ℤ→le p.provider_collateral least a,
      ltb_ℤ→le most p.provider_collateral b,
      h₂,
    )

-- A verified deal has a data cap that the piece fits in.
abbrev pub Covered : ProposalEnv → ℕ → StorageProposal → Type 0
Covered env tok p =
    p.verified_deal ≡ true
    → (cap : ℤ) × (env.data_cap p.client tok ≡ ok (some cap)) × (pos p.piece_size ≤ℤ cap)

check_data_cap-ok :
    (p : StorageProposal) (r : Result (Option ℤ))
    → check_data_cap p r ≡ ok tt
    → (cap : ℤ) × (r ≡ ok (some cap)) × (pos p.piece_size ≤ℤ cap)
unfolding check_data_cap
check_data_cap-ok p (err e) h = ground (arith, h)
check_data_cap-ok p (ok none) h = ground (arith, h)
check_data_cap-ok p (ok (some cap)) h =
    (cap, refl, ltb_ℤ→le cap (pos p.piece_size) (refuse_if-ok _ _ _ h).0)

if-true : (b : Bool) (x y : Decision) → b ≡ true → (if b then x else y) ≡ x
if-true true x y h = refl
if-true false x y h = ground (arith, h)

check_verified-ok :
    (env : ProposalEnv) (tok : ℕ) (p : StorageProposal)
    → check_verified env tok p ≡ ok tt
    → Covered env tok p
unfolding check_verified
check_verified-ok env tok p h v =
    check_data_cap-ok p (env.data_cap p.client tok) (sym (if-true _ _ _ v) ∙ h)

check_balance-ok :
    (env : ProposalEnv) (tok : ℕ) (p : StorageProposal) (r : Result ℤ)
    → check_balance env tok p r ≡ ok tt
    → (available : ℤ) × (r ≡ ok available)
      × (env.client_balance_requirement p ≤ℤ available)
      × Covered env tok p
unfolding check_balance
check_balance-ok env tok p (err e) h = ground (arith, h)
check_balance-ok env tok p (ok available) h =
    let (a, h₁) = refuse_if-ok _ _ _ h in
    (
      available,
      refl,
      ltb_ℤ→le available (env.client_balance_requirement p) a,
      check_verified-ok env tok p h₁,
    )

check_signed-ok : (d rest : Decision) → check_signed d rest ≡ ok tt → (d ≡ ok tt) × (rest ≡ ok tt)
check_signed-ok (err e) rest h = ground (arith, h)
check_signed-ok (ok u) rest h = (refl, h)

verify_signature-ok : (r : Result Bool) → verify_signature r ≡ ok tt → r ≡ ok true
verify_signature-ok (err e) h = ground (arith, h)
verify_signature-ok (ok false) h = ground (arith, h)
verify_signature-ok (ok true) h = refl

-- What holds of a proposal that a provider accepts, at a tipset and its epoch.
pub record Acceptable (env : ProposalEnv) (tok : ℕ) (epoch : ℤ) (p : StorageProposal) : Type 0 where
  pub verified : verify_proposal env p tok ≡ ok tt
  pub addressed : p.provider ≡ env.address
  pub labelled : p.label_length ≤ 256
  pub sized : env.piece_size_error p.piece_size ≡ none
  pub named : 0 < p.piece_cid
  pub prefixed : env.is_piece_cid p.piece_cid ≡ true
  pub ordered : p.start_epoch <ℤ p.end_epoch
  pub ahead : epoch ≤ℤ p.start_epoch
  pub long_enough : (env.duration_bounds p.piece_size).0 ≤ℤ env.duration p
  pub short_enough : env.duration p ≤ℤ (env.duration_bounds p.piece_size).1
  pub near : p.end_epoch ≤ℤ epoch +ℤ env.max_extension
  pub least : ℤ
  pub most : ℤ
  pub bounds : env.collateral_bounds p.piece_size p.verified_deal ≡ ok (least, most)
  pub secured : least ≤ℤ p.provider_collateral
  pub bounded : p.provider_collateral ≤ℤ most
  pub paid : min_price env.ask p ≤ℤ p.storage_price_per_epoch
  pub large : env.ask.min_piece_size ≤ p.piece_size
  pub small : p.piece_size ≤ env.ask.max_piece_size
  pub available : ℤ
  pub funds : env.balance_available p.client tok ≡ ok available
  pub funded : env.client_balance_requirement p ≤ℤ available
  pub covered : Covered env tok p

check_proposal-Acceptable :
    (env : ProposalEnv) (tok : ℕ) (epoch : ℤ) (p : StorageProposal)
    → check_proposal env tok epoch p ≡ ok tt
    → Acceptable env tok epoch p
unfolding check_proposal
check_proposal-Acceptable env tok epoch p h =
    let (v, h₁) = check_signed-ok _ _ h in
    let (a, l, s, n, x, h₂) = check_form-ok env p _ h₁ in
    let (o, d, e₁, e₂, m, h₃) = check_epochs-ok env epoch p _ h₂ in
    let (lo, hi, b, c₁, c₂, h₄) = check_collateral-ok p _ _ h₃ in
    let (w, g₁, g₂, h₅) = check_ask-ok env p _ h₄ in
    let (have, f₁, f₂, cover) = check_balance-ok env tok p _ h₅ in
    record {
      verified = v;
      addressed = a;
      labelled = l;
      sized = s;
      named = n;
      prefixed = x;
      ordered = o;
      ahead = d;
      long_enough = e₁;
      short_enough = e₂;
      near = m;
      least = lo;
      most = hi;
      bounds = b;
      secured = c₁;
      bounded = c₂;
      paid = w;
      large = g₁;
      small = g₂;
      available = have;
      funds = f₁;
      funded = f₂;
      covered = cover;
    }

-- A storage proposal that the provider takes on is acceptable at the chain's head: it is signed, it
-- names this provider and a well-formed piece, its epochs lie ahead and within bounds, its
-- collateral, price and size are within the node's bounds and the ask, and the client's balance, and
-- for a verified deal its data cap, covers it.
pub validate_deal_proposal-Acceptable :
    (env : ProposalEnv) (p : StorageProposal)
    → validate_deal_proposal env p ≡ ok tt
    → (tok : ℕ) × (epoch : ℤ) × (env.chain_head ≡ ok (tok, epoch)) × Acceptable env tok epoch p
unfolding validate_deal_proposal
validate_deal_proposal-Acceptable env p h = at_head env.chain_head refl h
  where
    at_head :
        (r : Result (ℕ × ℤ))
        → env.chain_head ≡ r
        → decide_at env p r ≡ ok tt
        → (tok : ℕ) × (epoch : ℤ) × (env.chain_head ≡ ok (tok, epoch)) × Acceptable env tok epoch p
    at_head (err e) q h = ground (arith, h)
    at_head (ok (tok, epoch)) q h = (tok, epoch, q, check_proposal-Acceptable env tok epoch p h)

-- ===== src/Storage/Phases.antt =====
-- The life of a storage deal as both sides promise it: an abstract machine whose steps are a
-- relation, and the phase of each state of storagemarket/dealstatus.go.
use go_fil_markets.Prelude.{
  Option, none, some, Bool, true, false, ◌≡◌, refl, ◌⊎◌, inl, inr, List, [], ◌∷◌, subst, arith,
}
use go_fil_markets.Fsm.{Dest, to, no_change, just_record, Leads, Fired, Paced, run, settle}
use go_fil_markets.Storage.Status.{StorageDealStatus}

pub data Phase : Type 0 where
  negotiating transferring publishing sealing active closed failed : Phase

-- A deal moves on by one phase, or fails.
pub data Step : Phase → Phase → Type 0 where
  taken_on : Step negotiating transferring
  data_complete : Step transferring publishing
  published : Step publishing sealing
  activated : Step sealing active
  ended : Step active closed
  gave_up : (p : Phase) → Step p failed

pub data Reaches (p : Phase) : Phase → Type 0 where
  here : Reaches p p
  next : {q r : Phase} → Reaches p q → Step q r → Reaches p r

-- A deal stays in its phase or takes one step.
abbrev pub Moves : Phase → Phase → Type 0
Moves p q = (p ≡ q) ⊎ Step p q

Reaches-trans : {p q r : Phase} → Reaches p q → Reaches q r → Reaches p r
Reaches-trans a here = a
Reaches-trans a (next b s) = next (Reaches-trans a b) s

Moves-Reaches : {p q : Phase} → Moves p q → Reaches p q
Moves-Reaches {p} (inl same) = subst (Reaches p) same here
Moves-Reaches (inr step) = next here step

-- The phase that a state belongs to, on either side.
unfoldable pub phase : StorageDealStatus → Phase
phase StorageDealStatus.unknown = negotiating
phase StorageDealStatus.reserve_client_funds = negotiating
phase StorageDealStatus.client_funding = negotiating
phase StorageDealStatus.funds_reserved = negotiating
phase StorageDealStatus.validating = negotiating
phase StorageDealStatus.accept_wait = negotiating
phase StorageDealStatus.start_data_transfer = transferring
phase StorageDealStatus.transfer_queued = transferring
phase StorageDealStatus.transferring = transferring
phase StorageDealStatus.client_transfer_restart = transferring
phase StorageDealStatus.waiting_for_data = transferring
phase StorageDealStatus.provider_transfer_await_restart = transferring
phase StorageDealStatus.check_for_acceptance = publishing
phase StorageDealStatus.proposal_accepted = publishing
phase StorageDealStatus.verify_data = publishing
phase StorageDealStatus.reserve_provider_funds = publishing
phase StorageDealStatus.provider_funding = publishing
phase StorageDealStatus.publish = publishing
phase StorageDealStatus.publishing = publishing
phase StorageDealStatus.staged = sealing
phase StorageDealStatus.awaiting_pre_commit = sealing
phase StorageDealStatus.sealing = sealing
phase StorageDealStatus.finalizing = sealing
phase StorageDealStatus.active = active
phase StorageDealStatus.expired = closed
phase StorageDealStatus.slashed = closed
phase _ = failed

-- Whether two phases are the same or a step apart.
abbrev pub follows : Phase → Phase → Bool
follows p failed = true
follows negotiating negotiating = true
follows negotiating transferring = true
follows transferring transferring = true
follows transferring publishing = true
follows publishing publishing = true
follows publishing sealing = true
follows sealing sealing = true
follows sealing active = true
follows active active = true
follows active closed = true
follows closed closed = true
follows _ _ = false

pub follows-Moves : (p q : Phase) → follows p q ≡ true → Moves p q
follows-Moves p failed h = inr (gave_up p)
follows-Moves negotiating negotiating h = inl refl
follows-Moves negotiating transferring h = inr taken_on
follows-Moves transferring transferring h = inl refl
follows-Moves transferring publishing h = inr data_complete
follows-Moves publishing publishing h = inl refl
follows-Moves publishing sealing h = inr published
follows-Moves sealing sealing h = inl refl
follows-Moves sealing active h = inr activated
follows-Moves active active h = inl refl
follows-Moves active closed h = inr ended
follows-Moves closed closed h = inl refl
follows-Moves _ _ h = ground arith

-- A deal in the first state goes on to one in the second, by one step at most.
abbrev pub Onward : StorageDealStatus → StorageDealStatus → Type 0
Onward s t = Moves (phase s) (phase t)

abbrev pub Checked : StorageDealStatus → Option (Dest StorageDealStatus) → Type 0
Checked s none = Unit
Checked s (some (to t)) = follows (phase s) (phase t) ≡ true
Checked s (some no_change) = Unit
Checked s (some just_record) = Unit

-- A destination whose phase was checked leads onward.
pub Checked-Leads :
    (s : StorageDealStatus) (o : Option (Dest StorageDealStatus)) → Checked s o → Leads Onward s o
Checked-Leads s none h = tt
Checked-Leads s (some (to t)) h = follows-Moves (phase s) (phase t) h
Checked-Leads s (some no_change) h = inl refl
Checked-Leads s (some just_record) h = inl refl

-- A run whose events each move the deal by one step at most goes through the phases in order.
module _ {E D : Type 0} (fire : E → D → Fired D) (state_of : D → StorageDealStatus) where
  pub Paced-Reaches :
      (es : List E) (d : D)
      → Paced fire (λ c d. Onward (state_of c) (state_of d)) es d
      → Reaches (phase (state_of d)) (phase (state_of (run fire d es)))
  unfolding run
  Paced-Reaches [] d h = here
  Paced-Reaches (e ∷ es) d (first, rest) =
      Reaches-trans (Moves-Reaches first) (Paced-Reaches es (settle fire d (fire e d)) rest)

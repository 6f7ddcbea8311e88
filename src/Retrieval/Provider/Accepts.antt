-- ===== src/Retrieval/Provider/Accepts.antt =====
-- retrievalmarket/impl/providerstates: every event of the provider's entry functions is accepted by
-- the table in the state that runs them.
use go_fil_markets.Prelude.{
  Bool, true, false, ◌≡◌, refl, Option, none, some, List, All, arith, subst,
}
use go_fil_markets.Fsm.{declared}
use go_fil_markets.Retrieval.Status.{DealStatus, same}
use go_fil_markets.Retrieval.Provider.Deal.{ProviderEvent, ProviderDealState}
use go_fil_markets.Retrieval.Provider.Env.{ProviderEnv, Act, triggers}
use go_fil_markets.Retrieval.Provider.Table.{edges}
use go_fil_markets.Retrieval.Provider.Handlers.{entry, entry_of}

-- Whether the table has a way for the event in the state.
unfoldable pub accepted : DealStatus → ProviderEvent → Bool
unfolding edges same
accepted s e = elim (declared same (edges e) s) [ none ↦ false | some d ↦ true ]

abbrev WhenRun : DealStatus → Option (List Act) → Type 0
WhenRun s none = Unit
WhenRun s (some acts) = All (λ e. accepted s e ≡ true) (triggers acts)

entry_of-accepted :
    (env : ProviderEnv) (s : DealStatus) (d : ProviderDealState)
    → s ≡ d.status
    → WhenRun s (entry_of env s d)
unfolding entry_of accepted
entry_of-accepted env DealStatus.new d h = ground arith
entry_of-accepted env _ d h = ground arith

-- Every event that an entry function of the provider triggers is accepted by the table in the state
-- that ran it, whatever the environment answers.
pub entry-accepted :
    (env : ProviderEnv) (d : ProviderDealState) (acts : List Act)
    → entry env d ≡ some acts
    → All (λ e. accepted d.status e ≡ true) (triggers acts)
unfolding entry
entry-accepted env d acts h = subst (WhenRun d.status) h (entry_of-accepted env d.status d refl)

-- ===== src/Storage/Provider/Accepts.antt =====
-- storagemarket/impl/providerstates: every event of the provider's entry functions is accepted by
-- the table in the state that runs them.
use go_fil_markets.Prelude.{Bool, true, false, ◌≡◌, Option, none, some, List, All, arith, subst}
use go_fil_markets.Fsm.{declared}
use go_fil_markets.Storage.Status.{StorageDealStatus, same}
use go_fil_markets.Storage.Provider.Deal.{ProviderEvent, MinerDeal}
use go_fil_markets.Storage.Provider.Env.{ProviderEnv, Act, triggers}
use go_fil_markets.Storage.Provider.Table.{edges}
use go_fil_markets.Storage.Provider.Closing.{entry, entry_of}

-- Whether the table has a way for the event in the state.
unfoldable pub accepted : StorageDealStatus → ProviderEvent → Bool
unfolding edges same
accepted s e = elim (declared same (edges e) s) [ none ↦ false | some d ↦ true ]

abbrev Accepted : StorageDealStatus → List Act → Type 0
Accepted s acts = All (λ e. accepted s e ≡ true) (triggers acts)

abbrev WhenRun : StorageDealStatus → Option (List Act) → Type 0
WhenRun s none = Unit
WhenRun s (some acts) = Accepted s acts

entry_of-accepted :
    (env : ProviderEnv) (s : StorageDealStatus) (d : MinerDeal) → WhenRun s (entry_of env s d)
unfolding entry_of accepted
entry_of-accepted env StorageDealStatus.unknown d = ground arith
entry_of-accepted env _ d = ground arith

-- Every event that an entry function of the storage provider triggers is accepted by the table in
-- the state that ran it, whatever the environment answers.
pub provider_entry-accepted :
    (env : ProviderEnv) (d : MinerDeal) (acts : List Act)
    → entry env d ≡ some acts
    → All (λ e. accepted d.state e ≡ true) (triggers acts)
unfolding entry
provider_entry-accepted env d acts h = subst (WhenRun d.state) h (entry_of-accepted env d.state d)

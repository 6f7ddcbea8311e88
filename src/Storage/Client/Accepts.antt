-- ===== src/Storage/Client/Accepts.antt =====
-- storagemarket/impl/clientstates: every event of the client's entry functions is accepted by the
-- table in the state that runs them.
use go_fil_markets.Prelude.{Bool, true, false, ◌≡◌, Option, none, some, List, All, arith, subst}
use go_fil_markets.Fsm.{declared}
use go_fil_markets.Storage.Status.{StorageDealStatus, same}
use go_fil_markets.Storage.Client.Deal.{ClientEvent, ClientDeal}
use go_fil_markets.Storage.Client.Env.{ClientEnv, Act, triggers}
use go_fil_markets.Storage.Client.Table.{edges}
use go_fil_markets.Storage.Client.Closing.{entry, entry_of}

-- Whether the table has a way for the event in the state.
unfoldable pub accepted : StorageDealStatus → ClientEvent → Bool
unfolding edges same
accepted s e = elim (declared same (edges e) s) [ none ↦ false | some d ↦ true ]

abbrev WhenRun : StorageDealStatus → Option (List Act) → Type 0
WhenRun s none = Unit
WhenRun s (some acts) = All (λ e. accepted s e ≡ true) (triggers acts)

entry_of-accepted :
    (env : ClientEnv) (s : StorageDealStatus) (d : ClientDeal) → WhenRun s (entry_of env s d)
unfolding entry_of accepted
entry_of-accepted env StorageDealStatus.unknown d = ground arith
entry_of-accepted env _ d = ground arith

-- Every event that an entry function of the storage client triggers is accepted by the table in the
-- state that ran it, whatever the environment answers.
pub client_entry-accepted :
    (env : ClientEnv) (d : ClientDeal) (acts : List Act)
    → entry env d ≡ some acts
    → All (λ e. accepted d.state e ≡ true) (triggers acts)
unfolding entry
client_entry-accepted env d acts h = subst (WhenRun d.state) h (entry_of-accepted env d.state d)

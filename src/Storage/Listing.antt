-- ===== src/Storage/Listing.antt =====
-- storagemarket/impl/provider.go: `ListLocalDealsPage`, `restartDeals`, and the choice of deals of
-- `AnnounceAllDealsToIndexer`.
use go_fil_markets.Prelude.{
  ℕ, suc, ◌+◌, ◌==◌, leb, ltb, Bool, true, false, ◌&&◌, not, Option, none, some, List, [], ◌∷◌,
  ◌++◌, length, Result, ok, err, if◌then◌else◌,
}
use go_fil_markets.Fsm.{elem}
use go_fil_markets.Retrieval.Params.{Cid}
use go_fil_markets.Storage.Status.{same}
use go_fil_markets.Storage.Provider.Deal.{MinerDeal}
use go_fil_markets.Storage.Provider.Table.{
  provider_finality_states, states_known_by_sealing_subsystem,
}

-- The latest deal first, as `sort.Slice` orders them; deals of one time stay in their order here,
-- which the library leaves open.
unfoldable pub insert_deal : MinerDeal → List MinerDeal → List MinerDeal
insert_deal d [] = d ∷ []
insert_deal d (x ∷ xs) =
    if ltb d.creation_time x.creation_time then x ∷ insert_deal d xs else d ∷ x ∷ xs

unfoldable pub by_creation : List MinerDeal → List MinerDeal
unfolding insert_deal
by_creation [] = []
by_creation (d ∷ ds) = insert_deal d (by_creation ds)

-- The index from which deals are taken, once it is known.
abbrev pub start_at : Option Cid → ℕ → ℕ → MinerDeal → Option ℕ → Option ℕ
start_at none offset i d start = start
start_at (some c) offset i d start = if d.proposal_cid == c then some (i + offset) else start

abbrev pub reached : Option ℕ → ℕ → Bool
reached none i = false
reached (some s) i = leb s i

abbrev pub paged : Bool → MinerDeal → List MinerDeal → List MinerDeal
paged true d page = page ++ d ∷ []
paged false d page = page

-- The loop over the deals, with the index, the start and the page so far.
unfoldable pub page_loop :
    Option Cid → ℕ → ℕ → ℕ → Option ℕ → List MinerDeal → List MinerDeal → List MinerDeal
page_loop c offset limit i start page [] = page
page_loop c offset limit i start page (d ∷ ds) =
    let start' = start_at c offset i d start in
    let page' = paged (reached start' i) d page in
    let rest = page_loop c offset limit (suc i) start' page' ds in
    if length page' == limit then page' else rest

abbrev pub first_start : Option Cid → Option ℕ
first_start none = some 0
first_start (some c) = none

-- `ListLocalDealsPage` on the deals of the store, for an offset and a limit that are not negative.
unfoldable pub list_local_deals_page : Option Cid → ℕ → ℕ → List MinerDeal → List MinerDeal
unfolding page_loop by_creation
list_local_deals_page c offset limit deals =
    if limit == 0 then [] else page_loop c offset limit 0 (first_start c) [] (by_creation deals)

-- `restartDeals`: which deals are sent the event, and the answer. `IsTerminated` of a deal machine is
-- a look into its finality states.
unfoldable pub restart_deals :
    (Cid → Result (Unit {0})) → List MinerDeal → List Cid × Result (Unit {0})
restart_deals send [] = ([], ok tt)
restart_deals send (d ∷ ds) =
    let (sent, answer) = restart_deals send ds in
    if elem same d.state provider_finality_states
    then (sent, answer)
    else elim (send d.proposal_cid) [
      | err e ↦ (d.proposal_cid ∷ [], err e)
      | ok _ ↦ (d.proposal_cid ∷ sent, answer)
    ]

-- The deals that `AnnounceAllDealsToIndexer` announces.
unfoldable pub to_announce : List MinerDeal → List MinerDeal
to_announce [] = []
to_announce (d ∷ ds) =
    if elem same d.state states_known_by_sealing_subsystem
      && not (elem same d.state provider_finality_states)
    then d ∷ to_announce ds
    else to_announce ds

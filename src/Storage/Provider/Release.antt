-- ===== src/Storage/Provider/Release.antt =====
-- storagemarket/impl/providerstates: a storage provider's deal gives back the funds that it reserved
-- when it is published, and when it fails.
use go_fil_markets.Prelude.{
  ◌≡◌, refl, true, ◌||◌, Option, none, some, List, [], ◌∷◌, ◌++◌, arith, ◌∙◌, sym, ap, ok, ℕ,
  Bool-cases, inl, inr,
}
use go_fil_markets.Prelude.Int.{ℤ, pos, ◌+ℤ◌, ◌-ℤ◌, is_zero}
use go_fil_markets.Fsm.{Engine, settle, run, resolve, declared}
use go_fil_markets.Retrieval.Params.{Cid}
use go_fil_markets.Storage.Status.{StorageDealStatus, same}
use go_fil_markets.Storage.Amounts.{tracked, eq-add_zero, sub_self, is_zero-eq}
use go_fil_markets.Storage.Provider.Deal.{ProviderEvent, MinerDeal, provider_machine}
use go_fil_markets.Storage.Provider.Env.{ProviderEnv, Act, releases_funds, trigger, triggers}
use go_fil_markets.Storage.Provider.Table.{edges}
use go_fil_markets.Storage.Provider.Actions.{action, fire}
use go_fil_markets.Storage.Provider.Handlers.{release_reserved_funds, wait_for_publish}
use go_fil_markets.Storage.Provider.Closing.{discard_data, fail_deal}

-- What the node is asked to release.
abbrev pub given_back : List Act → ℤ
given_back [] = pos 0
given_back (releases_funds a f ∷ acts) = f +ℤ given_back acts
given_back (_ ∷ acts) = given_back acts

module _ (engine : Engine provider_machine) where
  -- An event under the documented meaning of the table.
  fire_lem :
      (e : ProviderEvent) (d : MinerDeal)
      → fire engine e d ≡ resolve provider_machine (declared same (edges e) d.state) (action e d)
  unfolding fire
  fire_lem e d = engine.process_lem (edges e) (action e) d

  abbrev after : ProviderEvent → MinerDeal → MinerDeal
  after e d = settle (fire engine) d (fire engine e d)

  after_failed :
      (d : MinerDeal)
      → d.state ≡ StorageDealStatus.failing
      → ((after ProviderEvent.provider_failed d).state ≡ StorageDealStatus.error)
        × ((after ProviderEvent.provider_failed d).funds_reserved ≡ d.funds_reserved)
  unfolding edges same action
  after_failed d s = rw (fire_lem ProviderEvent.provider_failed d) (ground arith)

  after_published :
      (i : ℕ) (c : Cid) (d : MinerDeal)
      → d.state ≡ StorageDealStatus.publishing
      → ((after (ProviderEvent.deal_published i c) d).state ≡ StorageDealStatus.staged)
        × ((after (ProviderEvent.deal_published i c) d).funds_reserved ≡ d.funds_reserved)
  unfolding edges same action
  after_published i c d s = rw (fire_lem (ProviderEvent.deal_published i c) d) (ground arith)

  after_released :
      (d : MinerDeal) (f : ℤ)
      → (same d.state StorageDealStatus.publishing || same d.state StorageDealStatus.failing) ≡ true
      → d.funds_reserved ≡ some f
      → ((after (ProviderEvent.funds_released f) d).state ≡ d.state)
        × ((after (ProviderEvent.funds_released f) d).funds_reserved ≡ some (f -ℤ f))
  unfolding edges same action
  after_released d f s r = rw (fire_lem (ProviderEvent.funds_released f) d) (ground arith)

  -- The deal has come to the state and keeps track of no funds; the node was asked for the amount.
  abbrev Released : MinerDeal → List Act → StorageDealStatus → ℤ → Type 0
  Released d acts t amount =
      ((run (fire engine) d (triggers acts)).state ≡ t)
      × (tracked (run (fire engine) d (triggers acts)).funds_reserved ≡ pos 0)
      × (given_back acts ≡ amount)

  -- An event that takes a state of the release to another and leaves the funds alone.
  abbrev Ends : StorageDealStatus → ProviderEvent → StorageDealStatus → Type 0
  Ends s e t =
      (d : MinerDeal)
      → d.state ≡ s
      → ((after e d).state ≡ t) × ((after e d).funds_reserved ≡ d.funds_reserved)

  release-Released :
      (d : MinerDeal) (o : Option ℤ) (e : ProviderEvent) (t : StorageDealStatus)
      → Ends d.state e t
      → (same d.state StorageDealStatus.publishing || same d.state StorageDealStatus.failing) ≡ true
      → d.funds_reserved ≡ o
      → Released d (release_reserved_funds d o ++ trigger e ∷ []) t (tracked o)
  unfolding run release_reserved_funds
  release-Released d none e t ends s r =
      let (ended, kept) = ends d refl in (ended, ap tracked (kept ∙ r), refl)
  release-Released d (some f) e t ends s r = elim (Bool-cases (is_zero f)) [
    | inl z ↦ rw z (
        let (ended, kept) = ends d refl in
        (ended, ap tracked (kept ∙ r) ∙ is_zero-eq f z, sym (is_zero-eq f z)))
    | inr z ↦ rw z (
        let (s', r') = after_released d f s r in
        let (ended, kept) = ends (after (ProviderEvent.funds_released f) d) s' in
        (ended, ap tracked (kept ∙ r') ∙ sub_self f, sym (eq-add_zero f)))
  ]

  -- The acts on the data come before, and trigger nothing.
  discard-Released :
      (d : MinerDeal) (acts : List Act) (t : StorageDealStatus) (amount : ℤ)
      → Released d acts t amount
      → Released d (discard_data d ++ acts) t amount
  unfolding discard_data
  discard-Released d acts t amount h = ground (arith, h)

  -- A storage provider's deal that fails gives back all the funds that it keeps track of: when the
  -- events of its entry function have come, it has ended with an error and keeps track of none, and
  -- the node was asked to release exactly what it had.
  pub failing_provider_releases :
      (d : MinerDeal)
      → d.state ≡ StorageDealStatus.failing
      → Released d (fail_deal d) StorageDealStatus.error (tracked d.funds_reserved)
  unfolding fail_deal same
  failing_provider_releases d s =
      discard-Released d _ StorageDealStatus.error (tracked d.funds_reserved) (
        release-Released d d.funds_reserved ProviderEvent.provider_failed StorageDealStatus.error
          (λ d' s'. after_failed d' (s' ∙ s)) (ground arith) refl)

  -- A storage provider's deal whose publication has landed gives back all the funds that it keeps
  -- track of: when the events of its entry function have come, it is staged and keeps track of none,
  -- and the node was asked to release exactly what it had.
  pub publication_releases :
      (env : ProviderEnv) (d : MinerDeal) (mcid final_cid : Cid) (deal_id : ℕ)
      → d.state ≡ StorageDealStatus.publishing
      → d.publish_cid ≡ some mcid
      → env.wait_for_publish_deals mcid d.proposal ≡ ok (deal_id, final_cid)
      → (acts : List Act) × (wait_for_publish env d d.publish_cid ≡ some acts)
        × Released d acts StorageDealStatus.staged (tracked d.funds_reserved)
  unfolding wait_for_publish same
  publication_releases env d mcid final_cid deal_id s c w = (
    release_reserved_funds d d.funds_reserved
        ++ trigger (ProviderEvent.deal_published deal_id final_cid) ∷ [],
    ground arith,
    release-Released d d.funds_reserved (ProviderEvent.deal_published deal_id final_cid)
        StorageDealStatus.staged (λ d' s'. after_published deal_id final_cid d' (s' ∙ s))
        (ground arith) refl,
  )

-- ===== src/Storage/Client/Release.antt =====
-- storagemarket/impl/clientstates: which failures give the reserved funds back, and which keep them.
use go_fil_markets.Prelude.{
  ℕ, ◌≡◌, refl, Option, none, some, String, List, [], ◌∷◌, ◌++◌, arith, ◌∙◌, sym, err, Bool-cases,
  ap, inl, inr,
}
use go_fil_markets.Prelude.Int.{ℤ, pos, ◌+ℤ◌, ◌-ℤ◌, is_zero}
use go_fil_markets.Fsm.{Engine, settle, run, resolve, declared}
use go_fil_markets.Storage.Status.{StorageDealStatus, same}
use go_fil_markets.Storage.Amounts.{tracked, eq-add_zero, sub_self, is_zero-eq}
use go_fil_markets.Storage.Client.Deal.{ClientEvent, ClientDeal, Texts, client_machine}
use go_fil_markets.Storage.Client.Env.{
  ClientEnv, Act, releases_funds, untags_peer, cleans_blockstore, trigger, triggers,
}
use go_fil_markets.Storage.Client.Table.{edges}
use go_fil_markets.Storage.Client.Actions.{action, fire}
use go_fil_markets.Storage.Client.Handlers.{release_reserved_funds, propose_deal}
use go_fil_markets.Storage.Client.Closing.{entry, entry_of, fail_deal}

-- What the node is asked to release.
abbrev pub given_back : List Act → ℤ
given_back [] = pos 0
given_back (releases_funds a f ∷ acts) = f +ℤ given_back acts
given_back (_ ∷ acts) = given_back acts

-- The events of an entry function, at the times that they come.
abbrev pub timed : (ClientEvent → ℕ) → List ClientEvent → List (ℕ × ClientEvent)
timed at [] = []
timed at (e ∷ es) = (at e, e) ∷ timed at es

-- The acts of a failing deal once the funds are released.
abbrev last_acts : ClientDeal → List Act
last_acts d =
    untags_peer d.miner d.proposal_cid
    ∷ cleans_blockstore d.data_ref.root
    ∷ trigger ClientEvent.client_failed
    ∷ []

module _ (engine : Engine client_machine) (texts : Texts) where
  -- An event under the documented meaning of the table.
  fire_lem :
      (now : ℕ) (e : ClientEvent) (d : ClientDeal)
      → fire engine texts (now, e) d
        ≡ resolve client_machine (declared same (edges e) d.state) (action texts now e d)
  unfolding fire
  fire_lem now e d = engine.process_lem (edges e) (action texts now e) d

  after_failed :
      (now : ℕ) (d : ClientDeal)
      → d.state ≡ StorageDealStatus.failing
      → ((settle (fire engine texts) d (fire engine texts (now, ClientEvent.client_failed) d)).state
          ≡ StorageDealStatus.error)
        × ((settle
              (fire engine texts)
              d
              (fire engine texts (now, ClientEvent.client_failed) d)).funds_reserved
            ≡ d.funds_reserved)
  unfolding edges same action
  after_failed now d s = rw (fire_lem now ClientEvent.client_failed d) (ground arith)

  after_released :
      (now : ℕ) (d : ClientDeal) (f : ℤ)
      → d.state ≡ StorageDealStatus.failing
      → d.funds_reserved ≡ some f
      → ((settle
            (fire engine texts)
            d
            (fire engine texts (now, ClientEvent.funds_released f) d)).state
          ≡ StorageDealStatus.failing)
        × ((settle
              (fire engine texts)
              d
              (fire engine texts (now, ClientEvent.funds_released f) d)).funds_reserved
            ≡ some (f -ℤ f))
  unfolding edges same action
  after_released now d f s r = rw (fire_lem now (ClientEvent.funds_released f) d) (ground arith)

  -- What the events of the acts leave of a deal that keeps track of the funds.
  abbrev Released : (ClientEvent → ℕ) → ClientDeal → List Act → ℤ → Type 0
  Released at d acts funds =
      ((run (fire engine texts) d (timed at (triggers acts))).state ≡ StorageDealStatus.error)
      × (tracked (run (fire engine texts) d (timed at (triggers acts))).funds_reserved ≡ pos 0)
      × (given_back acts ≡ funds)

  release-Released :
      (at : ClientEvent → ℕ) (d : ClientDeal) (o : Option ℤ)
      → d.state ≡ StorageDealStatus.failing
      → d.funds_reserved ≡ o
      → Released at d (release_reserved_funds d o ++ last_acts d) (tracked o)
  unfolding run release_reserved_funds
  release-Released at d none s r =
      let (ended, kept) = after_failed (at ClientEvent.client_failed) d s in
      (ended, ap tracked (kept ∙ r), refl)
  release-Released at d (some f) s r = elim (Bool-cases (is_zero f)) [
    | inl z ↦ rw z (
        let (ended, kept) = after_failed (at ClientEvent.client_failed) d s in
        (ended, ap tracked (kept ∙ r) ∙ is_zero-eq f z, sym (is_zero-eq f z)))
    | inr z ↦ rw z (
        let t = at (ClientEvent.funds_released f) in
        let d' =
          settle (fire engine texts) d (fire engine texts (t, ClientEvent.funds_released f) d) in
        let (s', r') = after_released t d f s r in
        let (ended, kept) = after_failed (at ClientEvent.client_failed) d' s' in
        (ended, ap tracked (kept ∙ r') ∙ sub_self f, sym (eq-add_zero f)))
  ]

  -- A storage client's deal that fails gives back all the funds that it keeps track of: when the
  -- events of its entry function have come, it has ended with an error and keeps track of none, and
  -- the node was asked to release exactly what it had.
  pub failing_client_releases :
      (at : ClientEvent → ℕ) (d : ClientDeal)
      → d.state ≡ StorageDealStatus.failing
      → Released at d (fail_deal d) (tracked d.funds_reserved)
  unfolding fail_deal
  failing_client_releases at d s = release-Released at d d.funds_reserved s refl

  -- An error is not left, and nothing is released in it.
  after_error :
      (now : ℕ) (e : ClientEvent) (d : ClientDeal)
      → d.state ≡ StorageDealStatus.error
      → ((settle (fire engine texts) d (fire engine texts (now, e) d)).state
          ≡ StorageDealStatus.error)
        × ((settle (fire engine texts) d (fire engine texts (now, e) d)).funds_reserved
            ≡ d.funds_reserved)
  unfolding edges same action
  after_error now ClientEvent.open_deal d s =
      rw (fire_lem now ClientEvent.open_deal d) (ground arith)
  after_error now e d s = rw (fire_lem now e d) (ground arith)

  error_rests :
      (es : List (ℕ × ClientEvent)) (d : ClientDeal)
      → d.state ≡ StorageDealStatus.error
      → ((run (fire engine texts) d es).state ≡ StorageDealStatus.error)
        × ((run (fire engine texts) d es).funds_reserved ≡ d.funds_reserved)
  unfolding run
  error_rests [] d s = (s, refl)
  error_rests ((now, e) ∷ es) d s =
      let d' = settle (fire engine texts) d (fire engine texts (now, e) d) in
      let (s', f) = after_error now e d s in let (s'', f') = error_rests es d' s' in (s'', f' ∙ f)

  after_write_failed :
      (now : ℕ) (e : String) (d : ClientDeal)
      → d.state ≡ StorageDealStatus.funds_reserved
      → ((settle
            (fire engine texts)
            d
            (fire engine texts (now, ClientEvent.write_proposal_failed e) d)).state
          ≡ StorageDealStatus.error)
        × ((settle
              (fire engine texts)
              d
              (fire engine texts (now, ClientEvent.write_proposal_failed e) d)).funds_reserved
            ≡ d.funds_reserved)
  unfolding edges same action
  after_write_failed now e d s =
      rw (fire_lem now (ClientEvent.write_proposal_failed e) d) (ground arith)

  -- A storage client that cannot reach the provider with its proposal keeps the funds that it
  -- reserved: the entry function triggers only the failure, which ends the deal with an error past
  -- the state that releases funds, and whatever events come later, the deal stays there with them.
  pub write_failure_keeps_funds :
      (env : ClientEnv) (d : ClientDeal) (e : String) (now : ℕ) (es : List (ℕ × ClientEvent))
      → d.state ≡ StorageDealStatus.funds_reserved
      → env.new_deal_stream d.miner ≡ err e
      → (entry env d ≡ some (trigger (ClientEvent.write_proposal_failed e) ∷ []))
        × ((run (fire engine texts) d ((now, ClientEvent.write_proposal_failed e) ∷ es)).state
            ≡ StorageDealStatus.error)
        × ((run
              (fire engine texts)
              d
              ((now, ClientEvent.write_proposal_failed e) ∷ es)).funds_reserved
            ≡ d.funds_reserved)
  unfolding run entry entry_of propose_deal
  write_failure_keeps_funds env d e now es s w =
      let d' =
        settle (fire engine texts) d
          (fire engine texts (now, ClientEvent.write_proposal_failed e) d) in
      let (s', f) = after_write_failed now e d s in
      let (s'', f') = error_rests es d' s' in (ground arith, s'', f' ∙ f)

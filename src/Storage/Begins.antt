-- ===== src/Storage/Begins.antt =====
-- storagemarket/impl/client.go and storagemarket/impl/provider.go together: the deals that a client and
-- a provider begin for a proposal.
use go_fil_markets.Prelude.{
  ltb, Bool, true, false, ◌≡◌, refl, sym, ap, ◌∙◌, subst, Option, none, some, List, [], ◌∷◌, String,
  Result, ok, err, arith, Leaves, bind-Leaves, if◌then◌else◌,
}
use text.Mathlib.Text.{◌==◌ as str_eq}
use mathlib.Core.Option.{some-injective}
use go_fil_markets.Text.{told-Leaves}
use go_fil_markets.Retrieval.Params.{Cid}
use go_fil_markets.Storage.Client.Deal.{ClientDeal, DataRef}
use go_fil_markets.Storage.Provider.Deal.{FilePath, MinerDeal, ProviderEvent}
use go_fil_markets.Storage.Proposing.{
  AsIpld, ProposeEnv, ProposeParams, ProposeAct, comm_p, collateral_for, label_field, deal_proposal,
  add_multiaddrs, prepared, tracked, tracked_or_failed, propose_storage_deal,
}
use go_fil_markets.Storage.Receiving.{
  ReceivedProposal, ReceiveEnv, ReceiveAct, received_deal, closed_on_error, after, track,
  with_inbound_car, receive_deal, handle_deal_stream,
}

-- The deal that is begun, if one is.
abbrev pub begun_by_client : List ProposeAct → Option ClientDeal
begun_by_client [] = none
begun_by_client (ProposeAct.begins d ∷ acts) = some d
begun_by_client (_ ∷ acts) = begun_by_client acts

abbrev pub begun : List ReceiveAct → Option MinerDeal
begun [] = none
begun (ReceiveAct.begins d ∷ acts) = some d
begun (_ ∷ acts) = begun acts

-- The events that are sent to deals.
abbrev pub sent : List ReceiveAct → List (Cid × ProviderEvent)
sent [] = []
sent (ReceiveAct.sends c e ∷ acts) = (c, e) ∷ sent acts
sent (_ ∷ acts) = sent acts

-- The proposal that the client's deal sends.
abbrev pub message_of : ClientDeal → ReceivedProposal
message_of d = record {
  deal_proposal = some (d.proposal, d.client_signature);
  piece = some d.data_ref;
  fast_retrieval = d.fast_retrieval;
}

-- A deal of the proposal's parameters, whose CID is that of its signed proposal.
abbrev pub Begun : ProposeEnv → ProposeParams → ClientDeal → Type 0
Begun env p d =
    (env.as_ipld d.proposal d.client_signature ≡ ok d.proposal_cid)
    × (d.data_ref ≡ p.data_ref)
    × (d.miner ≡ p.info.peer_id)

abbrev Prepares : ProposeEnv → ProposeParams → ClientDeal × Cid → Type 0
Prepares env p x = Begun env p x.0

if-Leaves :
    {A : Type 0} (P : A → Type 0) (b : Bool) (r r' : Result A)
    → Leaves P r
    → Leaves P r'
    → Leaves P (if b then r else r')
if-Leaves P true r r' h h' = h
if-Leaves P false r r' h h' = h'

prepared-Begun : (env : ProposeEnv) (p : ProposeParams) → Leaves (Prepares env p) (prepared env p)
unfolding prepared
prepared-Begun env p =
    let P = Prepares env p in
    told-Leaves P _ (add_multiaddrs env p.info.address) _ (λ _ _.
      told-Leaves P _ (env.get_blockstore p.data_ref.root) _ (λ _ _.
        told-Leaves P _ (comm_p env p.data_ref) _ (λ piece _.
          let size = env.padded piece.1 in
          if-Leaves P (ltb p.info.sector_size size) _ _ tt (
            bind-Leaves P (collateral_for env p size p.collateral) _ (λ collateral _.
              told-Leaves P _ (label_field env p.data_ref.root) _ (λ label _.
                told-Leaves P _
                  (env.sign_proposal p.addr (deal_proposal p piece.0 size collateral label)) _
                  (λ signed _.
                    told-Leaves P _ (env.as_ipld signed.0 signed.1) _
                      (λ c h. (h, refl, refl)))))))))

tracked-begun :
    (env : ProposeEnv) (p : ProposeParams) (d : ClientDeal) (piece : Cid)
    → begun_by_client (tracked env p d piece).acts ≡ some d
tracked-begun env p d piece = ground arith

-- What is begun was prepared.
tracked-Begun :
    (env : ProposeEnv) (p : ProposeParams) (d : ClientDeal) (r : Result (ClientDeal × Cid))
    → Leaves (Prepares env p) r
    → begun_by_client (tracked_or_failed env p r).acts ≡ some d
    → Begun env p d
tracked-Begun env p d (err e) l h = absurd (ground (arith, h))
tracked-Begun env p d (ok (d', piece)) l h =
    subst (Begun env p) (some-injective d' d (sym (tracked-begun env p d' piece) ∙ h)) l

propose-Begun :
    (env : ProposeEnv) (p : ProposeParams) (d : ClientDeal)
    → begun_by_client (propose_storage_deal env p).acts ≡ some d
    → Begun env p d
unfolding propose_storage_deal
propose-Begun env p d h = tracked-Begun env p d (prepared env p) (prepared-Begun env p) h

-- The deal is begun and opened.
abbrev pub Opened : List ReceiveAct → MinerDeal → Type 0
Opened acts d = (begun acts ≡ some d) × (sent acts ≡ (d.proposal_cid, ProviderEvent.open_deal) ∷ [])

-- The file that is made first, if one is.
abbrev file_made : Option FilePath → List ReceiveAct
file_made none = []
file_made (some path) = ReceiveAct.creates path ∷ []

-- The file of a deal, none for one with a manual transfer.
abbrev pub car_path : FilePath → Bool → FilePath
car_path path true = ""
car_path path false = path

abbrev opening : MinerDeal → List ReceiveAct
opening d =
    ReceiveAct.begins d
    ∷ ReceiveAct.adds_stream d.proposal_cid
    ∷ ReceiveAct.sends d.proposal_cid ProviderEvent.open_deal
    ∷ []

module _ (env : ReceiveEnv) where
  -- Whatever the state machine answers to the event, the deal was begun and opened.
  opening-Opened :
      (d : MinerDeal) (o : Option FilePath) (r : Result (Unit {0}))
      → Opened (closed_on_error (after (file_made o) (opening d, r))) d
  opening-Opened d none (ok u) = (refl, refl)
  opening-Opened d none (err e) = (refl, refl)
  opening-Opened d (some path) (ok u) = (refl, refl)
  opening-Opened d (some path) (err e) = (refl, refl)

  track-opening :
      (d : MinerDeal)
      → env.begin d.proposal_cid d ≡ ok tt
      → env.add_stream d.proposal_cid ≡ ok tt
      → track env d ≡ (opening d, env.send d.proposal_cid ProviderEvent.open_deal)
  unfolding track
  track-opening d b a = rw (b, track) (rw a refl)

  car-Opened :
      (piece : DataRef) (deal : FilePath → MinerDeal) (path : FilePath) (manual : Bool)
      → str_eq piece.transfer_type "manual" ≡ manual
      → env.create_temp ≡ ok path
      → env.close_temp path ≡ ok tt
      → ((x : FilePath) → env.begin (deal x).proposal_cid (deal x) ≡ ok tt)
      → ((x : FilePath) → env.add_stream (deal x).proposal_cid ≡ ok tt)
      → Opened (closed_on_error (with_inbound_car env piece deal)) (deal (car_path path manual))
  unfolding with_inbound_car
  car-Opened piece deal path true m t q b a =
      rw (m, with_inbound_car)
        (rw (track-opening (deal "") (b "") (a "")) (opening-Opened (deal "") none _))
  car-Opened piece deal path false m t q b a =
      rw (m, with_inbound_car)
        (rw t (
          rw q (
            rw (track-opening (deal path) (b path) (a path))
              (opening-Opened (deal path) (some path) _))))

  -- A proposal that is read, and whose deal is not known, is taken on.
  receive_deal-new :
      (d : ClientDeal) (e : String)
      → env.read_deal_proposal ≡ ok (message_of d)
      → env.as_ipld d.proposal d.client_signature ≡ ok d.proposal_cid
      → env.deals d.proposal_cid ≡ err e
      → receive_deal env
        ≡ with_inbound_car env d.data_ref (
            received_deal env d.proposal d.client_signature d.proposal_cid d.data_ref
              d.fast_retrieval)
  unfolding receive_deal
  receive_deal-new d e r c k = cc

-- The provider's deal is about what the client's deal is about.
abbrev pub SameDeal : ClientDeal → MinerDeal → Type 0
SameDeal c d =
    (d.proposal ≡ c.proposal)
    × (d.proposal_cid ≡ c.proposal_cid)
    × (d.ref ≡ c.data_ref)
    × (d.fast_retrieval ≡ c.fast_retrieval)

-- A client and a provider begin the same deal: when the client has begun a deal for a proposal and
-- its message reaches a provider that does not know the deal, and whose file store and trackers do
-- not fail, the provider begins and opens a deal of that proposal, its CID, its data and its flag,
-- with a file for the data unless the transfer is manual. Both compute the CID of a proposal in the
-- same way.
pub proposal_begun :
    (client_env : ProposeEnv) (p : ProposeParams) (c : ClientDeal) (env : ReceiveEnv) (e : String)
    (path : FilePath)
    → begun_by_client (propose_storage_deal client_env p).acts ≡ some c
    → env.read_deal_proposal ≡ ok (message_of c)
    → env.as_ipld ≡ client_env.as_ipld
    → env.deals c.proposal_cid ≡ err e
    → env.create_temp ≡ ok path
    → env.close_temp path ≡ ok tt
    → ((d : MinerDeal) → env.begin c.proposal_cid d ≡ ok tt)
    → env.add_stream c.proposal_cid ≡ ok tt
    → (d : MinerDeal) × Opened (handle_deal_stream env) d
      × SameDeal c d
      × (d.inbound_car ≡ car_path path (str_eq p.data_ref.transfer_type "manual"))
unfolding handle_deal_stream
proposal_begun client_env p c env e path h r i k t q b a =
    let (named, same_data, _) = propose-Begun client_env p c h in
    let deal =
      received_deal env c.proposal c.client_signature c.proposal_cid c.data_ref c.fast_retrieval in
    let manual = str_eq c.data_ref.transfer_type "manual" in
    (
      deal (car_path path manual),
      rw
          (receive_deal-new env c e r
            (ap (λ (f : AsIpld). f c.proposal c.client_signature) i ∙ named) k)
          (car-Opened env c.data_ref deal path manual refl t q (λ x. b (deal x)) (λ x. a)),
      (refl, refl, refl, refl),
      ap (λ (x : DataRef). car_path path (str_eq x.transfer_type "manual")) same_data,
    )

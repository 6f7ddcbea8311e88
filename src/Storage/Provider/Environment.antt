-- ===== src/Storage/Provider/Environment.antt =====
-- storagemarket/impl/provider_environments.go: what the environment of the provider's deals does beyond
-- passing a call on; commp/commp.go: `GenerateCommp`. The CAR reader, the commitment writer, the streams
-- and the stores are parameters.
use go_fil_markets.Prelude.{
  ℕ, ltb, Bool, true, not, Option, none, some, String, Result, ok, err, ◌>>=◌, if◌then◌else◌,
}
use go_fil_markets.Prelude.Int.{ℤ, ◌-ℤ◌, is_zero}
use go_fil_markets.Prelude.Words.{int64}
use go_fil_markets.Text.{wrap, enclose, decimal, decimal_ℤ, told}
use go_fil_markets.Retrieval.Params.{Cid}
use go_fil_markets.Stores.Tracking.{Tracked, get_or_open, untrack_rw}
use go_fil_markets.Storage.Proposal.{StorageAsk}
use go_fil_markets.Storage.Ask.{SignedAsk}
use go_fil_markets.Storage.Provider.Deal.{FilePath, MinerDeal}
use go_fil_markets.Storage.Provider.Env.{Response}
use go_fil_markets.Storage.Connections.{Connections, deal_stream, disconnect}

-- A CAR file that is open: its payload's reader and size, the answers of the commitment writer, and
-- the close.
pub record CarReader : Type 0 where
  pub data_reader : Result (Unit {0})
  pub data_size : ℕ
  -- The bytes that are written, an int64, and the commitment with its padded size.
  pub copy : Result ℤ
  pub sum : Result (Cid × ℕ)
  pub close : Result (Unit {0})

abbrev padded_up : (Cid → ℕ → ℕ → Result Cid) → ℕ → Cid × ℕ → Result Cid
padded_up pad target piece = if ltb piece.1 target then pad piece.0 piece.1 target else ok piece.0

-- `GenerateCommp`
unfoldable pub generate_commp : (Cid → ℕ → ℕ → Result Cid) → CarReader → ℕ → Result Cid
generate_commp pad car target = told "failed to write to CommP writer" car.copy >>= (λ written.
    if not (is_zero (written -ℤ int64 car.data_size))
    then err (
        enclose "number of bytes written to CommP writer " (decimal_ℤ written)
          (enclose " not equal to the CARv1 payload size " (decimal car.data_size) ""))
    else told "failed to get CommP" car.sum >>= padded_up pad target)

abbrev of_reader : (Cid → ℕ → ℕ → Result Cid) → (String → String) → CarReader → ℕ → Result Cid
of_reader pad named car size =
    told (named "failed to get data reader over CAR file") car.data_reader
    >>= (λ _. generate_commp pad car size)

-- A close that fails spoils a commitment, but no error.
abbrev after_close : (String → String) → Result (Unit {0}) → Result Cid → Result (Cid × FilePath)
after_close named closed (err e) = err e
after_close named (ok _) (ok c) = ok (c, "")
after_close named (err e) (ok c) = err (wrap (named "failed to close CARv2 reader") e)

-- `GeneratePieceCommitment`; the texts name the proposal and the file.
unfoldable pub generate_piece_commitment :
    (Cid → ℕ → ℕ → Result Cid)
    → (Cid → String)
    → (String → Result CarReader)
    → Cid
    → String
    → ℕ
    → Result (Cid × FilePath)
unfolding generate_commp
generate_piece_commitment pad cid_text open_reader c path size =
    let named : String → String =
      λ what. enclose what ", proposalCid=" (enclose (cid_text c) ", carPath=" path) in
    told (named "failed to get CARv2 reader") (open_reader path)
    >>= (λ car. after_close named car.close (of_reader pad named car size))

abbrev finalized : (ℕ → Result (Unit {0})) → Option ℕ → Result (Unit {0})
finalized finalize none = ok tt
finalized finalize (some bs) = told "failed to finalize read/write blockstore" (finalize bs)

-- `FinalizeBlockstore`: a blockstore that is not tracked was cleaned up before.
unfoldable pub finalize_blockstore : (ℕ → Result (Unit {0})) → Tracked → ℕ → Result (Unit {0})
finalize_blockstore finalize stores key = finalized finalize (stores key)

-- `TerminateBlockstore`: the blockstore is no longer tracked and its file is removed; errors are only
-- logged.
unfoldable pub terminate_blockstore : Tracked → ℕ → String → Tracked × String × Result (Unit {0})
terminate_blockstore stores key path = (untrack_rw stores key, path, ok tt)

-- `Ask`; `none` is the undefined ask.
abbrev pub current_ask : Option SignedAsk → Option StorageAsk
current_ask none = none
current_ask (some a) = some a.ask

-- `RunCustomDecisionLogic`
abbrev pub run_custom_decision_logic :
    Option (MinerDeal → Result (Bool × String)) → MinerDeal → Result (Bool × String)
run_custom_decision_logic none d = ok (true, "")
run_custom_decision_logic (some decide) d = decide d

-- The answer of a stream to a response, which ends the connection if it is an error.
abbrev pub written :
    (ℕ → Result (Unit {0}))
    → Connections
    → Cid
    → Result (Unit {0})
    → Connections × Result (Unit {0})
written close conns c (ok _) = (conns, ok tt)
written close conns c (err e) = ((disconnect close conns c).0, err e)

-- `SendSignedResponse`
unfoldable pub send_signed_response :
    (ℕ → Result (Unit {0}))
    → (Response → Result ℕ)
    → (ℕ → Response → ℕ → Result (Unit {0}))
    → Connections
    → Response
    → Connections × Result (Unit {0})
send_signed_response close sign write conns r = elim (deal_stream conns r.proposal) [
  | err e ↦ (conns, err (wrap "couldn't send response" e))
  | ok stream ↦ elim (sign r) [
    | err e ↦ (conns, err (wrap "failed to sign response message" e))
    | ok sig ↦ written close conns r.proposal (write stream r sig)
  ]
]

-- `providerStoreGetter.Get`: the blockstore of a deal over its file.
unfoldable pub store_of :
    Result (Unit {0})
    → (Cid → Result MinerDeal)
    → (String → Cid → Result ℕ)
    → Tracked
    → Cid
    → ℕ
    → Result (Tracked × ℕ)
store_of ready deals open_store stores c key = ready >>= (λ _.
    told "failed to get deal state" (deals c)
    >>= (λ d. get_or_open open_store stores key d.inbound_car d.ref.root))

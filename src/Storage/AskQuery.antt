-- ===== src/Storage/AskQuery.antt =====
-- storagemarket/impl/provider.go: `HandleAskStream`; storagemarket/impl/client.go: `GetAsk`, by which a
-- client asks a provider for its ask. The network and the node are parameters; the
-- addresses that the peer store is given are left out.
use go_fil_markets.Prelude.{
  ℕ, ◌==◌, Bool, true, false, not, ◌≡◌, Option, none, some, Result, ok, err, if◌then◌else◌,
}
use go_fil_markets.Prelude.Int.{ℤ}
use go_fil_markets.Text.{told}
use go_fil_markets.Retrieval.Client.Deal.{Address, PeerId}
use go_fil_markets.Storage.Proposal.{StorageAsk}
use go_fil_markets.Storage.Ask.{SignedAsk}

-- A signed ask as the network gives it: its pointers may be nil.
pub record ReceivedAsk : Type 0 where
  pub ask : Option StorageAsk
  pub signature : Option ℕ

abbrev pub received : SignedAsk → ReceivedAsk
received a = record { ask = some a.ask; signature = some a.signature }

-- `HandleAskStream`, on the provider's actor, the miner of the request, and what `GetAsk` of the
-- stored ask returns: the ask of the response.
unfoldable pub handle_ask : Address → Option SignedAsk → Address → Option ReceivedAsk
handle_ask actor none miner = none
handle_ask actor (some a) miner = if not (actor == miner) then none else some (received a)

-- `StorageProviderInfo`, with the fields that the asking reads.
pub record StorageProviderInfo : Type 0 where
  pub address : Address
  pub worker : Address
  pub sector_size : ℕ
  pub peer_id : PeerId

pub record ClientAskEnv : Type 0 where
  pub new_ask_stream : PeerId → Result (Unit {0})
  pub write_ask_request : Address → Result (Unit {0})
  -- The ask of the response, and the bytes that are signed.
  pub read_ask_response : Result (Option ReceivedAsk × ℕ)
  pub get_chain_head : Result (ℕ × ℤ)
  pub verify_signature : ℕ → Address → ℕ → ℕ → Result Bool

abbrev verified : StorageAsk → Result Bool → Result StorageAsk
verified a (err e) = err e
verified a (ok false) = err "ask was not properly signed"
verified a (ok true) = ok a

-- The checks of a response, `none` where a nil pointer is followed.
unfoldable pub check_ask_response :
    ClientAskEnv → StorageProviderInfo → Option ReceivedAsk → ℕ → Option (Result StorageAsk)
check_ask_response env info none bytes = some (err "got no ask back")
check_ask_response env info (some r) bytes = elim r.ask [
  | none ↦ none
  | some a ↦
      if not (a.miner == info.address)
      then some (err "got back ask for wrong miner")
      else elim env.get_chain_head [
        | err e ↦ some (err e)
        | ok (tok, epoch) ↦ elim r.signature [
          | none ↦ none
          | some sig ↦ some (verified a (env.verify_signature sig info.worker bytes tok))
        ]
      ]
]

-- The client's `GetAsk`.
unfoldable pub get_ask : ClientAskEnv → StorageProviderInfo → Option (Result StorageAsk)
unfolding check_ask_response
get_ask env info = elim (told "failed to open stream to miner" (env.new_ask_stream info.peer_id)) [
  | err e ↦ some (err e)
  | ok _ ↦ elim (told "failed to send ask request" (env.write_ask_request info.address)) [
    | err e ↦ some (err e)
    | ok _ ↦ elim (told "failed to read ask response" env.read_ask_response) [
      | err e ↦ some (err e)
      | ok (out, bytes) ↦ check_ask_response env info out bytes
    ]
  ]
]

-- The client's request reaches the provider, and the response the client.
pub record Linked (env : ClientAskEnv) (actor : Address) (stored : Option SignedAsk)
    (info : StorageProviderInfo) : Type 0 where
  pub bytes : ℕ
  pub opens : env.new_ask_stream info.peer_id ≡ ok tt
  pub writes : env.write_ask_request info.address ≡ ok tt
  pub reads : env.read_ask_response ≡ ok (handle_ask actor stored info.address, bytes)

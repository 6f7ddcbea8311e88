-- ===== src/Discovery/Local.antt =====
-- discovery/impl/local.go: `AddPeer`, `hasPeer` and `GetPeers` over a datastore; retrievalmarket/types.go:
-- `RetrievalPeer`. The datastore with its documented laws and the encoding are parameters.
use go_fil_markets.Prelude.{
  ℕ, ◌==◌, Bool, true, false, ◌&&◌, ◌||◌, ◌≡◌, Option, none, some, List, [], ◌∷◌, ◌++◌, Result, ok,
  err, ◌>>=◌, if◌then◌else◌,
}
use go_fil_markets.Retrieval.Params.{Cid}
use go_fil_markets.Piecestore.Table.{present}
use go_fil_markets.Retrieval.Client.Deal.{Address, PeerId}

pub record RetrievalPeer : Type 0 where
  pub address : Address
  pub id : PeerId
  pub piece_cid : Option Cid

-- A datastore of bytes, as github.com/ipfs/go-datastore documents it. `none` is the error ErrNotFound.
pub record Datastore (S B : Type 0) : Type 0 where
  pub get : S → ℕ → Result (Option B)
  pub has : S → ℕ → Result Bool
  pub put : S → ℕ → B → Result S
  pub has_lem :
      (s : S) (k : ℕ) (b : Bool) (r : Option B) → has s k ≡ ok b → get s k ≡ ok r → b ≡ present r
  pub put_lem :
      (s s' : S) (k : ℕ) (b : B)
      → put s k b ≡ ok s'
      → (get s' k ≡ ok (some b)) × ((k' : ℕ) → (k' == k) ≡ false → get s' k' ≡ get s k')

-- The encoding of the peers of a payload, which can be read back, and the key of a payload, which is
-- made of the hash of its CID.
pub record PeersCodec (B : Type 0) : Type 0 where
  pub dump : List RetrievalPeer → Result B
  pub read : B → Result (List RetrievalPeer)
  pub read_lem : (ps : List RetrievalPeer) (b : B) → dump ps ≡ ok b → read b ≡ ok ps
  pub key_of : Cid → ℕ

abbrev pub both_nil : Option Cid → Option Cid → Bool
both_nil none none = true
both_nil _ _ = false

-- Go's `==` of a peer that was decoded just now and another: their piece CIDs are pointers, and those
-- of different peers are the same only if both are nil.
abbrev pub same_peer : RetrievalPeer → RetrievalPeer → Bool
same_peer p q = p.address == q.address && p.id == q.id && both_nil p.piece_cid q.piece_cid

-- `hasPeer`
abbrev pub has_peer : List RetrievalPeer → RetrievalPeer → Bool
has_peer [] peer = false
has_peer (p ∷ ps) peer = same_peer p peer || has_peer ps peer

module _ {S B : Type 0} (ds : Datastore S B) (codec : PeersCodec B) where
  unfoldable pub write_peers : S → ℕ → List RetrievalPeer → Result S
  write_peers s k ps = codec.dump ps >>= (λ b. ds.put s k b)

  abbrev pub add_to : S → ℕ → RetrievalPeer → Result (Option B) → Result S
  add_to s k peer (err e) = err e
  add_to s k peer (ok none) = err "datastore: key not found"
  add_to s k peer (ok (some b)) =
      codec.read b >>= (λ ps. if has_peer ps peer then ok s else write_peers s k (ps ++ peer ∷ []))

  -- `AddPeer`
  unfoldable pub add_peer : S → Cid → RetrievalPeer → Result S
  unfolding write_peers
  add_peer s c peer = ds.has s (codec.key_of c) >>= (λ exists.
      if exists
      then add_to s (codec.key_of c) peer (ds.get s (codec.key_of c))
      else write_peers s (codec.key_of c) (peer ∷ []))

  abbrev pub decoded : Result (Option B) → Result (List RetrievalPeer)
  decoded (err e) = err e
  decoded (ok none) = ok []
  decoded (ok (some b)) = codec.read b

  -- `GetPeers`
  unfoldable pub get_peers : S → Cid → Result (List RetrievalPeer)
  get_peers s c = decoded (ds.get s (codec.key_of c))

-- ===== src/Examples/Peers.antt =====
-- The peers of a payload in a datastore that never fails.
use go_fil_markets.Prelude.{
  ℕ, ◌==◌, ◌≡◌, refl, sym, ap, Bool, false, Option, none, some, List, [], ◌∷◌, Result, ok, subst,
  Leaves, ◌⊎◌,
}
use go_fil_markets.Retrieval.Params.{Cid}
use go_fil_markets.Piecestore.Table.{Cells, put, put-Put, present}
use go_fil_markets.Discovery.Local.{
  RetrievalPeer, Datastore, PeersCodec, write_peers, add_peer, get_peers,
}
use go_fil_markets.Discovery.Peers.{Listed, peer_added, piece_peer_repeated}

-- What a datastore that never fails says of a key.
abbrev Agrees : {B : Type 0} → Option B → Result Bool → Result (Option B) → Type 0
Agrees o (ok b) (ok r) = b ≡ present r
Agrees o _ _ = Unit

abbrev Stored : {B : Type 0} → Cells B → ℕ → B → Cells B → Type 0
Stored s k b s' =
    (ok (s' k) ≡ ok (some b)) × ((k' : ℕ) → (k' == k) ≡ false → ok (s' k') ≡ ok (s k'))

put-Stored : {B : Type 0} (s : Cells B) (k : ℕ) (b : B) → Stored s k b (put s k b)
put-Stored s k b = let (here, others) = put-Put s k b in (ap ok here, λ k' n. ap ok (others k' n))

abbrev datastore : Datastore (Cells (List RetrievalPeer)) (List RetrievalPeer)
datastore = record {
  get = λ s k. ok (s k);
  has = λ s k. ok (present (s k));
  put = λ s k b. ok (put s k b);
  has_lem = λ s k b r h g.
      subst (λ x. Agrees (s k) x (ok r)) h
        (subst (λ y. Agrees (s k) (ok (present (s k))) y) g refl);
  put_lem = λ s s' k b h. subst (Leaves (Stored s k b)) h (put-Stored s k b);
}

abbrev peers_codec : PeersCodec (List RetrievalPeer)
peers_codec = record {
  dump = λ ps. ok ps;
  read = λ ps. ok ps;
  read_lem = λ ps b h. sym h;
  key_of = λ c. c;
}

abbrev peer : RetrievalPeer
peer = record { address = 9; id = 5; piece_cid = some 40 }

abbrev empty : Cells (List RetrievalPeer)
empty k = none

abbrev once : Cells (List RetrievalPeer)
once = put empty 70 (peer ∷ [])

abbrev twice : Cells (List RetrievalPeer)
twice = put once 70 (peer ∷ peer ∷ [])

peer_added_example :
    (new : List RetrievalPeer) × (get_peers datastore peers_codec once 70 ≡ ok new)
    × ((Listed [] peer × (new ≡ [])) ⊎ ((¬ Listed [] peer) × (new ≡ peer ∷ [])))
    × ((c : Cid)
        → (c == 70) ≡ false
        → get_peers datastore peers_codec once c ≡ get_peers datastore peers_codec empty c)
unfolding get_peers add_peer write_peers
peer_added_example = peer_added datastore peers_codec empty once 70 [] peer refl refl

piece_peer_repeated_example : get_peers datastore peers_codec twice 70 ≡ ok (peer ∷ peer ∷ [])
unfolding get_peers add_peer write_peers
piece_peer_repeated_example =
    piece_peer_repeated datastore peers_codec (once ∷ twice ∷ []) empty 70 [] peer 40 refl refl
      (refl, (refl, tt))

-- ===== src/Discovery/Peers.antt =====
-- discovery/impl/local.go: what `AddPeer` leaves for `GetPeers`.
use go_fil_markets.Prelude.{
  ℕ, ◌==◌, Bool, true, false, ◌≡◌, refl, sym, ap, ◌∙◌, subst, Option, none, some, List, [], ◌∷◌,
  ◌++◌, Result, ok, err, if◌then◌else◌, Leaves, bind-Leaves, Leaves-ok, arith, ◌⊎◌, inl, inr,
  Bool-cases,
}
use mathlib.Core.Logic.Or
use mathlib.Core.HLevel.{⊥_prop}
use mathlib.Core.List.{
  Mem, append-nil, append_assoc, mem-cons_self, mem-cons_of_mem, not-mem-nil, eq-or-mem_of_mem-cons,
}
use go_fil_markets.Retrieval.Params.{Cid}
use go_fil_markets.Discovery.Local.{
  RetrievalPeer, Datastore, PeersCodec, has_peer, same_peer, write_peers, add_to, add_peer, decoded,
  get_peers,
}

-- The peers after a peer was added.
abbrev joined : List RetrievalPeer → RetrievalPeer → List RetrievalPeer
joined ps peer = if has_peer ps peer then ps else ps ++ peer ∷ []

-- The peer is in the list and has no piece.
abbrev pub Listed : List RetrievalPeer → RetrievalPeer → Type 0
Listed ps peer = Mem peer ps × (peer.piece_cid ≡ none)

same_peer-eq : (p q : RetrievalPeer) → same_peer p q ≡ true → (p ≡ q) × (q.piece_cid ≡ none)
same_peer-eq p q h = ground (arith, h)

same_peer_self : (p : RetrievalPeer) → p.piece_cid ≡ none → same_peer p p ≡ true
same_peer_self p h = ground (arith, h)

has_peer-Listed :
    (ps : List RetrievalPeer) (peer : RetrievalPeer) → has_peer ps peer ≡ true → Listed ps peer
has_peer-Listed [] peer h = absurd (ground (arith, h))
has_peer-Listed (p ∷ ps) peer h = elim (Bool-cases (same_peer p peer)) [
  | inl q ↦
      let (e, no_piece) = same_peer-eq p peer q in
      (subst (λ x. Mem x (p ∷ ps)) e mem-cons_self, no_piece)
  | inr q ↦
      let (m, no_piece) = has_peer-Listed ps peer (ground (arith, h, q)) in
      (mem-cons_of_mem p m, no_piece)
]

not-Listed :
    (ps : List RetrievalPeer) (peer : RetrievalPeer) → has_peer ps peer ≡ false → ¬ Listed ps peer
not-Listed [] peer h (m, _) = not-mem-nil m
not-Listed (p ∷ ps) peer h (m, no_piece) =
    Or.elim ⊥_prop (eq-or-mem_of_mem-cons m)
      (λ e. ground (arith, h, same_peer_self peer no_piece, e))
      (λ m'. not-Listed ps peer (ground (arith, h)) (m', no_piece))

joined-cases :
    (ps : List RetrievalPeer) (peer : RetrievalPeer)
    → (Listed ps peer × (joined ps peer ≡ ps))
      ⊎ ((¬ Listed ps peer) × (joined ps peer ≡ ps ++ peer ∷ []))
joined-cases ps peer = elim (Bool-cases (has_peer ps peer)) [
  | inl q ↦ rw q (inl (has_peer-Listed ps peer q, refl))
  | inr q ↦ rw q (inr (not-Listed ps peer q, refl))
]

abbrev got : Result (List RetrievalPeer) → List RetrievalPeer
got (ok ps) = ps
got (err e) = []

if-false : {A : Type 0} (b : Bool) (x y : A) → b ≡ false → (if b then x else y) ≡ y
if-false b x y h = rw h refl

module _ {S B : Type 0} (ds : Datastore S B) (codec : PeersCodec B) (s : S) where
  -- The store has the peers under the key, and under others what it had.
  abbrev Holds : ℕ → List RetrievalPeer → S → Type 0
  Holds k ps s' =
      (decoded ds codec (ds.get s' k) ≡ ok ps)
      × ((k' : ℕ) → (k' == k) ≡ false → ds.get s' k' ≡ ds.get s k')

  write_peers-Holds :
      (k : ℕ) (ps : List RetrievalPeer) → Leaves (Holds k ps) (write_peers ds codec s k ps)
  unfolding write_peers
  write_peers-Holds k ps = bind-Leaves (Holds k ps) (codec.dump ps) _ (λ b d.
      Leaves-ok (Holds k ps) (ds.put s k b) (λ s' p.
        let (found, others) = ds.put_lem s s' k b p in
        (ap (decoded ds codec) found ∙ codec.read_lem ps b d, others)))

  joined-Holds :
      (k : ℕ) (ps : List RetrievalPeer) (peer : RetrievalPeer) (b : Bool)
      → decoded ds codec (ds.get s k) ≡ ok ps
      → has_peer ps peer ≡ b
      → Leaves
          (Holds k (if b then ps else ps ++ peer ∷ []))
          (if b then ok s else write_peers ds codec s k (ps ++ peer ∷ []))
  joined-Holds k ps peer true g h = (g, λ k' _. refl)
  joined-Holds k ps peer false g h = write_peers-Holds k (ps ++ peer ∷ [])

  found-Holds :
      (k : ℕ) (ps : List RetrievalPeer) (peer : RetrievalPeer) (b : B)
      → ds.get s k ≡ ok (some b)
      → codec.read b ≡ ok ps
      → Leaves (Holds k (joined ps peer)) (add_to ds codec s k peer (ok (some b)))
  found-Holds k ps peer b g r =
      rw r (joined-Holds k ps peer (has_peer ps peer) (ap (decoded ds codec) g ∙ r) refl)

  -- What is found under the key, if the datastore says whether something is.
  present-Holds :
      (k : ℕ) (ps : List RetrievalPeer) (peer : RetrievalPeer) (exists : Bool)
      (r : Result (Option B))
      → ds.has s k ≡ ok exists
      → ds.get s k ≡ r
      → decoded ds codec r ≡ ok ps
      → Leaves
          (Holds k (joined ps peer))
          (if exists then add_to ds codec s k peer r else write_peers ds codec s k (peer ∷ []))
  present-Holds k ps peer exists (err e) h g d = absurd (ground (arith, d))
  present-Holds k ps peer true (ok none) h g d = tt
  present-Holds k ps peer false (ok none) h g d =
      subst (λ x. Leaves (Holds k (joined x peer)) (write_peers ds codec s k (peer ∷ [])))
        (ap got d) (write_peers-Holds k (peer ∷ []))
  present-Holds k ps peer true (ok (some b)) h g d = found-Holds k ps peer b g d
  present-Holds k ps peer false (ok (some b)) h g d =
      absurd (ground (arith, ds.has_lem s k false (some b) h g))

  add_peer-Holds :
      (c : Cid) (ps : List RetrievalPeer) (peer : RetrievalPeer)
      → get_peers ds codec s c ≡ ok ps
      → Leaves (Holds (codec.key_of c) (joined ps peer)) (add_peer ds codec s c peer)
  unfolding add_peer get_peers
  add_peer-Holds c ps peer g =
      let k = codec.key_of c in
      bind-Leaves (Holds k (joined ps peer)) (ds.has s k) _
        (λ exists h. present-Holds k ps peer exists (ds.get s k) h refl g)

module _ {S B : Type 0} (ds : Datastore S B) (codec : PeersCodec B) where
  peer_joined :
      (s s' : S) (c : Cid) (ps : List RetrievalPeer) (peer : RetrievalPeer)
      → get_peers ds codec s c ≡ ok ps
      → add_peer ds codec s c peer ≡ ok s'
      → (get_peers ds codec s' c ≡ ok (joined ps peer))
        × ((c' : Cid)
            → (codec.key_of c' == codec.key_of c) ≡ false
            → get_peers ds codec s' c' ≡ get_peers ds codec s c')
  unfolding get_peers
  peer_joined s s' c ps peer g h =
      let (here, others) =
        subst (Leaves (Holds ds codec s (codec.key_of c) (joined ps peer))) h
          (add_peer-Holds ds codec s c ps peer g) in
      (here, λ c' n. ap (decoded ds codec) (others (codec.key_of c') n))

  -- A peer that is added for a payload is found with those that were there, in their order. It comes
  -- at the end, unless it is among them and has no piece: then the peers stay as they were. The peers
  -- of payloads whose CIDs have other hashes stay.
  pub peer_added :
      (s s' : S) (c : Cid) (ps : List RetrievalPeer) (peer : RetrievalPeer)
      → get_peers ds codec s c ≡ ok ps
      → add_peer ds codec s c peer ≡ ok s'
      → (new : List RetrievalPeer) × (get_peers ds codec s' c ≡ ok new)
        × ((Listed ps peer × (new ≡ ps)) ⊎ ((¬ Listed ps peer) × (new ≡ ps ++ peer ∷ [])))
        × ((c' : Cid)
            → (codec.key_of c' == codec.key_of c) ≡ false
            → get_peers ds codec s' c' ≡ get_peers ds codec s c')
  peer_added s s' c ps peer g h =
      let (found, others) = peer_joined s s' c ps peer g h in
      (joined ps peer, found, joined-cases ps peer, others)

  -- A peer with a piece is never found.
  has_peer-piece :
      (ps : List RetrievalPeer) (peer : RetrievalPeer) (piece : Cid)
      → peer.piece_cid ≡ some piece
      → has_peer ps peer ≡ false
  has_peer-piece [] peer piece h = refl
  has_peer-piece (p ∷ ps) peer piece h = ground (arith, h, has_peer-piece ps peer piece h)

  -- The peer is added as many times as there are stores, each after the one before.
  abbrev pub Added : S → List S → Cid → RetrievalPeer → Type 0
  Added s [] c peer = Unit
  Added s (s' ∷ ss) c peer = (add_peer ds codec s c peer ≡ ok s') × Added s' ss c peer

  abbrev pub last_store : S → List S → S
  last_store s [] = s
  last_store s (s' ∷ ss) = last_store s' ss

  abbrev pub times : List S → RetrievalPeer → List RetrievalPeer
  times [] peer = []
  times (s ∷ ss) peer = peer ∷ times ss peer

  -- A peer that comes with a piece is listed once more each time that it is added, since the pieces are
  -- compared as pointers.
  pub piece_peer_repeated :
      (ss : List S) (s : S) (c : Cid) (ps : List RetrievalPeer) (peer : RetrievalPeer) (piece : Cid)
      → peer.piece_cid ≡ some piece
      → get_peers ds codec s c ≡ ok ps
      → Added s ss c peer
      → get_peers ds codec (last_store s ss) c ≡ ok (ps ++ times ss peer)
  piece_peer_repeated [] s c ps peer piece h g a = g ∙ ap ok (sym (append-nil ps))
  piece_peer_repeated (s' ∷ ss) s c ps peer piece h g (a, more) =
      let ps' = ps ++ peer ∷ [] in
      let here = (peer_joined s s' c ps peer g a).0 in
      piece_peer_repeated ss s' c ps' peer piece h
        (here ∙ ap ok (if-false _ ps ps' (has_peer-piece ps peer piece h))) more
      ∙ ap ok (append_assoc ps (peer ∷ []) (times ss peer))

-- ===== src/Storage/AskAnswers.antt =====
-- storagemarket/impl/storedask/storedask.go, storagemarket/impl/provider.go and
-- storagemarket/impl/client.go together: what a client that asks for a provider's ask gets.
use go_fil_markets.Prelude.{
  ℕ, ◌==◌, ==_iff, true, ◌≡◌, refl, sym, ◌∙◌, subst, Option, none, some, List, [], ◌∷◌, ok, Leaves,
  bind-Leaves,
}
use go_fil_markets.Prelude.Int.{ℤ, ◌+ℤ◌}
use go_fil_markets.Retrieval.Client.Deal.{Address}
use go_fil_markets.Storage.Proposal.{StorageAsk}
use go_fil_markets.Disk.{Disk, Codec}
use go_fil_markets.Storage.Ask.{
  SignedAsk, AskOption, min_piece_size, max_piece_size, with_options, next_ask, StoredAsk, SetAsk,
  sign, save_ask, set_ask,
}
use go_fil_markets.Storage.AskQuery.{
  handle_ask, StorageProviderInfo, ClientAskEnv, check_ask_response, get_ask, Linked,
}

-- The terms of a call of SetAsk.
abbrev pub Terms : SetAsk → StorageAsk → Type 0
Terms c a =
    (a.price ≡ c.price)
    × (a.verified_price ≡ c.verified_price)
    × (a.expiry ≡ a.timestamp +ℤ c.duration)

with_options-Terms :
    (c : SetAsk) (os : List AskOption) (a : StorageAsk)
    → Terms c a
    → Terms c (with_options os a) × ((with_options os a).miner ≡ a.miner)
with_options-Terms c [] a t = (t, refl)
with_options-Terms c (min_piece_size n ∷ os) a t = with_options-Terms c os _ t
with_options-Terms c (max_piece_size n ∷ os) a t = with_options-Terms c os _ t

next_ask-Terms :
    (c : SetAsk) (height : ℤ) (o : Option SignedAsk)
    → let a = next_ask c.node.actor height c.price c.verified_price c.duration o in
      Terms c a × (a.miner ≡ c.node.actor)
next_ask-Terms c height none = ((refl, refl, refl), refl)
next_ask-Terms c height (some a) = ((refl, refl, refl), refl)

-- With its options too.
asked-Terms :
    (c : SetAsk) (height : ℤ) (o : Option SignedAsk)
    → let a =
        with_options c.options
          (next_ask c.node.actor height c.price c.verified_price c.duration o) in
      Terms c a × (a.miner ≡ c.node.actor)
asked-Terms c height o =
    let (t, mine) = next_ask-Terms c height o in
    let (t', same) = with_options-Terms c c.options _ t in (t', same ∙ mine)

==_same : (n m : ℕ) → n ≡ m → (n == m) ≡ true
==_same n m h = (==_iff n m).1 h

-- What the client hears is what the provider answers.
get_ask-Linked :
    (env : ClientAskEnv) (info : StorageProviderInfo) (actor : Address) (o : Option SignedAsk)
    (link : Linked env actor o info)
    → get_ask env info ≡ check_ask_response env info (handle_ask actor o info.address) link.bytes
unfolding get_ask
get_ask-Linked env info actor o link =
    rw (link.opens, get_ask) (rw link.writes (rw link.reads refl))

-- A provider that is asked for its own ask gives it, and a response is checked.
answered :
    (env : ClientAskEnv) (info : StorageProviderInfo) (actor : Address) (a : SignedAsk)
    (bytes tok : ℕ) (epoch : ℤ)
    → info.address ≡ actor
    → a.ask.miner ≡ actor
    → env.get_chain_head ≡ ok (tok, epoch)
    → env.verify_signature a.signature info.worker bytes tok ≡ ok true
    → check_ask_response env info (handle_ask actor (some a) info.address) bytes ≡ some (ok a.ask)
unfolding handle_ask check_ask_response
answered env info actor a bytes tok epoch i m g v =
    rw (==_same actor info.address (sym i))
      (rw (==_same a.ask.miner info.address (m ∙ sym i)) (rw g (rw v refl)))

module _ {S B : Type 0} (disk : Disk S B) (codec : Codec SignedAsk B) where
  -- The ask that is stored has the terms of the call.
  abbrev Set : SetAsk → StoredAsk S → Type 0
  Set c s = (a : SignedAsk) × (s.ask ≡ some a) × Terms c a.ask × (a.ask.miner ≡ c.node.actor)

  save_ask-Set :
      (c : SetAsk) (a : SignedAsk) (s : StoredAsk S)
      → Terms c a.ask × (a.ask.miner ≡ c.node.actor)
      → Leaves (Set c) (save_ask disk codec a s)
  unfolding save_ask
  save_ask-Set c a s t =
      bind-Leaves (Set c) (codec.dump a) _
        (λ b d. bind-Leaves (Set c) (disk.put s.store b) _ (λ s' p. (a, refl, t.0, t.1)))

  set_ask-Set : (c : SetAsk) (s : StoredAsk S) → Leaves (Set c) (set_ask disk codec c s)
  unfolding set_ask
  set_ask-Set c s = bind-Leaves (Set c) c.node.get_chain_head _ (λ head h.
      bind-Leaves (Set c) (sign c.node _) _
        (λ signature g. save_ask-Set c _ s (asked-Terms c head.1 s.ask)))

  -- The prices that a provider sets are those that a client gets which asks it: when SetAsk has
  -- succeeded and the client's request reaches the provider, and the client's node names the chain
  -- head and believes the worker's signature, the client gets an ask with the prices and the
  -- duration of the call.
  pub set_price_asked :
      (env : ClientAskEnv) (info : StorageProviderInfo) (c : SetAsk) (s s' : StoredAsk S) (tok : ℕ)
      (epoch : ℤ) (link : Linked env c.node.actor s'.ask info)
      → set_ask disk codec c s ≡ ok s'
      → info.address ≡ c.node.actor
      → env.get_chain_head ≡ ok (tok, epoch)
      → ((sig : ℕ) → env.verify_signature sig info.worker link.bytes tok ≡ ok true)
      → (a : StorageAsk) × (get_ask env info ≡ some (ok a)) × Terms c a
  set_price_asked env info c s s' tok epoch link h i g v =
      let (a, m, t, mine) = subst (Leaves (Set c)) h (set_ask-Set c s) in
      (
        a.ask,
        get_ask-Linked env info c.node.actor s'.ask link
            ∙ rw m (answered env info c.node.actor a link.bytes tok epoch i mine g (v a.signature)),
        t,
      )

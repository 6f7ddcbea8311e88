-- ===== src/Storage/AskKeeping.antt =====
-- storagemarket/impl/storedask/storedask.go: the ask in memory is the one on disk, after any calls
-- of `SetAsk`, and each call that succeeds has the next sequence number.
use go_fil_markets.Prelude.{
  ℕ, suc, ◌+◌, ◌%◌, ◌^◌, ◌<◌, ◌≡◌, refl, sym, ap, ◌∙◌, subst, Option, none, some, List, [], ◌∷◌,
  Result, ok, err, arith, Leaves, bind-Leaves,
}
use go_fil_markets.Prelude.Words.{add64}
use go_fil_markets.Storage.Proposal.{StorageAsk}
use go_fil_markets.Disk.{Disk, Codec}
use go_fil_markets.Storage.Ask.{
  SignedAsk, NodeEnv, AskOption, min_piece_size, max_piece_size, with_options, StoredAsk, SetAsk,
  sign, save_ask, set_ask, load_ask, new_stored_ask,
}

-- The sequence number of an ask, if there is one.
abbrev pub seq_no_of : Option SignedAsk → Option ℕ
seq_no_of none = none
seq_no_of (some a) = some a.ask.seq_no

suc_moves : (n m : ℕ) → suc n + m ≡ n + suc m
suc_moves n m = omega arith

add_nothing : (n : ℕ) → n ≡ n + 0
add_nothing n = omega arith

fits : (n : ℕ) → n < 2 ^ 64 → n ≡ n % 2 ^ 64
fits n h = omega (arith, h)

module _ {S B : Type 0} (disk : Disk S B) (codec : Codec SignedAsk B) where
  -- The stored ask after a call: an error changes nothing.
  abbrev pub settled : StoredAsk S → Result (StoredAsk S) → StoredAsk S
  settled s (err e) = s
  settled s (ok s') = s'

  abbrev counted : Result (StoredAsk S) → ℕ → ℕ
  counted (err e) n = n
  counted (ok s') n = suc n

  -- The calls in their order, and how many of them succeed.
  abbrev pub run_calls : StoredAsk S → List SetAsk → StoredAsk S
  run_calls s [] = s
  run_calls s (c ∷ cs) = run_calls (settled s (set_ask disk codec c s)) cs

  abbrev pub successes : StoredAsk S → List SetAsk → ℕ
  successes s [] = 0
  successes s (c ∷ cs) =
      let rest = successes (settled s (set_ask disk codec c s)) cs in
      counted (set_ask disk codec c s) rest

  -- The ask in memory is there, it is on disk, and its sequence number is the given one.
  abbrev pub Kept : ℕ → StoredAsk S → Type 0
  Kept n s =
      (a : SignedAsk) × (s.ask ≡ some a)
      × (load_ask disk codec s.store ≡ ok (some a))
      × (a.ask.seq_no ≡ n % 2 ^ 64)

  with_options-seq_no :
      (os : List AskOption) (a : StorageAsk) → (with_options os a).seq_no ≡ a.seq_no
  with_options-seq_no [] a = refl
  with_options-seq_no (min_piece_size n ∷ os) a = with_options-seq_no os _
  with_options-seq_no (max_piece_size n ∷ os) a = with_options-seq_no os _

  load_ask-put :
      (a : SignedAsk) (b : B) (s s' : S)
      → codec.dump a ≡ ok b
      → disk.put s b ≡ ok s'
      → load_ask disk codec s' ≡ ok (some a)
  unfolding load_ask
  load_ask-put a b s s' d p = rw (disk.put_lem s s' b p, load_ask) (rw (codec.read_lem a b d) refl)

  save_ask-Kept :
      (n : ℕ) (a : SignedAsk) (s : StoredAsk S)
      → a.ask.seq_no ≡ n % 2 ^ 64
      → Leaves (Kept n) (save_ask disk codec a s)
  unfolding save_ask
  save_ask-Kept n a s q = bind-Leaves (Kept n) (codec.dump a) _ (λ b d.
      bind-Leaves (Kept n) (disk.put s.store b) _
        (λ s' p. (a, refl, load_ask-put a b s.store s' d p, q)))

  next_seq : (n m : ℕ) → m ≡ n % 2 ^ 64 → add64 m 1 ≡ suc n % 2 ^ 64
  next_seq n m h = omega (arith, h)

  set_ask-Kept :
      (n : ℕ) (c : SetAsk) (s : StoredAsk S)
      → Kept n s
      → Leaves (Kept (suc n)) (set_ask disk codec c s)
  unfolding set_ask
  set_ask-Kept n c s (a, m, l, q) = bind-Leaves (Kept (suc n)) c.node.get_chain_head _ (λ head h.
      rw m (
        bind-Leaves (Kept (suc n)) (sign c.node _) _ (λ signature g.
          save_ask-Kept (suc n) _ s (with_options-seq_no c.options _ ∙ next_seq n a.ask.seq_no q))))

  call-Kept :
      (n : ℕ) (s : StoredAsk S) (cs : List SetAsk) (r : Result (StoredAsk S))
      → Kept n s
      → Leaves (Kept (suc n)) r
      → ((k : ℕ) (s' : StoredAsk S) → Kept k s' → Kept (k + successes s' cs) (run_calls s' cs))
      → Kept (n + counted r (successes (settled s r) cs)) (run_calls (settled s r) cs)
  call-Kept n s cs (err e) k l h = h n s k
  call-Kept n s cs (ok s') k l h =
      subst (λ x. Kept x (run_calls s' cs)) (suc_moves n (successes s' cs)) (h (suc n) s' l)

  run_calls-Kept :
      (cs : List SetAsk) (n : ℕ) (s : StoredAsk S)
      → Kept n s
      → Kept (n + successes s cs) (run_calls s cs)
  run_calls-Kept [] n s k = subst (λ x. Kept x s) (add_nothing n) k
  run_calls-Kept (c ∷ cs) n s k =
      call-Kept n s cs (set_ask disk codec c s) k (set_ask-Kept n c s k) (run_calls-Kept cs)

  -- A stored ask that is on disk survives any calls of SetAsk, some of which may fail, and a restart
  -- after them, if the migrations have nothing to do: what is loaded is the ask in memory, and its
  -- sequence number has grown by one for each call that succeeded.
  pub asks_survive :
      (s : StoredAsk S) (a : SignedAsk) (cs : List SetAsk) (node : NodeEnv)
      (options : List AskOption)
      → s.ask ≡ some a
      → load_ask disk codec s.store ≡ ok (some a)
      → a.ask.seq_no < 2 ^ 64
      → (new_stored_ask disk codec node options (ok (run_calls s cs).store) ≡ ok (run_calls s cs))
        × (seq_no_of (run_calls s cs).ask ≡ some ((a.ask.seq_no + successes s cs) % 2 ^ 64))
  unfolding new_stored_ask
  asks_survive s a cs node options m l f =
      let (a', m', l', q) = run_calls-Kept cs a.ask.seq_no s (a, m, l, fits a.ask.seq_no f) in
      let s' = run_calls s cs in
      (
        rw (l', new_stored_ask) (ap (λ x. ok (record { ask = x; store = s'.store })) (sym m')),
        rw m' (ap some q),
      )

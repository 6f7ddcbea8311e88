-- ===== src/Retrieval/AskStore.antt =====
-- retrievalmarket/impl/askstore/askstore_impl.go: the ask that a retrieval provider keeps in memory and on
-- disk, with the defaults of retrievalmarket/defaults.go.
use go_fil_markets.Prelude.{
  ◌^◌, ◌≡◌, refl, ap, ◌∙◌, subst, Option, none, some, Result, ok, err, ◌>>=◌, Leaves, bind-Leaves,
}
use go_fil_markets.Prelude.Int.{pos}
use go_fil_markets.Text.{wrap, told}
use go_fil_markets.Disk.{Disk, Codec}
use go_fil_markets.Retrieval.Pricing.{Ask}

-- `AskStoreImpl`
pub record AskStore (S : Type 0) : Type 0 where
  pub ask : Option Ask
  pub store : S

abbrev pub default_ask : Ask
default_ask = record {
  price_per_byte = pos 2;
  unseal_price = some (pos 0);
  payment_interval = 2 ^ 20;
  payment_interval_increase = 2 ^ 20;
}

module _ {S B : Type 0} (disk : Disk S B) (codec : Codec Ask B) where
  -- `SetAsk` with `saveAsk`
  unfoldable pub set_ask : Ask → AskStore S → Result (AskStore S)
  set_ask a s =
      codec.dump a
      >>= (λ b. disk.put s.store b >>= (λ store'. ok (record { ask = some a; store = store' })))

  abbrev decoded : Result Ask → Result (Option Ask)
  decoded (err e) = err e
  decoded (ok a) = ok (some a)

  abbrev found : Result (Option B) → Result (Option Ask)
  found (err e) = err (wrap "failed to load most recent retrieval ask from disk" e)
  found (ok none) = ok none
  found (ok (some b)) = decoded (codec.read b)

  -- `tryLoadAsk` with `loadAsk`: an ask that is not found is none.
  unfoldable pub load_ask : S → Result (Option Ask)
  load_ask s = found (disk.get s)

  abbrev with_default : S → Option Ask → Result (AskStore S)
  with_default s none =
      told "failed setting a default retrieval ask"
        (set_ask default_ask (record { ask = none; store = s }))
  with_default s (some a) = ok (record { ask = some a; store = s })

  -- `NewAskStore`, on what the migrations of the datastore leave.
  unfoldable pub new_ask_store : Result S → Result (AskStore S)
  unfolding load_ask set_ask
  new_ask_store migrated = migrated >>= (λ s. load_ask s >>= with_default s)

  abbrev Restored : Ask → AskStore S → Type 0
  Restored a s = (s.ask ≡ some a) × (new_ask_store (ok s.store) ≡ ok s)

  load_ask-put :
      (a : Ask) (b : B) (s s' : S)
      → codec.dump a ≡ ok b
      → disk.put s b ≡ ok s'
      → load_ask s' ≡ ok (some a)
  unfolding load_ask
  load_ask-put a b s s' d p = ap found (disk.put_lem s s' b p) ∙ ap decoded (codec.read_lem a b d)

  set_ask-Restored : (a : Ask) (s : AskStore S) → Leaves (Restored a) (set_ask a s)
  unfolding set_ask new_ask_store
  set_ask-Restored a s = bind-Leaves (Restored a) (codec.dump a) _ (λ b d.
      bind-Leaves (Restored a) (disk.put s.store b) _
        (λ s' p. (refl, rw (load_ask-put a b s.store s' d p, new_ask_store) refl)))

  -- An ask that was set is the one in memory, and the one that a restart loads.
  pub ask_restored :
      (a : Ask) (s s' : AskStore S)
      → set_ask a s ≡ ok s'
      → (s'.ask ≡ some a) × (new_ask_store (ok s'.store) ≡ ok s')
  ask_restored a s s' h = subst (Leaves (Restored a)) h (set_ask-Restored a s)

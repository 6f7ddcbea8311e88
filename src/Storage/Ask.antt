-- ===== src/Storage/Ask.antt =====
-- storagemarket/impl/storedask/storedask.go: the ask that a storage provider keeps in memory and on
-- disk; storagemarket/impl/providerutils/providerutils.go: `SignMinerData`. The datastore, its
-- migrations, the encodings and the node are parameters.
use go_fil_markets.Prelude.{ℕ, ◌^◌, Option, none, some, List, [], ◌∷◌, Result, ok, err, ◌>>=◌}
use go_fil_markets.Prelude.Int.{ℤ, pos, ◌+ℤ◌}
use go_fil_markets.Prelude.Words.{add64}
use go_fil_markets.Text.{wrap, told}
use go_fil_markets.Disk.{Disk, Codec}
use go_fil_markets.Retrieval.Client.Deal.{Address}
use go_fil_markets.Storage.Proposal.{StorageAsk}

-- `SignedStorageAsk`; the pointers of one that `SetAsk` saved are not nil.
pub record SignedAsk : Type 0 where
  pub ask : StorageAsk
  pub signature : ℕ

-- The actor, and what the node answers to `SetAsk` and to the signing, which asks for the chain head
-- again.
pub record NodeEnv : Type 0 where
  pub actor : Address
  pub get_chain_head : Result (ℕ × ℤ)
  pub get_chain_head_to_sign : Result (ℕ × ℤ)
  pub dump_ask : StorageAsk → Result ℕ
  pub get_miner_worker_address : Address → ℕ → Result Address
  pub sign_bytes : Address → ℕ → Result ℕ

-- `SignMinerData`, on the encoded data.
abbrev pub sign_miner_data :
    Result ℕ → Address → ℕ → (Address → ℕ → Result Address) → (Address → ℕ → Result ℕ) → Result ℕ
sign_miner_data dumped address tok worker_lookup sign = do
  msg ← told "serializing" dumped
  worker ← worker_lookup address tok
  told "failed to sign" (sign worker msg)

-- `StorageAskOption`, by the two functions that make one.
pub data AskOption : Type 0 where
  min_piece_size max_piece_size : ℕ → AskOption

abbrev pub with_option : AskOption → StorageAsk → StorageAsk
with_option (min_piece_size n) a = record a { min_piece_size = n }
with_option (max_piece_size n) a = record a { max_piece_size = n }

abbrev pub with_options : List AskOption → StorageAsk → StorageAsk
with_options [] a = a
with_options (o ∷ os) a = with_options os (with_option o a)

-- The ask before its options: the sequence number and the sizes come from the one before, if there
-- is one.
abbrev pub next_ask : Address → ℤ → ℤ → ℤ → ℤ → Option SignedAsk → StorageAsk
next_ask actor height price verified duration none = record {
  price = price;
  verified_price = verified;
  min_piece_size = 256;
  max_piece_size = 2 ^ 20;
  miner = actor;
  timestamp = height;
  expiry = height +ℤ duration;
  seq_no = 0;
}
next_ask actor height price verified duration (some s) = record {
  price = price;
  verified_price = verified;
  min_piece_size = s.ask.min_piece_size;
  max_piece_size = s.ask.max_piece_size;
  miner = actor;
  timestamp = height;
  expiry = height +ℤ duration;
  seq_no = add64 s.ask.seq_no 1;
}

pub record StoredAsk (S : Type 0) : Type 0 where
  pub ask : Option SignedAsk
  pub store : S

-- The arguments of `SetAsk`, with the node's answers.
pub record SetAsk : Type 0 where
  pub node : NodeEnv
  pub price : ℤ
  pub verified_price : ℤ
  pub duration : ℤ
  pub options : List AskOption

-- `sign`
abbrev pub sign : NodeEnv → StorageAsk → Result ℕ
sign node a = node.get_chain_head_to_sign >>= (λ head.
    sign_miner_data (node.dump_ask a) node.actor head.0 node.get_miner_worker_address
      node.sign_bytes)

-- `saveAsk`
unfoldable pub save_ask :
    {S B : Type 0} → Disk S B → Codec SignedAsk B → SignedAsk → StoredAsk S → Result (StoredAsk S)
save_ask disk codec a s =
    codec.dump a
    >>= (λ b. disk.put s.store b >>= (λ store'. ok (record { ask = some a; store = store' })))

-- `SetAsk`; after an error the stored ask is as it was.
unfoldable pub set_ask :
    {S B : Type 0} → Disk S B → Codec SignedAsk B → SetAsk → StoredAsk S → Result (StoredAsk S)
unfolding save_ask
set_ask disk codec c s = c.node.get_chain_head >>= (λ head.
    let a =
      with_options c.options
        (next_ask c.node.actor head.1 c.price c.verified_price c.duration s.ask) in
    sign c.node a
    >>= (λ signature. save_ask disk codec (record { ask = a; signature = signature }) s))

abbrev decoded : Result SignedAsk → Result (Option SignedAsk)
decoded (err e) = err e
decoded (ok a) = ok (some a)

-- `loadAsk` and `tryLoadAsk`: an ask that is not found is none.
unfoldable pub load_ask :
    {S B : Type 0} → Disk S B → Codec SignedAsk B → S → Result (Option SignedAsk)
load_ask disk codec s = elim (disk.get s) [
  | err e ↦ err (wrap "failed to load most recent ask from disk" e)
  | ok none ↦ ok none
  | ok (some b) ↦ decoded (codec.read b)
]

abbrev default_ask : NodeEnv → List AskOption → SetAsk
default_ask node options = record {
  node = node;
  price = pos 500000000;
  verified_price = pos 50000000;
  duration = pos 1000000;
  options = options;
}

-- The end of `NewStoredAsk`: where there is no ask a default one is set.
abbrev with_default :
    {S B : Type 0}
    → Disk S B
    → Codec SignedAsk B
    → NodeEnv
    → List AskOption
    → S
    → Option SignedAsk
    → Result (StoredAsk S)
with_default disk codec node options s none =
    told "failed setting a default price"
      (set_ask disk codec (default_ask node options) (record { ask = none; store = s }))
with_default disk codec node options s (some a) = ok (record { ask = some a; store = s })

-- `NewStoredAsk`, on what the migrations of the datastore leave.
unfoldable pub new_stored_ask :
    {S B : Type 0}
    → Disk S B
    → Codec SignedAsk B
    → NodeEnv
    → List AskOption
    → Result S
    → Result (StoredAsk S)
unfolding load_ask set_ask
new_stored_ask disk codec node options migrated =
    migrated >>= (λ s. load_ask disk codec s >>= with_default disk codec node options s)

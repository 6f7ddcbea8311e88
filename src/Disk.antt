-- ===== src/Disk.antt =====
-- What the stores of asks take from github.com/ipfs/go-datastore and from the CBOR encodings: a value
-- under one key.
use go_fil_markets.Prelude.{◌≡◌, Option, some, Result, ok}

-- A datastore with one key, as github.com/ipfs/go-datastore documents it: what is put is what is got
-- next. `none` is the error ErrNotFound.
pub record Disk (S B : Type 0) : Type 0 where
  pub get : S → Result (Option B)
  pub put : S → B → Result S
  pub put_lem : (s s' : S) (b : B) → put s b ≡ ok s' → get s' ≡ ok (some b)

-- The encoding of an ask in bytes, which can be read back.
pub record Codec (V B : Type 0) : Type 0 where
  pub dump : V → Result B
  pub read : B → Result V
  pub read_lem : (a : V) (b : B) → dump a ≡ ok b → read b ≡ ok a

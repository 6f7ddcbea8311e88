-- ===== src/Stores/Tracking.antt =====
-- stores/rw_bstores.go and stores/ro_bstores.go: the trackers of open blockstores, which are numbers, by
-- keys. The opening and the closing of a blockstore are parameters.
use go_fil_markets.Prelude.{
  ℕ, ◌==◌, Bool, true, false, ◌≡◌, refl, Option, none, some, String, Result, ok, err, ◌>>=◌,
  if◌then◌else◌,
}
use go_fil_markets.Text.{wrap, enclose, told}
use go_fil_markets.Retrieval.Params.{Cid}
use go_fil_markets.Piecestore.Table.{Cells, put, put-Put}

-- The open blockstores by their keys, on either side.
abbrev pub Tracked : Type 0
Tracked = Cells ℕ

abbrev pub removed : Tracked → ℕ → Tracked
removed t k k' = if k' == k then none else t k'

abbrev store_or_error : String → Option ℕ → Result ℕ
store_or_error key_text none =
    err (wrap (enclose "could not get blockstore for key " key_text "") "not found")
store_or_error key_text (some b) = ok b

-- `Get`, of both trackers
unfoldable pub get : (ℕ → String) → Tracked → ℕ → Result ℕ
get key_text t k = store_or_error (key_text k) (t k)

abbrev opened :
    (String → Cid → Result ℕ) → Tracked → ℕ → String → Cid → Option ℕ → Result (Tracked × ℕ)
opened open_store t k path root (some b) = ok (t, b)
opened open_store t k path root none =
    told "failed to create read-write blockstore" (open_store path root)
    >>= (λ b. ok (put t k b, b))

-- `ReadWriteBlockstores.GetOrOpen`
unfoldable pub get_or_open :
    (String → Cid → Result ℕ) → Tracked → ℕ → String → Cid → Result (Tracked × ℕ)
get_or_open open_store t k path root = opened open_store t k path root (t k)

-- `ReadWriteBlockstores.Untrack`: whatever the finalization answers.
unfoldable pub untrack_rw : Tracked → ℕ → Tracked
untrack_rw t k = removed t k

abbrev newly_tracked : Tracked → ℕ → ℕ → Option ℕ → Tracked × Bool
newly_tracked t k b (some _) = (t, false)
newly_tracked t k b none = (put t k b, true)

-- `ReadOnlyBlockstores.Track`
unfoldable pub track : Tracked → ℕ → ℕ → Tracked × Bool
track t k b = newly_tracked t k b (t k)

abbrev untracked : (ℕ → Result (Unit {0})) → Tracked → ℕ → Option ℕ → Tracked × Result (Unit {0})
untracked close t k none = (t, ok tt)
untracked close t k (some b) = (removed t k, told "failed to close read-only blockstore" (close b))

-- `ReadOnlyBlockstores.Untrack`; the close of a blockstore that is not a closer answers nothing.
unfoldable pub untrack_ro : (ℕ → Result (Unit {0})) → Tracked → ℕ → Tracked × Result (Unit {0})
untrack_ro close t k = untracked close t k (t k)

-- A blockstore that is open, or can be opened, is the one that is found next, and that a second call
-- opens no other for.
pub opened_once :
    (open_store : String → Cid → Result ℕ) (key_text : ℕ → String) (t : Tracked) (k : ℕ)
    (path : String) (root : Cid) (b : ℕ)
    → t k ≡ none
    → open_store path root ≡ ok b
    → (get_or_open open_store t k path root ≡ ok (put t k b, b))
      × (get key_text (put t k b) k ≡ ok b)
      × (get_or_open open_store (put t k b) k path root ≡ ok (put t k b, b))
unfolding get_or_open get
opened_once open_store key_text t k path root b n o =
    let here = (put-Put t k b).0 in (rw n (rw o refl), rw here refl, rw here refl)

-- ===== src/Retrieval/Pieces/Failure.antt =====
-- The errors of the search for pieces: retrievalmarket/types.go, `ErrNotFound`, and what
-- errors.Is and `==` say of an error.
use go_fil_markets.Prelude.{Bool, true, false, String, ◌≡◌, refl, ◌⊎◌, inl, inr}
use go_fil_markets.Text.{wrap}

-- `ErrNotFound` itself, an error that wraps it, and any other.
pub data Failure : Type 0 where
  not_found : Failure
  wraps_not_found failure : String → Failure

abbrev pub text : Failure → String
text not_found = "not found"
text (wraps_not_found s) = s
text (failure s) = s

-- `err == ErrNotFound`
abbrev pub is_not_found : Failure → Bool
is_not_found not_found = true
is_not_found _ = false

-- `errors.Is(err, ErrNotFound)`
abbrev pub caused_by_not_found : Failure → Bool
caused_by_not_found not_found = true
caused_by_not_found (wraps_not_found s) = true
caused_by_not_found (failure s) = false

-- `fmt.Errorf("context: %w", err)`
abbrev pub wrapped : String → Failure → Failure
wrapped context not_found = wraps_not_found (wrap context "not found")
wrapped context (wraps_not_found s) = wraps_not_found (wrap context s)
wrapped context (failure s) = failure (wrap context s)

pub data Found {ℓ} (A : Type ℓ) : Type ℓ where
  found : A → Found A
  failed : Failure → Found A

pub Found-cases {ℓ} :
    {A : Type ℓ} (f : Found A) → ((e : Failure) × (f ≡ failed e)) ⊎ ((a : A) × (f ≡ found a))
Found-cases (failed e) = inl (e, refl)
Found-cases (found a) = inr (a, refl)

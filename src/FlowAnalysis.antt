-- ===== src/FlowAnalysis.antt =====
-- Project-5/flowAnalysis.py: the bins of `plotCcdf` and the sums of `getCcdf`. Entries and boundaries
-- are floats of the source, which the bins only compare: a type with a test `lt`.
pub mod Counts
mod Tests
use cs425a_computer_networks.Base.{
  ℕ, zero, suc, ◌+◌, List, [], ◌∷◌, Bool, if◌then◌else◌, Result, ok, err, index_error,
}

-- The loop of `getCcdf` from the last entry back to the first.
unfoldable pub cumulative : ℕ → List ℕ → List ℕ
cumulative y [] = y ∷ []
cumulative y (z ∷ rest) = elim (cumulative z rest) [ [] ↦ y ∷ [] | s ∷ sums ↦ (y + s) ∷ s ∷ sums ]

-- `getCcdf`; for an empty list `Y[-1]` is an IndexError.
unfoldable pub get_ccdf : List ℕ → Result (List ℕ)
get_ccdf [] = err index_error
get_ccdf (y ∷ rest) = ok (cumulative y rest)

module _ {ℓ} {A : Type ℓ} (lt : A → A → Bool) where
  -- The `while` of one bin: the number of entries below the boundary, and the entries behind them.
  unfoldable pub count_below : A → List A → ℕ × List A
  count_below b [] = (0, [])
  count_below b (x ∷ xs) =
      let (count, rest) = count_below b xs in if lt x b then (suc count, rest) else (0, x ∷ xs)

  -- The loop over the boundaries: the counts, and the entries that no bin took.
  unfoldable pub count_bins : List A → List A → List ℕ × List A
  count_bins [] entries = ([], entries)
  count_bins (b ∷ bs) entries =
      let (count, rest) = count_below b entries in
      let (counts, left) = count_bins bs rest in (count ∷ counts, left)

-- `Y[-1] += 1`
unfoldable pub bump_last : ℕ → List ℕ → List ℕ
bump_last y [] = suc y ∷ []
bump_last y (z ∷ rest) = y ∷ bump_last z rest

-- The values of `Y` that `plotCcdf` plots, from the boundaries and the sorted entries.
unfoldable pub plot_ccdf {ℓ} : {A : Type ℓ} → (A → A → Bool) → List A → List A → List ℕ
plot_ccdf lt boundaries entries = elim (bump_last 0 (count_bins lt boundaries entries).0) [
  | [] ↦ []
  | y ∷ ys ↦ cumulative y ys
]

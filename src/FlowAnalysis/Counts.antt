-- ===== src/FlowAnalysis/Counts.antt =====
-- What the sums and the bins of the plot count.
use cs425a_computer_networks.Base.{
  ℕ, suc, ◌+◌, ◌≡◌, refl, ap, ◌∙◌, arith, List, [], ◌∷◌, Bool, Bool-cases, inl, inr, length, ok,
}
use cs425a_computer_networks.FlowAnalysis.{
  cumulative, get_ccdf, count_below, count_bins, bump_last, plot_ccdf,
}

unfoldable pub sum : List ℕ → ℕ
sum [] = 0
sum (y ∷ ys) = y + sum ys

-- The sums of all tails that are not empty.
unfoldable pub tail_sums : List ℕ → List ℕ
tail_sums [] = []
tail_sums (y ∷ ys) = sum (y ∷ ys) ∷ tail_sums ys

cumulative-tail_sums : (y : ℕ) (ys : List ℕ) → cumulative y ys ≡ tail_sums (y ∷ ys)
unfolding cumulative tail_sums sum
cumulative-tail_sums y [] = ap (λ n. n ∷ []) (omega arith)
cumulative-tail_sums y (z ∷ ys) = rw (cumulative-tail_sums z ys) refl

-- `getCcdf` of a list that is not empty has at each place the sum of the list from this place on.
pub get_ccdf-tail_sums : (y : ℕ) (ys : List ℕ) → get_ccdf (y ∷ ys) ≡ ok (tail_sums (y ∷ ys))
unfolding get_ccdf
get_ccdf-tail_sums y ys = ap ok (cumulative-tail_sums y ys)

module _ {ℓ} {A : Type ℓ} (lt : A → A → Bool) where
  count_below_lem :
      (b : A) (xs : List A) → (count_below lt b xs).0 + length (count_below lt b xs).1 ≡ length xs
  unfolding count_below
  count_below_lem b [] = refl
  count_below_lem b (x ∷ xs) = elim (Bool-cases (lt x b)) [
    | inl y ↦ rw y (omega (arith, count_below_lem b xs))
    | inr n ↦ rw n (omega arith)
  ]

  -- No entry is counted twice or lost: the counts and the entries that no bin took make up all.
  pub count_bins_lem :
      (bs entries : List A)
      → sum (count_bins lt bs entries).0 + length (count_bins lt bs entries).1 ≡ length entries
  unfolding count_bins sum
  count_bins_lem [] entries = omega arith
  count_bins_lem (b ∷ bs) entries =
      omega (arith, count_below_lem b entries, count_bins_lem bs (count_below lt b entries).1)

sum-bump_last : (y : ℕ) (ys : List ℕ) → sum (bump_last y ys) ≡ suc (y + sum ys)
unfolding sum bump_last
sum-bump_last y [] = omega arith
sum-bump_last y (z ∷ ys) = omega (arith, sum-bump_last z ys)

first_sum :
    (counts : List ℕ)
    → (ys : List ℕ) × ((elim (bump_last 0 counts) [ [] ↦ [] | y ∷ rest ↦ cumulative y rest ])
        ≡ suc (sum counts) ∷ ys)
unfolding bump_last sum tail_sums
first_sum [] = ([], unfold cumulative in refl)
first_sum (z ∷ rest) = (
  tail_sums (bump_last z rest),
  cumulative-tail_sums 0 (bump_last z rest)
      ∙ ap (λ n. n ∷ tail_sums (bump_last z rest)) (omega (arith, sum-bump_last z rest)),
)

-- If the bins of `plotCcdf` leave exactly one entry over, the plotted sums start at the number of
-- entries.
pub plot_ccdf_first {ℓ} :
    {A : Type ℓ} (lt : A → A → Bool) (bs entries : List A)
    → length (count_bins lt bs entries).1 ≡ 1
    → (ys : List ℕ) × (plot_ccdf lt bs entries ≡ length entries ∷ ys)
unfolding plot_ccdf
plot_ccdf_first lt bs entries one =
    let (ys, e) = first_sum (count_bins lt bs entries).0 in
    (ys, e ∙ ap (λ n. n ∷ ys) (omega (arith, one, count_bins_lem lt bs entries)))

-- ===== src/FlowAnalysis/Tests.antt =====
-- A small histogram, and the theorems at it.
use cs425a_computer_networks.Base.{ℕ, ◌≡◌, refl, List, [], ◌∷◌, ltb}
use cs425a_computer_networks.FlowAnalysis.{
  cumulative, count_below, count_bins, bump_last, plot_ccdf,
}
use cs425a_computer_networks.FlowAnalysis.Counts.{plot_ccdf_first}

-- Two bins up to 3 and up to 5.
histogram : plot_ccdf ltb (3 ∷ 5 ∷ []) (1 ∷ 2 ∷ 3 ∷ 5 ∷ []) ≡ 4 ∷ 4 ∷ 2 ∷ []
unfolding plot_ccdf bump_last count_bins count_below cumulative
histogram = refl

plot_ccdf_first_example : (ys : List ℕ) × (plot_ccdf ltb (3 ∷ 5 ∷ []) (1 ∷ 2 ∷ 3 ∷ 5 ∷ []) ≡ 4 ∷ ys)
plot_ccdf_first_example =
    plot_ccdf_first ltb (3 ∷ 5 ∷ []) (1 ∷ 2 ∷ 3 ∷ 5 ∷ []) (unfold count_bins count_below in refl)

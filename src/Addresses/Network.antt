-- ===== src/Addresses/Network.antt =====
-- Numbers, networks and address classes.
use cs425a_computer_networks.Base.{
  ℕ, ◌+◌, ◌*◌, ◌/◌, ◌%◌, ◌^◌, ◌<◌, ◌≤◌, ◌≡◌, ◌↔◌, arith, [], ◌∷◌, true, ◌⊎◌, inl, inr, ==→eq, All,
  none,
}
use native.Mathlib.Nat.{mul-le-mul_right, one-le-pow}
use cs425a_computer_networks.Bytes.{Bytes, IsByte}
use cs425a_computer_networks.Addresses.{
  eth_of_int, to_int, in_network, infer_net_mask, is_bridge_filtered, is_multicast,
}

-- The `toInt` of an address made from a number below 2 ^ 48 is that number.
pub to_int-eth_of_int : (n : ℕ) → n < 2 ^ 48 → to_int (eth_of_int n) ≡ n
unfolding to_int eth_of_int
to_int-eth_of_int n h = omega arith

-- The address made from the `toInt` of a six-byte address has the same six bytes.
pub eth_of_int-to_int :
    (a b c d e f : ℕ)
    → All IsByte (a ∷ b ∷ c ∷ d ∷ e ∷ f ∷ [])
    → eth_of_int (to_int (a ∷ b ∷ c ∷ d ∷ e ∷ f ∷ [])) ≡ a ∷ b ∷ c ∷ d ∷ e ∷ f ∷ []
unfolding to_int eth_of_int
eth_of_int-to_int a b c d e f h = ground arith

-- Every bridge-filtered address is a multicast address.
pub is_multicast-is_bridge_filtered :
    (addr : Bytes) → is_bridge_filtered addr ≡ true → is_multicast addr ≡ true
unfolding is_multicast is_bridge_filtered
is_multicast-is_bridge_filtered addr h = ground arith

prefix_lower : (addr m : ℕ) → addr / m * m ≤ addr
prefix_lower addr m = grind arith

prefix_upper : (addr m : ℕ) → 0 < m → addr < addr / m * m + m
prefix_upper addr m h = grind arith

lt_or_ge : (a b : ℕ) → (a < b) ⊎ (b ≤ a)
lt_or_ge a b = grind arith

prefix_unique : (addr m k : ℕ) → k * m ≤ addr → addr < k * m + m → addr / m ≡ k
prefix_unique addr m k lo hi = elim (lt_or_ge (addr / m) k) [
  | inl lt ↦ absurd (omega (arith, prefix_upper addr m (omega arith), mul-le-mul_right m lt))
  | inr ge ↦ elim (lt_or_ge k (addr / m)) [
    | inl lt ↦ absurd (omega (arith, prefix_lower addr m, mul-le-mul_right m lt))
    | inr le ↦ omega arith
  ]
]

pow_pos : (b : ℕ) → 0 < 2 ^ b
pow_pos b = one-le-pow b 2 (omega arith)

-- If the network `n` has none of its lowest `b` bits set, `inNetwork` accepts exactly the
-- addresses from `n` to `n + 2 ^ b - 1`.
pub in_network_range :
    (addr n b : ℕ)
    → n % 2 ^ b ≡ 0
    → (in_network addr n b ≡ true) ↔ ((n ≤ addr) × (addr < n + 2 ^ b))
unfolding in_network
in_network_range addr n b h = (
  λ e. ground (
    arith,
    ==→eq (addr / 2 ^ b * 2 ^ b) n e,
    prefix_lower addr (2 ^ b),
    prefix_upper addr (2 ^ b) (pow_pos b),
  ),
  λ r. ground (arith, prefix_unique addr (2 ^ b) (n / 2 ^ b)),
)

-- The addresses for which `inferNetMask` returns no number are those of class E, from 240.0.0.0
-- up.
pub infer_net_mask-none :
    (addr : ℕ) → addr < 2 ^ 32 → (infer_net_mask addr ≡ none) ↔ (0xf000_0000 ≤ addr)
unfolding infer_net_mask
infer_net_mask-none addr h = (λ e. ground arith, λ e. ground arith)

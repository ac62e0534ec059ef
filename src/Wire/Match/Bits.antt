-- ===== src/Wire/Match/Bits.antt =====
-- The wildcard bits of a match are one number of 22 bits.
use cs425a_computer_networks.Base.{
  ℕ, ◌/◌, ◌%◌, ◌^◌, ◌≤◌, ◌<◌, ◌≡◌, refl, ap, ◌∙◌, arith, Bool, true, false, ◌==◌,
}
use cs425a_computer_networks.Wire.Match.{Wildcards, bit, wild_number, wild_of}

bit_le : (b : Bool) → bit b ≤ 1
unfolding bit
bit_le true = omega arith
bit_le false = omega arith

bit-eq_one : (b : Bool) → (bit b == 1) ≡ b
unfolding bit
bit-eq_one true = refl
bit-eq_one false = refl

-- Every bit is at most 1, which the steps of arithmetic find in scope.
module _ (w : Wildcards) (h : w.nw_src < 2 ^ 6) (k : w.nw_dst < 2 ^ 6)
    (at_in_port : bit w.in_port ≤ 1) (at_dl_vlan : bit w.dl_vlan ≤ 1) (at_dl_src : bit w.dl_src ≤ 1)
    (at_dl_dst : bit w.dl_dst ≤ 1) (at_dl_type : bit w.dl_type ≤ 1)
    (at_nw_proto : bit w.nw_proto ≤ 1) (at_tp_src : bit w.tp_src ≤ 1) (at_tp_dst : bit w.tp_dst ≤ 1)
    (at_dl_vlan_pcp : bit w.dl_vlan_pcp ≤ 1) (at_nw_tos : bit w.nw_tos ≤ 1) where
  abbrev n : ℕ
  n = wild_number w

  bit-in_port : (n % 2 == 1) ≡ w.in_port
  unfolding wild_number
  bit-in_port = ap (λ x. x == 1) (omega arith) ∙ bit-eq_one w.in_port

  bit-dl_vlan : (n / 2 % 2 == 1) ≡ w.dl_vlan
  unfolding wild_number
  bit-dl_vlan = ap (λ x. x == 1) (omega arith) ∙ bit-eq_one w.dl_vlan

  bit-dl_src : (n / 4 % 2 == 1) ≡ w.dl_src
  unfolding wild_number
  bit-dl_src = ap (λ x. x == 1) (omega arith) ∙ bit-eq_one w.dl_src

  bit-dl_dst : (n / 8 % 2 == 1) ≡ w.dl_dst
  unfolding wild_number
  bit-dl_dst = ap (λ x. x == 1) (omega arith) ∙ bit-eq_one w.dl_dst

  bit-dl_type : (n / 16 % 2 == 1) ≡ w.dl_type
  unfolding wild_number
  bit-dl_type = ap (λ x. x == 1) (omega arith) ∙ bit-eq_one w.dl_type

  bit-nw_proto : (n / 32 % 2 == 1) ≡ w.nw_proto
  unfolding wild_number
  bit-nw_proto = ap (λ x. x == 1) (omega arith) ∙ bit-eq_one w.nw_proto

  bit-tp_src : (n / 64 % 2 == 1) ≡ w.tp_src
  unfolding wild_number
  bit-tp_src = ap (λ x. x == 1) (omega arith) ∙ bit-eq_one w.tp_src

  bit-tp_dst : (n / 128 % 2 == 1) ≡ w.tp_dst
  unfolding wild_number
  bit-tp_dst = ap (λ x. x == 1) (omega arith) ∙ bit-eq_one w.tp_dst

  bit-dl_vlan_pcp : (n / 2 ^ 20 % 2 == 1) ≡ w.dl_vlan_pcp
  unfolding wild_number
  bit-dl_vlan_pcp = ap (λ x. x == 1) (omega arith) ∙ bit-eq_one w.dl_vlan_pcp

  bit-nw_tos : (n / 2 ^ 21 % 2 == 1) ≡ w.nw_tos
  unfolding wild_number
  bit-nw_tos = ap (λ x. x == 1) (omega arith) ∙ bit-eq_one w.nw_tos

  bits-nw_src : n / 2 ^ 8 % 2 ^ 6 ≡ w.nw_src
  unfolding wild_number
  bits-nw_src = omega arith

  bits-nw_dst : n / 2 ^ 14 % 2 ^ 6 ≡ w.nw_dst
  unfolding wild_number
  bits-nw_dst = omega arith

  read_back : wild_of n ≡ w
  unfolding wild_of
  read_back =
      rw
        (
          bit-in_port, bit-dl_vlan, bit-dl_src, bit-dl_dst, bit-dl_type, bit-nw_proto, bit-tp_src,
          bit-tp_dst, bit-dl_vlan_pcp, bit-nw_tos, bits-nw_src, bits-nw_dst,
        )
        refl

  in_range : n < 2 ^ 22
  unfolding wild_number
  in_range = omega arith

module _ (w : Wildcards) (h : w.nw_src < 2 ^ 6) (k : w.nw_dst < 2 ^ 6) where
  -- The bits are read back from the number.
  pub wild_of-wild_number : wild_of (wild_number w) ≡ w
  wild_of-wild_number =
      read_back w h k (bit_le w.in_port) (bit_le w.dl_vlan) (bit_le w.dl_src) (bit_le w.dl_dst)
        (bit_le w.dl_type) (bit_le w.nw_proto) (bit_le w.tp_src) (bit_le w.tp_dst)
        (bit_le w.dl_vlan_pcp) (bit_le w.nw_tos)

  pub wild_number_range : wild_number w < 2 ^ 22
  wild_number_range =
      in_range w h k (bit_le w.in_port) (bit_le w.dl_vlan) (bit_le w.dl_src) (bit_le w.dl_dst)
        (bit_le w.dl_type) (bit_le w.nw_proto) (bit_le w.tp_src) (bit_le w.tp_dst)
        (bit_le w.dl_vlan_pcp) (bit_le w.nw_tos)

-- ===== src/OpenFlow/Match/Fields.antt =====
-- What the tests of `matches_with_wildcards` say of single fields, and of all of them.
use cs425a_computer_networks.Base.{
  ℕ, ◌-◌, ◌*◌, ◌/◌, ◌%◌, ◌^◌, ◌≤◌, ◌<◌, ◌≡◌, ◌↔◌, refl, sym, ap, arith, true, not, ◌==◌, Option,
  none, some, ==→eq, ==-refl, Bool-cases, le→leb, inl, inr, and_elim,
}
use cs425a_computer_networks.Addresses.{in_network}
use cs425a_computer_networks.OpenFlow.Match.{
  Match, get_nw_src, get_nw_dst, nw_addr, nw_bits, opt_eq, match_fail, match_fail_eth, nw_covers,
  fields_cover,
}

-- A field that is not wildcarded has the same value on the other side.
abbrev pub FieldCovers : Option ℕ → Option ℕ → Type 0
FieldCovers none others = Unit {0}
FieldCovers (some v) others = others ≡ some v

-- The address on the other side has a prefix of this length at least, and lies in the network.
abbrev pub NwCovers : Option ℕ × ℕ → Option ℕ × ℕ → Type 0
NwCovers (none, b) others = Unit {0}
NwCovers (some n, b) (none, c) = ⊥
NwCovers (some n, b) (some ip, c) = (b ≤ c) × (ip / 2 ^ (32 - b) * 2 ^ (32 - b) ≡ n)

-- The address is not the one that the code takes for "no address".
abbrev pub NotZero : Option ℕ → Type 0
NotZero none = Unit {0}
NotZero (some v) = 0 < v

-- The host bits of a network are clear, and the count of wildcard bits is normalised.
pub record IsNetwork (addr wild : ℕ) : Type 0 where
  pub bounded : wild ≤ 32
  pub clear : addr / 2 ^ wild * 2 ^ wild ≡ addr

pub record IsProper (m : Match) : Type 0 where
  pub dl_src : NotZero m.dl_src
  pub dl_dst : NotZero m.dl_dst
  pub nw_src : IsNetwork m.nw_src_addr m.nw_src_wild
  pub nw_dst : IsNetwork m.nw_dst_addr m.nw_dst_wild

-- Every field of `a` that is not wildcarded covers that of `b`.
pub record Covers (a b : Match) : Type 0 where
  pub in_port : FieldCovers a.in_port b.in_port
  pub dl_src : FieldCovers a.dl_src b.dl_src
  pub dl_dst : FieldCovers a.dl_dst b.dl_dst
  pub dl_vlan : FieldCovers a.dl_vlan b.dl_vlan
  pub dl_vlan_pcp : FieldCovers a.dl_vlan_pcp b.dl_vlan_pcp
  pub dl_type : FieldCovers a.dl_type b.dl_type
  pub nw_tos : FieldCovers a.nw_tos b.nw_tos
  pub nw_proto : FieldCovers a.nw_proto b.nw_proto
  pub tp_src : FieldCovers a.tp_src b.tp_src
  pub tp_dst : FieldCovers a.tp_dst b.tp_dst
  pub nw_src : NwCovers (get_nw_src a) (get_nw_src b)
  pub nw_dst : NwCovers (get_nw_dst a) (get_nw_dst b)

pub match_fail_iff : (x y : Option ℕ) → (not (match_fail x y) ≡ true) ↔ FieldCovers x y
unfolding match_fail
match_fail_iff none y = (λ _. tt, λ _. refl)
match_fail_iff (some v) none = (λ h. cc, λ h. cc)
match_fail_iff (some v) (some w) = (λ h. ground arith, λ h. ground arith)

pub match_fail_eth_iff :
    (x y : Option ℕ) → NotZero x → (not (match_fail_eth x y) ≡ true) ↔ FieldCovers x y
unfolding match_fail_eth
match_fail_eth_iff none y p = (λ _. tt, λ _. refl)
match_fail_eth_iff (some v) none p = (λ h. ground arith, λ h. cc)
match_fail_eth_iff (some v) (some w) p = (λ h. ground arith, λ h. ground arith)

pub nw_covers_iff : (x y : Option ℕ × ℕ) → (nw_covers x y ≡ true) ↔ NwCovers x y
unfolding nw_covers in_network
nw_covers_iff (none, b) y = (λ _. tt, λ _. refl)
nw_covers_iff (some n, b) (none, c) = (λ h. cc, λ h. absurd h)
nw_covers_iff (some n, b) (some ip, c) = (λ h. ground arith, λ h. ground arith)

module _ (a b : Match) (proper : IsProper a) where
  pub fields_cover→Covers : fields_cover a b ≡ true → Covers a b
  unfolding fields_cover
  fields_cover→Covers h =
      let (h1, r1) = and_elim _ _ h in
      let (h2, r2) = and_elim _ _ r1 in
      let (h3, r3) = and_elim _ _ r2 in
      let (h4, r4) = and_elim _ _ r3 in
      let (h5, r5) = and_elim _ _ r4 in
      let (h6, r6) = and_elim _ _ r5 in
      let (h7, r7) = and_elim _ _ r6 in
      let (h8, r8) = and_elim _ _ r7 in
      let (h9, r9) = and_elim _ _ r8 in
      let (h10, r10) = and_elim _ _ r9 in
      let (h11, h12) = and_elim _ _ r10 in
      record {
        in_port = (match_fail_iff a.in_port b.in_port).0 h1;
        dl_src = (match_fail_eth_iff a.dl_src b.dl_src proper.dl_src).0 h3;
        dl_dst = (match_fail_eth_iff a.dl_dst b.dl_dst proper.dl_dst).0 h4;
        dl_vlan = (match_fail_iff a.dl_vlan b.dl_vlan).0 h2;
        dl_vlan_pcp = (match_fail_iff a.dl_vlan_pcp b.dl_vlan_pcp).0 h9;
        dl_type = (match_fail_iff a.dl_type b.dl_type).0 h5;
        nw_tos = (match_fail_iff a.nw_tos b.nw_tos).0 h10;
        nw_proto = (match_fail_iff a.nw_proto b.nw_proto).0 h6;
        tp_src = (match_fail_iff a.tp_src b.tp_src).0 h7;
        tp_dst = (match_fail_iff a.tp_dst b.tp_dst).0 h8;
        nw_src = (nw_covers_iff (get_nw_src a) (get_nw_src b)).0 h11;
        nw_dst = (nw_covers_iff (get_nw_dst a) (get_nw_dst b)).0 h12;
      }

  pub Covers→fields_cover : Covers a b → fields_cover a b ≡ true
  unfolding fields_cover
  Covers→fields_cover c = rw (
    (match_fail_iff a.in_port b.in_port).1 c.in_port,
    (match_fail_eth_iff a.dl_src b.dl_src proper.dl_src).1 c.dl_src,
    (match_fail_eth_iff a.dl_dst b.dl_dst proper.dl_dst).1 c.dl_dst,
    (match_fail_iff a.dl_vlan b.dl_vlan).1 c.dl_vlan,
    (match_fail_iff a.dl_vlan_pcp b.dl_vlan_pcp).1 c.dl_vlan_pcp,
    (match_fail_iff a.dl_type b.dl_type).1 c.dl_type,
    (match_fail_iff a.nw_tos b.nw_tos).1 c.nw_tos,
    (match_fail_iff a.nw_proto b.nw_proto).1 c.nw_proto,
    (match_fail_iff a.tp_src b.tp_src).1 c.tp_src,
    (match_fail_iff a.tp_dst b.tp_dst).1 c.tp_dst,
    (nw_covers_iff (get_nw_src a) (get_nw_src b)).1 c.nw_src,
    (nw_covers_iff (get_nw_dst a) (get_nw_dst b)).1 c.nw_dst,
  )

pub opt_eq→eq : (x y : Option ℕ) → opt_eq x y ≡ true → x ≡ y
unfolding opt_eq
opt_eq→eq none none h = refl
opt_eq→eq none (some w) h = cc
opt_eq→eq (some v) none h = cc
opt_eq→eq (some v) (some w) h = ap some (==→eq v w h)

pub opt_eq_refl : (x : Option ℕ) → opt_eq x x ≡ true
unfolding opt_eq
opt_eq_refl none = refl
opt_eq_refl (some v) = ==-refl v

pub FieldCovers-of_eq : (x y : Option ℕ) → x ≡ y → FieldCovers x y
FieldCovers-of_eq none y h = tt
FieldCovers-of_eq (some v) y h = sym h

-- A network covers itself.
pub NwCovers-self :
    (addr wild addr' : ℕ)
    → IsNetwork addr wild
    → nw_addr addr wild ≡ nw_addr addr' wild
    → NwCovers (nw_addr addr wild, nw_bits wild) (nw_addr addr' wild, nw_bits wild)
NwCovers-self addr wild addr' net h = elim (Bool-cases (wild / 32 % 2 == 1)) [
  | inl all ↦ unfold nw_addr nw_bits in rw all tt
  | inr part ↦
      let same : addr ≡ addr' = unfold nw_addr in ground arith in
      let wide : 32 - (32 - wild) ≡ wild = omega (arith, net.bounded) in
      unfold nw_addr nw_bits in
      rw (part, (le→leb wild 32 net.bounded), wide, ← same) (omega arith, net.clear)
]

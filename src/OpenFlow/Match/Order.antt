-- ===== src/OpenFlow/Match/Order.antt =====
-- `matches_with_wildcards` as an order on matches: what it decides, and that it composes.
use cs425a_computer_networks.Base.{
  ℕ, zero, suc, ◌+◌, ◌-◌, ◌*◌, ◌/◌, ◌^◌, ◌≤◌, ◌≡◌, ◌↔◌, refl, sym, ap, ◌∙◌, arith, Bool, true, not,
  ◌&&◌, ◌||◌, Option, none, some, ==→eq, Bool-cases, inl, inr, and_elim,
}
use native.Mathlib.Nat.{
  div-div-eq-div-mul, mul-div_cancel, mul_assoc, pow-suc, add-suc, add-zero, pow-zero, mul-one,
  one-le-pow,
}
use cs425a_computer_networks.OpenFlow.Match.{
  Match, get_nw_src, get_nw_dst, match_eq, fields_cover, bit_covers, bits_cover,
  matches_with_wildcards,
}
use cs425a_computer_networks.OpenFlow.Match.Fields.{
  FieldCovers, NwCovers, IsProper, Covers, fields_cover→Covers, Covers→fields_cover, opt_eq→eq,
  FieldCovers-of_eq, NwCovers-self,
}

module _ (a b : Match) where
  match_eq→Covers : IsProper a → match_eq a b ≡ true → Covers a b
  unfolding match_eq get_nw_src get_nw_dst
  match_eq→Covers proper h =
      let (h1, r1) = and_elim _ _ h in
      let (h2, r2) = and_elim _ _ r1 in
      let (h3, r3) = and_elim _ _ r2 in
      let (h4, r4) = and_elim _ _ r3 in
      let (h5, r5) = and_elim _ _ r4 in
      let (h6, r6) = and_elim _ _ r5 in
      let (h7, r7) = and_elim _ _ r6 in
      let (h8, r8) = and_elim _ _ r7 in
      let (h9, r9) = and_elim _ _ r8 in
      let (h10, r10) = and_elim _ _ r9 in
      let (h11, r11) = and_elim _ _ r10 in
      let (h12, r12) = and_elim _ _ r11 in
      let (h13, h14) = and_elim _ _ r12 in
      let src : a.nw_src_wild ≡ b.nw_src_wild = ==→eq _ _ h1 in
      let dst : a.nw_dst_wild ≡ b.nw_dst_wild = ==→eq _ _ h2 in
      record {
        in_port = FieldCovers-of_eq _ _ (opt_eq→eq _ _ h3);
        dl_src = FieldCovers-of_eq _ _ (opt_eq→eq _ _ h4);
        dl_dst = FieldCovers-of_eq _ _ (opt_eq→eq _ _ h5);
        dl_vlan = FieldCovers-of_eq _ _ (opt_eq→eq _ _ h6);
        dl_vlan_pcp = FieldCovers-of_eq _ _ (opt_eq→eq _ _ h7);
        dl_type = FieldCovers-of_eq _ _ (opt_eq→eq _ _ h8);
        nw_tos = FieldCovers-of_eq _ _ (opt_eq→eq _ _ h9);
        nw_proto = FieldCovers-of_eq _ _ (opt_eq→eq _ _ h10);
        tp_src = FieldCovers-of_eq _ _ (opt_eq→eq _ _ h13);
        tp_dst = FieldCovers-of_eq _ _ (opt_eq→eq _ _ h14);
        nw_src = rw (← src) (
            NwCovers-self a.nw_src_addr a.nw_src_wild b.nw_src_addr proper.nw_src
              (rw (← src) at (opt_eq→eq _ _ h11)));
        nw_dst = rw (← dst) (
            NwCovers-self a.nw_dst_addr a.nw_dst_wild b.nw_dst_addr proper.nw_dst
              (rw (← dst) at (opt_eq→eq _ _ h12)));
      }

bit_covers-of : (x y : Option ℕ) → FieldCovers x y → bit_covers x y ≡ true
unfolding bit_covers
bit_covers-of none y h = refl
bit_covers-of (some v) none h = cc
bit_covers-of (some v) (some w) h = refl

module _ (a b : Match) where
  Covers→bits_cover : Covers a b → bits_cover a b ≡ true
  unfolding bits_cover
  Covers→bits_cover c = rw (
    bit_covers-of _ _ c.in_port,
    bit_covers-of _ _ c.dl_src,
    bit_covers-of _ _ c.dl_dst,
    bit_covers-of _ _ c.dl_vlan,
    bit_covers-of _ _ c.dl_vlan_pcp,
    bit_covers-of _ _ c.dl_type,
    bit_covers-of _ _ c.nw_tos,
    bit_covers-of _ _ c.nw_proto,
    bit_covers-of _ _ c.tp_src,
    bit_covers-of _ _ c.tp_dst,
  )

  -- `matches_with_wildcards` returns True, with either value of `consider_other_wildcards`,
  -- exactly if every field of the first match that is not wildcarded covers that of the second,
  -- provided the first has no Ethernet address 0 and its networks have no host bits.
  pub matches_iff :
      (consider : Bool) → IsProper a → (matches_with_wildcards a b consider ≡ true) ↔ Covers a b
  unfolding matches_with_wildcards
  matches_iff consider proper = (forth, back)
    where
      forth :
          (match_eq a b || ((not consider || bits_cover a b) && fields_cover a b)) ≡ true
          → Covers a b
      forth h = elim (Bool-cases (match_eq a b)) [
        | inl e ↦ match_eq→Covers a b proper e
        | inr e ↦ fields_cover→Covers a b proper (and_elim _ _ (rw e at h)).1
      ]

      back :
          Covers a b
          → (match_eq a b || ((not consider || bits_cover a b) && fields_cover a b)) ≡ true
      back c =
          let bits : bits_cover a b ≡ true = Covers→bits_cover c in
          let fields : fields_cover a b ≡ true = Covers→fields_cover a b proper c in ground arith

FieldCovers-trans : (x y z : Option ℕ) → FieldCovers x y → FieldCovers y z → FieldCovers x z
FieldCovers-trans none y z h k = tt
FieldCovers-trans (some v) none z h k = cc
FieldCovers-trans (some v) (some w) z h k = cc

pow_add : (u v : ℕ) → 2 ^ (u + v) ≡ 2 ^ u * 2 ^ v
pow_add u zero = rw (add-zero, pow-zero, mul-one) refl
pow_add u (suc v) = rw (add-suc, pow-suc, pow-suc, pow_add u v) (mul_assoc (2 ^ u) (2 ^ v) 2)

-- Cutting off `w2` bits first does not change what is left behind `w1` bits.
prefix-prefix : (x w1 w2 : ℕ) → w2 ≤ w1 → x / 2 ^ w2 * 2 ^ w2 / 2 ^ w1 ≡ x / 2 ^ w1
prefix-prefix x w1 w2 h =
    let split : w1 ≡ w2 + (w1 - w2) = omega arith in
    rw
      (
        split,
        pow_add w2 (w1 - w2),
        ← div-div-eq-div-mul,
        ← div-div-eq-div-mul,
        mul-div_cancel (x / 2 ^ w2) (one-le-pow w2 2 (omega arith)),
      )
      refl

NwCovers-trans : (x y z : Option ℕ × ℕ) → NwCovers x y → NwCovers y z → NwCovers x z
NwCovers-trans (none, b) y z h k = tt
NwCovers-trans (some n, b) (none, c) z h k = absurd h
NwCovers-trans (some n, b) (some ip, c) (none, d) h k = absurd k
NwCovers-trans (some n, b) (some ip, c) (some ip', d) (bc, e) (cd, e') = (
  omega arith,
  ap (λ (t : ℕ). t * 2 ^ (32 - b))
        (sym (prefix-prefix ip' (32 - b) (32 - c) (omega arith))
          ∙ ap (λ (t : ℕ). t / 2 ^ (32 - b)) e')
      ∙ e,
)

-- If `a` covers `b` and `b` covers `c`, a packet's match for one, then `a` covers `c`.
pub Covers-trans : (a b c : Match) → Covers a b → Covers b c → Covers a c
Covers-trans a b c h k = record {
  in_port = FieldCovers-trans _ _ _ h.in_port k.in_port;
  dl_src = FieldCovers-trans _ _ _ h.dl_src k.dl_src;
  dl_dst = FieldCovers-trans _ _ _ h.dl_dst k.dl_dst;
  dl_vlan = FieldCovers-trans _ _ _ h.dl_vlan k.dl_vlan;
  dl_vlan_pcp = FieldCovers-trans _ _ _ h.dl_vlan_pcp k.dl_vlan_pcp;
  dl_type = FieldCovers-trans _ _ _ h.dl_type k.dl_type;
  nw_tos = FieldCovers-trans _ _ _ h.nw_tos k.nw_tos;
  nw_proto = FieldCovers-trans _ _ _ h.nw_proto k.nw_proto;
  tp_src = FieldCovers-trans _ _ _ h.tp_src k.tp_src;
  tp_dst = FieldCovers-trans _ _ _ h.tp_dst k.tp_dst;
  nw_src = NwCovers-trans _ _ _ h.nw_src k.nw_src;
  nw_dst = NwCovers-trans _ _ _ h.nw_dst k.nw_dst;
}

-- If one match encompasses a second and the second encompasses a third, the first encompasses the
-- third, whichever values `consider_other_wildcards` has in the three tests, provided the first
-- two have no Ethernet address 0 and their networks have no host bits.
pub matches_trans :
    (a b c : Match) (f g k : Bool)
    → IsProper a
    → IsProper b
    → matches_with_wildcards a b f ≡ true
    → matches_with_wildcards b c g ≡ true
    → matches_with_wildcards a c k ≡ true
matches_trans a b c f g k pa pb h1 h2 =
    (matches_iff a c k pa).1
      (Covers-trans a b c ((matches_iff a b f pa).0 h1) ((matches_iff b c g pb).0 h2))

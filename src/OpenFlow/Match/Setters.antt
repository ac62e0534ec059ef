-- ===== src/OpenFlow/Match/Setters.antt =====
-- `set_nw_src` and `set_nw_dst` against the getters.
use cs425a_computer_networks.Base.{ℕ, ◌<◌, ◌≡◌, refl, arith, ◌==◌, if◌then◌else◌, none, some}
use cs425a_computer_networks.OpenFlow.Match.{
  Match, nw_addr, nw_bits, clip_bits, get_nw_src, get_nw_dst, set_nw_src, set_nw_dst,
}

module _ (m : Match) (ip b : ℕ) where
  -- A source address that is set with a number of prefix bits is read back with the bits cut to
  -- 32, or as a wildcard where there are no bits; the destination stays as it was.
  pub get_nw_src-set_nw_src :
      (get_nw_src (set_nw_src (some (ip, b)) m)
        ≡ (if b == 0 then (none, 0) else (some ip, clip_bits b)))
      × (get_nw_dst (set_nw_src (some (ip, b)) m) ≡ get_nw_dst m)
  unfolding get_nw_src get_nw_dst set_nw_src nw_addr nw_bits clip_bits
  get_nw_src-set_nw_src = (ground arith, refl)

  pub get_nw_dst-set_nw_dst :
      (get_nw_dst (set_nw_dst (some (ip, b)) m)
        ≡ (if b == 0 then (none, 0) else (some ip, clip_bits b)))
      × (get_nw_src (set_nw_dst (some (ip, b)) m) ≡ get_nw_src m)
  unfolding get_nw_src get_nw_dst set_nw_dst nw_addr nw_bits clip_bits
  get_nw_dst-set_nw_dst = (ground arith, refl)

-- Wildcarding the destination turns every source address that is not wildcarded into 0.0.0.0.
pub get_nw_src-set_nw_dst-none :
    (m : Match) → m.nw_src_wild < 32 → (get_nw_src (set_nw_dst none m)).0 ≡ some 0
unfolding get_nw_src set_nw_dst nw_addr
get_nw_src-set_nw_dst-none m h = ground arith

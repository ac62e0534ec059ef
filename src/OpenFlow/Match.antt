-- ===== src/OpenFlow/Match.antt =====
-- `ofp_match` of Project-4/pox/pox/openflow/libopenflow_01.py. A field whose wildcard bit is set is
-- `none`, since `__getattr__` returns None then; for the two network addresses the address and the
-- six wildcard bits are kept apart, as the setters write them. An Ethernet address is its
-- `toInt()`, an IP address its `toUnsigned()`.
pub mod Fields
pub mod Order
pub mod Packets
pub mod Setters
mod Tests
use cs425a_computer_networks.Base.{
  ℕ, ◌-◌, ◌/◌, ◌%◌, Bool, true, false, not, ◌&&◌, ◌||◌, ◌==◌, ltb, leb, if◌then◌else◌, Option, none,
  some,
}
use cs425a_computer_networks.Addresses.{in_network}

pub record Match : Type 0 where
  pub in_port : Option ℕ
  pub dl_src : Option ℕ
  pub dl_dst : Option ℕ
  pub dl_vlan : Option ℕ
  pub dl_vlan_pcp : Option ℕ
  pub dl_type : Option ℕ
  pub nw_tos : Option ℕ
  pub nw_proto : Option ℕ
  pub tp_src : Option ℕ
  pub tp_dst : Option ℕ
  pub nw_src_addr : ℕ
  pub nw_src_wild : ℕ
  pub nw_dst_addr : ℕ
  pub nw_dst_wild : ℕ

-- `ofp_match()`: everything is wildcarded, and `_normalize_wildcards` makes 63 a 32.
abbrev pub any_match : Match
any_match = record {
  in_port = none;
  dl_src = none;
  dl_dst = none;
  dl_vlan = none;
  dl_vlan_pcp = none;
  dl_type = none;
  nw_tos = none;
  nw_proto = none;
  tp_src = none;
  tp_dst = none;
  nw_src_addr = 0;
  nw_src_wild = 32;
  nw_dst_addr = 0;
  nw_dst_wild = 32;
}

-- `_normalize_wildcards`, on the six bits of one address.
unfoldable pub normalize_wild : ℕ → ℕ
normalize_wild w = if ltb 32 w then 32 else w

-- `get_nw_src` and `get_nw_dst`: the address, if bit 32 of the count is not set, and the prefix.
unfoldable pub nw_addr : ℕ → ℕ → Option ℕ
nw_addr addr wild = if wild / 32 % 2 == 1 then none else some addr

unfoldable pub nw_bits : ℕ → ℕ
nw_bits wild = if wild / 32 % 2 == 1 then 0 else if leb wild 32 then 32 - wild else 0

unfoldable pub get_nw_src : Match → Option ℕ × ℕ
get_nw_src m = (nw_addr m.nw_src_addr m.nw_src_wild, nw_bits m.nw_src_wild)

unfoldable pub get_nw_dst : Match → Option ℕ × ℕ
get_nw_dst m = (nw_addr m.nw_dst_addr m.nw_dst_wild, nw_bits m.nw_dst_wild)

-- `_make_addr` on an address with a number of bits: more than 32 are 32. Not negative here.
unfoldable pub clip_bits : ℕ → ℕ
clip_bits b = if ltb 32 b then 32 else b

-- `set_nw_src`: `none` wildcards it, otherwise an address and its bits.
unfoldable pub set_nw_src : Option (ℕ × ℕ) → Match → Match
set_nw_src none m = record m { nw_src_addr = 0; nw_src_wild = 32 }
set_nw_src (some (ip, b)) m = record m { nw_src_addr = ip; nw_src_wild = 32 - clip_bits b }

-- `set_nw_dst`: on None the source resets `_nw_src`, not `_nw_dst`.
unfoldable pub set_nw_dst : Option (ℕ × ℕ) → Match → Match
set_nw_dst none m = record m { nw_src_addr = 0; nw_dst_wild = 32 }
set_nw_dst (some (ip, b)) m = record m { nw_dst_addr = ip; nw_dst_wild = 32 - clip_bits b }

-- `==` of two fields, wildcard bits included.
unfoldable pub opt_eq : Option ℕ → Option ℕ → Bool
opt_eq none none = true
opt_eq none (some w) = false
opt_eq (some v) none = false
opt_eq (some v) (some w) = v == w

-- `__eq__`
unfoldable pub match_eq : Match → Match → Bool
match_eq a b =
    a.nw_src_wild == b.nw_src_wild
    && (a.nw_dst_wild == b.nw_dst_wild
        && (opt_eq a.in_port b.in_port
            && (opt_eq a.dl_src b.dl_src
                && (opt_eq a.dl_dst b.dl_dst
                    && (opt_eq a.dl_vlan b.dl_vlan
                        && (opt_eq a.dl_vlan_pcp b.dl_vlan_pcp
                            && (opt_eq a.dl_type b.dl_type
                                && (opt_eq a.nw_tos b.nw_tos
                                    && (opt_eq a.nw_proto b.nw_proto
                                        && (opt_eq (get_nw_src a).0 (get_nw_src b).0
                                            && (opt_eq (get_nw_dst a).0 (get_nw_dst b).0
                                                && (opt_eq a.tp_src b.tp_src
                                                    && opt_eq a.tp_dst b.tp_dst))))))))))))

is_some : Option ℕ → Bool
is_some none = false
is_some (some v) = true

-- `is_wildcarded`: some wildcard bit is set.
unfoldable pub is_wildcarded : Match → Bool
unfolding is_some
is_wildcarded m = not (
    m.nw_src_wild == 0
    && (m.nw_dst_wild == 0
        && (is_some m.in_port
            && (is_some m.dl_src
                && (is_some m.dl_dst
                    && (is_some m.dl_vlan
                        && (is_some m.dl_vlan_pcp
                            && (is_some m.dl_type
                                && (is_some m.nw_tos
                                    && (is_some m.nw_proto
                                        && (is_some m.tp_src && is_some m.tp_dst)))))))))))

-- The wildcard bit of a field of the other match has to be set here too.
unfoldable pub bit_covers : Option ℕ → Option ℕ → Bool
bit_covers none other = true
bit_covers (some v) none = false
bit_covers (some v) (some w) = true

-- `self_bits | other_bits == self_bits`
unfoldable pub bits_cover : Match → Match → Bool
bits_cover a b =
    bit_covers a.in_port b.in_port
    && (bit_covers a.dl_src b.dl_src
        && (bit_covers a.dl_dst b.dl_dst
            && (bit_covers a.dl_vlan b.dl_vlan
                && (bit_covers a.dl_vlan_pcp b.dl_vlan_pcp
                    && (bit_covers a.dl_type b.dl_type
                        && (bit_covers a.nw_tos b.nw_tos
                            && (bit_covers a.nw_proto b.nw_proto
                                && (bit_covers a.tp_src b.tp_src
                                    && bit_covers a.tp_dst b.tp_dst))))))))

-- `match_fail` on numbers.
unfoldable pub match_fail : Option ℕ → Option ℕ → Bool
match_fail none others = false
match_fail (some v) none = true
match_fail (some v) (some w) = not (v == w)

-- `match_fail` on Ethernet addresses: `EthAddr.__cmp__` takes None for the address 0, so an
-- address 0 here is not `!= None`.
unfoldable pub match_fail_eth : Option ℕ → Option ℕ → Bool
match_fail_eth none others = false
match_fail_eth (some v) none = not (v == 0)
match_fail_eth (some v) (some w) = not (v == 0) && not (v == w)

-- The test of one network address; each side is an address with its prefix. An address here has
-- one prefix bit at least, and a wildcarded one there has none, so the second case ends at the
-- comparison of the prefixes.
unfoldable pub nw_covers : Option ℕ × ℕ → Option ℕ × ℕ → Bool
nw_covers (none, b) other = true
nw_covers (some n, b) (none, c) = false
nw_covers (some n, b) (some ip, c) = leb b c && in_network ip n (32 - b)

-- The tests of `matches_with_wildcards` behind the bit mask.
unfoldable pub fields_cover : Match → Match → Bool
fields_cover a b =
    not (match_fail a.in_port b.in_port)
    && (not (match_fail a.dl_vlan b.dl_vlan)
        && (not (match_fail_eth a.dl_src b.dl_src)
            && (not (match_fail_eth a.dl_dst b.dl_dst)
                && (not (match_fail a.dl_type b.dl_type)
                    && (not (match_fail a.nw_proto b.nw_proto)
                        && (not (match_fail a.tp_src b.tp_src)
                            && (not (match_fail a.tp_dst b.tp_dst)
                                && (not (match_fail a.dl_vlan_pcp b.dl_vlan_pcp)
                                    && (not (match_fail a.nw_tos b.nw_tos)
                                        && (nw_covers (get_nw_src a) (get_nw_src b)
                                            && nw_covers (get_nw_dst a) (get_nw_dst b)))))))))))

-- `a.matches_with_wildcards(b, consider_other_wildcards)`
unfoldable pub matches_with_wildcards : Match → Match → Bool → Bool
matches_with_wildcards a b consider =
    match_eq a b || ((not consider || bits_cover a b) && fields_cover a b)

-- ===== src/OpenFlow/Match/Tests.antt =====
-- Matches of a web request, and the theorems at them.
use cs425a_computer_networks.Base.{◌≡◌, ◌↔◌, refl, arith, true, false, some}
use cs425a_computer_networks.OpenFlow.Match.{
  Match, any_match, matches_with_wildcards, set_nw_src, set_nw_dst, get_nw_src, get_nw_dst,
  clip_bits, match_eq, fields_cover, bits_cover, match_fail, match_fail_eth, nw_covers, nw_addr,
  nw_bits, opt_eq, bit_covers,
}
use cs425a_computer_networks.Addresses.{in_network}
use cs425a_computer_networks.OpenFlow.Match.Packets.{
  Packet, from_packet, ipv4, tcp, no_vlan, match_tag, match_network, match_transport,
}
use cs425a_computer_networks.OpenFlow.Match.Fields.{Covers, IsProper}
use cs425a_computer_networks.OpenFlow.Match.Order.{matches_iff, matches_trans}

-- 10.0.1.0/24 and 10.0.0.0/16
abbrev narrow : Match
narrow = record any_match { nw_src_addr = 0x0a000100; nw_src_wild = 8; dl_type = some 0x0800 }

abbrev wide : Match
wide = record any_match { nw_src_addr = 0x0a000000; nw_src_wild = 16 }

abbrev request : Packet
request = record {
  src = 1;
  dst = 2;
  eth_type = 0x0800;
  tag = no_vlan;
  next = ipv4 0x0a000107 0x0a000202 6 0 (tcp 40000 80);
}

abbrev flow : Match
flow = record {
  in_port = some 3;
  dl_src = some 1;
  dl_dst = some 2;
  dl_vlan = some 0xffff;
  dl_vlan_pcp = some 0;
  dl_type = some 0x0800;
  nw_tos = some 0;
  nw_proto = some 6;
  tp_src = some 40000;
  tp_dst = some 80;
  nw_src_addr = 0x0a000107;
  nw_src_wild = 0;
  nw_dst_addr = 0x0a000202;
  nw_dst_wild = 0;
}

flow_of_request : from_packet request (some 3) ≡ flow
unfolding from_packet match_tag match_network match_transport set_nw_src set_nw_dst clip_bits
flow_of_request = refl

narrow-IsProper : IsProper narrow
narrow-IsProper = omega arith

wide-IsProper : IsProper wide
wide-IsProper = omega arith

wide-narrow : matches_with_wildcards wide narrow true ≡ true
unfolding matches_with_wildcards match_eq fields_cover bits_cover match_fail match_fail_eth
    nw_covers nw_addr nw_bits opt_eq bit_covers get_nw_src get_nw_dst in_network
wide-narrow = refl

narrow-flow : matches_with_wildcards narrow flow false ≡ true
unfolding matches_with_wildcards match_eq fields_cover bits_cover match_fail match_fail_eth
    nw_covers nw_addr nw_bits opt_eq bit_covers get_nw_src get_nw_dst in_network
narrow-flow = refl

matches_iff_example : (matches_with_wildcards narrow flow false ≡ true) ↔ Covers narrow flow
matches_iff_example = matches_iff narrow flow false narrow-IsProper

matches_trans_example : matches_with_wildcards wide flow false ≡ true
matches_trans_example =
    matches_trans wide narrow flow true false false wide-IsProper narrow-IsProper wide-narrow
      narrow-flow

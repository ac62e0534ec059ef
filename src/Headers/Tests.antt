-- ===== src/Headers/Tests.antt =====
-- An ARP request, a frame and two tags, and the theorems at them.
use cs425a_computer_networks.Base.{
  ℕ, ◌<◌, some, false, ◌≡◌, refl, arith, [], ◌∷◌, ◌++◌, true, ok, err, ◌>>=◌, struct_error,
}
use cs425a_computer_networks.Bytes.{Bytes, unpack_u16}
use cs425a_computer_networks.Headers.Arp.{Arp, parse_arp, pack_arp}
use cs425a_computer_networks.Headers.Ethernet.{Ethernet, Vlan, parse_vlan, hdr_vlan}
use cs425a_computer_networks.Headers.Ipv4.{flags_or_frag, bit_or, Ipv4, hdr_ipv4, checksum}
use cs425a_computer_networks.Headers.Udp.{Udp, nothing, plain, hdr_udp, parse_udp}
use cs425a_computer_networks.Headers.Datagrams.{parse_udp-hdr_udp}
use cs425a_computer_networks.Headers.Checksum.{checksum-hdr_ipv4}
use cs425a_computer_networks.Headers.RoundTrip.{parse_arp-pack_arp}
use cs425a_computer_networks.Headers.Frames.{parse_vlan-hdr_vlan, hdr_vlan_flag}

abbrev request : Arp
request = record {
  hwtype = 1;
  prototype = 0x0800;
  hwlen = 6;
  protolen = 4;
  opcode = 1;
  hwsrc = 1 ∷ 2 ∷ 3 ∷ 4 ∷ 5 ∷ 6 ∷ [];
  hwdst = 0 ∷ 0 ∷ 0 ∷ 0 ∷ 0 ∷ 0 ∷ [];
  protosrc = 0x0a000001;
  protodst = 0x0a000002;
  next = [];
  parsed = true;
}

abbrev frame : Ethernet
frame = record {
  dst = 255 ∷ 255 ∷ 255 ∷ 255 ∷ 255 ∷ 255 ∷ [];
  src = 1 ∷ 2 ∷ 3 ∷ 4 ∷ 5 ∷ 6 ∷ [];
  eth_type = 0x0806;
  rest = 7 ∷ [];
  parsed = true;
}

abbrev tag : Vlan
tag = record { pcp = 5; c = 0; id = 100; eth_type = 0x0800; rest = 9 ∷ [] }

-- The same with the flag, as `parse` reads it.
abbrev flagged : Vlan
flagged = record { pcp = 5; c = 0x1000; id = 100; eth_type = 0x0800; rest = 9 ∷ [] }

flagged_parsed : parse_vlan (0xb0 ∷ 100 ∷ 8 ∷ 0 ∷ 9 ∷ []) ≡ ok flagged
unfolding parse_vlan unpack_u16
flagged_parsed = refl

parse_arp-pack_arp_example : (pack_arp request >>= parse_arp) ≡ ok request
parse_arp-pack_arp_example = parse_arp-pack_arp request (record {
  hwtype_range = omega arith;
  prototype_range = omega arith;
  hwlen_six = refl;
  protolen_four = refl;
  opcode_range = omega arith;
  hwsrc_six = refl;
  hwdst_six = refl;
  protosrc_range = omega arith;
  protodst_range = omega arith;
  is_parsed = refl;
})

parse_vlan-hdr_vlan_example : (hdr_vlan tag >>= λ header. parse_vlan (header ++ (9 ∷ []))) ≡ ok tag
parse_vlan-hdr_vlan_example =
    parse_vlan-hdr_vlan tag (omega arith) (omega arith) refl (omega arith) refl

hdr_vlan_flag_example : hdr_vlan flagged ≡ err struct_error
hdr_vlan_flag_example =
    hdr_vlan_flag (0xb0 ∷ 100 ∷ 8 ∷ 0 ∷ 9 ∷ []) flagged flagged_parsed (λ h. omega (arith, h))

-- A packet to be sent.
abbrev datagram : Ipv4
datagram = record {
  version = 4;
  hl = 5;
  tos = 0;
  iplen = 20;
  id = 7;
  flags = 2;
  frag = 0;
  ttl = 64;
  protocol = 17;
  csum = 0;
  srcip = 0x0a000001;
  dstip = 0x0a000002;
  next = [];
  parsed = true;
}

checksum-hdr_ipv4_example :
    (header : Bytes) × (hdr_ipv4 (1 ∷ 2 ∷ []) datagram ≡ ok header) × (checksum header ≡ 0)
unfolding flags_or_frag bit_or
checksum-hdr_ipv4_example = checksum-hdr_ipv4 (1 ∷ 2 ∷ []) datagram (record {
  version_range = omega arith;
  tos_range = omega arith;
  iplen_range = omega arith;
  id_range = omega arith;
  frag_range = omega arith;
  ttl_range = omega arith;
  protocol_range = omega arith;
  srcip_range = omega arith;
  dstip_range = omega arith;
})

-- A datagram in this packet.
abbrev query : Udp
query = record {
  srcport = 5000;
  dstport = 6000;
  size = 8;
  csum = 0;
  next = nothing;
  parsed = false;
}

parse_udp-hdr_udp_example :
    (header : Bytes) × (hdr_udp (some datagram) (1 ∷ 2 ∷ []) query ≡ ok header)
    × (csum : ℕ) × (0 < csum)
    × (parse_udp (header ++ (1 ∷ 2 ∷ []))
        ≡ ok (record {
          srcport = 5000;
          dstport = 6000;
          size = 10;
          csum = csum;
          next = plain (1 ∷ 2 ∷ []);
          parsed = true;
        }))
parse_udp-hdr_udp_example =
    parse_udp-hdr_udp datagram (1 ∷ 2 ∷ []) query
      (record {
        srcip_range = omega arith;
        dstip_range = omega arith;
        protocol_range = omega arith;
      })
      (omega arith) (omega arith) (omega arith) (record { no_dhcp = refl; no_dns = refl })

-- ===== src/OpenFlow/Match/Packets.antt =====
-- `ofp_match.from_packet`: the match of a parsed packet.
use cs425a_computer_networks.Base.{ℕ, leb, if◌then◌else◌, Option, some}
use cs425a_computer_networks.OpenFlow.Match.{Match, any_match, set_nw_src, set_nw_dst}

-- The parsed layers of a packet, as far as `from_packet` looks at them.
pub data Transport : Type 0 where
  tcp : ℕ → ℕ → Transport
  udp : ℕ → ℕ → Transport
  icmp : ℕ → ℕ → Transport
  no_transport : Transport

pub data Network : Type 0 where
  -- source, destination, protocol, type of service
  ipv4 : ℕ → ℕ → ℕ → ℕ → Transport → Network
  -- opcode, source, destination
  arp : ℕ → ℕ → ℕ → Network
  no_network : Network

pub data Tag : Type 0 where
  -- id, priority, type
  vlan : ℕ → ℕ → ℕ → Tag
  no_vlan : Tag

-- The payload of an `ethernet`, or of the `vlan` in it.
pub record Packet : Type 0 where
  pub src : ℕ
  pub dst : ℕ
  pub eth_type : ℕ
  pub tag : Tag
  pub next : Network

unfoldable pub match_tag : Packet → Tag → Match → Match
match_tag p (vlan id pcp eth_type) m = record m {
  dl_type = some eth_type;
  dl_vlan = some id;
  dl_vlan_pcp = some pcp;
}
match_tag p no_vlan m = record m { dl_vlan = some 0xffff; dl_vlan_pcp = some 0 }

unfoldable pub match_transport : Transport → Match → Match
match_transport (tcp s d) m = record m { tp_src = some s; tp_dst = some d }
match_transport (udp s d) m = record m { tp_src = some s; tp_dst = some d }
match_transport (icmp t c) m = record m { tp_src = some t; tp_dst = some c }
match_transport no_transport m = m

unfoldable pub match_network : Network → Match → Match
match_network (ipv4 src dst proto tos next) m =
    let m' = set_nw_dst (some (dst, 32)) (set_nw_src (some (src, 32)) m) in
    match_transport next (record m' { nw_proto = some proto; nw_tos = some tos })
match_network (arp opcode src dst) m =
    let m' =
      set_nw_dst (some (dst, 32))
        (set_nw_src (some (src, 32)) (record m { nw_proto = some opcode })) in
    if leb opcode 255 then m' else m
match_network no_network m = m

-- `in_port` is None for a call without a port.
unfoldable pub from_packet : Packet → Option ℕ → Match
from_packet p in_port =
    let m : Match = record any_match {
      in_port = in_port;
      dl_src = some p.src;
      dl_dst = some p.dst;
      dl_type = some p.eth_type;
    } in
    match_network p.next (match_tag p p.tag m)

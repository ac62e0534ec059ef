-- ===== src/Learning/Matches.antt =====
-- The match of a packet that leaves the port open, and the packets that pass it.
use cs425a_computer_networks.Base.{
  ℕ, nat_key, ◌≡◌, refl, sym, ap, ◌∙◌, leb, arith, Bool, true, false, ◌||◌, ==-refl, Option, none,
  some, Bool-cases, inl, inr,
}
use mathlib.Core.Path.{subst}
use cs425a_computer_networks.Addresses.{in_network}
use cs425a_computer_networks.OpenFlow.Match.{
  Match, matches_with_wildcards, fields_cover, match_fail, match_fail_eth, nw_covers, nw_addr,
  nw_bits, get_nw_src, get_nw_dst, set_nw_src, set_nw_dst, clip_bits,
}
use cs425a_computer_networks.OpenFlow.Match.Packets.{
  Packet, from_packet, match_tag, match_network, match_transport, Network, Tag, Transport, vlan,
  no_vlan, ipv4, arp, no_network, tcp, udp, icmp, no_transport,
}

match_fail_self : (o : Option ℕ) → match_fail o o ≡ false
unfolding match_fail
match_fail_self none = refl
match_fail_self (some v) = rw (==-refl v)

match_fail_eth_self : (o : Option ℕ) → match_fail_eth o o ≡ false
unfolding match_fail_eth
match_fail_eth_self none = refl
match_fail_eth_self (some v) = ground (arith, ==-refl v)

-- The port of arrival is the only difference that the port makes.
abbrev with_port : Option ℕ → Match → Match
with_port port m = record m { in_port = port }

with_port-match_tag :
    (p : Packet) (t : Tag) (port : Option ℕ) (m : Match)
    → match_tag p t (with_port port m) ≡ with_port port (match_tag p t m)
unfolding match_tag
with_port-match_tag p (vlan id pcp type) port m = refl
with_port-match_tag p no_vlan port m = refl

with_port-match_transport :
    (t : Transport) (port : Option ℕ) (m : Match)
    → match_transport t (with_port port m) ≡ with_port port (match_transport t m)
unfolding match_transport
with_port-match_transport (tcp s d) port m = refl
with_port-match_transport (udp s d) port m = refl
with_port-match_transport (icmp t c) port m = refl
with_port-match_transport no_transport port m = refl

with_port-match_network :
    (n : Network) (port : Option ℕ) (m : Match)
    → match_network n (with_port port m) ≡ with_port port (match_network n m)
unfolding match_network set_nw_src set_nw_dst
with_port-match_network (ipv4 src dst proto tos next) port m = with_port-match_transport next port _
with_port-match_network (arp opcode src dst) port m = ground arith
with_port-match_network no_network port m = refl

with_port-from_packet :
    (p : Packet) (port : Option ℕ) → from_packet p port ≡ with_port port (from_packet p none)
unfolding from_packet
with_port-from_packet p port =
    ap (match_network p.next) (with_port-match_tag p p.tag port _)
    ∙ with_port-match_network p.next port _

-- The two networks of the match of a packet cover themselves.
abbrev CoversSelf : Match → Type 0
CoversSelf m =
    (nw_covers (get_nw_src m) (get_nw_src m) ≡ true)
    × (nw_covers (get_nw_dst m) (get_nw_dst m) ≡ true)

match_transport-CoversSelf :
    (t : Transport) (m : Match) → CoversSelf m → CoversSelf (match_transport t m)
unfolding match_transport get_nw_src get_nw_dst
match_transport-CoversSelf (tcp s d) m h = h
match_transport-CoversSelf (udp s d) m h = h
match_transport-CoversSelf (icmp t c) m h = h
match_transport-CoversSelf no_transport m h = h

host_covers : (ip : ℕ) → nw_covers (some ip, 32) (some ip, 32) ≡ true
unfolding nw_covers in_network
host_covers ip = ground (arith, ==-refl ip)

match_network-CoversSelf : (n : Network) (m : Match) → CoversSelf m → CoversSelf (match_network n m)
unfolding match_network set_nw_src set_nw_dst get_nw_src get_nw_dst clip_bits nw_addr nw_bits
match_network-CoversSelf (ipv4 src dst proto tos next) m h =
    match_transport-CoversSelf next _ (host_covers src, host_covers dst)
match_network-CoversSelf (arp opcode src dst) m h = elim (Bool-cases (leb opcode 255)) [
  | inl small ↦ rw small (host_covers src, host_covers dst)
  | inr large ↦ rw large h
]
match_network-CoversSelf no_network m h = h

match_tag-CoversSelf :
    (p : Packet) (t : Tag) (m : Match) → CoversSelf m → CoversSelf (match_tag p t m)
unfolding match_tag get_nw_src get_nw_dst
match_tag-CoversSelf p (vlan id pcp type) m h = h
match_tag-CoversSelf p no_vlan m h = h

from_packet-CoversSelf : (p : Packet) (port : Option ℕ) → CoversSelf (from_packet p port)
unfolding from_packet get_nw_src get_nw_dst nw_addr nw_bits nw_covers
from_packet-CoversSelf p port =
    match_network-CoversSelf p.next _ (match_tag-CoversSelf p p.tag _ (refl, refl))

fields_cover-with_port :
    (m : Match) (port : Option ℕ)
    → CoversSelf m
    → m.in_port ≡ none
    → fields_cover m (with_port port m) ≡ true
unfolding fields_cover get_nw_src get_nw_dst match_fail
fields_cover-with_port m port (src, dst) no_port =
    rw
      (
        no_port,
        match_fail_self m.dl_vlan,
        match_fail_eth_self m.dl_src,
        match_fail_eth_self m.dl_dst,
        match_fail_self m.dl_type,
        match_fail_self m.nw_proto,
        match_fail_self m.tp_src,
        match_fail_self m.tp_dst,
        match_fail_self m.dl_vlan_pcp,
        match_fail_self m.nw_tos,
        src,
        dst,
      )
      refl

or_true : (b : Bool) → (b || true) ≡ true
or_true true = refl
or_true false = refl

matches-with_port :
    (m : Match) (port : Option ℕ)
    → CoversSelf m
    → m.in_port ≡ none
    → matches_with_wildcards m (with_port port m) false ≡ true
unfolding matches_with_wildcards
matches-with_port m port h no_port = rw (fields_cover-with_port m port h no_port) (or_true _)

-- A packet passes the match that was made from it without a port, whichever port it comes in at.
pub matches-from_packet :
    (p : Packet) (port : Option ℕ)
    → matches_with_wildcards (from_packet p none) (from_packet p port) false ≡ true
matches-from_packet p port =
    subst (λ m. matches_with_wildcards (from_packet p none) m false ≡ true)
      (sym (with_port-from_packet p port))
      (matches-with_port (from_packet p none) port (from_packet-CoversSelf p none)
        (ap (λ (m : Match). m.in_port) (with_port-from_packet p none)))

-- ===== src/Discovery/Tests.antt =====
-- Runs of the definitions for discovery.py and its theorems.
use cs425a_computer_networks.Base.{
  ℕ, ◌≡◌, refl, List, [], ◌∷◌, true, if◌then◌else◌, none, some, ok, err, lookup, erase, ◌++◌,
  assertion_error,
}
use cs425a_computer_networks.Discovery.Originator.{discovery_tlvs}
use cs425a_computer_networks.Discovery.Sender.{
  LldpSender, add_switch, set_timer, without_switch, switch_items,
}
use cs425a_computer_networks.Discovery.Handlers.{
  Link, link_key, delete_links, old_links, link_eq, Discovery, lldp_flow, new_discovery,
  new_link_events, handle_connection_up, handle_connection_down, expire_links, LldpIn, lldp_payload,
  lldp_ether_type, ndp_multicast, drop_effects, handle_lldp, connected,
}
use cs425a_computer_networks.Discovery.Links.{timed_out, lookup-handle_lldp, lookup-expire_links}
use cs425a_computer_networks.Discovery.Reach.{
  at_start, one_step, switch_up, packet, IsConsistent, DiscoveryReach-IsConsistent,
}
use cs425a_computer_networks.Discovery.Rounds.{ticks, ticks_round}

abbrev two_ports : List (ℕ × ℕ)
two_ports = (1, 17) ∷ (2, 18) ∷ (65534, 19) ∷ []

abbrev two_items : LldpSender
two_items = record {
  packets =
      record { dpid = 5; port_num = 1; port_addr = 17 }
      ∷ record { dpid = 5; port_num = 2; port_addr = 18 }
      ∷ [];
  timer = some 2;
}

abbrev one_up : Discovery
one_up = record (new_discovery true true) { dps = 5 ∷ []; sender = two_items }

switch_comes :
    handle_connection_up 5 two_ports (new_discovery true true) ≡ ok (one_up, lldp_flow 5 ∷ [])
unfolding handle_connection_up add_switch connected set_timer without_switch switch_items
switch_comes = refl

switch_leaves_twice : handle_connection_down 6 one_up ≡ err assertion_error
unfolding handle_connection_down connected
switch_leaves_twice = refl

-- The packet of port 1 comes back at port 2.
abbrev an_event : LldpIn
an_event = record {
  dpid = 5;
  port = 2;
  eth_type = lldp_ether_type;
  dst = ndp_multicast;
  payload = lldp_payload (discovery_tlvs 5 1);
  buffer_id = some 7;
}

abbrev a_link : Link
a_link = record { dpid1 = 5; port1 = 1; dpid2 = 5; port2 = 2 }

lookup-handle_lldp_example :
    ((j : Link)
      → lookup j (handle_lldp 100 an_event one_up).0.adjacency
        ≡ (if link_eq a_link j then some 100 else lookup j []))
    × ((handle_lldp 100 an_event one_up).1
        ≡ drop_effects an_event one_up ++ new_link_events a_link (lookup a_link []))
lookup-handle_lldp_example = lookup-handle_lldp 100 5 1 an_event one_up (record {
  kind = refl;
  group = refl;
  payload = refl;
  known = unfold connected in refl;
  elsewhere = refl;
})

abbrev one_link : Discovery
one_link = record one_up { adjacency = (a_link, 100) ∷ [] }

lookup-expire_links_example : lookup a_link (expire_links 111 one_link).0.adjacency ≡ (
    if timed_out 111 (lookup a_link one_link.adjacency)
    then none
    else lookup a_link one_link.adjacency)
lookup-expire_links_example = lookup-expire_links 111 one_link a_link (unfold lookup in refl, tt)

expired : (expire_links 111 one_link).0.adjacency ≡ []
unfolding expire_links delete_links old_links erase
expired = refl

DiscoveryReach-IsConsistent_example : IsConsistent (handle_lldp 100 an_event one_up).0
DiscoveryReach-IsConsistent_example = DiscoveryReach-IsConsistent true true (
    one_step (one_step at_start (switch_up 5 two_ports (lldp_flow 5 ∷ []) switch_comes))
      (packet 100 an_event refl))

ticks_round_example : ticks 2 two_items ≡ ok (two_items, two_items.packets)
ticks_round_example = ticks_round two_items

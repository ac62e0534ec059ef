-- ===== src/Learning/Tests.antt =====
-- Two hosts at a learning switch, and the theorems at them.
use cs425a_computer_networks.Base.{
  ℕ, nat_key, ◌≡◌, refl, [], ◌∷◌, true, false, All, some, map, lookup, ok,
}
use cs425a_computer_networks.Addresses.{
  eth_of_int, eth_of_int_loop, is_multicast, is_bridge_filtered,
}
use cs425a_computer_networks.OpenFlow.Match.Packets.{Packet, no_vlan, no_network}
use cs425a_computer_networks.OpenFlow.FlowTable.{
  output, Processed, process_flow_mod, entry_for_packet, from_flow_mod, first_match,
}
use cs425a_computer_networks.Learning.{
  LearningSwitch, PacketIn, new_flow_mod, handle_learning, handle_all, is_link_local,
}
use cs425a_computer_networks.Learning.Table.{last_port, lookup-handle_all}
use cs425a_computer_networks.Learning.Flows.{entry_for_packet-process_flow_mod}
use cs425a_computer_networks.Learning.Replies.{
  freed, actions_of, freed-handle_learning, actions_of-handle_learning_local,
}

abbrev packet : ℕ → ℕ → Packet
packet src dst = record {
  src = src;
  dst = dst;
  eth_type = 0x0806;
  tag = no_vlan;
  next = no_network;
}

abbrev arrival : ℕ → ℕ → ℕ → PacketIn
arrival src dst port = record {
  packet = packet src dst;
  port = port;
  buffer_id = some 7;
  connected = 60;
}

abbrev fresh : LearningSwitch
fresh = record { transparent = false; mac_to_port = [] }

-- Address 17 was seen at port 3.
abbrev seen : LearningSwitch
seen = record { transparent = false; mac_to_port = (17, 3) ∷ [] }

abbrev bridge_group : ℕ
bridge_group = 0x0180c2000000

unicast : is_multicast (eth_of_int 17) ≡ false
unfolding is_multicast eth_of_int eth_of_int_loop
unicast = refl

ordinary : is_link_local (packet 18 17) ≡ false
unfolding is_link_local is_bridge_filtered eth_of_int eth_of_int_loop
ordinary = refl

link_local : is_link_local (packet 18 bridge_group) ≡ true
unfolding is_link_local is_bridge_filtered eth_of_int eth_of_int_loop
link_local = refl

lookup-handle_all_example :
    lookup 17 (handle_all fresh (arrival 17 18 3 ∷ arrival 17 18 4 ∷ [])).mac_to_port
    ≡ last_port 17 (arrival 17 18 3 ∷ arrival 17 18 4 ∷ []) (lookup 17 fresh.mac_to_port)
lookup-handle_all_example = lookup-handle_all (arrival 17 18 3 ∷ arrival 17 18 4 ∷ []) fresh 17

freed-handle_learning_example : map freed (handle_learning seen (arrival 18 17 4)).1 ≡ some 7 ∷ []
freed-handle_learning_example = freed-handle_learning 7 (arrival 18 17 4) refl seen

actions_of-handle_learning_local_example :
    All (λ m. actions_of m ≡ []) (handle_learning seen (arrival 18 bridge_group 4)).1
actions_of-handle_learning_local_example =
    actions_of-handle_learning_local seen (arrival 18 bridge_group 4) refl link_local

entry_for_packet-process_flow_mod_example :
    let m = new_flow_mod (arrival 18 17 4) 10 30 (output 3 ∷ []) in
    (r : Processed) × (process_flow_mod m 1 60 [] ≡ ok r)
    × (entry_for_packet (packet 18 17) 4 r.table ≡ some (from_flow_mod 1 60 m))
entry_for_packet-process_flow_mod_example =
    entry_for_packet-process_flow_mod (arrival 18 17 4) 10 30 (output 3 ∷ []) 4 1 60 [] tt tt
      (unfold entry_for_packet first_match in refl)

-- ===== src/OpenFlow/Switch/Tests.antt =====
-- A switch with three ports, and the theorems at it.
use cs425a_computer_networks.Base.{
  ℕ, nat_key, ◌-◌, ◌<◌, ◌≡◌, refl, arith, [], ◌∷◌, true, ◌==◌, if◌then◌else◌, none, some, Dict,
  lookup, ok, index_error,
}
use cs425a_computer_networks.OfHandler.Switch.{PhyPort}
use cs425a_computer_networks.OpenFlow.Match.Packets.{Packet, no_vlan, no_network}
use cs425a_computer_networks.OpenFlow.FlowTable.{
  output, entry_for_packet, first_match, from_flow_mod,
}
use cs425a_computer_networks.OpenFlow.Switch.{Switch, dp_packet_out, fail, and_then, step_xid, send}
use cs425a_computer_networks.OpenFlow.Switch.Buffer.{fill_slot, buffer_packet}
use cs425a_computer_networks.OpenFlow.Switch.Dataplane.{
  process_actions, process_from_buffer, output_packet, release, ofpp_flood,
}
use cs425a_computer_networks.OpenFlow.Switch.Control.{bring_port_up, receive_flow_mod}
use cs425a_computer_networks.OpenFlow.Switch.Slots.{
  held, buffer_packet_lem, process_from_buffer-buffer_packet, process_from_buffer_large,
}
use cs425a_computer_networks.OpenFlow.Switch.Ports.{
  IsWired, all_but, output_packet_flood, bring_port_up-IsWired,
}
use cs425a_computer_networks.OpenFlow.Switch.Misses.{receive_flow_mod_miss}
use cs425a_computer_networks.Learning.{new_flow_mod}

abbrev packet : Packet
packet = record { src = 18; dst = 17; eth_type = 0x0806; tag = no_vlan; next = no_network }

abbrev port : ℕ → PhyPort
port n = record { port_name = []; hw_addr = []; port_no = n }

abbrev three_ports : Dict ℕ PhyPort
three_ports = (1, port 1) ∷ (2, port 2) ∷ (3, port 3) ∷ []

-- The first slot of the buffer is taken, the second is free.
abbrev switch : Switch
switch = record {
  dpid = 1;
  table = [];
  packet_buffer = some (packet, 2) ∷ none ∷ [];
  ports = three_ports;
  next_xid = 5;
  connected = true;
}

wired : IsWired three_ports three_ports
unfolding lookup
wired = (refl, (refl, (refl, tt)))

missed : entry_for_packet packet 1 switch.table ≡ none
unfolding entry_for_packet first_match
missed = refl

second_slot : (buffer_packet (packet, 1) switch).1 ≡ 2
unfolding buffer_packet fill_slot
second_slot = refl

flooded :
    all_but packet 2 three_ports
    ≡ dp_packet_out packet (port 1) ∷ dp_packet_out packet (port 3) ∷ []
unfolding all_but
flooded = refl

buffer_packet_lem_example :
    let slots = (buffer_packet (packet, 1) switch).0.packet_buffer in
    let k = (buffer_packet (packet, 1) switch).1 - 1 in
    (0 < (buffer_packet (packet, 1) switch).1)
    × (held switch.packet_buffer k ≡ none)
    × ((j : ℕ) → held slots j ≡ (if j == k then some (packet, 1) else held switch.packet_buffer j))
buffer_packet_lem_example = buffer_packet_lem (packet, 1) switch

process_from_buffer-buffer_packet_example :
    let (s', id) = buffer_packet (packet, 1) switch in
    process_from_buffer (output 3 ∷ []) id s'
    ≡ and_then (process_actions (output 3 ∷ []) packet 1 s') (release (id - 1))
process_from_buffer-buffer_packet_example =
    process_from_buffer-buffer_packet (output 3 ∷ []) (packet, 1) switch

process_from_buffer_large_example : process_from_buffer [] 3 switch ≡ fail index_error switch
process_from_buffer_large_example = process_from_buffer_large [] switch 3 (omega arith)

output_packet_flood_example :
    output_packet packet ofpp_flood 2 switch
    ≡ record { switch = switch; effects = all_but packet 2 three_ports; result = ok tt }
output_packet_flood_example = output_packet_flood packet 2 switch wired

bring_port_up-IsWired_example :
    let ports = (bring_port_up (port 4) switch).switch.ports in IsWired ports ports
bring_port_up-IsWired_example =
    bring_port_up-IsWired (port 4) switch wired (unfold bring_port_up lookup send in refl)

receive_flow_mod_miss_example :
    let s' = (buffer_packet (packet, 1) switch).0 in
    let id = (buffer_packet (packet, 1) switch).1 in
    let answer =
      new_flow_mod
        (record { packet = packet; port = 1; buffer_id = some id; connected = 60 })
        10
        30
        (output 3 ∷ []) in
    let r = receive_flow_mod answer 1 60 (step_xid s') in
    (r.effects ≡ dp_packet_out packet (port 3) ∷ [])
    × (r.result ≡ ok tt)
    × (held r.switch.packet_buffer (id - 1) ≡ none)
    × (entry_for_packet packet 1 r.switch.table ≡ some (from_flow_mod 1 60 answer))
receive_flow_mod_miss_example =
    receive_flow_mod_miss switch packet 1 3 60 1 60 (port 3) tt tt missed (omega arith)
      (unfold lookup in refl)

-- ===== src/OpenFlow/Switch/Misses.antt =====
-- A packet without a flow: the switch asks its controller, here a learning switch, and forwards the
-- packet when the flow mod comes.
use cs425a_computer_networks.Base.{
  ℕ, ◌-◌, ◌<◌, ◌≡◌, refl, ap, ◌∙◌, arith, [], ◌∷◌, ltb, true, none, some, lookup, nat_key, ok, set,
}
use cs425a_computer_networks.OfHandler.Switch.{PhyPort}
use cs425a_computer_networks.OpenFlow.Match.Packets.{Packet}
use cs425a_computer_networks.OpenFlow.FlowTable.{
  output, FlowMod, Processed, process_flow_mod, entry_for_packet, from_flow_mod,
}
use cs425a_computer_networks.OpenFlow.FlowTable.Sorting.{IsSorted}
use cs425a_computer_networks.OpenFlow.FlowTable.Removal.{DistinctEntries}
use cs425a_computer_networks.OpenFlow.Switch.{
  Switch, Reason, no_match, packet_in, to_controller, dp_packet_out, and_then, step_xid, send,
}
use cs425a_computer_networks.OpenFlow.Switch.Buffer.{buffer_packet}
use cs425a_computer_networks.OpenFlow.Switch.Dataplane.{
  to_buffer, process_packet, process_actions, process_from_buffer, release, ofpp_max,
}
use cs425a_computer_networks.OpenFlow.Switch.Control.{receive_flow_mod, from_buffer}
use cs425a_computer_networks.OpenFlow.Switch.Slots.{
  held, held-set, buffer_packet_lem, process_from_buffer-buffer_packet,
}
use cs425a_computer_networks.OpenFlow.Switch.Ports.{output_packet_physical}
use cs425a_computer_networks.Learning.{PacketIn, new_flow_mod}
use cs425a_computer_networks.Learning.Flows.{entry_for_packet-process_flow_mod}

to_buffer_connected :
    (reason : Reason) (packet : Packet) (in_port : ℕ) (s : Switch)
    → s.connected ≡ true
    → let (s', id) = buffer_packet (packet, in_port) s in
      to_buffer reason packet in_port s ≡ record {
        switch = step_xid s';
        effects = to_controller (packet_in s.next_xid in_port id reason packet) ∷ [];
        result = ok tt;
      }
unfolding to_buffer send buffer_packet step_xid
to_buffer_connected reason packet in_port s connected = rw connected refl

-- A packet that no flow lets pass is held in the buffer, and a connected switch sends it to the
-- controller with its buffer id and the next xid; nothing else changes.
pub process_packet_miss :
    (packet : Packet) (in_port size now : ℕ) (s : Switch)
    → entry_for_packet packet in_port s.table ≡ none
    → s.connected ≡ true
    → let (s', id) = buffer_packet (packet, in_port) s in
      process_packet packet in_port size now s ≡ record {
        switch = step_xid s';
        effects = to_controller (packet_in s.next_xid in_port id no_match packet) ∷ [];
        result = ok tt;
      }
unfolding process_packet step_xid buffer_packet
process_packet_miss packet in_port size now s missed connected =
    rw (process_packet, missed) (to_buffer_connected no_match packet in_port s connected)

process_actions_one :
    (packet : Packet) (number in_port : ℕ) (port : PhyPort) (s : Switch)
    → number < ofpp_max
    → lookup number s.ports ≡ some port
    → process_actions (output number ∷ []) packet in_port s
      ≡ record { switch = s; effects = dp_packet_out packet port ∷ []; result = ok tt }
unfolding process_actions and_then
process_actions_one packet number in_port port s lt h =
    rw (output_packet_physical packet number in_port port s lt h) refl

-- The packet leaves the buffer through a port.
process_from_buffer_one :
    (packet : Packet) (number in_port : ℕ) (port : PhyPort) (s : Switch)
    → number < ofpp_max
    → lookup number s.ports ≡ some port
    → let (s', id) = buffer_packet (packet, in_port) s in
      process_from_buffer (output number ∷ []) id s' ≡ record {
        switch = record s' { packet_buffer = set s'.packet_buffer (id - 1) none };
        effects = dp_packet_out packet port ∷ [];
        result = ok tt;
      }
unfolding buffer_packet
process_from_buffer_one packet number in_port port s lt h =
    process_from_buffer-buffer_packet (output number ∷ []) (packet, in_port) s
    ∙ ap (λ r. and_then r (release ((buffer_packet (packet, in_port) s).1 - 1)))
        (process_actions_one packet number in_port port (buffer_packet (packet, in_port) s).0 lt h)
    ∙ (unfold and_then release in refl)

module _ (s : Switch) (packet : Packet) (in_port number since identity now : ℕ) (port : PhyPort)
    (h : IsSorted s.table) (distinct : DistinctEntries s.table)
    (missed : entry_for_packet packet in_port s.table ≡ none) (physical : number < ofpp_max)
    (found : lookup number s.ports ≡ some port) where
  -- The buffer id, the switch that waits, and the answer of the controller.
  abbrev id : ℕ
  id = (buffer_packet (packet, in_port) s).1

  abbrev waiting : Switch
  waiting = step_xid (buffer_packet (packet, in_port) s).0

  abbrev answer : FlowMod
  answer =
      new_flow_mod
        (record { packet = packet; port = in_port; buffer_id = some id; connected = since }) 10 30
        (output number ∷ [])

  receive_flow_mod-answer :
      (r : Processed)
      → process_flow_mod answer identity now s.table ≡ ok r
      → receive_flow_mod answer identity now waiting ≡ record {
        switch = record waiting {
          table = r.table;
          packet_buffer = set waiting.packet_buffer (id - 1) none;
        };
        effects = dp_packet_out packet port ∷ [];
        result = ok tt;
      }
  unfolding receive_flow_mod step_xid buffer_packet from_buffer new_flow_mod
  receive_flow_mod-answer r e =
      let positive : ltb 0 id ≡ true = ground (arith, (buffer_packet_lem (packet, in_port) s).0) in
      let s0 : Switch = record s { table = r.table; next_xid = waiting.next_xid } in
      rw (receive_flow_mod, e, positive)
        (process_from_buffer_one packet number in_port port s0 physical found)

  -- A switch with a sorted table of distinct entries holds a packet that no flow lets pass. When
  -- the flow mod comes with which a learning switch answers that knows a physical port of the
  -- switch, the packet goes out of this port and nothing else happens, its slot is free again, and
  -- the next packet like it at the same port finds the new flow.
  pub receive_flow_mod_miss :
      let r = receive_flow_mod answer identity now waiting in
      (r.effects ≡ dp_packet_out packet port ∷ [])
      × (r.result ≡ ok tt)
      × (held r.switch.packet_buffer (id - 1) ≡ none)
      × (entry_for_packet packet in_port r.switch.table ≡ some (from_flow_mod identity now answer))
  receive_flow_mod_miss =
      let event : PacketIn = record {
        packet = packet;
        port = in_port;
        buffer_id = some id;
        connected = since;
      } in
      let (r, e, hit) =
        entry_for_packet-process_flow_mod event 10 30 (output number ∷ []) in_port identity now
          s.table h distinct missed in
      rw (receive_flow_mod-answer r e) (refl, refl, held-set waiting.packet_buffer (id - 1), hit)

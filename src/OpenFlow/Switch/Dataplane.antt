-- ===== src/OpenFlow/Switch/Dataplane.antt =====
-- The dataplane of `SwitchImpl`: `_output_packet`, the actions and `process_packet`.
use cs425a_computer_networks.Base.{
  ℕ, ◌-◌, List, [], ◌∷◌, ◌==◌, ltb, if◌then◌else◌, Option, none, some, Dict, lookup, nat_key, map,
  length, get_elem?, set, type_error, runtime_error, index_error,
}
use cs425a_computer_networks.OfHandler.Switch.{PhyPort}
use cs425a_computer_networks.OpenFlow.Match.Packets.{Packet}
use cs425a_computer_networks.OpenFlow.FlowTable.{
  Action, output, other_action, TableEntry, Table, touch_packet, entry_for_packet,
}
use cs425a_computer_networks.OpenFlow.Switch.{
  Held, Switch, Reason, no_match, action, packet_in, dp_packet_out, Run, finish, fail, prefixed,
  and_then, send, step_xid,
}
use cs425a_computer_networks.OpenFlow.Switch.Buffer.{buffer_packet}

abbrev pub ofpp_max : ℕ
ofpp_max = 65280

abbrev pub ofpp_in_port : ℕ
ofpp_in_port = 65528

abbrev pub ofpp_flood : ℕ
ofpp_flood = 65531

abbrev pub ofpp_all : ℕ
ofpp_all = 65532

abbrev pub ofpp_controller : ℕ
ofpp_controller = 65533

-- The packet is buffered, and sent to the controller with the next xid.
unfoldable pub to_buffer : Reason → Packet → ℕ → Switch → Run
to_buffer reason packet in_port s =
    let (s', id) = buffer_packet (packet, in_port) s in
    send (packet_in s'.next_xid in_port id reason packet) (step_xid s')

-- `real_send`
unfoldable pub real_send : Packet → ℕ → Switch → Run
real_send packet port_no s = elim (lookup port_no s.ports) [
  | none ↦ fail runtime_error s
  | some port ↦ prefixed (dp_packet_out packet port ∷ []) (finish s)
]

-- The loop over the ports; `real_send(port)` looks the port's own number up.
unfoldable pub flood_loop : Packet → ℕ → Dict ℕ PhyPort → Switch → Run
flood_loop packet in_port [] s = finish s
flood_loop packet in_port ((number, port) ∷ rest) s =
    let others = flood_loop packet in_port rest in
    if number == in_port then others s else and_then (real_send packet port.port_no s) others

-- `_output_packet`; raising a string is a TypeError.
unfoldable pub output_packet : Packet → ℕ → ℕ → Switch → Run
output_packet packet out_port in_port s =
    if ltb out_port ofpp_max
    then real_send packet out_port s
    else if out_port == ofpp_in_port
    then real_send packet in_port s
    else if out_port == ofpp_flood
    then flood_loop packet in_port s.ports s
    else if out_port == ofpp_all
    then flood_loop packet in_port s.ports s
    else if out_port == ofpp_controller
    then to_buffer action packet in_port s
    else fail type_error s

-- `_process_actions_for_packet`. For a type without handler the message of the exception formats
-- the built-in `type`, which is a TypeError.
unfoldable pub process_actions : List Action → Packet → ℕ → Switch → Run
process_actions [] packet in_port s = finish s
process_actions (output port ∷ actions) packet in_port s =
    and_then (output_packet packet port in_port s) (process_actions actions packet in_port)
process_actions (other_action t ∷ actions) packet in_port s = fail type_error s

-- `self.packet_buffer[i] = None`
unfoldable pub release : ℕ → Switch → Run
release i s = finish (record s { packet_buffer = set s.packet_buffer i none })

unfoldable pub process_held : List Action → ℕ → Option Held → Switch → Run
process_held actions i none s = finish s
process_held actions i (some (packet, in_port)) s =
    and_then (process_actions actions packet in_port s) (release i)

-- `_process_actions_for_packet_from_buffer`, with an index into the buffer. The test lets the index
-- that is one too large pass.
unfoldable pub process_slot : List Action → ℕ → Switch → Run
process_slot actions i s =
    if ltb (length s.packet_buffer) i then finish s else elim (get_elem? s.packet_buffer i) [
      | none ↦ fail index_error s
      | some slot ↦ process_held actions i slot s
    ]

-- The same with a buffer id, which is at least 1.
unfoldable pub process_from_buffer : List Action → ℕ → Switch → Run
process_from_buffer actions buffer_id s = process_slot actions (buffer_id - 1) s

-- `entry.touch_packet(...)` on the object in the table.
unfoldable pub touch : TableEntry → ℕ → ℕ → Table → Table
touch e size now t =
    map (λ (x : TableEntry). if x.identity == e.identity then touch_packet size now x else x) t

-- `process_packet`; `size` is `len(packet)` and `now` the time.
unfoldable pub process_packet : Packet → ℕ → ℕ → ℕ → Switch → Run
process_packet packet in_port size now s = elim (entry_for_packet packet in_port s.table) [
  | none ↦ to_buffer no_match packet in_port s
  | some e ↦
      process_actions e.actions packet in_port (record s { table = touch e size now s.table })
]

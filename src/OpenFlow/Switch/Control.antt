-- ===== src/OpenFlow/Switch/Control.antt =====
-- The handlers of `SwitchImpl` for the controller's messages, and its ports going down and up.
use cs425a_computer_networks.Base.{
  ℕ, List, [], ◌∷◌, ltb, if◌then◌else◌, ◌==◌, Option, none, some, Dict, lookup, insert, nat_key,
  map, ok, err, runtime_error,
}
use cs425a_computer_networks.OfHandler.Switch.{PhyPort}
use cs425a_computer_networks.OpenFlow.Match.Packets.{Packet}
use cs425a_computer_networks.OpenFlow.FlowTable.{Action, FlowMod, process_flow_mod}
use cs425a_computer_networks.OpenFlow.Switch.{
  Switch, port_added, port_deleted, hello, echo_reply, barrier_reply, get_config_reply,
  features_reply, bad_vendor, port_status, Run, finish, fail, send,
}
use cs425a_computer_networks.OpenFlow.Switch.Dataplane.{process_actions, process_from_buffer}

unfoldable pub receive_hello : Switch → Run
receive_hello s = send hello s

unfoldable pub receive_echo : ℕ → Switch → Run
receive_echo xid s = send (echo_reply xid) s

unfoldable pub receive_features_request : ℕ → Switch → Run
receive_features_request xid s =
    send (features_reply xid (map (λ (e : ℕ × PhyPort). e.1) s.ports)) s

unfoldable pub receive_barrier_request : ℕ → Switch → Run
receive_barrier_request xid s = send (barrier_reply xid) s

unfoldable pub receive_get_config_request : ℕ → Switch → Run
receive_get_config_request xid s = send (get_config_reply xid) s

unfoldable pub receive_vendor : Switch → Run
receive_vendor s = send bad_vendor s

-- What `buffer_id > 0` lets through; `none` is -1.
unfoldable pub from_buffer : List Action → Option ℕ → Switch → Run
from_buffer actions none s = finish s
from_buffer actions (some id) s = if ltb 0 id then process_from_buffer actions id s else finish s

-- `_receive_flow_mod`; `identity` and `now` are those of an entry that it may create.
unfoldable pub receive_flow_mod : FlowMod → ℕ → ℕ → Switch → Run
receive_flow_mod m identity now s = elim (process_flow_mod m identity now s.table) [
  | err e ↦ fail e s
  | ok p ↦ from_buffer m.actions m.buffer_id (record s { table = p.table })
]

-- `_receive_packet_out`; the data, if any, stand as the packet that they are parsed to.
unfoldable pub receive_packet_out : List Action → Option Packet → ℕ → Option ℕ → Switch → Run
receive_packet_out actions (some packet) in_port buffer_id s =
    process_actions actions packet in_port s
receive_packet_out actions none in_port buffer_id s = from_buffer actions buffer_id s

-- `del self.ports[port_no]`
unfoldable pub delete_port : ℕ → Dict ℕ PhyPort → Dict ℕ PhyPort
delete_port number [] = []
delete_port number ((k, p) ∷ ports) =
    if k == number then ports else (k, p) ∷ delete_port number ports

unfoldable pub take_port_down : PhyPort → Switch → Run
take_port_down port s = elim (lookup port.port_no s.ports) [
  | none ↦ fail runtime_error s
  | some p ↦
      send (port_status port port_deleted) (record s { ports = delete_port port.port_no s.ports })
]

unfoldable pub bring_port_up : PhyPort → Switch → Run
bring_port_up port s = elim (lookup port.port_no s.ports) [
  | some p ↦ fail runtime_error s
  | none ↦
      send (port_status port port_added) (record s { ports = insert port.port_no port s.ports })
]

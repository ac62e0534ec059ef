-- ===== src/OpenFlow/Switch.antt =====
-- `SwitchImpl` of Project-4/pox/pox/openflow/switch_impl.py: its state, and what its methods end in.
-- Of the actions the output is modelled; `other_action` is one without a handler in `handler_map`.
pub mod Buffer
pub mod Dataplane
pub mod Control
pub mod Slots
pub mod Ports
pub mod Misses
mod Tests
use cs425a_computer_networks.Base.{
  ℕ, ◌+◌, ◌%◌, ◌^◌, List, [], ◌∷◌, ◌++◌, Bool, true, false, if◌then◌else◌, Option, none, some, Dict,
  Result, ok, err, Error,
}
use cs425a_computer_networks.OfHandler.Switch.{PhyPort}
use cs425a_computer_networks.OpenFlow.Match.Packets.{Packet}
use cs425a_computer_networks.OpenFlow.FlowTable.{Table}

-- A packet in the buffer, with the port that it came in at.
abbrev pub Held : Type 0
Held = Packet × ℕ

-- `connected` is whether `_connection` is set; `next_xid` is what `xid_count` yields next.
pub record Switch : Type 0 where
  pub dpid : ℕ
  pub table : Table
  pub packet_buffer : List (Option Held)
  pub ports : Dict ℕ PhyPort
  pub next_xid : ℕ
  pub connected : Bool

pub data Reason : Type 0 where
  no_match action : Reason

pub data PortReason : Type 0 where
  port_added port_deleted : PortReason

-- The messages to the controller.
pub data Reply : Type 0 where
  hello : Reply
  echo_reply : ℕ → Reply
  barrier_reply : ℕ → Reply
  get_config_reply : ℕ → Reply
  -- xid, ports
  features_reply : ℕ → List PhyPort → Reply
  bad_vendor : Reply
  -- xid, port of arrival, buffer id, reason, packet
  packet_in : ℕ → ℕ → ℕ → Reason → Packet → Reply
  port_status : PhyPort → PortReason → Reply

pub data SwitchEffect : Type 0 where
  -- `raiseEvent(DpPacketOut(self, packet, port))`
  dp_packet_out : Packet → PhyPort → SwitchEffect
  -- `_connection.send(message)`
  to_controller : Reply → SwitchEffect

-- How a method ends: the switch, what it did in order, and whether it raised.
pub record Run : Type 0 where
  pub switch : Switch
  pub effects : List SwitchEffect
  pub result : Result (Unit {0})

abbrev pub finish : Switch → Run
finish s = record { switch = s; effects = []; result = ok tt }

abbrev pub fail : Error → Switch → Run
fail e s = record { switch = s; effects = []; result = err e }

-- The effects `fs`, and then what `r` did.
abbrev pub prefixed : List SwitchEffect → Run → Run
prefixed fs r = record { switch = r.switch; effects = fs ++ r.effects; result = r.result }

-- The rest of a method, unless the first part raised.
unfoldable pub and_then : Run → (Switch → Run) → Run
and_then r rest = elim r.result [ ok u ↦ prefixed r.effects (rest r.switch) | err e ↦ r ]

-- `send`: silent if the switch is not connected.
unfoldable pub send : Reply → Switch → Run
send m s = record {
  switch = s;
  effects = if s.connected then to_controller m ∷ [] else [];
  result = ok tt;
}

-- The generator wraps at 2 ^ 31.
unfoldable pub step_xid : Switch → Switch
step_xid s = record s { next_xid = (s.next_xid + 1) % 2 ^ 31 }

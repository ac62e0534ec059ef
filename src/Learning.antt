-- ===== src/Learning.antt =====
-- `LearningSwitch` of Project-4/pox/pox/forwarding/l2_learning.py. An Ethernet address is its
-- `toInt()`. A flow mod and a packet-out without a buffer have `none` for the buffer id -1.
pub mod Table
pub mod Matches
pub mod Flows
pub mod Replies
mod Tests
use cs425a_computer_networks.Base.{
  ℕ, List, [], ◌∷◌, Bool, true, false, ◌||◌, ◌==◌, ltb, if◌then◌else◌, Option, none, some, Dict,
  lookup, insert, nat_key,
}
use cs425a_computer_networks.Addresses.{eth_of_int, is_multicast, is_bridge_filtered}
use cs425a_computer_networks.OpenFlow.Match.{Match}
use cs425a_computer_networks.OpenFlow.Match.Packets.{Packet, from_packet}
use cs425a_computer_networks.OpenFlow.FlowTable.{Action, output, FlowMod, add}

pub record LearningSwitch : Type 0 where
  pub transparent : Bool
  pub mac_to_port : Dict ℕ ℕ

-- What the handler reads of a `PacketIn` event. `connected` is `time.time() - connect_time`.
pub record PacketIn : Type 0 where
  pub packet : Packet
  pub port : ℕ
  pub buffer_id : Option ℕ
  pub connected : ℕ

-- What the handler sends to the switch. A packet-out has no data here.
pub data Sent : Type 0 where
  -- buffer id, port of arrival, actions
  packet_out : Option ℕ → ℕ → List Action → Sent
  flow_mod : FlowMod → Sent

abbrev pub flood_delay : ℕ
flood_delay = 5

abbrev pub ofpp_flood : ℕ
ofpp_flood = 65531

abbrev pub lldp_type : ℕ
lldp_type = 0x88cc

-- `of.ofp_flow_mod()` with the match of the packet; `from_packet` gets no port.
unfoldable pub new_flow_mod : PacketIn → ℕ → ℕ → List Action → FlowMod
new_flow_mod event idle hard actions = record {
  command = add;
  matching = from_packet event.packet none;
  priority = 0x8000;
  cookie = 0;
  idle_timeout = idle;
  hard_timeout = hard;
  actions = actions;
  buffer_id = event.buffer_id;
  out_port = 0xffff;
  check_overlap = false;
}

-- `flood()`: shortly after the connection the packet-out has no action.
unfoldable pub flood : PacketIn → List Sent
flood event = elim event.buffer_id [
  | none ↦ []
  | some id ↦
      packet_out (some id) event.port
        (if ltb flood_delay event.connected then output ofpp_flood ∷ [] else [])
      ∷ []
]

-- `drop(duration)`
unfoldable pub drop_packet : Option ℕ → PacketIn → List Sent
drop_packet (some duration) event = flow_mod (new_flow_mod event duration duration []) ∷ []
drop_packet none event = elim event.buffer_id [
  | none ↦ []
  | some id ↦ packet_out (some id) event.port [] ∷ []
]

-- The packet goes to a port that is known: steps 5 and 6.
unfoldable pub forward : ℕ → PacketIn → List Sent
forward port event =
    if port == event.port
    then drop_packet (some 10) event
    else flow_mod (new_flow_mod event 10 30 (output port ∷ [])) ∷ []

-- Steps 3 and 4, with the table that the source address is already in.
unfoldable pub decide : Dict ℕ ℕ → PacketIn → List Sent
decide table event =
    if is_multicast (eth_of_int event.packet.dst)
    then flood event
    else elim (lookup event.packet.dst table) [
      | none ↦ flood event
      | some port ↦ forward port event
    ]

-- Step 2: link-local traffic.
unfoldable pub is_link_local : Packet → Bool
is_link_local p = p.eth_type == lldp_type || is_bridge_filtered (eth_of_int p.dst)

-- `_handle_PacketIn`
unfoldable pub handle_learning : LearningSwitch → PacketIn → LearningSwitch × List Sent
handle_learning s event =
    let table = insert event.packet.src event.port s.mac_to_port in
    let s' : LearningSwitch = record s { mac_to_port = table } in
    if s.transparent
    then (s', decide table event)
    else if is_link_local event.packet
    then (s', drop_packet none event)
    else (s', decide table event)

-- The handler on a sequence of packets.
unfoldable pub handle_all : LearningSwitch → List PacketIn → LearningSwitch
handle_all s [] = s
handle_all s (event ∷ events) = handle_all (handle_learning s event).0 events

-- ===== src/OfHandler/Switch.antt =====
-- `OFHandler` of ofhandler.py, one object for each switch: its construction and its two handlers.
use cs425a_computer_networks.Base.{
  ℕ, List, [], ◌∷◌, Option, none, some, Dict, lookup, insert, bytes_key, codes,
}
use cs425a_computer_networks.Bytes.{Bytes}
use cs425a_computer_networks.Text.{split_on}
use cs425a_computer_networks.Addresses.{to_str}
use cs425a_computer_networks.SrHandler.Listener.{PortInfo}
use cs425a_computer_networks.OfHandler.Settings.{Settings, Route}

-- What the code reads of an `ofp_phy_port`.
pub record PhyPort : Type 0 where
  pub port_name : Bytes
  pub hw_addr : Bytes
  pub port_no : ℕ

-- An `ofp_packet_out`: `none` is the buffer id -1, and an action is the port of an
-- `ofp_action_output`.
pub record PacketOut : Type 0 where
  pub buffer_id : Option ℕ
  pub in_port : ℕ
  pub actions : List ℕ
  pub payload : Bytes

abbrev pub ofpp_none : ℕ
ofpp_none = 0xffff

pub data Effect : Type 0 where
  -- `connection.send(ofp_switch_config(miss_send_len = n))`
  switch_config : ℕ → Effect
  -- `connection.send` of an `ofp_packet_out`
  packet_out : PacketOut → Effect
  -- `raiseEvent(SRPacketIn(packet, port))`
  sr_packet_in : Bytes → ℕ → Effect
  -- `raiseEvent(RouterInfo(info, rtable))`
  router_info : Dict Bytes PortInfo → List Route → Effect

-- The part of a port's name behind the first '-', if that names an interface of the router.
unfoldable pub second_piece : List Bytes → Option Bytes
second_piece (a ∷ b ∷ rest) = some b
second_piece _ = none

-- One round of the loop over `connection.features.ports`.
unfoldable pub add_sw_info : Dict Bytes Bytes → PhyPort → Dict Bytes PortInfo → Dict Bytes PortInfo
add_sw_info router_ip port info = elim (second_piece (split_on b'-' port.port_name)) [
  | none ↦ info
  | some intf_name ↦ elim (lookup intf_name router_ip) [
    | none ↦ info
    | some ip ↦
        insert intf_name
          (record {
            ip = ip;
            mac = to_str port.hw_addr;
            rate = codes "10Gbps";
            port = port.port_no;
          })
          info
  ]
]

unfoldable pub sw_info_loop :
    Dict Bytes Bytes → List PhyPort → Dict Bytes PortInfo → Dict Bytes PortInfo
sw_info_loop router_ip [] info = info
sw_info_loop router_ip (port ∷ ports) info =
    sw_info_loop router_ip ports (add_sw_info router_ip port info)

unfoldable pub sw_info : Settings → List PhyPort → Dict Bytes PortInfo
sw_info s ports = sw_info_loop s.router_ip ports []

-- `OFHandler.__init__`
unfoldable pub new_handler : Settings → List PhyPort → List Effect
new_handler s ports = switch_config 65535 ∷ router_info (sw_info s ports) s.rtable ∷ []

-- `_handle_PacketIn`: the frame goes to the routers, and the switch is told to drop its copy.
unfoldable pub handle_packet_in : Bytes → Option ℕ → ℕ → List Effect
handle_packet_in raw buffer_id port =
    sr_packet_in raw port
    ∷ packet_out (record { buffer_id = buffer_id; in_port = port; actions = []; payload = [] })
    ∷ []

-- `_handle_SRPacketOut`
unfoldable pub handle_sr_packet_out : Bytes → ℕ → List Effect
handle_sr_packet_out pkt port =
    packet_out
      (record { buffer_id = none; in_port = ofpp_none; actions = port ∷ []; payload = pkt })
    ∷ []

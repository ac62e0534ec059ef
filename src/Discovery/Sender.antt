-- ===== src/Discovery/Sender.antt =====
-- `LLDPSender` of discovery.py: the packets that are sent in turn.
use cs425a_computer_networks.Base.{
  ℕ, List, [], ◌∷◌, ◌++◌, not, ◌||◌, ◌==◌, ltb, if◌then◌else◌, length, Option, none, some, Result,
  ok, err, index_error,
}

-- An item of the sender's list: the packet is `create_discovery_packet` of the switch, the port and
-- its address.
pub record SendItem : Type 0 where
  pub dpid : ℕ
  pub port_num : ℕ
  pub port_addr : ℕ

-- `LLDPSender`. The timer, if there is one, runs once in the send cycle divided by this count.
pub record LldpSender : Type 0 where
  pub packets : List SendItem
  pub timer : Option ℕ

abbrev pub new_sender : LldpSender
new_sender = record { packets = []; timer = none }

abbrev pub max_port : ℕ
max_port = 65280

-- `_setTimer`
unfoldable pub set_timer : List SendItem → LldpSender
set_timer [] = record { packets = []; timer = none }
set_timer (p ∷ ps) = record { packets = p ∷ ps; timer = some (length (p ∷ ps)) }

-- `[p for p in self._packets if p.dpid != dpid]`, and the same for one port.
unfoldable pub without_switch : ℕ → List SendItem → List SendItem
without_switch dpid [] = []
without_switch dpid (p ∷ ps) =
    let rest = without_switch dpid ps in if p.dpid == dpid then rest else p ∷ rest

unfoldable pub without_port : ℕ → ℕ → List SendItem → List SendItem
without_port dpid port [] = []
without_port dpid port (p ∷ ps) =
    let rest = without_port dpid port ps in
    if not (p.dpid == dpid) || not (p.port_num == port) then p ∷ rest else rest

-- The loop of `addSwitch`: local ports are passed over.
unfoldable pub switch_items : ℕ → List (ℕ × ℕ) → List SendItem
switch_items dpid [] = []
switch_items dpid ((port, addr) ∷ ports) =
    let rest = switch_items dpid ports in
    if ltb max_port port
    then rest
    else record { dpid = dpid; port_num = port; port_addr = addr } ∷ rest

unfoldable pub add_switch : ℕ → List (ℕ × ℕ) → LldpSender → LldpSender
add_switch dpid ports s = set_timer (without_switch dpid s.packets ++ switch_items dpid ports)

unfoldable pub del_switch : ℕ → LldpSender → LldpSender
del_switch dpid s = set_timer (without_switch dpid s.packets)

unfoldable pub del_port : ℕ → ℕ → LldpSender → LldpSender
del_port dpid port s = set_timer (without_port dpid port s.packets)

unfoldable pub add_lldp_port : ℕ → ℕ → ℕ → LldpSender → LldpSender
add_lldp_port dpid port addr s =
    if ltb max_port port
    then s
    else set_timer (
        (del_port dpid port s).packets
        ++ (record { dpid = dpid; port_num = port; port_addr = addr } ∷ []))

-- `_timerHandler`: the item whose packet is sent. `pop` of an empty list raises.
unfoldable pub timer_handler : LldpSender → Result (LldpSender × SendItem)
timer_handler s = elim s.packets [
  | [] ↦ err index_error
  | p ∷ ps ↦ ok (record s { packets = ps ++ (p ∷ []) }, p)
]

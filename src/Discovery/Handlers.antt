-- ===== src/Discovery/Handlers.antt =====
-- The class `Discovery` of discovery.py.
use cs425a_computer_networks.Base.{
  ℕ, ◌+◌, List, [], ◌∷◌, ◌++◌, Bool, true, false, not, ◌&&◌, ◌||◌, ◌==◌, ltb, leb, if◌then◌else◌,
  list_eq, list_eq→eq, list_eq_refl, ap, ◌≡◌, Option, none, some, Result, ok, assertion_error,
  guard, ◌>>◌, Dict, Key, lookup, insert, erase,
}
use cs425a_computer_networks.Text.{Number, number, negative}
use cs425a_computer_networks.Discovery.Originator.{Tlv, originator, read_port, sub_port}
use cs425a_computer_networks.Discovery.Sender.{
  LldpSender, new_sender, add_switch, del_switch, del_port, add_lldp_port, max_port,
}

-- `Discovery.Link`
pub record Link : Type 0 where
  pub dpid1 : ℕ
  pub port1 : ℕ
  pub dpid2 : ℕ
  pub port2 : ℕ

abbrev link_numbers : Link → List ℕ
link_numbers l = l.dpid1 ∷ l.port1 ∷ l.dpid2 ∷ l.port2 ∷ []

abbrev pub link_eq : Link → Link → Bool
link_eq a b = list_eq (link_numbers a) (link_numbers b)

link_of : List ℕ → Link
link_of (a ∷ b ∷ c ∷ d ∷ []) = record { dpid1 = a; port1 = b; dpid2 = c; port2 = d }
link_of _ = record { dpid1 = 0; port1 = 0; dpid2 = 0; port2 = 0 }

pub link_eq→eq : (a b : Link) → link_eq a b ≡ true → a ≡ b
unfolding link_of
link_eq→eq a b h = ap link_of (list_eq→eq (link_numbers a) (link_numbers b) h)

instance abbrev pub link_key : Key Link
link_key = record {
  beq = link_eq;
  beq_sound = link_eq→eq;
  beq_refl = λ a. list_eq_refl (link_numbers a);
}

-- The links, each with the time when it was seen last, and the switches that are connected.
pub record Discovery : Type 0 where
  pub explicit_drop : Bool
  pub install_flow : Bool
  pub dps : List ℕ
  pub adjacency : Dict Link ℕ
  pub sender : LldpSender

abbrev pub new_discovery : Bool → Bool → Discovery
new_discovery install_flow explicit_drop = record {
  explicit_drop = explicit_drop;
  install_flow = install_flow;
  dps = [];
  adjacency = [];
  sender = new_sender;
}

-- What a handler sends and raises: the flow for LLDP packets to a switch, a packet-out that drops a
-- buffer of a switch that came in at a port, a `LinkEvent`, and an exception that ends it.
pub data DiscoveryEffect : Type 0 where
  lldp_flow : ℕ → DiscoveryEffect
  drop_buffer : ℕ → ℕ → ℕ → DiscoveryEffect
  link_added link_removed : Link → DiscoveryEffect
  raised_assertion : DiscoveryEffect

-- `dpid in self._dps`, `add` and `remove`.
unfoldable pub connected : ℕ → List ℕ → Bool
connected dpid [] = false
connected dpid (d ∷ ds) = d == dpid || connected dpid ds

unfoldable pub disconnect : ℕ → List ℕ → List ℕ
disconnect dpid [] = []
disconnect dpid (d ∷ ds) = let rest = disconnect dpid ds in if d == dpid then rest else d ∷ rest

-- `_handle_ConnectionUp`, with the ports of the switch and their addresses.
unfoldable pub handle_connection_up :
    ℕ → List (ℕ × ℕ) → Discovery → Result (Discovery × List DiscoveryEffect)
handle_connection_up dpid ports s = do
  guard (not (connected dpid s.dps)) assertion_error
  ok (
    record s { dps = dpid ∷ s.dps; sender = add_switch dpid ports s.sender },
    if s.install_flow then lldp_flow dpid ∷ [] else [],
  )

-- The loops that collect links: those at a switch, and those that were not seen for 10 seconds.
unfoldable pub links_at : ℕ → Dict Link ℕ → List Link
links_at dpid [] = []
links_at dpid ((l, time) ∷ d) =
    let rest = links_at dpid d in if l.dpid1 == dpid || l.dpid2 == dpid then l ∷ rest else rest

abbrev pub link_timeout : ℕ
link_timeout = 10

unfoldable pub old_links : ℕ → Dict Link ℕ → List Link
old_links now [] = []
old_links now ((l, time) ∷ d) =
    let rest = old_links now d in if ltb (time + link_timeout) now then l ∷ rest else rest

-- `_deleteLinks`
unfoldable pub delete_links : List Link → Dict Link ℕ → Dict Link ℕ
delete_links [] d = d
delete_links (l ∷ ls) d = delete_links ls (erase l d)

unfoldable pub removed_events : List Link → List DiscoveryEffect
removed_events [] = []
removed_events (l ∷ ls) = link_removed l ∷ removed_events ls

unfoldable pub handle_connection_down : ℕ → Discovery → Result (Discovery × List DiscoveryEffect)
handle_connection_down dpid s = do
  guard (connected dpid s.dps) assertion_error
  ok (
    record s {
      dps = disconnect dpid s.dps;
      sender = del_switch dpid s.sender;
      adjacency = delete_links (links_at dpid s.adjacency) s.adjacency;
    },
    removed_events (links_at dpid s.adjacency),
  )

-- What happened to a port.
pub data PortChange : Type 0 where
  port_added port_deleted port_modified : PortChange

unfoldable pub change_port : PortChange → ℕ → ℕ → ℕ → LldpSender → LldpSender
change_port port_added dpid port addr s = add_lldp_port dpid port addr s
change_port port_deleted dpid port addr s = del_port dpid port s
change_port port_modified dpid port addr s = s

unfoldable pub handle_port_status : PortChange → ℕ → ℕ → ℕ → Discovery → Discovery
handle_port_status change dpid port addr s =
    if leb port max_port
    then record s { sender = change_port change dpid port addr s.sender }
    else s

-- `_expireLinks`
unfoldable pub expire_links : ℕ → Discovery → Discovery × List DiscoveryEffect
expire_links now s = (
  record s { adjacency = delete_links (old_links now s.adjacency) s.adjacency },
  removed_events (old_links now s.adjacency),
)

-- What is behind the Ethernet header: nothing, something else than an LLDP packet, or its TLVs.
pub data LldpPayload : Type 0 where
  no_payload other_payload : LldpPayload
  lldp_payload : List Tlv → LldpPayload

-- What `_handle_PacketIn` reads of an event.
pub record LldpIn : Type 0 where
  pub dpid : ℕ
  pub port : ℕ
  pub eth_type : ℕ
  pub dst : ℕ
  pub payload : LldpPayload
  pub buffer_id : Option ℕ

abbrev pub lldp_ether_type : ℕ
lldp_ether_type = 0x88cc

-- 01:23:20:00:00:01
abbrev pub ndp_multicast : ℕ
ndp_multicast = 0x012320000001

-- The `LinkEvent` for a link that was not there.
abbrev pub new_link_events : Link → Option ℕ → List DiscoveryEffect
new_link_events l none = link_added l ∷ []
new_link_events l (some time) = []

-- The link is entered with the time.
unfoldable pub see_link : ℕ → Link → Discovery → Discovery × List DiscoveryEffect
see_link now l s =
    (record s { adjacency = insert l now s.adjacency }, new_link_events l (lookup l s.adjacency))

-- From the port of the packet to the link, unless it came back to where it left.
unfoldable pub see_port : ℕ → LldpIn → ℕ → Option ℕ → Discovery → Discovery × List DiscoveryEffect
see_port now event dpid none s = (s, [])
see_port now event dpid (some port) s =
    if event.dpid == dpid && event.port == port
    then (s, [])
    else see_link now
        (record { dpid1 = dpid; port1 = port; dpid2 = event.dpid; port2 = event.port }) s

-- The switch that the packet names has to be connected, and its port TLV of the right kind.
unfoldable pub see_switch :
    ℕ → LldpIn → Option (Number × Tlv) → Discovery → Discovery × List DiscoveryEffect
see_switch now event none s = (s, [])
see_switch now event (some (negative, port)) s = (s, [])
see_switch now event (some (number dpid, port)) s =
    if connected dpid s.dps && port.subtype == sub_port
    then see_port now event dpid (read_port port.id) s
    else (s, [])

-- The buffer is dropped before the packet is looked at.
unfoldable pub drop_effects : LldpIn → Discovery → List DiscoveryEffect
drop_effects event s = elim event.buffer_id [
  | none ↦ []
  | some b ↦ if s.explicit_drop then drop_buffer event.dpid b event.port ∷ [] else []
]

unfoldable pub see_packet : ℕ → LldpIn → List Tlv → Discovery → Discovery × List DiscoveryEffect
see_packet now event tlvs s =
    let (s', effects) = see_switch now event (originator tlvs) s in
    (s', drop_effects event s ++ effects)

-- A packet without payload is given up; any other has to be an LLDP packet.
unfoldable pub see_payload : ℕ → LldpIn → LldpPayload → Discovery → Discovery × List DiscoveryEffect
see_payload now event no_payload s = (s, [])
see_payload now event other_payload s = (s, raised_assertion ∷ [])
see_payload now event (lldp_payload tlvs) s = see_packet now event tlvs s

-- `_handle_PacketIn`
unfoldable pub handle_lldp : ℕ → LldpIn → Discovery → Discovery × List DiscoveryEffect
handle_lldp now event s =
    if event.eth_type == lldp_ether_type && event.dst == ndp_multicast
    then see_payload now event event.payload s
    else (s, [])

-- `isSwitchOnlyPort`
unfoldable pub is_switch_only_port : ℕ → ℕ → Dict Link ℕ → Bool
is_switch_only_port dpid port [] = false
is_switch_only_port dpid port ((l, time) ∷ d) =
    (l.dpid1 == dpid && l.port1 == port)
    || ((l.dpid2 == dpid && l.port2 == port) || is_switch_only_port dpid port d)

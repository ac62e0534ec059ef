-- ===== src/Headers/Ethernet.antt =====
-- The headers of ethernet.py, vlan.py and udp.py in Project-4/pox/pox/lib/packet. What stands behind
-- a header is bytes here: the parser that `type_parsers` has for the type goes on with them.
use cs425a_computer_networks.Base.{
  ℕ, ◌+◌, ◌*◌, ◌/◌, ◌%◌, ◌^◌, [], ◌++◌, Bool, true, false, ltb, ◌==◌, if◌then◌else◌, length, take,
  drop, Result, ok, ◌>>=◌, ◌>>◌, guard, not, assertion_error,
}
use cs425a_computer_networks.Bytes.{Bytes, pack_u16, unpack_u16, pack_s}
use cs425a_computer_networks.Headers.Arp.{slice, ether_any}

pub record Ethernet : Type 0 where
  pub dst : Bytes
  pub src : Bytes
  pub eth_type : ℕ
  pub rest : Bytes
  pub parsed : Bool

abbrev pub ethernet_min_len : ℕ
ethernet_min_len = 14

-- `ethernet()`
abbrev pub new_ethernet : Ethernet
new_ethernet = record { dst = ether_any; src = ether_any; eth_type = 0; rest = []; parsed = false }

unfoldable pub read_ethernet : Bytes → Result Ethernet
read_ethernet raw = do
  eth_type ← unpack_u16 (slice 12 2 raw)
  ok (record {
    dst = take 6 raw;
    src = slice 6 6 raw;
    eth_type = eth_type;
    rest = drop 14 raw;
    parsed = true;
  })

-- `ethernet(raw)`
unfoldable pub parse_ethernet : Bytes → Result Ethernet
parse_ethernet raw =
    if ltb (length raw) ethernet_min_len then ok new_ethernet else read_ethernet raw

-- `hdr`
unfoldable pub hdr_ethernet : Ethernet → Result Bytes
hdr_ethernet p = do
  eth_type ← pack_u16 p.eth_type
  ok (pack_s 6 p.dst ++ (pack_s 6 p.src ++ eth_type))

-- `c` is the flag as `parse` leaves it: 0 or 0x1000.
pub record Vlan : Type 0 where
  pub pcp : ℕ
  pub c : ℕ
  pub id : ℕ
  pub eth_type : ℕ
  pub rest : Bytes

abbrev pub vlan_min_len : ℕ
vlan_min_len = 4

-- `vlan.parse` on data that is long enough.
unfoldable pub parse_vlan : Bytes → Result Vlan
parse_vlan raw = do
  pcpid ← unpack_u16 (take 2 raw)
  eth_type ← unpack_u16 (slice 2 2 raw)
  guard (not (eth_type == 0x8100)) assertion_error
  ok (record {
    pcp = pcpid / 2 ^ 13;
    c = pcpid / 0x1000 % 2 * 0x1000;
    id = pcpid % 0x1000;
    eth_type = eth_type;
    rest = drop 4 raw;
  })

-- `hdr`, for a priority below 8 and an id below 4096, whose bits do not meet.
unfoldable pub hdr_vlan : Vlan → Result Bytes
hdr_vlan p = do
  pcpid ← pack_u16 (p.pcp * 2 ^ 13 + p.c * 2 ^ 12 + p.id)
  eth_type ← pack_u16 p.eth_type
  ok (pcpid ++ eth_type)

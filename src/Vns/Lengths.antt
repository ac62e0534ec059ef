-- ===== src/Vns/Lengths.antt =====
-- `length` of the message classes of VNSProtocol.py against the bytes that `pack` makes.
use cs425a_computer_networks.Base.{◌+◌, ◌≡◌, arith, List, [], ◌∷◌, ◌++◌, length, length-append, ok}
use cs425a_computer_networks.Bytes.{Bytes, be16, be32, pack_s, pack_u16, pack_u32, pack_u8}
use cs425a_computer_networks.Bytes.RoundTrip.{length-pack_s, length-be32}
use cs425a_computer_networks.Vns.Messages.{
  VnsOpen, VnsPacket, VnsInterface, VnsRtable, VnsAuthReply, VnsAuthStatus,
}
use cs425a_computer_networks.Vns.Codec.{
  pack_open, open_size, pack_packet, length_packet, pack_interface, interface_size,
  pack_hardware_info, length_hardware_info, pack_rtable, length_rtable, pack_auth_reply,
  length_auth_reply, pack_auth_status, length_auth_status,
}

pub length-pack_open : (m : VnsOpen) (b : Bytes) → pack_open m ≡ ok b → length b ≡ open_size
unfolding pack_open pack_u16 be16
length-pack_open m b h =
    let v = pack_s 32 m.vhost in
    let u = pack_s 32 m.user in
    let p = pack_s 32 m.pw in
    ground (
      arith,
      length-pack_s 32 m.vhost,
      length-pack_s 32 m.user,
      length-pack_s 32 m.pw,
      length-append v (u ++ p),
      length-append u p,
    )

pub length-pack_packet : (m : VnsPacket) → length (pack_packet m) ≡ length_packet m
unfolding pack_packet length_packet
length-pack_packet m =
    omega (arith, length-append (pack_s 16 m.intf_name) m.ethernet_frame, length-pack_s)

pub length-pack_rtable : (m : VnsRtable) → length (pack_rtable m) ≡ length_rtable m
unfolding pack_rtable length_rtable
length-pack_rtable m = omega (arith, length-append (pack_s 32 m.vrhost) m.rtable, length-pack_s)

-- Every interface takes 216 bytes.
pub length-pack_interface : (m : VnsInterface) → length (pack_interface m) ≡ interface_size
unfolding pack_interface
length-pack_interface m = simp length-append (omega (arith, length-pack_s, length-be32))

pub length-pack_hardware_info :
    (is : List VnsInterface) → length (pack_hardware_info is) ≡ length_hardware_info is
unfolding pack_hardware_info length_hardware_info
length-pack_hardware_info [] = omega arith
length-pack_hardware_info (i ∷ is) = omega (
  arith,
  length-append (pack_interface i) (pack_hardware_info is),
  length-pack_interface i,
  length-pack_hardware_info is,
)

pub length-pack_auth_status :
    (m : VnsAuthStatus) (b : Bytes) → pack_auth_status m ≡ ok b → length b ≡ length_auth_status m
unfolding pack_auth_status length_auth_status pack_u8
length-pack_auth_status m b h = ground arith

-- The bytes of a packed authentication reply are four more than its `length()`.
pub length-pack_auth_reply :
    (m : VnsAuthReply) (b : Bytes) → pack_auth_reply m ≡ ok b → length b ≡ length_auth_reply m + 4
unfolding pack_auth_reply length_auth_reply pack_u32
length-pack_auth_reply m b h = ground (
  arith,
  length-append (be32 (length m.username)) (m.username ++ m.ssp),
  length-append m.username m.ssp,
  length-be32 (length m.username),
)

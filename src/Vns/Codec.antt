-- ===== src/Vns/Codec.antt =====
-- `pack`, `unpack` and `length` of the message classes of VNSProtocol.py.
use cs425a_computer_networks.Base.{
  ℕ, zero, suc, ◌+◌, ◌*◌, List, [], ◌∷◌, ◌++◌, not, ◌==◌, if◌then◌else◌, length, take, drop, Result,
  ok, struct_error, guard, ◌>>◌, ◌>>=◌,
}
use cs425a_computer_networks.Bytes.{
  Bytes, be32, pack_u8, pack_u16, pack_u32, pack_s, unpack_u8, unpack_u16, unpack_u32,
}
use cs425a_computer_networks.Vns.Messages.{
  VnsOpen, VnsPacket, VnsInterface, VnsRtable, VnsAuthReply, VnsAuthStatus,
}

abbrev pub id_size : ℕ
id_size = 32

-- `strip_null_chars`: the pattern `\x00*` is replaced everywhere, so every null goes.
unfoldable pub strip_null_chars : Bytes → Bytes
strip_null_chars [] = []
strip_null_chars (zero ∷ s) = strip_null_chars s
strip_null_chars (suc b ∷ s) = suc b ∷ strip_null_chars s

-- `VNSOpen`: '> HH 32s 32s 32s', where the second H is padding.
abbrev pub open_size : ℕ
open_size = 100

unfoldable pub pack_open : VnsOpen → Result Bytes
pack_open m = do
  id ← pack_u16 m.topo_id
  pad ← pack_u16 0
  ok (id ++ (pad ++ (pack_s id_size m.vhost ++ (pack_s id_size m.user ++ pack_s id_size m.pw))))

unfoldable pub unpack_open : Bytes → Result VnsOpen
unpack_open body = do
  guard (length body == open_size) struct_error
  id ← unpack_u16 (take 2 body)
  ok (record {
    topo_id = id;
    vhost = strip_null_chars (take id_size (drop 4 body));
    user = strip_null_chars (take id_size (drop 36 body));
    pw = strip_null_chars (take id_size (drop 68 body));
  })

-- `VNSClose` and `VNSBanner`: '> 256s'.
abbrev pub text_size : ℕ
text_size = 256

unfoldable pub pack_close : Bytes → Bytes
pack_close msg = pack_s text_size msg

unfoldable pub unpack_close : Bytes → Result Bytes
unpack_close body = do guard (length body == text_size) struct_error; ok (strip_null_chars body)

unfoldable pub pack_banner : Bytes → Bytes
pack_banner msg = pack_s text_size msg

unfoldable pub unpack_banner : Bytes → Result Bytes
unpack_banner body = do guard (length body == text_size) struct_error; ok (strip_null_chars body)

-- `VNSPacket`: '> 16s' and the frame.
abbrev pub packet_header_size : ℕ
packet_header_size = 16

unfoldable pub pack_packet : VnsPacket → Bytes
pack_packet m = pack_s packet_header_size m.intf_name ++ m.ethernet_frame

unfoldable pub unpack_packet : Bytes → Result VnsPacket
unpack_packet body = do
  let header = take packet_header_size body
  guard (length header == packet_header_size) struct_error
  ok (record { intf_name = strip_null_chars header; ethernet_frame = drop packet_header_size body })

unfoldable pub length_packet : VnsPacket → ℕ
length_packet m = packet_header_size + length m.ethernet_frame

-- `VNSInterface.pack`: '> I32s II28s I32s I4s28s II28s I4s28s', six pairs of a tag and 32 bytes.
abbrev pub interface_size : ℕ
interface_size = 216

unfoldable pub pack_interface : VnsInterface → Bytes
pack_interface m =
    be32 1
    ++ (pack_s 32 m.name
        ++ (be32 2
            ++ (be32 0
                ++ (pack_s 28 []
                    ++ (be32 32
                        ++ (pack_s 32 m.mac
                            ++ (be32 64
                                ++ (pack_s 4 m.ip
                                    ++ (pack_s 28 []
                                        ++ (be32 4
                                            ++ (be32 0
                                                ++ (pack_s 28 []
                                                    ++ (be32 128
                                                        ++ (pack_s 4 m.mask
                                                            ++ pack_s 28 []))))))))))))))

-- `VNSHardwareInfo`
unfoldable pub pack_hardware_info : List VnsInterface → Bytes
pack_hardware_info [] = []
pack_hardware_info (i ∷ is) = pack_interface i ++ pack_hardware_info is

unfoldable pub length_hardware_info : List VnsInterface → ℕ
length_hardware_info is = length is * interface_size

-- `VNSRtable`: '> 32s' and the table. `unpack` slices, so a short body is not refused.
unfoldable pub pack_rtable : VnsRtable → Bytes
pack_rtable m = pack_s id_size m.vrhost ++ m.rtable

unfoldable pub unpack_rtable : Bytes → VnsRtable
unpack_rtable body = record {
  vrhost = strip_null_chars (take id_size body);
  rtable = drop id_size body;
}

unfoldable pub length_rtable : VnsRtable → ℕ
length_rtable m = id_size + length m.rtable

-- `VNSAuthReply`: the length of the user name, the name, the hash.
unfoldable pub pack_auth_reply : VnsAuthReply → Result Bytes
pack_auth_reply m = do n ← pack_u32 (length m.username); ok (n ++ (m.username ++ m.ssp))

unfoldable pub unpack_auth_reply : Bytes → Result VnsAuthReply
unpack_auth_reply body = do
  username_len ← unpack_u32 (take 4 body)
  let rest = drop 4 body
  ok (record { username = take username_len rest; ssp = drop username_len rest })

unfoldable pub length_auth_reply : VnsAuthReply → ℕ
length_auth_reply m = length m.username + length m.ssp

-- `VNSAuthStatus`: one byte and the message. `bool` of the byte is its test against 0.
unfoldable pub pack_auth_status : VnsAuthStatus → Result Bytes
pack_auth_status m = do b ← pack_u8 (if m.auth_ok then 1 else 0); ok (b ++ m.msg)

unfoldable pub unpack_auth_status : Bytes → Result VnsAuthStatus
unpack_auth_status body = do
  b ← unpack_u8 (take 1 body)
  ok (record { auth_ok = not (b == 0); msg = drop 1 body })

unfoldable pub length_auth_status : VnsAuthStatus → ℕ
length_auth_status m = 1 + length m.msg

-- ===== src/Vns/RoundTrip.antt =====
-- `unpack` after `pack` for the classes of VNSProtocol.py that have both.
use cs425a_computer_networks.Base.{
  ℕ, ◌^◌, ◌<◌, ◌≤◌, ◌≡◌, arith, ◌++◌, length, take, drop, take-append, take-all, drop-append,
  drop-append_add, length-append, ok, ◌>>=◌,
}
use cs425a_computer_networks.Bytes.{Bytes, be16, be32, pack_s, pack_u8, unpack_u8}
use cs425a_computer_networks.Bytes.RoundTrip.{
  unpack_u16-be16, unpack_u32-be32, pack_u16-be16, pack_u32-be32, length-be32, length-pack_s,
}
use cs425a_computer_networks.Vns.Messages.{
  VnsOpen, VnsPacket, VnsRtable, VnsAuthReply, VnsAuthStatus,
}
use cs425a_computer_networks.Vns.Codec.{
  pack_open, unpack_open, pack_close, unpack_close, pack_banner, unpack_banner, pack_packet,
  unpack_packet, pack_rtable, unpack_rtable, pack_auth_reply, unpack_auth_reply, pack_auth_status,
  unpack_auth_status, strip_null_chars,
}
use cs425a_computer_networks.Vns.Strip.{NoNull, strip_null_chars-pack_s}

-- What fits a field of `w` bytes.
pub record Fits (w : ℕ) (s : Bytes) : Type 0 where
  pub no_null : NoNull s
  pub short : length s ≤ w

pub field_back : (w : ℕ) (s : Bytes) → Fits w s → strip_null_chars (pack_s w s) ≡ s
field_back w s h = strip_null_chars-pack_s w s h.no_null h.short

-- A close message comes back as sent if its text fits.
pub unpack_close-pack_close : (msg : Bytes) → Fits 256 msg → unpack_close (pack_close msg) ≡ ok msg
unfolding unpack_close pack_close
unpack_close-pack_close msg h = ground (arith, length-pack_s 256 msg, field_back 256 msg h)

pub unpack_banner-pack_banner :
    (msg : Bytes) → Fits 256 msg → unpack_banner (pack_banner msg) ≡ ok msg
unfolding unpack_banner pack_banner
unpack_banner-pack_banner msg h = ground (arith, length-pack_s 256 msg, field_back 256 msg h)

-- A packet message whose interface name has at most 16 bytes, none of them null, is unpacked as it
-- was packed, whatever its frame is.
pub unpack_packet-pack_packet :
    (m : VnsPacket) → Fits 16 m.intf_name → unpack_packet (pack_packet m) ≡ ok m
unfolding unpack_packet pack_packet
unpack_packet-pack_packet m h = ground (
  arith,
  length-pack_s 16 m.intf_name,
  take-append 16 (pack_s 16 m.intf_name) m.ethernet_frame,
  drop-append 16 (pack_s 16 m.intf_name) m.ethernet_frame,
  field_back 16 m.intf_name h,
)

-- A routing table message whose host name has at most 32 bytes, none of them null, is unpacked as
-- it was packed, whatever its table is.
pub unpack_rtable-pack_rtable :
    (m : VnsRtable) → Fits 32 m.vrhost → unpack_rtable (pack_rtable m) ≡ m
unfolding unpack_rtable pack_rtable
unpack_rtable-pack_rtable m h = ground (
  arith,
  length-pack_s 32 m.vrhost,
  take-append 32 (pack_s 32 m.vrhost) m.rtable,
  drop-append 32 (pack_s 32 m.vrhost) m.rtable,
  field_back 32 m.vrhost h,
)

-- An authentication reply whose user name is shorter than 2 ^ 32 bytes is unpacked as it was
-- packed.
pub unpack_auth_reply-pack_auth_reply :
    (m : VnsAuthReply)
    → length m.username < 2 ^ 32
    → (pack_auth_reply m >>= unpack_auth_reply) ≡ ok m
unfolding unpack_auth_reply pack_auth_reply
unpack_auth_reply-pack_auth_reply m h =
    let n : ℕ = length m.username in
    ground (
      arith,
      pack_u32-be32 n,
      length-be32 n,
      unpack_u32-be32 n,
      take-append 4 (be32 n) (m.username ++ m.ssp),
      drop-append 4 (be32 n) (m.username ++ m.ssp),
      take-append n m.username m.ssp,
      drop-append n m.username m.ssp,
    )

pub unpack_auth_status-pack_auth_status :
    (m : VnsAuthStatus) → (pack_auth_status m >>= unpack_auth_status) ≡ ok m
unfolding unpack_auth_status pack_auth_status pack_u8 unpack_u8
unpack_auth_status-pack_auth_status m = ground arith

pub record FitsOpen (m : VnsOpen) : Type 0 where
  pub id : m.topo_id < 2 ^ 16
  pub vhost : Fits 32 m.vhost
  pub user : Fits 32 m.user
  pub pw : Fits 32 m.pw

-- Three fields of 32 bytes, cut apart again.
module _ (v u p : Bytes) (hv : length v ≡ 32) (hu : length u ≡ 32) (hp : length p ≡ 32) where
  second_field : take 32 (drop 32 (v ++ (u ++ p))) ≡ u
  second_field = rw (drop-append 32 v (u ++ p) hv) (take-append 32 u p hu)

  third_field : take 32 (drop 64 (v ++ (u ++ p))) ≡ p
  third_field =
      rw (drop-append_add 32 32 v (u ++ p) hv, drop-append 32 u p hu) (take-all 32 p (omega arith))

  three_fields_length : length (v ++ (u ++ p)) ≡ 96
  three_fields_length = omega (arith, length-append v (u ++ p), length-append u p)

module _ (m : VnsOpen) (h : FitsOpen m) where
  unpacked :
      (v u p : Bytes)
      → length v ≡ 32
      → length u ≡ 32
      → length p ≡ 32
      → strip_null_chars v ≡ m.vhost
      → strip_null_chars u ≡ m.user
      → strip_null_chars p ≡ m.pw
      → unpack_open (be16 m.topo_id ++ (be16 0 ++ (v ++ (u ++ p)))) ≡ ok m
  unfolding unpack_open be16
  unpacked v u p hv hu hp ev eu ep = rw (
    three_fields_length v u p hv hu hp,
    take-append 32 v (u ++ p) hv,
    second_field v u p hv hu hp,
    third_field v u p hv hu hp,
    ev,
    eu,
    ep,
    unpack_u16-be16 m.topo_id,
  )

  -- An open message whose topology number is below 2 ^ 16 and whose three texts have at most 32
  -- bytes, none of them null, is unpacked as it was packed.
  pub unpack_open-pack_open : (pack_open m >>= unpack_open) ≡ ok m
  unfolding pack_open
  unpack_open-pack_open =
      rw (pack_u16-be16 m.topo_id h.id, pack_u16-be16 0 (omega arith))
        (unpacked (pack_s 32 m.vhost) (pack_s 32 m.user) (pack_s 32 m.pw) (length-pack_s 32 m.vhost)
          (length-pack_s 32 m.user) (length-pack_s 32 m.pw) (field_back 32 m.vhost h.vhost)
          (field_back 32 m.user h.user) (field_back 32 m.pw h.pw))

-- ===== src/Wire/Messages/PacketOut.antt =====
-- `ofp_packet_out` of libopenflow_01.py.
use cs425a_computer_networks.Base.{
  ℕ, ◌+◌, List, [], ◌∷◌, ◌++◌, Bool, true, false, not, ◌&&◌, ltb, if◌then◌else◌, length, drop,
  Option, none, some, Result, ok, err, struct_error, runtime_error, guard, ◌>>=◌, ◌>>◌,
}
use cs425a_computer_networks.Bytes.{Bytes}
use cs425a_computer_networks.Bytes.Format.{Format, num, Values, read, write, ◌&◌}
use cs425a_computer_networks.Wire.{
  Header, with_length, pack_header, unpack_header, wire_buffer, buffer_of, between,
}
use cs425a_computer_networks.Wire.Actions.Union.{WireAction}
use cs425a_computer_networks.Wire.Actions.Loop.{pack_actions, unpack_actions}

-- `ofp_packet_out`, with data that are bytes; a buffer of -1 is `none`.
pub record OfpPacketOut : Type 0 where
  pub header : Header
  pub buffer_id : Option ℕ
  pub in_port : ℕ
  pub actions : List WireAction
  pub data_bytes : Bytes

abbrev pub new_packet_out : OfpPacketOut
new_packet_out = record {
  header = record { version = 1; header_type = 13; length = 8; xid = 0 };
  buffer_id = none;
  in_port = 65535;
  actions = [];
  data_bytes = [];
}

abbrev pub is_set : Option ℕ → Bool
is_set none = false
is_set (some b) = true

-- `_assert`: not both a buffer and data.
unfoldable pub check_packet_out : OfpPacketOut → Result (Unit {0})
check_packet_out s = guard (not (is_set s.buffer_id && ltb 0 (length s.data_bytes))) runtime_error

abbrev pub packet_out_format : Format
packet_out_format = num 4 ∷ num 2 ∷ num 2 ∷ []

unfoldable pub pack_packet_out : OfpPacketOut → Result Bytes
pack_packet_out s = do
  check_packet_out s
  d ← pack_actions s.actions
  a ← pack_header (with_length (16 + length d + length s.data_bytes) s.header)
  b ← write packet_out_format (wire_buffer s.buffer_id & s.in_port & length d & tt)
  ok (a ++ (b ++ (d ++ s.data_bytes)))

-- What `unpack` sets behind the header. Data that are None are set to the empty string.
unfoldable pub read_packet_out :
    OfpPacketOut
    → Bytes
    → Header
    → Option (Values packet_out_format × Bytes)
    → Result (OfpPacketOut × Bytes)
read_packet_out self raw h none = err struct_error
read_packet_out self raw h (some ((b & in_port & size & values), rest)) = do
  parsed ← unpack_actions raw (16 + size) 16
  ok (
    record {
      header = h;
      buffer_id = buffer_of b;
      in_port = in_port;
      actions = parsed.0;
      data_bytes = if ltb parsed.1 h.length then between parsed.1 h.length raw else [];
    },
    drop h.length raw,
  )

unfoldable pub unpack_packet_out : OfpPacketOut → Bytes → Result (OfpPacketOut × Bytes)
unpack_packet_out self raw =
    if ltb (length raw) 16
    then ok (self, raw)
    else read_packet_out self raw (unpack_header self.header raw).0
        (read packet_out_format (drop 8 raw))

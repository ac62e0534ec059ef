-- ===== src/Wire/Messages/PacketIn.antt =====
-- `ofp_packet_in` of libopenflow_01.py.
use cs425a_computer_networks.Base.{
  ℕ, ◌+◌, [], ◌∷◌, ◌++◌, ltb, if◌then◌else◌, length, drop, Option, none, some, Result, ok, ◌>>=◌,
  ◌>>◌,
}
use cs425a_computer_networks.Bytes.{Bytes}
use cs425a_computer_networks.Bytes.Format.{Format, num, Values, read, write, ◌&◌}
use cs425a_computer_networks.Wire.{Header, with_header, known_type, wire_buffer, buffer_of, between}

-- `ofp_packet_in`, with data that are bytes; a buffer of -1 is `none`.
pub record OfpPacketIn : Type 0 where
  pub header : Header
  pub buffer_id : Option ℕ
  pub total_len : ℕ
  pub in_port : ℕ
  pub reason : ℕ
  pub data_bytes : Bytes

abbrev pub new_packet_in : OfpPacketIn
new_packet_in = record {
  header = record { version = 1; header_type = 10; length = 8; xid = 0 };
  buffer_id = none;
  total_len = 0;
  in_port = 65535;
  reason = 0;
  data_bytes = [];
}

abbrev pub packet_in_format : Format
packet_in_format = with_header (num 4 ∷ num 2 ∷ num 2 ∷ num 1 ∷ num 1 ∷ [])

abbrev pub packet_in_values : OfpPacketIn → Values packet_in_format
packet_in_values s =
    let size = 18 + length s.data_bytes in
    s.header.version
    & s.header.header_type
    & size
    & s.header.xid
    & wire_buffer s.buffer_id
    & size
    & s.in_port
    & s.reason
    & 0
    & tt

unfoldable pub pack_packet_in : OfpPacketIn → Result Bytes
pack_packet_in s = do
  known_type s.header
  a ← write packet_in_format (packet_in_values s)
  ok (a ++ s.data_bytes)

-- All but the data are set before the bytes are found to be too few.
unfoldable pub read_packet_in :
    OfpPacketIn → Bytes → Option (Values packet_in_format × Bytes) → OfpPacketIn × Bytes
read_packet_in self raw none = (self, raw)
read_packet_in self raw
      (some (
        (version & header_type & size & xid & b & total & in_port & reason & padding & values),
        rest,
      )) =
    let s : OfpPacketIn = record {
      header = record { version = version; header_type = header_type; length = size; xid = xid };
      buffer_id = buffer_of b;
      total_len = total;
      in_port = in_port;
      reason = reason;
      data_bytes = self.data_bytes;
    } in
    if ltb (length raw) size
    then (s, raw)
    else (record s { data_bytes = between 18 size raw }, drop size raw)

unfoldable pub unpack_packet_in : OfpPacketIn → Bytes → OfpPacketIn × Bytes
unpack_packet_in self raw = read_packet_in self raw (read packet_in_format raw)

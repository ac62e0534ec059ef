-- ===== src/Wire/Messages/Bodies.antt =====
-- The messages of libopenflow_01.py that end in any bytes: echoes, vendor messages and errors.
use cs425a_computer_networks.Base.{
  ℕ, ◌+◌, ◌-◌, [], ◌∷◌, ◌++◌, Bool, ◌&&◌, ◌==◌, ltb, if◌then◌else◌, length, take, drop, list_eq,
  Option, none, some, Result, ok, ◌>>=◌,
}
use cs425a_computer_networks.Bytes.{Bytes}
use cs425a_computer_networks.Bytes.Format.{Format, num, Values, read, write, ◌&◌}
use cs425a_computer_networks.Wire.{
  Header, with_header, with_length, pack_header, unpack_header, eq_header, between,
}

-- `ofp_echo_request` and `ofp_echo_reply`. `pack` leaves the length in the header as it is.
pub record Echo : Type 0 where
  pub header : Header
  pub body : Bytes

abbrev pub new_echo_request : Echo
new_echo_request = record {
  header = record { version = 1; header_type = 2; length = 8; xid = 0 };
  body = [];
}

abbrev pub new_echo_reply : Echo
new_echo_reply = record {
  header = record { version = 1; header_type = 3; length = 8; xid = 0 };
  body = [];
}

unfoldable pub pack_echo : Echo → Result Bytes
pack_echo s = do a ← pack_header s.header; ok (a ++ s.body)

-- The header is read also where the body is not all there.
unfoldable pub read_echo : Echo → Bytes → Header → Echo × Bytes
read_echo self raw h = if ltb (length raw) h.length then (record self { header = h }, raw) else (
  record { header = h; body = take (h.length - 8) (drop 8 raw) },
  drop (8 + (h.length - 8)) raw,
)

unfoldable pub unpack_echo : Echo → Bytes → Echo × Bytes
unpack_echo self raw =
    if ltb (length raw) 8 then (self, raw) else read_echo self raw (unpack_header self.header raw).0

unfoldable pub eq_echo : Echo → Echo → Bool
eq_echo a b = eq_header a.header b.header && list_eq a.body b.body

-- `ofp_vendor`, with data that are bytes.
pub record VendorMessage : Type 0 where
  pub header : Header
  pub vendor : ℕ
  pub data_bytes : Bytes

abbrev pub new_vendor_message : VendorMessage
new_vendor_message = record {
  header = record { version = 1; header_type = 4; length = 12; xid = 0 };
  vendor = 0;
  data_bytes = [];
}

unfoldable pub pack_vendor_message : VendorMessage → Result Bytes
pack_vendor_message s = do
  a ← pack_header (with_length (12 + length s.data_bytes) s.header)
  b ← write (num 4 ∷ []) (s.vendor & tt)
  ok ((a ++ b) ++ s.data_bytes)

abbrev pub vendor_message_format : Format
vendor_message_format = with_header (num 4 ∷ [])

unfoldable pub read_vendor_message :
    VendorMessage → Bytes → Option (Values vendor_message_format × Bytes) → VendorMessage × Bytes
read_vendor_message self raw none = (self, raw)
read_vendor_message self raw (some ((version & header_type & size & xid & vendor & values), rest)) =
    let h : Header = record {
      version = version;
      header_type = header_type;
      length = size;
      xid = xid;
    } in
    if ltb (length raw) size
    then (record self { header = h; vendor = vendor }, raw)
    else (record { header = h; vendor = vendor; data_bytes = between 12 size raw }, drop size raw)

unfoldable pub unpack_vendor_message : VendorMessage → Bytes → VendorMessage × Bytes
unpack_vendor_message self raw = read_vendor_message self raw (read vendor_message_format raw)

unfoldable pub eq_vendor_message : VendorMessage → VendorMessage → Bool
eq_vendor_message a b =
    eq_header a.header b.header && (a.vendor == b.vendor && list_eq a.data_bytes b.data_bytes)

-- `ofp_error`. `unpack` does not read the data that `pack` writes.
pub record OfpError : Type 0 where
  pub header : Header
  pub type : ℕ
  pub code : ℕ
  pub data_bytes : Bytes

abbrev pub new_error : OfpError
new_error = record {
  header = record { version = 1; header_type = 1; length = 8; xid = 0 };
  type = 0;
  code = 0;
  data_bytes = [];
}

-- `for i in self.data: packed += struct.pack("!B", i)`
unfoldable pub pack_each : Bytes → Result Bytes
pack_each [] = ok []
pack_each (i ∷ rest) = do a ← write (num 1 ∷ []) (i & tt); b ← pack_each rest; ok (a ++ b)

unfoldable pub pack_error : OfpError → Result Bytes
pack_error s = do
  a ← pack_header (with_length (12 + length s.data_bytes) s.header)
  b ← write (num 2 ∷ num 2 ∷ []) (s.type & s.code & tt)
  c ← pack_each s.data_bytes
  ok ((a ++ b) ++ c)

abbrev pub error_format : Format
error_format = with_header (num 2 ∷ num 2 ∷ [])

unfoldable pub read_error :
    OfpError → Bytes → Option (Values error_format × Bytes) → OfpError × Bytes
read_error self raw none = (self, raw)
read_error self raw (some ((version & header_type & size & xid & type & code & values), rest)) = (
  record self {
    header = record { version = version; header_type = header_type; length = size; xid = xid };
    type = type;
    code = code;
  },
  rest,
)

unfoldable pub unpack_error : OfpError → Bytes → OfpError × Bytes
unpack_error self raw = read_error self raw (read error_format raw)

unfoldable pub eq_error : OfpError → OfpError → Bool
eq_error a b =
    eq_header a.header b.header
    && (a.type == b.type && (a.code == b.code && list_eq a.data_bytes b.data_bytes))

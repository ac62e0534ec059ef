-- ===== src/Wire/RoundTrip/Bodies.antt =====
-- The messages that end in any bytes, packed and unpacked again.
use mathlib.Core.List.{append_assoc}
use cs425a_computer_networks.Base.{
  ℕ, ◌+◌, ◌-◌, ◌^◌, ◌<◌, ◌≡◌, refl, ap, ◌∙◌, arith, [], ◌∷◌, ◌++◌, false, ltb, length,
  length-append, take-append, drop-append, All, ok,
}
use cs425a_computer_networks.Bytes.{Bytes, IsByte}
use cs425a_computer_networks.Bytes.Format.{num, Values, Fits, encode, read, ◌&◌}
use cs425a_computer_networks.Bytes.Format.RoundTrip.{length-encode, write-encode, read-encode}
use cs425a_computer_networks.Wire.{Header, with_length, between}
use cs425a_computer_networks.Wire.Messages.PacketIn.{
  OfpPacketIn, packet_in_format, packet_in_values, pack_packet_in, read_packet_in, unpack_packet_in,
}
use cs425a_computer_networks.Wire.Messages.Bodies.{
  OfpError, pack_each, error_format, pack_error, read_error, unpack_error,
}
use cs425a_computer_networks.Wire.RoundTrip.{
  IsBuffer, buffer_of-wire_buffer, IsHeader, pack_header-encode,
}
use cs425a_computer_networks.Wire.RoundTrip.Fixed.{known}

-- The length of the message.
abbrev pub packet_in_len : OfpPacketIn → ℕ
packet_in_len s = 18 + length s.data_bytes

pub record IsPacketIn (s : OfpPacketIn) : Type 0 where
  pub known_kind : s.header.header_type < 22
  pub fields : Fits packet_in_format (packet_in_values s)
  pub buffer : IsBuffer s.buffer_id

-- The packet in as `pack` leaves it.
abbrev pub sent_packet_in : OfpPacketIn → OfpPacketIn
sent_packet_in s = record s {
  header = with_length (packet_in_len s) s.header;
  total_len = packet_in_len s;
}

-- The data stand between the head and the end.
between-append :
    (n m : ℕ) (head x rest : Bytes)
    → length head ≡ n
    → n + length x ≡ m
    → between n m ((head ++ x) ++ rest) ≡ x
between-append n m head x rest h e =
    let count : m - n ≡ length x = omega arith in
    rw (append_assoc head x rest, drop-append n head (x ++ rest) h, count)
      (take-append (length x) x rest refl)

module _ (s : OfpPacketIn) (is : IsPacketIn s) where
  abbrev head : Bytes
  head = encode packet_in_format (packet_in_values s)

  length-head : length head ≡ 18
  length-head = length-encode packet_in_format (packet_in_values s) is.fields

  length-packet_in : length (head ++ s.data_bytes) ≡ packet_in_len s
  length-packet_in = omega (arith, length-append head s.data_bytes, length-head)

  unpack_packet_in-encode :
      (self : OfpPacketIn) (rest : Bytes)
      → unpack_packet_in self ((head ++ s.data_bytes) ++ rest) ≡ (sent_packet_in s, rest)
  unfolding unpack_packet_in read_packet_in
  unpack_packet_in-encode self rest =
      let fields =
        ap (read packet_in_format) (append_assoc head s.data_bytes rest)
        ∙ read-encode packet_in_format (packet_in_values s) (s.data_bytes ++ rest) is.fields in
      let all_there : ltb (length ((head ++ s.data_bytes) ++ rest)) (packet_in_len s) ≡ false =
        ground (arith, length-append (head ++ s.data_bytes) rest, length-packet_in) in
      rw
        (
          fields,
          all_there,
          between-append 18 (packet_in_len s) head s.data_bytes rest length-head refl,
          drop-append (packet_in_len s) (head ++ s.data_bytes) rest length-packet_in,
          buffer_of-wire_buffer s.buffer_id is.buffer,
        )
        refl

-- A packet in whose fields fit is packed, and unpacking the bytes gives it with its data and with the
-- two lengths that `pack` sets, whatever the object was before, and the bytes behind it.
pub unpack_packet_in-pack_packet_in :
    (s self : OfpPacketIn) (rest : Bytes)
    → IsPacketIn s
    → (bytes : Bytes) × (pack_packet_in s ≡ ok bytes)
      × (length bytes ≡ packet_in_len s)
      × (unpack_packet_in self (bytes ++ rest) ≡ (sent_packet_in s, rest))
unfolding pack_packet_in
unpack_packet_in-pack_packet_in s self rest is = (
  head s is ++ s.data_bytes,
  rw (known s.header is.known_kind, write-encode packet_in_format (packet_in_values s) is.fields)
      refl,
  length-packet_in s is,
  unpack_packet_in-encode s is self rest,
)

-- An error whose fields fit.
pub record IsError (s : OfpError) : Type 0 where
  pub header : IsHeader (with_length (12 + length s.data_bytes) s.header)
  pub type : s.type < 2 ^ 16
  pub code : s.code < 2 ^ 16
  pub bytes : All IsByte s.data_bytes

pack_each-bytes : (x : Bytes) → All IsByte x → pack_each x ≡ ok x
unfolding pack_each
pack_each-bytes [] h = refl
pack_each-bytes (b ∷ x) (p, h) =
    rw (write-encode (num 1 ∷ []) (b & tt) (p, tt), pack_each-bytes x h)
      (unfold encode in ap (λ c. ok (c ∷ x)) (omega (arith, p)))

module _ (s : OfpError) (is : IsError s) where
  abbrev sent_header : Header
  sent_header = with_length (12 + length s.data_bytes) s.header

  abbrev error_values : Values error_format
  error_values =
      sent_header.version & sent_header.header_type & sent_header.length & sent_header.xid & s.type
      & s.code & tt

  error_values-Fits : Fits error_format error_values
  error_values-Fits =
      let fits = is.header.fits in
      (fits.0, (fits.1.0, (fits.1.1.0, (fits.1.1.1.0, (is.type, (is.code, tt))))))

  abbrev error_bytes : Bytes
  error_bytes = encode error_format error_values ++ s.data_bytes

  pack_error-bytes : pack_error s ≡ ok error_bytes
  unfolding pack_error
  pack_error-bytes =
      rw
        (
          pack_header-encode sent_header is.header,
          write-encode (num 2 ∷ num 2 ∷ []) (s.type & s.code & tt) (is.type, (is.code, tt)),
          pack_each-bytes s.data_bytes is.bytes,
        )
        (unfold encode in refl)

  unpack_error-bytes :
      (self : OfpError) (rest : Bytes)
      → unpack_error self (error_bytes ++ rest)
        ≡ (record s { header = sent_header; data_bytes = self.data_bytes }, s.data_bytes ++ rest)
  unfolding unpack_error read_error
  unpack_error-bytes self rest =
      rw
        (
          append_assoc (encode error_format error_values) s.data_bytes rest,
          read-encode error_format error_values (s.data_bytes ++ rest) error_values-Fits,
        )
        refl

-- An error whose fields fit is packed with its data, but unpacking the bytes does not give the data
-- back: those of the object stay, and the data are returned with the bytes behind them.
pub unpack_error-pack_error :
    (s self : OfpError) (rest : Bytes)
    → IsError s
    → (bytes : Bytes) × (pack_error s ≡ ok bytes)
      × (unpack_error self (bytes ++ rest) ≡ (
        record s {
          header = with_length (12 + length s.data_bytes) s.header;
          data_bytes = self.data_bytes;
        },
        s.data_bytes ++ rest,
      ))
unpack_error-pack_error s self rest is =
    (error_bytes s is, pack_error-bytes s is, unpack_error-bytes s is self rest)

-- ===== src/OpenFlow/Connection/Written.antt =====
-- The bytes of the messages that a controller sends, as frames that the read loop's classes unpack.
use cs425a_computer_networks.Base.{
  ℕ, ◌+◌, ◌≡◌, ◌%◌, ◌/◌, ◌<◌, refl, sym, ap, ◌∙◌, arith, [], ◌∷◌, ◌++◌, length, Option, some,
  Result, ok, ok-injective, length-append,
}
use mathlib.Core.Path.{subst}
use cs425a_computer_networks.Bytes.{Bytes}
use cs425a_computer_networks.Bytes.Format.{encode, be}
use cs425a_computer_networks.Wire.{Header, with_length, pack_as-encode}
use cs425a_computer_networks.Wire.Messages.Symmetric.{
  hello_layout, pack_hello, new_hello, features_request_layout, pack_features_request,
  new_features_request, barrier_request_layout, pack_barrier_request, new_barrier_request,
}
use cs425a_computer_networks.Wire.Messages.Config.{
  set_config_layout, pack_set_config, new_set_config,
}
use cs425a_computer_networks.Wire.Messages.FlowMod.{
  OfpFlowMod, new_ofp_flow_mod, flow_mod_len, pack_flow_mod, unpack_flow_mod,
}
use cs425a_computer_networks.Wire.Messages.PacketOut.{
  OfpPacketOut, new_packet_out, pack_packet_out, unpack_packet_out,
}
use cs425a_computer_networks.Wire.RoundTrip.{encode_header, length-encode_header}
use cs425a_computer_networks.Wire.RoundTrip.FlowMod.{
  IsFlowMod, sent_flow_mod, unpack_flow_mod-pack_flow_mod, head-pack_flow_mod,
}
use cs425a_computer_networks.Wire.RoundTrip.PacketOut.{
  IsPacketOut, packet_out_len, sent_packet_out, unpack_packet_out-pack_packet_out,
  head-pack_packet_out,
}
use cs425a_computer_networks.Wire.RoundTrip.Objects.{
  FixedClass, a_hello, a_features_request, a_set_config, a_barrier_request, Object, pack_object,
  unpack_object, object_len, IsSendable,
}
use cs425a_computer_networks.Wire.RoundTrip.Fixed.{known, unpack_object-pack_object}
use cs425a_computer_networks.OpenFlow.Connection.Framing.{Frame, bytes_of}
use cs425a_computer_networks.OpenFlow.Connection.Messages.{
  OfpMessage, hello, features_request, set_config, packet_out, flow_mod, barrier_request,
  message_type, pack_message, unpacked_as, class_table, sent_message, IsHeaderOf, IsMessage,
}

-- The bytes of a header and what follows.
abbrev headed : Header → Bytes → Bytes
headed h tail = encode_header h ++ tail

-- Bytes that begin with a header of version 1 and have the length that it says are a frame.
frame :
    (h : Header) (tail : Bytes)
    → h.version ≡ 1
    → h.header_type < 256
    → h.length < 65536
    → h.length ≡ 8 + length tail
    → (f : Frame) × (f.kind ≡ h.header_type) × (bytes_of f ≡ headed h tail)
unfolding encode
frame h tail version small bounded size = (
  record {
    kind = h.header_type;
    high = h.length / 256;
    low = h.length % 256;
    first = h.xid / 256 / 256 / 256 % 256;
    body = (h.xid / 256 / 256 % 256) ∷ (h.xid / 256 % 256) ∷ (h.xid % 256) ∷ tail;
    size = omega arith;
  },
  refl,
  (let one_byte : h.header_type % 256 ≡ h.header_type = omega arith in
      let high_byte : h.length / 256 % 256 ≡ h.length / 256 = omega arith in
      rw (version, one_byte, high_byte) refl),
)

-- What is packed is given back, by any other way to these bytes too.
fixed_back :
    (c : FixedClass) (x self : Object c) (e rest : Bytes)
    → IsSendable c x
    → pack_object c x ≡ ok e
    → (length e ≡ object_len c) × (unpack_object c self (e ++ rest) ≡ (x, rest))
fixed_back c x self e rest is packs =
    let (b, packed, sized, back) = unpack_object-pack_object c x self rest is in
    let same : b ≡ e = ok-injective (sym packed ∙ packs) in
    subst (λ z. (length z ≡ object_len c) × (unpack_object c self (z ++ rest) ≡ (x, rest))) same
      (sized, back)

flow_mod_back :
    (s self : OfpFlowMod) (e rest : Bytes)
    → IsFlowMod s
    → pack_flow_mod s ≡ ok e
    → (length e ≡ flow_mod_len s) × (unpack_flow_mod self (e ++ rest) ≡ ok (sent_flow_mod s, rest))
flow_mod_back s self e rest is packs =
    let (b, packed, sized, back) = unpack_flow_mod-pack_flow_mod s self rest is in
    let same : b ≡ e = ok-injective (sym packed ∙ packs) in
    subst
      (λ z.
        (length z ≡ flow_mod_len s)
        × (unpack_flow_mod self (z ++ rest) ≡ ok (sent_flow_mod s, rest)))
      same (sized, back)

packet_out_back :
    (s self : OfpPacketOut) (e rest : Bytes)
    → IsPacketOut s
    → pack_packet_out s ≡ ok e
    → (length e ≡ packet_out_len s)
      × (unpack_packet_out self (e ++ rest) ≡ ok (sent_packet_out s, rest))
packet_out_back s self e rest is packs =
    let (b, packed, sized, back) = unpack_packet_out-pack_packet_out s self rest is in
    let same : b ≡ e = ok-injective (sym packed ∙ packs) in
    subst
      (λ z.
        (length z ≡ packet_out_len s)
        × (unpack_packet_out self (z ++ rest) ≡ ok (sent_packet_out s, rest)))
      same (sized, back)

-- A message that is written: its bytes are a frame of its type, from which the class for the type
-- unpacks what is sent, whatever follows.
module _ (others : ℕ → Option (Bytes → Result OfpMessage)) where
  pub record IsWritten (m : OfpMessage) (f : Frame) : Type 0 where
    pub packed : pack_message m ≡ ok (bytes_of f)
    pub kind : f.kind ≡ message_type m
    pub unpack : Bytes → Result OfpMessage
    pub known : class_table others (message_type m) ≡ some unpack
    pub unpacked : (rest : Bytes) → unpack (bytes_of f ++ rest) ≡ ok (sent_message m)

  -- From the header that the bytes begin with.
  headed-IsWritten :
      (m : OfpMessage) (h : Header) (tail : Bytes) (unpack : Bytes → Result OfpMessage)
      → h.version ≡ 1
      → h.header_type ≡ message_type m
      → h.length < 65536
      → h.length ≡ length (headed h tail)
      → length (encode_header h) ≡ 8
      → message_type m < 256
      → pack_message m ≡ ok (headed h tail)
      → class_table others (message_type m) ≡ some unpack
      → ((rest : Bytes) → unpack (headed h tail ++ rest) ≡ ok (sent_message m))
      → (f : Frame) × IsWritten m f
  headed-IsWritten m h tail unpack version kind bounded size eight small packed known unpacked =
      let (f, same_kind, same) =
        frame h tail version (omega arith) bounded
          (omega (arith, length-append (encode_header h) tail)) in
      (
        f,
        record {
          packed = packed ∙ ap ok (sym same);
          kind = same_kind ∙ kind;
          unpack = unpack;
          known = known;
          unpacked = λ rest. ap (λ b. unpack (b ++ rest)) same ∙ unpacked rest;
        },
      )

  -- A message of the fixed classes.
  fixed-IsWritten :
      (m : OfpMessage) (c : FixedClass) (x self : Object c) (h : Header) (tail : Bytes)
      (message : Object c → OfpMessage)
      → IsSendable c x
      → IsHeaderOf h (message_type m) (object_len c)
      → length (encode_header h) ≡ 8
      → h.length < 65536
      → message_type m < 256
      → pack_object c x ≡ ok (headed h tail)
      → pack_message m ≡ pack_object c x
      → class_table others (message_type m) ≡ some (λ b. ok (message (unpack_object c self b).0))
      → message x ≡ sent_message m
      → (f : Frame) × IsWritten m f
  fixed-IsWritten m c x self h tail message is (version, kind, size) eight bounded small packs same
        known sent =
      let (sized, back') = fixed_back c x self (headed h tail) [] is packs in
      headed-IsWritten m h tail (λ b. ok (message (unpack_object c self b).0)) version kind bounded
        (size ∙ sym sized) eight small (same ∙ packs) known
        (λ rest.
          let (sized', back) = fixed_back c x self (headed h tail) rest is packs in
          rw (back, sent) refl)

  flow_mod-IsWritten :
      (s : OfpFlowMod) → IsMessage (flow_mod s) → (f : Frame) × IsWritten (flow_mod s) f
  unfolding pack_message class_table
  flow_mod-IsWritten s (is, version, kind) =
      let (tail, packs) = head-pack_flow_mod s is in
      let h = with_length (flow_mod_len s) s.header in
      let (sized, back') = flow_mod_back s new_ofp_flow_mod (headed h tail) [] is packs in
      headed-IsWritten (flow_mod s) h tail
        (λ b. unpacked_as flow_mod (unpack_flow_mod new_ofp_flow_mod b)) version kind
        is.header.fits.1.1.0 (sym sized) (length-encode_header h is.header) (omega arith) packs refl
        (λ rest.
          let (sized', back) = flow_mod_back s new_ofp_flow_mod (headed h tail) rest is packs in
          rw back refl)

  packet_out-IsWritten :
      (s : OfpPacketOut) → IsMessage (packet_out s) → (f : Frame) × IsWritten (packet_out s) f
  unfolding pack_message class_table
  packet_out-IsWritten s (is, version, kind) =
      let (tail, packs) = head-pack_packet_out s is in
      let h = with_length (packet_out_len s) s.header in
      let (sized, back') = packet_out_back s new_packet_out (headed h tail) [] is packs in
      headed-IsWritten (packet_out s) h tail
        (λ b. unpacked_as packet_out (unpack_packet_out new_packet_out b)) version kind
        is.header.fits.1.1.0 (sym sized) (length-encode_header h is.header) (omega arith) packs refl
        (λ rest.
          let (sized', back) = packet_out_back s new_packet_out (headed h tail) rest is packs in
          rw back refl)

  pub message-IsWritten : (m : OfpMessage) → IsMessage m → (f : Frame) × IsWritten m f
  unfolding pack_message class_table pack_object unpack_object object_len encode pack_hello
      pack_features_request pack_set_config pack_barrier_request
  message-IsWritten (hello x) (is, h) =
      fixed-IsWritten (hello x) a_hello x new_hello x.header [] hello is h refl is.1.1.1.0
        (omega arith) (rw (known x.header is.0) (pack_as-encode hello_layout x is.1)) refl refl refl
  message-IsWritten (features_request x) (is, h) =
      fixed-IsWritten (features_request x) a_features_request x new_features_request x.header []
        features_request is h refl is.1.1.1.0 (omega arith)
        (rw (known x.header is.0) (pack_as-encode features_request_layout x is.1)) refl refl refl
  message-IsWritten (set_config x) (is, h) =
      fixed-IsWritten (set_config x) a_set_config x new_set_config x.header
        (be 2 x.flags ++ (be 2 x.miss_send_len ++ [])) set_config is h refl is.1.1.1.0 (omega arith)
        (rw (known x.header is.0) (pack_as-encode set_config_layout x is.1)) refl refl refl
  message-IsWritten (packet_out s) is = packet_out-IsWritten s is
  message-IsWritten (flow_mod s) is = flow_mod-IsWritten s is
  message-IsWritten (barrier_request x) (is, h) =
      fixed-IsWritten (barrier_request x) a_barrier_request x new_barrier_request x.header []
        barrier_request is h refl is.1.1.1.0 (omega arith)
        (rw (known x.header is.0) (pack_as-encode barrier_request_layout x is.1)) refl refl refl

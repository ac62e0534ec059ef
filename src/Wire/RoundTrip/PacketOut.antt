-- ===== src/Wire/RoundTrip/PacketOut.antt =====
-- A packet out that is packed and unpacked again.
use mathlib.Core.Path.{subst}
use mathlib.Core.List.{append_assoc}
use cs425a_computer_networks.Base.{
  ℕ, suc, ◌+◌, ◌-◌, ◌≡◌, refl, sym, ap, ◌∙◌, arith, List, [], ◌∷◌, ◌++◌, true, false, ◌&&◌, ltb,
  if◌then◌else◌, length, drop, map, drop-append, take-append, length-append, All, some, ok,
}
use cs425a_computer_networks.Bytes.{Bytes}
use cs425a_computer_networks.Bytes.Format.{Fits, encode, read, ◌&◌}
use cs425a_computer_networks.Bytes.Format.RoundTrip.{length-encode, write-encode, read-encode}
use cs425a_computer_networks.Wire.{with_length, unpack_header, wire_buffer, between}
use cs425a_computer_networks.Wire.Actions.Loop.{actions_len, pack_actions, unpack_actions}
use cs425a_computer_networks.Wire.Actions.Sent.{IsPackable, settle_action, action_length_lem}
use cs425a_computer_networks.Wire.Actions.Union.{WireAction, action_length}
use cs425a_computer_networks.Wire.Actions.RoundTrip.{unpack_actions-pack_actions}
use cs425a_computer_networks.Wire.Messages.PacketOut.{
  OfpPacketOut, is_set, check_packet_out, packet_out_format, pack_packet_out, read_packet_out,
  unpack_packet_out,
}
use cs425a_computer_networks.Wire.RoundTrip.{
  IsBuffer, buffer_of-wire_buffer, IsHeader, encode_header, pack_header-encode,
  length-encode_header, unpack_header-encode, actions_len-map, parts_apart, behind_first,
}

-- The sum of the attributes `length`, which is their `__len__` for actions that are as their classes make them.
unfoldable pub action_lengths : List WireAction → ℕ
action_lengths [] = 0
action_lengths (a ∷ actions) = action_length a + action_lengths actions

action_lengths_lem :
    (actions : List WireAction)
    → All IsPackable actions
    → action_lengths actions ≡ actions_len actions
unfolding action_lengths actions_len
action_lengths_lem [] h = refl
action_lengths_lem (a ∷ actions) (p, h) =
    omega (arith, action_length_lem a p, action_lengths_lem actions h)

-- `__len__`
abbrev pub packet_out_len : OfpPacketOut → ℕ
packet_out_len s = 16 + action_lengths s.actions + length s.data_bytes

-- A packet out whose fields fit, with actions that are as their classes make them, and not with
-- both a buffer and data.
pub record IsPacketOut (s : OfpPacketOut) : Type 0 where
  pub header : IsHeader (with_length (packet_out_len s) s.header)
  pub fields :
      Fits packet_out_format (wire_buffer s.buffer_id & s.in_port & actions_len s.actions & tt)
  pub buffer : IsBuffer s.buffer_id
  pub actions : All IsPackable s.actions
  pub not_both : (is_set s.buffer_id && ltb 0 (length s.data_bytes)) ≡ false

-- The packet out as it is sent.
abbrev pub sent_packet_out : OfpPacketOut → OfpPacketOut
sent_packet_out s = record s {
  header = with_length (packet_out_len s) s.header;
  actions = map settle_action s.actions;
}

-- Data that end where the message does.
data_back :
    (x : Bytes) (first stop : ℕ) (raw rest : Bytes)
    → stop ≡ first + length x
    → drop first raw ≡ x ++ rest
    → (if ltb first stop then between first stop raw else []) ≡ x
data_back [] first stop raw rest e h =
    let none_left : ltb first stop ≡ false = ground arith in rw none_left refl
data_back (c ∷ x) first stop raw rest e h =
    let some_left : ltb first stop ≡ true = ground arith in
    let count : stop - first ≡ suc (length x) = omega arith in
    rw (some_left, h, count) (take-append (suc (length x)) (c ∷ x) rest refl)

module _ (s : OfpPacketOut) (is : IsPacketOut s) (d : Bytes)
    (packed : pack_actions s.actions ≡ ok d) (sized : actions_len s.actions ≡ length d)
    (lengths : action_lengths s.actions ≡ actions_len s.actions) where
  abbrev a : Bytes
  a = encode_header (with_length (packet_out_len s) s.header)

  abbrev b : Bytes
  b = encode packet_out_format (wire_buffer s.buffer_id & s.in_port & actions_len s.actions & tt)

  abbrev e : Bytes
  e = s.data_bytes

  abbrev bytes : Bytes
  bytes = a ++ (b ++ (d ++ e))

  length-a : length a ≡ 8
  length-a = length-encode_header _ is.header

  length-b : length b ≡ 8
  length-b = length-encode packet_out_format _ is.fields

  length-bytes : length bytes ≡ packet_out_len s
  length-bytes = omega (
    arith,
    length-append a (b ++ (d ++ e)),
    length-append b (d ++ e),
    length-append d e,
    length-a,
    length-b,
    sized,
    lengths,
  )

  length-front : length (a ++ b) ≡ 16
  length-front = omega (arith, length-append a b, length-a, length-b)

  pack_packet_out-bytes : pack_packet_out s ≡ ok bytes
  unfolding pack_packet_out check_packet_out
  pack_packet_out-bytes =
      rw
        (
          is.not_both,
          packed,
          ← sized,
          write-encode packet_out_format _ is.fields,
          ← lengths,
          pack_header-encode _ is.header,
        )
        refl

  module _ (self : OfpPacketOut) (rest : Bytes)
      (parsed : unpack_actions ((a ++ b) ++ (d ++ (e ++ rest))) (16 + length d) 16
        ≡ ok (map settle_action s.actions, 16 + length d)) where
    front_apart : bytes ++ rest ≡ (a ++ b) ++ (d ++ (e ++ rest))
    front_apart = parts_apart a b d e rest ∙ sym (append_assoc a b (d ++ (e ++ rest)))

    actions-back :
        unpack_actions (bytes ++ rest) (16 + actions_len s.actions) 16
        ≡ ok (map settle_action s.actions, 16 + actions_len s.actions)
    actions-back =
        ap (λ raw. unpack_actions raw (16 + actions_len s.actions) 16) front_apart
        ∙ ap (λ n. unpack_actions ((a ++ b) ++ (d ++ (e ++ rest))) (16 + n) 16) sized
        ∙ parsed
        ∙ ap (λ n. ok (map settle_action s.actions, 16 + n)) (sym sized)

    header-back :
        unpack_header self.header (bytes ++ rest)
        ≡ (with_length (packet_out_len s) s.header, b ++ (d ++ (e ++ rest)))
    header-back =
        ap (unpack_header self.header) (parts_apart a b d e rest)
        ∙ unpack_header-encode _ is.header self.header (b ++ (d ++ (e ++ rest)))

    fields-back :
        read packet_out_format (drop 8 (bytes ++ rest))
        ≡ some (wire_buffer s.buffer_id & s.in_port & actions_len s.actions & tt, d ++ (e ++ rest))
    fields-back =
        ap (read packet_out_format) (behind_first a b d e rest 8 length-a)
        ∙ read-encode packet_out_format _ (d ++ (e ++ rest)) is.fields

    behind-actions : drop (16 + actions_len s.actions) (bytes ++ rest) ≡ e ++ rest
    behind-actions =
        ap (drop (16 + actions_len s.actions))
          (front_apart ∙ sym (append_assoc (a ++ b) d (e ++ rest)))
        ∙ drop-append _ ((a ++ b) ++ d) (e ++ rest)
            (omega (arith, length-append (a ++ b) d, length-front, sized))

    unpack_packet_out-bytes : unpack_packet_out self (bytes ++ rest) ≡ ok (sent_packet_out s, rest)
    unfolding unpack_packet_out read_packet_out
    unpack_packet_out-bytes =
        let long : ltb (length (bytes ++ rest)) 16 ≡ false =
          ground (arith, length-append bytes rest, length-bytes) in
        rw
          (
            long,
            header-back,
            fields-back,
            actions-back,
            data_back e (16 + actions_len s.actions) (packet_out_len s) (bytes ++ rest) rest
                (ap (λ n. 16 + n + length e) lengths) behind-actions,
            drop-append (packet_out_len s) bytes rest length-bytes,
            buffer_of-wire_buffer s.buffer_id is.buffer,
          )
          refl

-- A packet out whose fields are in range, and so are those of its actions, each with the type and
-- length of its class (a generic header with a type that no class of its own has, an MPLS push with
-- an MPLS ethertype), and not with both a buffer and data, is packed, to as many bytes as its
-- `__len__` says; unpacking these, whatever the object was before, gives the packet out with its
-- length set, its data, and its actions, an output with the `max_len` that `pack` sets, a vendor
-- action as a generic header, a generic header without its data, and any other as it was; and it
-- returns the bytes behind them.
pub unpack_packet_out-pack_packet_out :
    (s self : OfpPacketOut) (rest : Bytes)
    → IsPacketOut s
    → (bytes : Bytes) × (pack_packet_out s ≡ ok bytes)
      × (length bytes ≡ packet_out_len s)
      × (unpack_packet_out self (bytes ++ rest) ≡ ok (sent_packet_out s, rest))
unpack_packet_out-pack_packet_out s self rest is =
    let front =
      encode_header (with_length (packet_out_len s) s.header)
      ++ encode packet_out_format
          (wire_buffer s.buffer_id & s.in_port & actions_len s.actions & tt) in
    let (d, packed, size, parsed) =
      unpack_actions-pack_actions s.actions front (s.data_bytes ++ rest) is.actions in
    let sized : actions_len s.actions ≡ length d = sym (actions_len-map s.actions) ∙ size in
    let lengths = action_lengths_lem s.actions is.actions in
    (
      bytes s is d packed sized lengths,
      pack_packet_out-bytes s is d packed sized lengths,
      length-bytes s is d packed sized lengths,
      unpack_packet_out-bytes s is d packed sized lengths self rest (
          subst
            (λ n.
              unpack_actions (front ++ (d ++ (s.data_bytes ++ rest))) (n + length d) n
              ≡ ok (map settle_action s.actions, n + length d))
            (length-front s is d packed sized lengths) parsed),
    )

-- The bytes of a packet out begin with its header.
pub head-pack_packet_out :
    (s : OfpPacketOut)
    → IsPacketOut s
    → (tail : Bytes) × (pack_packet_out s
        ≡ ok (encode_header (with_length (packet_out_len s) s.header) ++ tail))
head-pack_packet_out s is =
    let (d, packed, size, parsed) = unpack_actions-pack_actions s.actions [] [] is.actions in
    (
      encode packet_out_format (wire_buffer s.buffer_id & s.in_port & actions_len s.actions & tt)
          ++ (d ++ s.data_bytes),
      pack_packet_out-bytes s is d packed (sym (actions_len-map s.actions) ∙ size)
          (action_lengths_lem s.actions is.actions),
    )

-- ===== src/Wire/RoundTrip/FlowMod.antt =====
-- A flow mod that is packed and unpacked again.
use mathlib.Core.Path.{subst}
use cs425a_computer_networks.Base.{
  ◌+◌, ◌≡◌, refl, sym, ap, ◌∙◌, arith, [], ◌++◌, true, false, ==-refl, ltb, length, drop, map,
  drop-append, length-append, All, some, ok,
}
use cs425a_computer_networks.Bytes.{Bytes}
use cs425a_computer_networks.Bytes.Format.{Fits, encode, read}
use cs425a_computer_networks.Bytes.Format.RoundTrip.{length-encode, write-encode, read-encode}
use cs425a_computer_networks.Wire.{with_length, unpack_header}
use cs425a_computer_networks.Wire.Match.{unpack_match}
use cs425a_computer_networks.Wire.Match.RoundTrip.{
  IsInRange, effective, encode_match, pack_match-encode, length-encode_match, unpack_match-encode,
}
use cs425a_computer_networks.Wire.Actions.Loop.{actions_len, pack_actions, unpack_actions}
use cs425a_computer_networks.Wire.Actions.Sent.{IsPackable, settle_action}
use cs425a_computer_networks.Wire.Actions.RoundTrip.{unpack_actions-pack_actions}
use cs425a_computer_networks.Wire.Messages.FlowMod.{
  OfpFlowMod, flow_mod_len, flow_mod_format, flow_mod_values, pack_flow_mod, read_flow_mod,
  unpack_flow_mod,
}
use cs425a_computer_networks.Wire.RoundTrip.{
  IsBuffer, buffer_of-wire_buffer, IsHeader, encode_header, pack_header-encode,
  length-encode_header, unpack_header-encode, actions_len-map, parts_apart, last_part, behind_first,
  behind_second,
}

-- A flow mod whose fields fit, with actions that are as their classes make them.
pub record IsFlowMod (s : OfpFlowMod) : Type 0 where
  pub header : IsHeader (with_length (flow_mod_len s) s.header)
  pub matching : IsInRange s.matching
  pub fields : Fits flow_mod_format (flow_mod_values s)
  pub buffer : IsBuffer s.buffer_id
  pub actions : All IsPackable s.actions

-- The flow mod as it is sent: with its length, the fields of the match that have a meaning, and the
-- actions as `pack` leaves them.
abbrev pub sent_flow_mod : OfpFlowMod → OfpFlowMod
sent_flow_mod s = record s {
  header = with_length (flow_mod_len s) s.header;
  matching = effective s.matching;
  actions = map settle_action s.actions;
}

-- The bytes up to the actions.
abbrev front : OfpFlowMod → Bytes
front s =
    encode_header (with_length (flow_mod_len s) s.header)
    ++ (encode_match s.matching true ++ encode flow_mod_format (flow_mod_values s))

module _ (s : OfpFlowMod) (is : IsFlowMod s) (d : Bytes) (packed : pack_actions s.actions ≡ ok d)
    (sized : actions_len (map settle_action s.actions) ≡ length d) where
  abbrev a : Bytes
  a = encode_header (with_length (flow_mod_len s) s.header)

  abbrev b : Bytes
  b = encode_match s.matching true

  abbrev c : Bytes
  c = encode flow_mod_format (flow_mod_values s)

  abbrev bytes : Bytes
  bytes = a ++ (b ++ (c ++ d))

  length-a : length a ≡ 8
  length-a = length-encode_header _ is.header

  length-b : length b ≡ 40
  length-b = length-encode_match s.matching is.matching true

  length-c : length c ≡ 24
  length-c = length-encode flow_mod_format (flow_mod_values s) is.fields

  length-bytes : length bytes ≡ flow_mod_len s
  length-bytes = omega (
    arith,
    length-append a (b ++ (c ++ d)),
    length-append b (c ++ d),
    length-append c d,
    length-a,
    length-b,
    length-c,
    sized,
    actions_len-map s.actions,
  )

  length-front : length (a ++ (b ++ c)) ≡ 72
  length-front =
      omega (arith, length-append a (b ++ c), length-append b c, length-a, length-b, length-c)

  pack_flow_mod-bytes : pack_flow_mod s ≡ ok bytes
  unfolding pack_flow_mod
  pack_flow_mod-bytes =
      rw
        (
          pack_header-encode _ is.header,
          pack_match-encode s.matching is.matching true,
          write-encode flow_mod_format (flow_mod_values s) is.fields,
          packed,
        )
        refl

  module _ (self : OfpFlowMod) (rest : Bytes)
      (parsed : unpack_actions ((a ++ (b ++ c)) ++ (d ++ rest)) (72 + length d) 72
        ≡ ok (map settle_action s.actions, 72 + length d)) where
    actions-back :
        unpack_actions (bytes ++ rest) (flow_mod_len s) 72
        ≡ ok (map settle_action s.actions, flow_mod_len s)
    actions-back =
        ap (λ raw. unpack_actions raw (flow_mod_len s) 72) (last_part a b c d rest)
        ∙ ap (λ n. unpack_actions ((a ++ (b ++ c)) ++ (d ++ rest)) n 72) same
        ∙ parsed
        ∙ ap (λ n. ok (map settle_action s.actions, n)) (sym same)
      where
        same : flow_mod_len s ≡ 72 + length d
        same = omega (arith, sized, actions_len-map s.actions)

    header-back :
        unpack_header self.header (bytes ++ rest)
        ≡ (with_length (flow_mod_len s) s.header, b ++ (c ++ (d ++ rest)))
    header-back =
        ap (unpack_header self.header) (parts_apart a b c d rest)
        ∙ unpack_header-encode _ is.header self.header (b ++ (c ++ (d ++ rest)))

    match-back :
        unpack_match true self.matching (drop 8 (bytes ++ rest))
        ≡ (effective s.matching, c ++ (d ++ rest))
    match-back =
        ap (unpack_match true self.matching) (behind_first a b c d rest 8 length-a)
        ∙ unpack_match-encode s.matching is.matching self.matching (c ++ (d ++ rest))

    fields-back :
        read flow_mod_format (drop 48 (bytes ++ rest)) ≡ some (flow_mod_values s, d ++ rest)
    fields-back =
        ap (read flow_mod_format) (behind_second a b c d rest 8 40 length-a length-b)
        ∙ read-encode flow_mod_format (flow_mod_values s) (d ++ rest) is.fields

    unpack_flow_mod-bytes : unpack_flow_mod self (bytes ++ rest) ≡ ok (sent_flow_mod s, rest)
    unfolding unpack_flow_mod read_flow_mod
    unpack_flow_mod-bytes =
        let long : ltb (length (bytes ++ rest)) 72 ≡ false =
          ground (arith, length-append bytes rest, length-bytes) in
        rw
          (
            long,
            header-back,
            match-back,
            fields-back,
            actions-back,
            ==-refl (flow_mod_len s),
            drop-append (flow_mod_len s) bytes rest length-bytes,
            buffer_of-wire_buffer s.buffer_id is.buffer,
          )
          refl

-- A flow mod whose fields are in range, and so are those of its actions, each with the type and
-- length of its class (a generic header with a type that no class of its own has, an MPLS push with
-- an MPLS ethertype), is packed, to as many bytes as its `__len__` says; unpacking these, whatever the
-- object was before, gives the flow mod with its length set and the fields of the match that have a
-- meaning, and its actions, an output with the `max_len` that `pack` sets, a vendor action as a
-- generic header, a generic header without its data, and any other as it was; and it returns the
-- bytes behind them.
pub unpack_flow_mod-pack_flow_mod :
    (s self : OfpFlowMod) (rest : Bytes)
    → IsFlowMod s
    → (bytes : Bytes) × (pack_flow_mod s ≡ ok bytes)
      × (length bytes ≡ flow_mod_len s)
      × (unpack_flow_mod self (bytes ++ rest) ≡ ok (sent_flow_mod s, rest))
unpack_flow_mod-pack_flow_mod s self rest is =
    let (d, packed, sized, parsed) =
      unpack_actions-pack_actions s.actions (front s) rest is.actions in
    (
      bytes s is d packed sized,
      pack_flow_mod-bytes s is d packed sized,
      length-bytes s is d packed sized,
      unpack_flow_mod-bytes s is d packed sized self rest (
          subst
            (λ n.
              unpack_actions (front s ++ (d ++ rest)) (n + length d) n
              ≡ ok (map settle_action s.actions, n + length d))
            (length-front s is d packed sized) parsed),
    )

-- The bytes of a flow mod begin with its header.
pub head-pack_flow_mod :
    (s : OfpFlowMod)
    → IsFlowMod s
    → (tail : Bytes) × (pack_flow_mod s
        ≡ ok (encode_header (with_length (flow_mod_len s) s.header) ++ tail))
head-pack_flow_mod s is =
    let (d, packed, sized, parsed) =
      unpack_actions-pack_actions s.actions (front s) [] is.actions in
    (
      encode_match s.matching true ++ (encode flow_mod_format (flow_mod_values s) ++ d),
      pack_flow_mod-bytes s is d packed sized,
    )

-- ===== src/Wire/RoundTrip.antt =====
-- What is packed is unpacked to the same: the steps that the messages share.
pub mod FlowMod
pub mod Objects
pub mod Fixed
mod Tests
pub mod Requests
pub mod Ports
pub mod Bodies
pub mod PacketOut
use mathlib.Core.List.{append_assoc}
use cs425a_computer_networks.Base.{
  ℕ, ◌+◌, ◌-◌, ◌^◌, ◌<◌, ◌≡◌, refl, sym, ap, ◌∙◌, arith, List, [], ◌∷◌, ◌++◌, true, ltb, length,
  drop, map, drop-append, drop-append_add, Option, none, some, ok,
}
use cs425a_computer_networks.Bytes.{Bytes}
use cs425a_computer_networks.Bytes.Format.RoundTrip.{length-encode}
use cs425a_computer_networks.Wire.{
  Header, header_layout, pack_header, unpack_header, known_type, pack_as, wire_buffer, buffer_of,
  FitsLayout, encode_as, pack_as-encode, unpack_as-encode,
}
use cs425a_computer_networks.Wire.Actions.Union.{
  WireAction, action_len, act_output, act_enqueue, act_nw_tos, act_tp_port, act_dl_addr,
  act_nw_addr, act_vlan_vid, act_vlan_pcp, act_vendor, act_push_mpls, act_mpls_label, act_mpls_tc,
  act_mpls_ttl, act_pop_mpls, act_generic,
}
use cs425a_computer_networks.Wire.Actions.Loop.{actions_len}
use cs425a_computer_networks.Wire.Actions.Sent.{settle_action}

-- A buffer that is set has another number than the one that stands for none.
abbrev pub IsBuffer : Option ℕ → Type 0
IsBuffer none = Unit {0}
IsBuffer (some b) = b < 2 ^ 32 - 1

pub buffer_of-wire_buffer : (b : Option ℕ) → IsBuffer b → buffer_of (wire_buffer b) ≡ b
unfolding buffer_of wire_buffer
buffer_of-wire_buffer none h = refl
buffer_of-wire_buffer (some b) h = ground arith

-- A header whose type is known and whose fields are in range.
pub record IsHeader (h : Header) : Type 0 where
  pub known : h.header_type < 22
  pub fits : FitsLayout header_layout h

abbrev pub encode_header : Header → Bytes
encode_header h = encode_as header_layout h

module _ (h : Header) (is : IsHeader h) where
  pub pack_header-encode : pack_header h ≡ ok (encode_header h)
  unfolding pack_header known_type
  pack_header-encode =
      let known : ltb h.header_type 22 ≡ true = ground (arith, is.known) in
      rw (known, pack_as-encode header_layout h is.fits) refl

  pub length-encode_header : length (encode_header h) ≡ 8
  length-encode_header = length-encode _ (header_layout.values h) is.fits

  pub unpack_header-encode :
      (self : Header) (rest : Bytes) → unpack_header self (encode_header h ++ rest) ≡ (h, rest)
  unfolding unpack_header
  unpack_header-encode self rest = unpack_as-encode header_layout self h rest is.fits

action_len-settle_action : (a : WireAction) → action_len (settle_action a) ≡ action_len a
unfolding action_len settle_action
action_len-settle_action (act_output s) = refl
action_len-settle_action (act_enqueue s) = refl
action_len-settle_action (act_nw_tos s) = refl
action_len-settle_action (act_tp_port s) = refl
action_len-settle_action (act_dl_addr s) = refl
action_len-settle_action (act_nw_addr s) = refl
action_len-settle_action (act_vlan_vid s) = refl
action_len-settle_action (act_vlan_pcp s) = refl
action_len-settle_action (act_vendor s) = refl
action_len-settle_action (act_push_mpls s) = refl
action_len-settle_action (act_mpls_label s) = refl
action_len-settle_action (act_mpls_tc s) = refl
action_len-settle_action (act_mpls_ttl s) = refl
action_len-settle_action (act_pop_mpls s) = refl
action_len-settle_action (act_generic s) = refl

pub actions_len-map :
    (actions : List WireAction) → actions_len (map settle_action actions) ≡ actions_len actions
unfolding actions_len
actions_len-map [] = refl
actions_len-map (a ∷ actions) = omega (arith, action_len-settle_action a, actions_len-map actions)

-- A message of four parts, and the bytes behind it.
module _ (a b c d rest : Bytes) where
  pub parts_apart : (a ++ (b ++ (c ++ d))) ++ rest ≡ a ++ (b ++ (c ++ (d ++ rest)))
  parts_apart =
      append_assoc a (b ++ (c ++ d)) rest
      ∙ ap (λ r. a ++ r) (append_assoc b (c ++ d) rest ∙ ap (λ r. b ++ r) (append_assoc c d rest))

  pub last_part : (a ++ (b ++ (c ++ d))) ++ rest ≡ (a ++ (b ++ c)) ++ (d ++ rest)
  last_part =
      parts_apart
      ∙ sym (append_assoc a (b ++ c) (d ++ rest) ∙ ap (λ r. a ++ r) (append_assoc b c (d ++ rest)))

  pub behind_first :
      (n : ℕ) → length a ≡ n → drop n ((a ++ (b ++ (c ++ d))) ++ rest) ≡ b ++ (c ++ (d ++ rest))
  behind_first n h = ap (drop n) parts_apart ∙ drop-append n a (b ++ (c ++ (d ++ rest))) h

  pub behind_second :
      (n m : ℕ)
      → length a ≡ n
      → length b ≡ m
      → drop (n + m) ((a ++ (b ++ (c ++ d))) ++ rest) ≡ c ++ (d ++ rest)
  behind_second n m h k =
      ap (drop (n + m)) parts_apart
      ∙ drop-append_add n m a (b ++ (c ++ (d ++ rest))) h
      ∙ drop-append m b (c ++ (d ++ rest)) k

-- ===== src/Wire/Tests.antt =====
-- Messages that are packed and unpacked, and the theorems at them.
use cs425a_computer_networks.Base.{
  err, more_fuel, ◌≢◌, ◌+◌, ◌≡◌, refl, true, inl, arith, All, lookup, List, [], ◌∷◌, ◌++◌, map,
  some, ok, length,
}
use cs425a_computer_networks.Bytes.{Bytes}
use cs425a_computer_networks.Bytes.Format.{write}
use cs425a_computer_networks.OpenFlow.Match.{Match, any_match}
use cs425a_computer_networks.Wire.{pack_as, wire_buffer}
use cs425a_computer_networks.Wire.Match.{pack_match, unpack_match}
use cs425a_computer_networks.Wire.Match.RoundTrip.{IsInRange, effective, unpack_match-pack_match}
use cs425a_computer_networks.Wire.Actions.Plain.{
  new_output, set_nw, pack_output, pack_nw_addr, settle_max_len,
}
use cs425a_computer_networks.Wire.Actions.Tags.{new_vendor, pack_vendor}
use cs425a_computer_networks.Wire.Actions.Union.{
  act_vendor, WireAction, act_output, act_nw_addr, act_generic, new_action_header, new_action,
  pack_action, pack_action_header, known_action, action_len,
}
use cs425a_computer_networks.Wire.Actions.Loop.{pack_actions, unpack_actions, actions_len}
use cs425a_computer_networks.Wire.Actions.Fuel.{unpack_actions_returns}
use cs425a_computer_networks.Wire.Actions.Sent.{IsPackable, settle_action}
use cs425a_computer_networks.Wire.Actions.RoundTrip.{unpack_actions-pack_actions}
use cs425a_computer_networks.Wire.Messages.FlowMod.{
  OfpFlowMod, new_ofp_flow_mod, flow_mod_len, pack_flow_mod, unpack_flow_mod,
}
use cs425a_computer_networks.Wire.RoundTrip.FlowMod.{
  IsFlowMod, sent_flow_mod, unpack_flow_mod-pack_flow_mod,
}

-- The bytes of an output to port 2, of a new source network address, of an unknown action and of a
-- vendor action.
abbrev four_actions : List WireAction
four_actions =
    act_output (record new_output { port = 2 })
    ∷ act_nw_addr (set_nw 6 0x0a000001)
    ∷ act_generic (new_action_header 77)
    ∷ act_vendor (record new_vendor { vendor = 9 })
    ∷ []

four_actions_packed :
    pack_actions four_actions
    ≡ ok (
        0 ∷ 0 ∷ 0 ∷ 8 ∷ 0 ∷ 2 ∷ 0 ∷ 0 ∷ 0 ∷ 6 ∷ 0 ∷ 8 ∷ 10 ∷ 0 ∷ 0 ∷ 1 ∷ 0 ∷ 77 ∷ 0 ∷ 8 ∷ 0 ∷ 0 ∷ 0
        ∷ 0 ∷ 255 ∷ 255 ∷ 0 ∷ 8 ∷ 0 ∷ 0 ∷ 0 ∷ 9 ∷ [])
unfolding pack_actions pack_action pack_output pack_as write settle_max_len pack_nw_addr
    pack_action_header pack_vendor
four_actions_packed = refl

four_actions-IsPackable : All IsPackable four_actions
unfolding new_action known_action lookup
four_actions-IsPackable = (
  ((omega arith, (omega arith, (omega arith, (omega arith, tt)))), refl, refl),
  (
    ((omega arith, (omega arith, (omega arith, tt))), inl refl, refl),
    (
      (omega arith, refl, 0, refl),
      (((omega arith, (omega arith, (omega arith, tt))), refl, refl), tt),
    ),
  ),
)

unpack_actions-pack_actions_example :
    (bytes : Bytes) × (pack_actions four_actions ≡ ok bytes)
    × (actions_len (map settle_action four_actions) ≡ length bytes)
    × (unpack_actions (1 ∷ 2 ∷ [] ++ (bytes ++ (3 ∷ []))) (2 + length bytes) 2
        ≡ ok (map settle_action four_actions, 2 + length bytes))
unpack_actions-pack_actions_example =
    unpack_actions-pack_actions four_actions (1 ∷ 2 ∷ []) (3 ∷ []) four_actions-IsPackable

unpack_actions_returns_example :
    unpack_actions (0 ∷ 8 ∷ 0 ∷ 0 ∷ 0 ∷ 0 ∷ 0 ∷ 0 ∷ []) 8 0 ≢ err more_fuel
unpack_actions_returns_example = unpack_actions_returns (0 ∷ 8 ∷ 0 ∷ 0 ∷ 0 ∷ 0 ∷ 0 ∷ 0 ∷ []) 8 0

-- TCP to port 80 of a network, which also names a type of service.
abbrev web_match : Match
web_match = record any_match {
  dl_type = some 0x0800;
  nw_proto = some 6;
  tp_dst = some 80;
  nw_tos = some 4;
  nw_dst_addr = 0x0a000000;
  nw_dst_wild = 8;
}

web_match_range : IsInRange web_match
web_match_range = ground arith

unpack_match-pack_match_example :
    (bytes : Bytes) × (pack_match true web_match ≡ ok bytes)
    × (length bytes ≡ 40)
    × (unpack_match true any_match (bytes ++ (9 ∷ [])) ≡ (effective web_match, 9 ∷ []))
unpack_match-pack_match_example =
    unpack_match-pack_match web_match any_match (9 ∷ []) web_match_range

abbrev web_flow : OfpFlowMod
web_flow = record new_ofp_flow_mod {
  matching = web_match;
  buffer_id = some 3;
  actions = four_actions;
}

web_flow-IsFlowMod : IsFlowMod web_flow
unfolding actions_len action_len wire_buffer
web_flow-IsFlowMod = record {
  header = record {
    known = omega arith;
    fits = (omega arith, (omega arith, (omega arith, (omega arith, tt))));
  };
  matching = web_match_range;
  fields = ground arith;
  buffer = omega arith;
  actions = four_actions-IsPackable;
}

unpack_flow_mod-pack_flow_mod_example :
    (bytes : Bytes) × (pack_flow_mod web_flow ≡ ok bytes)
    × (length bytes ≡ flow_mod_len web_flow)
    × (unpack_flow_mod new_ofp_flow_mod (bytes ++ (9 ∷ [])) ≡ ok (sent_flow_mod web_flow, 9 ∷ []))
unpack_flow_mod-pack_flow_mod_example =
    unpack_flow_mod-pack_flow_mod web_flow new_ofp_flow_mod (9 ∷ []) web_flow-IsFlowMod

-- ===== src/Wire/Actions/Union.antt =====
-- Any action of libopenflow_01.py, and `_action_map`.
use cs425a_computer_networks.Base.{
  ℕ, [], ◌∷◌, Bool, false, ◌&&◌, ◌==◌, ltb, if◌then◌else◌, length, take, drop, Option, none, some,
  Result, Dict, lookup, nat_key,
}
use cs425a_computer_networks.Bytes.{Bytes}
use cs425a_computer_networks.Bytes.Format.{Format, num, pad, Values, write, read, ◌&◌}
use cs425a_computer_networks.Wire.Actions.Plain.{
  ActionOutput, ActionEnqueue, ActionNwTos, ActionTpPort, ActionDlAddr, ActionNwAddr, new_output,
  new_enqueue, new_nw_tos, set_dl, set_nw, set_tp, pack_output, pack_enqueue, pack_nw_tos,
  pack_tp_port, pack_dl_addr, pack_nw_addr, unpack_output, unpack_enqueue, unpack_nw_tos,
  unpack_tp_port, unpack_dl_addr, unpack_nw_addr, eq_output, eq_enqueue, eq_nw_tos, eq_tp_port,
  eq_dl_addr, eq_nw_addr,
}
use cs425a_computer_networks.Wire.Actions.Tags.{
  ActionVlanVid, ActionVlanPcp, ActionVendor, new_vlan_vid, new_vlan_pcp, pack_vlan_vid,
  pack_vlan_pcp, pack_vendor, unpack_vlan_vid, unpack_vlan_pcp, unpack_vendor, eq_vlan_vid,
  eq_vlan_pcp, eq_vendor,
}
use cs425a_computer_networks.Wire.Actions.Mpls.{
  ActionPushMpls, ActionMplsLabel, ActionMplsTc, ActionMplsTtl, ActionPopMpls, new_push_mpls,
  new_mpls_label, new_mpls_tc, new_mpls_ttl, new_pop_mpls, pack_push_mpls, pack_mpls_label,
  pack_mpls_tc, pack_mpls_ttl, pack_pop_mpls, unpack_push_mpls, unpack_mpls_label, unpack_mpls_tc,
  unpack_mpls_ttl, unpack_pop_mpls, eq_push_mpls, eq_mpls_label, eq_mpls_tc, eq_mpls_ttl,
  eq_pop_mpls,
}

-- `ofp_action_header`: `pack` leaves the data out.
pub record ActionHeader : Type 0 where
  pub type : ℕ
  pub length : ℕ
  pub data_bytes : Bytes

abbrev pub type_length : Format
type_length = num 2 ∷ num 2 ∷ []

-- `ofp_action_header()` of a type; that of the class itself is None.
abbrev pub new_action_header : ℕ → ActionHeader
new_action_header type = record { type = type; length = 8; data_bytes = [] }

unfoldable pub pack_action_header : ActionHeader → Result Bytes
pack_action_header s = write (num 2 ∷ num 2 ∷ pad 4 ∷ []) (s.type & s.length & tt)

-- The type and the length are set before the bytes are found to be too few.
unfoldable pub set_action_header :
    ActionHeader → Bytes → Option (Values type_length × Bytes) → ActionHeader × Bytes
set_action_header self raw none = (self, raw)
set_action_header self raw (some ((type & size & values), rest)) =
    if ltb (length raw) size
    then (record self { type = type; length = size }, raw)
    else (record { type = type; length = size; data_bytes = take size (drop 8 raw) }, drop size raw)

unfoldable pub unpack_action_header : ActionHeader → Bytes → ActionHeader × Bytes
unpack_action_header self raw =
    if ltb (length raw) 8 then (self, raw) else set_action_header self raw (read type_length raw)

-- The data does not count.
unfoldable pub eq_action_header : ActionHeader → ActionHeader → Bool
eq_action_header a b = a.type == b.type && a.length == b.length

pub data WireAction : Type 0 where
  act_output : ActionOutput → WireAction
  act_enqueue : ActionEnqueue → WireAction
  act_nw_tos : ActionNwTos → WireAction
  act_tp_port : ActionTpPort → WireAction
  act_dl_addr : ActionDlAddr → WireAction
  act_nw_addr : ActionNwAddr → WireAction
  act_vlan_vid : ActionVlanVid → WireAction
  act_vlan_pcp : ActionVlanPcp → WireAction
  act_vendor : ActionVendor → WireAction
  act_push_mpls : ActionPushMpls → WireAction
  act_mpls_label : ActionMplsLabel → WireAction
  act_mpls_tc : ActionMplsTc → WireAction
  act_mpls_ttl : ActionMplsTtl → WireAction
  act_pop_mpls : ActionPopMpls → WireAction
  act_generic : ActionHeader → WireAction

unfoldable pub pack_action : WireAction → Result Bytes
pack_action (act_output s) = pack_output s
pack_action (act_enqueue s) = pack_enqueue s
pack_action (act_nw_tos s) = pack_nw_tos s
pack_action (act_tp_port s) = pack_tp_port s
pack_action (act_dl_addr s) = pack_dl_addr s
pack_action (act_nw_addr s) = pack_nw_addr s
pack_action (act_vlan_vid s) = pack_vlan_vid s
pack_action (act_vlan_pcp s) = pack_vlan_pcp s
pack_action (act_vendor s) = pack_vendor s
pack_action (act_push_mpls s) = pack_push_mpls s
pack_action (act_mpls_label s) = pack_mpls_label s
pack_action (act_mpls_tc s) = pack_mpls_tc s
pack_action (act_mpls_ttl s) = pack_mpls_ttl s
pack_action (act_pop_mpls s) = pack_pop_mpls s
pack_action (act_generic s) = pack_action_header s

-- `unpack`, without the bytes that it returns.
unfoldable pub unpack_action : WireAction → Bytes → WireAction
unpack_action (act_output s) raw = act_output (unpack_output s raw).0
unpack_action (act_enqueue s) raw = act_enqueue (unpack_enqueue s raw).0
unpack_action (act_nw_tos s) raw = act_nw_tos (unpack_nw_tos s raw).0
unpack_action (act_tp_port s) raw = act_tp_port (unpack_tp_port s raw).0
unpack_action (act_dl_addr s) raw = act_dl_addr (unpack_dl_addr s raw).0
unpack_action (act_nw_addr s) raw = act_nw_addr (unpack_nw_addr s raw).0
unpack_action (act_vlan_vid s) raw = act_vlan_vid (unpack_vlan_vid s raw).0
unpack_action (act_vlan_pcp s) raw = act_vlan_pcp (unpack_vlan_pcp s raw).0
unpack_action (act_vendor s) raw = act_vendor (unpack_vendor s raw).0
unpack_action (act_push_mpls s) raw = act_push_mpls (unpack_push_mpls s raw).0
unpack_action (act_mpls_label s) raw = act_mpls_label (unpack_mpls_label s raw).0
unpack_action (act_mpls_tc s) raw = act_mpls_tc (unpack_mpls_tc s raw).0
unpack_action (act_mpls_ttl s) raw = act_mpls_ttl (unpack_mpls_ttl s raw).0
unpack_action (act_pop_mpls s) raw = act_pop_mpls (unpack_pop_mpls s raw).0
unpack_action (act_generic s) raw = act_generic (unpack_action_header s raw).0

-- `__len__`
unfoldable pub action_len : WireAction → ℕ
action_len (act_output s) = 8
action_len (act_enqueue s) = 16
action_len (act_nw_tos s) = 8
action_len (act_tp_port s) = 8
action_len (act_dl_addr s) = 16
action_len (act_nw_addr s) = 8
action_len (act_vlan_vid s) = 8
action_len (act_vlan_pcp s) = 8
action_len (act_vendor s) = 8
action_len (act_push_mpls s) = s.length
action_len (act_mpls_label s) = s.length
action_len (act_mpls_tc s) = s.length
action_len (act_mpls_ttl s) = s.length
action_len (act_pop_mpls s) = s.length
action_len (act_generic s) = s.length

-- The attribute `length`.
unfoldable pub action_length : WireAction → ℕ
action_length (act_output s) = s.length
action_length (act_enqueue s) = s.length
action_length (act_nw_tos s) = s.length
action_length (act_tp_port s) = s.length
action_length (act_dl_addr s) = s.length
action_length (act_nw_addr s) = s.length
action_length (act_vlan_vid s) = s.length
action_length (act_vlan_pcp s) = s.length
action_length (act_vendor s) = s.length
action_length (act_push_mpls s) = s.length
action_length (act_mpls_label s) = s.length
action_length (act_mpls_tc s) = s.length
action_length (act_mpls_ttl s) = s.length
action_length (act_pop_mpls s) = s.length
action_length (act_generic s) = s.length

-- `==`: actions of two classes differ.
unfoldable pub eq_action : WireAction → WireAction → Bool
eq_action (act_output s) (act_output t) = eq_output s t
eq_action (act_enqueue s) (act_enqueue t) = eq_enqueue s t
eq_action (act_nw_tos s) (act_nw_tos t) = eq_nw_tos s t
eq_action (act_tp_port s) (act_tp_port t) = eq_tp_port s t
eq_action (act_dl_addr s) (act_dl_addr t) = eq_dl_addr s t
eq_action (act_nw_addr s) (act_nw_addr t) = eq_nw_addr s t
eq_action (act_vlan_vid s) (act_vlan_vid t) = eq_vlan_vid s t
eq_action (act_vlan_pcp s) (act_vlan_pcp t) = eq_vlan_pcp s t
eq_action (act_vendor s) (act_vendor t) = eq_vendor s t
eq_action (act_push_mpls s) (act_push_mpls t) = eq_push_mpls s t
eq_action (act_mpls_label s) (act_mpls_label t) = eq_mpls_label s t
eq_action (act_mpls_tc s) (act_mpls_tc t) = eq_mpls_tc s t
eq_action (act_mpls_ttl s) (act_mpls_ttl t) = eq_mpls_ttl s t
eq_action (act_pop_mpls s) (act_pop_mpls t) = eq_pop_mpls s t
eq_action (act_generic s) (act_generic t) = eq_action_header s t
eq_action _ _ = false

-- `_action_map`: a new object for each type.
abbrev pub action_map : Dict ℕ WireAction
action_map =
    (0, act_output new_output)
    ∷ (1, act_vlan_vid new_vlan_vid)
    ∷ (2, act_vlan_pcp new_vlan_pcp)
    ∷ (4, act_dl_addr (set_dl 0 0))
    ∷ (5, act_dl_addr (set_dl 0 0))
    ∷ (6, act_nw_addr (set_nw 0 0))
    ∷ (7, act_nw_addr (set_nw 0 0))
    ∷ (8, act_nw_tos new_nw_tos)
    ∷ (9, act_tp_port (set_tp 0 0))
    ∷ (10, act_tp_port (set_tp 0 0))
    ∷ (11, act_enqueue new_enqueue)
    ∷ (19, act_push_mpls new_push_mpls)
    ∷ (20, act_pop_mpls new_pop_mpls)
    ∷ (13, act_mpls_label new_mpls_label)
    ∷ (14, act_mpls_tc new_mpls_tc)
    ∷ (15, act_mpls_ttl new_mpls_ttl)
    ∷ (16, act_generic (new_action_header 16))
    ∷ (21, act_generic (new_action_header 21))
    ∷ []

-- A type that is not known is left to the generic header.
unfoldable pub known_action : Option WireAction → WireAction
known_action none = act_generic (new_action_header 0)
known_action (some a) = a

unfoldable pub new_action : ℕ → WireAction
new_action t = known_action (lookup t action_map)

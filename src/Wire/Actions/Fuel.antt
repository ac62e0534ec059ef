-- ===== src/Wire/Actions/Fuel.antt =====
-- The loop of `_unpack_actions` ends: every action takes at least eight bytes.
use cs425a_computer_networks.Base.{
  ℕ, zero, suc, ◌+◌, ◌≤◌, ◌<◌, ◌≡◌, arith, List, [], ◌∷◌, ◌++◌, true, ltb, leb, Bool-cases,
  Option-cases, inl, inr, length, take, drop, length-take, length-drop, Result, err, more_fuel, ◌≢◌,
  lookup, AllValues, AllValues-lookup, nat_key,
}
use cs425a_computer_networks.Bytes.{Bytes}
use cs425a_computer_networks.Bytes.Format.{read, ◌&◌}
use cs425a_computer_networks.Wire.{unpack_as_short}
use cs425a_computer_networks.Wire.Actions.Mpls.{
  push_mpls_layout, mpls_label_layout, mpls_tc_layout, mpls_ttl_layout, pop_mpls_layout,
  unpack_push_mpls, unpack_mpls_label, unpack_mpls_tc, unpack_mpls_ttl, unpack_pop_mpls,
}
use cs425a_computer_networks.Wire.Actions.Union.{
  WireAction, act_output, act_enqueue, act_nw_tos, act_tp_port, act_dl_addr, act_nw_addr,
  act_vlan_vid, act_vlan_pcp, act_vendor, act_push_mpls, act_mpls_label, act_mpls_tc, act_mpls_ttl,
  act_pop_mpls, act_generic, action_map, new_action, known_action, unpack_action,
  unpack_action_header, action_len, type_length,
}
use cs425a_computer_networks.Wire.Actions.Loop.{parse_action, parse_actions, unpack_actions}

-- Bytes that are too few leave an action as long as it was.
action_len-unpack_action :
    (a : WireAction) (s : Bytes)
    → length s < 8
    → 8 ≤ action_len a
    → 8 ≤ action_len (unpack_action a s)
unfolding action_len unpack_action
action_len-unpack_action (act_output s) raw h k = omega arith
action_len-unpack_action (act_enqueue s) raw h k = omega arith
action_len-unpack_action (act_nw_tos s) raw h k = omega arith
action_len-unpack_action (act_tp_port s) raw h k = omega arith
action_len-unpack_action (act_dl_addr s) raw h k = omega arith
action_len-unpack_action (act_nw_addr s) raw h k = omega arith
action_len-unpack_action (act_vlan_vid s) raw h k = omega arith
action_len-unpack_action (act_vlan_pcp s) raw h k = omega arith
action_len-unpack_action (act_vendor s) raw h k = omega arith
action_len-unpack_action (act_push_mpls s) raw h k =
    unfold unpack_push_mpls in rw (unpack_as_short push_mpls_layout s raw h) k
action_len-unpack_action (act_mpls_label s) raw h k =
    unfold unpack_mpls_label in rw (unpack_as_short mpls_label_layout s raw h) k
action_len-unpack_action (act_mpls_tc s) raw h k =
    unfold unpack_mpls_tc in rw (unpack_as_short mpls_tc_layout s raw h) k
action_len-unpack_action (act_mpls_ttl s) raw h k =
    unfold unpack_mpls_ttl in rw (unpack_as_short mpls_ttl_layout s raw h) k
action_len-unpack_action (act_pop_mpls s) raw h k =
    unfold unpack_pop_mpls in rw (unpack_as_short pop_mpls_layout s raw h) k
action_len-unpack_action (act_generic s) raw h k =
    let short : ltb (length raw) 8 ≡ true = ground arith in
    unfold unpack_action_header in rw short k

action_map_lens : AllValues (λ a. 8 ≤ action_len a) action_map
unfolding action_len
action_map_lens = ground arith

known_action_len : (t : ℕ) → 8 ≤ action_len (new_action t)
unfolding new_action known_action
known_action_len t = elim (Option-cases (lookup t action_map)) [
  | inl unknown ↦ rw unknown (unfold action_len in omega arith)
  | inr (a, known) ↦
      rw known (AllValues-lookup (λ a. 8 ≤ action_len a) t a action_map action_map_lens known)
]

-- A new action that is unpacked to its full length has eight bytes at least.
pub long_enough :
    (t : ℕ) (s : Bytes) → action_len (unpack_action (new_action t) s) ≡ length s → 8 ≤ length s
long_enough t s e = elim (Bool-cases (leb 8 (length s))) [
  | inl long ↦ ground arith
  | inr short ↦ ground (arith, action_len-unpack_action (new_action t) s, known_action_len t)
]

-- A round that does not end the loop goes on behind eight bytes at least.
parse_action_returns :
    (more : ℕ → WireAction → Result (List WireAction × ℕ)) (rest : Bytes) (offset : ℕ)
    → ((size : ℕ) (a : WireAction) → 8 ≤ size → size ≤ length rest → more size a ≢ err more_fuel)
    → parse_action more rest offset (read type_length rest) ≢ err more_fuel
unfolding parse_action
parse_action_returns more rest offset h = elim (Option-cases (read type_length rest)) [
  | inl e ↦ rw e (λ bad. absurd (cc bad))
  | inr (((t & size & values), behind), e) ↦
      let a = unpack_action (new_action t) (take size rest) in
      rw e (ground (arith, h size a, long_enough t (take size rest), length-take size rest))
]

parse_actions_returns :
    (n : ℕ) (actions : List WireAction) (rest : Bytes) (offset stop : ℕ)
    → length rest < n
    → parse_actions n actions rest offset stop ≢ err more_fuel
unfolding parse_actions
parse_actions_returns zero actions rest offset stop h = absurd (omega arith)
parse_actions_returns (suc n) actions rest offset stop h = elim (Bool-cases (ltb offset stop)) [
  | inl inside ↦ rw inside (
      parse_action_returns _ rest offset λ size a long fits.
        parse_actions_returns n (actions ++ (a ∷ [])) (drop size rest) (offset + size) stop
          (omega (arith, length-drop size rest)))
  | inr behind ↦ rw behind (λ bad. absurd (cc bad))
]

-- `_unpack_actions` ends on all bytes, for every length and offset: the rounds that its loop may make,
-- one more than there are bytes, are never used up.
pub unpack_actions_returns :
    (b : Bytes) (stop offset : ℕ) → unpack_actions b stop offset ≢ err more_fuel
unfolding unpack_actions
unpack_actions_returns b stop offset = elim (Bool-cases (ltb (length b) stop)) [
  | inl short ↦ rw short (λ bad. absurd (cc bad))
  | inr enough ↦ rw enough (
      parse_actions_returns (suc (length b)) [] (drop offset b) offset stop
        (omega (arith, length-drop offset b)))
]

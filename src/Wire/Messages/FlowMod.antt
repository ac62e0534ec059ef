-- ===== src/Wire/Messages/FlowMod.antt =====
-- `ofp_flow_mod` of libopenflow_01.py.
use cs425a_computer_networks.Base.{
  ℕ, ◌+◌, List, [], ◌∷◌, ◌++◌, Bool, true, ◌&&◌, ◌==◌, ltb, if◌then◌else◌, length, drop, Option,
  none, some, Result, ok, err, struct_error, assertion_error, guard, ◌>>=◌, ◌>>◌,
}
use cs425a_computer_networks.Bytes.{Bytes}
use cs425a_computer_networks.Bytes.Format.{Format, num, Values, read, write, ◌&◌}
use cs425a_computer_networks.OpenFlow.Match.{Match, any_match, match_eq, opt_eq}
use cs425a_computer_networks.Wire.{
  Header, with_length, pack_header, unpack_header, eq_header, wire_buffer, buffer_of,
}
use cs425a_computer_networks.Wire.Match.{pack_match, unpack_match}
use cs425a_computer_networks.Wire.Actions.Union.{WireAction}
use cs425a_computer_networks.Wire.Actions.Loop.{
  pack_actions, unpack_actions, actions_len, eq_actions,
}

-- `ofp_flow_mod`; a buffer of -1 is `none`.
pub record OfpFlowMod : Type 0 where
  pub header : Header
  pub matching : Match
  pub cookie : ℕ
  pub command : ℕ
  pub idle_timeout : ℕ
  pub hard_timeout : ℕ
  pub priority : ℕ
  pub buffer_id : Option ℕ
  pub out_port : ℕ
  pub flags : ℕ
  pub actions : List WireAction

abbrev pub new_ofp_flow_mod : OfpFlowMod
new_ofp_flow_mod = record {
  header = record { version = 1; header_type = 14; length = 8; xid = 0 };
  matching = any_match;
  cookie = 0;
  command = 0;
  idle_timeout = 0;
  hard_timeout = 0;
  priority = 0x8000;
  buffer_id = none;
  out_port = 65535;
  flags = 0;
  actions = [];
}

-- `__len__`
abbrev pub flow_mod_len : OfpFlowMod → ℕ
flow_mod_len s = 72 + actions_len s.actions

abbrev pub flow_mod_format : Format
flow_mod_format = num 8 ∷ num 2 ∷ num 2 ∷ num 2 ∷ num 2 ∷ num 4 ∷ num 2 ∷ num 2 ∷ []

abbrev pub flow_mod_values : OfpFlowMod → Values flow_mod_format
flow_mod_values s =
    s.cookie
    & s.command
    & s.idle_timeout
    & s.hard_timeout
    & s.priority
    & wire_buffer s.buffer_id
    & s.out_port
    & s.flags
    & tt

unfoldable pub pack_flow_mod : OfpFlowMod → Result Bytes
pack_flow_mod s = do
  a ← pack_header (with_length (flow_mod_len s) s.header)
  b ← pack_match true s.matching
  c ← write flow_mod_format (flow_mod_values s)
  d ← pack_actions s.actions
  ok (a ++ (b ++ (c ++ d)))

-- What `unpack` sets, behind the header and the match; the actions fill the message up to its length.
unfoldable pub read_flow_mod :
    OfpFlowMod
    → Bytes
    → Header
    → Match
    → Option (Values flow_mod_format × Bytes)
    → Result (OfpFlowMod × Bytes)
read_flow_mod self raw h m none = err struct_error
read_flow_mod self raw h m
      (some (
        (cookie & command & idle_timeout & hard_timeout & priority & b & out_port & flags & values),
        rest,
      )) =
    do
      parsed ← unpack_actions raw h.length 72
      guard (parsed.1 == h.length) assertion_error
      ok (
        record {
          header = h;
          matching = m;
          cookie = cookie;
          command = command;
          idle_timeout = idle_timeout;
          hard_timeout = hard_timeout;
          priority = priority;
          buffer_id = buffer_of b;
          out_port = out_port;
          flags = flags;
          actions = parsed.0;
        },
        drop parsed.1 raw,
      )

unfoldable pub unpack_flow_mod : OfpFlowMod → Bytes → Result (OfpFlowMod × Bytes)
unpack_flow_mod self raw =
    if ltb (length raw) 72
    then ok (self, raw)
    else read_flow_mod self raw (unpack_header self.header raw).0
        (unpack_match true self.matching (drop 8 raw)).0 (read flow_mod_format (drop 48 raw))

unfoldable pub eq_flow_mod : OfpFlowMod → OfpFlowMod → Bool
eq_flow_mod a b =
    eq_header a.header b.header
    && (match_eq a.matching b.matching
        && (a.cookie == b.cookie
            && (a.command == b.command
                && (a.idle_timeout == b.idle_timeout
                    && (a.hard_timeout == b.hard_timeout
                        && (a.priority == b.priority
                            && (opt_eq a.buffer_id b.buffer_id
                                && (a.out_port == b.out_port
                                    && (a.flags == b.flags
                                        && eq_actions a.actions b.actions)))))))))

-- ===== src/Wire/Stats/Flows.antt =====
-- The statistics of flows in libopenflow_01.py, and the requests for them.
use cs425a_computer_networks.Base.{
  ℕ, ◌+◌, List, [], ◌∷◌, ◌++◌, Bool, false, ◌&&◌, ◌==◌, ltb, if◌then◌else◌, length, drop, Option,
  none, some, Result, ok, err, struct_error, index_error, assertion_error, guard, ◌>>=◌, ◌>>◌,
}
use cs425a_computer_networks.Bytes.{Bytes}
use cs425a_computer_networks.Bytes.Format.{Format, num, pad, Values, read, write, ◌&◌}
use cs425a_computer_networks.OpenFlow.Match.{Match, any_match, match_eq}
use cs425a_computer_networks.Wire.Match.{pack_match, unpack_match}
use cs425a_computer_networks.Wire.Actions.Union.{WireAction}
use cs425a_computer_networks.Wire.Actions.Loop.{pack_actions, unpack_actions, actions_len}

-- `ofp_flow_stats_request` and `ofp_aggregate_stats_request`
pub record FlowStatsRequest : Type 0 where
  pub matching : Match
  pub table_id : ℕ
  pub out_port : ℕ

abbrev pub new_flow_stats_request : FlowStatsRequest
new_flow_stats_request = record { matching = any_match; table_id = 0xff; out_port = 65535 }

abbrev pub stats_request_format : Format
stats_request_format = num 1 ∷ num 1 ∷ num 2 ∷ []

unfoldable pub pack_flow_stats_request : FlowStatsRequest → Result Bytes
pack_flow_stats_request s = do
  a ← pack_match false s.matching
  b ← write stats_request_format (s.table_id & 0 & s.out_port & tt)
  ok (a ++ b)

unfoldable pub read_stats_request :
    FlowStatsRequest → Match → Option (Values stats_request_format × Bytes) → FlowStatsRequest
read_stats_request self m none = self
read_stats_request self m (some ((table_id & padding & out_port & values), rest)) = record {
  matching = m;
  table_id = table_id;
  out_port = out_port;
}

-- `binaryString[len(self)]`: the byte behind the request is returned, not those from there on.
unfoldable pub byte_behind : FlowStatsRequest → Bytes → Result (FlowStatsRequest × Bytes)
byte_behind s [] = err index_error
byte_behind s (c ∷ rest) = ok (s, c ∷ [])

unfoldable pub unpack_flow_stats_request :
    FlowStatsRequest → Bytes → Result (FlowStatsRequest × Bytes)
unpack_flow_stats_request self raw =
    if ltb (length raw) 44
    then ok (self, raw)
    else byte_behind
        (read_stats_request self (unpack_match false self.matching raw).0
          (read stats_request_format (drop 40 raw)))
        (drop 44 raw)

unfoldable pub eq_flow_stats_request : FlowStatsRequest → FlowStatsRequest → Bool
eq_flow_stats_request a b =
    match_eq a.matching b.matching && (a.table_id == b.table_id && a.out_port == b.out_port)

-- The same class but for the bytes that `unpack` returns.
unfoldable pub unpack_aggregate_stats_request : FlowStatsRequest → Bytes → FlowStatsRequest × Bytes
unpack_aggregate_stats_request self raw = if ltb (length raw) 44 then (self, raw) else (
  read_stats_request self (unpack_match false self.matching raw).0
      (read stats_request_format (drop 40 raw)),
  drop 44 raw,
)

-- `ofp_flow_stats`
pub record FlowStats : Type 0 where
  pub length : ℕ
  pub table_id : ℕ
  pub matching : Match
  pub duration_sec : ℕ
  pub duration_nsec : ℕ
  pub priority : ℕ
  pub idle_timeout : ℕ
  pub hard_timeout : ℕ
  pub cookie : ℕ
  pub packet_count : ℕ
  pub byte_count : ℕ
  pub actions : List WireAction

abbrev pub new_flow_stats : FlowStats
new_flow_stats = record {
  length = 0;
  table_id = 0;
  matching = any_match;
  duration_sec = 0;
  duration_nsec = 0;
  priority = 0x8000;
  idle_timeout = 0;
  hard_timeout = 0;
  cookie = 0;
  packet_count = 0;
  byte_count = 0;
  actions = [];
}

abbrev pub flow_stats_len : FlowStats → ℕ
flow_stats_len s = 88 + actions_len s.actions

abbrev pub flow_stats_head : Format
flow_stats_head = num 2 ∷ num 1 ∷ num 1 ∷ []

abbrev pub flow_stats_format : Format
flow_stats_format = num 4 ∷ num 4 ∷ num 2 ∷ num 2 ∷ num 2 ∷ pad 6 ∷ num 8 ∷ num 8 ∷ num 8 ∷ []

abbrev pub flow_stats_values : FlowStats → Values flow_stats_format
flow_stats_values s =
    s.duration_sec & s.duration_nsec & s.priority & s.idle_timeout & s.hard_timeout & s.cookie
    & s.packet_count & s.byte_count & tt

-- The length is that of the object: `pack` does not set it.
unfoldable pub pack_flow_stats : FlowStats → Result Bytes
pack_flow_stats s = do
  a ← write flow_stats_head (s.length & s.table_id & 0 & tt)
  b ← pack_match false s.matching
  c ← write flow_stats_format (flow_stats_values s)
  d ← pack_actions s.actions
  ok (a ++ (b ++ (c ++ d)))

unfoldable pub read_flow_stats :
    Bytes
    → Match
    → Option (Values flow_stats_head × Bytes)
    → Option (Values flow_stats_format × Bytes)
    → Result (FlowStats × Bytes)
read_flow_stats raw m none more = err struct_error
read_flow_stats raw m (some (head, behind)) none = err struct_error
read_flow_stats raw m (some ((size & table_id & padding & values), behind))
      (some (
        (duration_sec & duration_nsec & priority & idle_timeout & hard_timeout & cookie
            & packet_count & byte_count & others),
        rest,
      )) =
    do
      parsed ← unpack_actions raw size 88
      let s : FlowStats = record {
        length = size;
        table_id = table_id;
        matching = m;
        duration_sec = duration_sec;
        duration_nsec = duration_nsec;
        priority = priority;
        idle_timeout = idle_timeout;
        hard_timeout = hard_timeout;
        cookie = cookie;
        packet_count = packet_count;
        byte_count = byte_count;
        actions = parsed.0;
      }
      guard (parsed.1 == size) assertion_error
      guard (size == flow_stats_len s) assertion_error
      ok (s, drop parsed.1 raw)

unfoldable pub unpack_flow_stats : FlowStats → Bytes → Result (FlowStats × Bytes)
unpack_flow_stats self raw =
    if ltb (length raw) 88
    then ok (self, raw)
    else read_flow_stats raw (unpack_match false self.matching (drop 4 raw)).0
        (read flow_stats_head raw) (read flow_stats_format (drop 44 raw))

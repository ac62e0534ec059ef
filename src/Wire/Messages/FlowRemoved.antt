-- ===== src/Wire/Messages/FlowRemoved.antt =====
-- `ofp_flow_removed` of libopenflow_01.py.
use cs425a_computer_networks.Base.{
  ℕ, [], ◌∷◌, ◌++◌, Bool, false, ◌&&◌, ◌==◌, ltb, if◌then◌else◌, length, drop, Option, none, some,
  Result, ok, ◌>>=◌,
}
use cs425a_computer_networks.Bytes.{Bytes}
use cs425a_computer_networks.Bytes.Format.{Format, num, pad, Values, read, write, ◌&◌}
use cs425a_computer_networks.OpenFlow.Match.{Match, any_match, match_eq}
use cs425a_computer_networks.Wire.{Header, pack_header, unpack_header, eq_header}
use cs425a_computer_networks.Wire.Match.{pack_match, unpack_match}

-- `ofp_flow_removed`
pub record FlowRemoved : Type 0 where
  pub header : Header
  pub matching : Match
  pub cookie : ℕ
  pub priority : ℕ
  pub reason : ℕ
  pub duration_sec : ℕ
  pub duration_nsec : ℕ
  pub idle_timeout : ℕ
  pub packet_count : ℕ
  pub byte_count : ℕ

abbrev pub new_flow_removed : FlowRemoved
new_flow_removed = record {
  header = record { version = 1; header_type = 11; length = 88; xid = 0 };
  matching = any_match;
  cookie = 0;
  priority = 0;
  reason = 0;
  duration_sec = 0;
  duration_nsec = 0;
  idle_timeout = 0;
  packet_count = 0;
  byte_count = 0;
}

abbrev pub flow_removed_format : Format
flow_removed_format =
    num 8 ∷ num 2 ∷ num 1 ∷ pad 1 ∷ num 4 ∷ num 4 ∷ num 2 ∷ pad 2 ∷ num 8 ∷ num 8 ∷ []

abbrev pub flow_removed_values : FlowRemoved → Values flow_removed_format
flow_removed_values s =
    s.cookie & s.priority & s.reason & s.duration_sec & s.duration_nsec & s.idle_timeout
    & s.packet_count & s.byte_count & tt

unfoldable pub pack_flow_removed : FlowRemoved → Result Bytes
pack_flow_removed s = do
  a ← pack_header s.header
  b ← pack_match false s.matching
  c ← write flow_removed_format (flow_removed_values s)
  ok (a ++ (b ++ c))

unfoldable pub read_flow_removed :
    FlowRemoved
    → Bytes
    → Header
    → Match
    → Option (Values flow_removed_format × Bytes)
    → FlowRemoved × Bytes
read_flow_removed self raw h m none = (self, raw)
read_flow_removed self raw h m
      (some (
        (cookie & priority & reason & duration_sec & duration_nsec & idle_timeout & packet_count
            & byte_count & values),
        rest,
      )) =
    (
      record {
        header = h;
        matching = m;
        cookie = cookie;
        priority = priority;
        reason = reason;
        duration_sec = duration_sec;
        duration_nsec = duration_nsec;
        idle_timeout = idle_timeout;
        packet_count = packet_count;
        byte_count = byte_count;
      },
      drop 88 raw,
    )

unfoldable pub unpack_flow_removed : FlowRemoved → Bytes → FlowRemoved × Bytes
unpack_flow_removed self raw =
    if ltb (length raw) 88
    then (self, raw)
    else read_flow_removed self raw (unpack_header self.header raw).0
        (unpack_match false self.matching (drop 8 raw)).0 (read flow_removed_format (drop 48 raw))

unfoldable pub eq_flow_removed : FlowRemoved → FlowRemoved → Bool
eq_flow_removed a b =
    eq_header a.header b.header
    && (match_eq a.matching b.matching
        && (a.cookie == b.cookie
            && (a.priority == b.priority
                && (a.reason == b.reason
                    && (a.duration_sec == b.duration_sec
                        && (a.duration_nsec == b.duration_nsec
                            && (a.idle_timeout == b.idle_timeout
                                && (a.packet_count == b.packet_count
                                    && a.byte_count == b.byte_count))))))))

-- ===== src/Wire/RoundTrip/Tests.antt =====
-- The round trips at concrete messages.
use cs425a_computer_networks.Base.{
  ℕ, ◌^◌, ◌≡◌, ◌↔◌, refl, true, arith, [], ◌∷◌, ◌++◌, some, ok, err, length, index_error,
}
use cs425a_computer_networks.Bytes.{Bytes}
use cs425a_computer_networks.OpenFlow.Match.{nw_addr, normalize_wild}
use cs425a_computer_networks.Wire.{wire_buffer}
use cs425a_computer_networks.Wire.Match.RoundTrip.{effective, meaningful, plain_networks}
use cs425a_computer_networks.Wire.Actions.Plain.{new_output}
use cs425a_computer_networks.Wire.Actions.Union.{act_output, action_len, action_length}
use cs425a_computer_networks.Wire.Actions.Loop.{actions_len}
use cs425a_computer_networks.Wire.Messages.PacketOut.{
  OfpPacketOut, new_packet_out, pack_packet_out, unpack_packet_out,
}
use cs425a_computer_networks.Wire.Messages.PacketIn.{
  OfpPacketIn, new_packet_in, pack_packet_in, unpack_packet_in,
}
use cs425a_computer_networks.Wire.Messages.Bodies.{OfpError, new_error, pack_error, unpack_error}
use cs425a_computer_networks.Wire.Messages.Ports.{new_phy_port}
use cs425a_computer_networks.Wire.Messages.Features.{
  FeaturesReply, new_features_reply, pack_features_reply, unpack_features_reply,
}
use cs425a_computer_networks.Wire.Stats.Descriptions.{TableStats, new_table_stats}
use cs425a_computer_networks.Wire.Stats.Flows.{
  new_flow_stats_request, pack_flow_stats_request, unpack_flow_stats_request,
  unpack_aggregate_stats_request,
}
use cs425a_computer_networks.Wire.RoundTrip.PacketOut.{
  action_lengths, IsPacketOut, packet_out_len, sent_packet_out, unpack_packet_out-pack_packet_out,
}
use cs425a_computer_networks.Wire.RoundTrip.Objects.{
  a_table_stats, pack_object, unpack_object, eq_object, object_len,
}
use cs425a_computer_networks.Wire.RoundTrip.Fixed.{unpack_object-pack_object, eq_object_iff}
use cs425a_computer_networks.Wire.RoundTrip.Ports.{
  IsFeatures, unpack_features_reply-pack_features_reply,
}
use cs425a_computer_networks.Wire.RoundTrip.Bodies.{
  packet_in_len, sent_packet_in, unpack_packet_in-pack_packet_in, unpack_error-pack_error,
}
use cs425a_computer_networks.Wire.RoundTrip.Requests.{
  IsRequest, unpack_flow_stats_request-pack_flow_stats_request,
}

abbrev a_packet_out : OfpPacketOut
a_packet_out = record new_packet_out {
  actions = act_output (record new_output { port = 2 }) ∷ [];
  data_bytes = 1 ∷ 2 ∷ 3 ∷ [];
}

a_packet_out-IsPacketOut : IsPacketOut a_packet_out
unfolding actions_len action_len wire_buffer action_lengths action_length
a_packet_out-IsPacketOut = record {
  header = record {
    known = omega arith;
    fits = (omega arith, (omega arith, (omega arith, (omega arith, tt))));
  };
  fields = (omega arith, (omega arith, (omega arith, tt)));
  buffer = tt;
  actions = (((omega arith, (omega arith, (omega arith, (omega arith, tt)))), refl, refl), tt);
  not_both = refl;
}

unpack_packet_out-pack_packet_out_example :
    (bytes : Bytes) × (pack_packet_out a_packet_out ≡ ok bytes)
    × (length bytes ≡ packet_out_len a_packet_out)
    × (unpack_packet_out new_packet_out (bytes ++ (9 ∷ []))
        ≡ ok (sent_packet_out a_packet_out, 9 ∷ []))
unpack_packet_out-pack_packet_out_example =
    unpack_packet_out-pack_packet_out a_packet_out new_packet_out (9 ∷ []) a_packet_out-IsPacketOut

abbrev a_table : TableStats
a_table = record new_table_stats { name = 97 ∷ 98 ∷ []; active_count = 300; lookup_count = 2 ^ 40 }

unpack_object-pack_object_example :
    (bytes : Bytes) × (pack_object a_table_stats a_table ≡ ok bytes)
    × (length bytes ≡ object_len a_table_stats)
    × (unpack_object a_table_stats new_table_stats (bytes ++ (9 ∷ [])) ≡ (a_table, 9 ∷ []))
unpack_object-pack_object_example =
    unpack_object-pack_object a_table_stats a_table new_table_stats (9 ∷ []) (ground arith)

eq_object_iff_example :
    (eq_object a_table_stats a_table new_table_stats ≡ true) ↔ (a_table ≡ new_table_stats)
eq_object_iff_example = eq_object_iff a_table_stats a_table new_table_stats

abbrev two_ports : FeaturesReply
two_ports = record new_features_reply {
  header = record { version = 1; header_type = 6; length = 128; xid = 7 };
  ports =
      record new_phy_port { port_no = 1; name = 101 ∷ 49 ∷ [] }
      ∷ record new_phy_port { port_no = 2; hw_addr = 2 ^ 40; name = 101 ∷ 50 ∷ [] }
      ∷ [];
}

two_ports-IsFeatures : IsFeatures two_ports
two_ports-IsFeatures = record {
  known_kind = omega arith;
  fields = ground arith;
  ports = ground arith;
  sized = refl;
}

unpack_features_reply-pack_features_reply_example :
    (bytes : Bytes) × (pack_features_reply two_ports ≡ ok bytes)
    × (length bytes ≡ 128)
    × (unpack_features_reply new_features_reply (bytes ++ (9 ∷ [])) ≡ (two_ports, 9 ∷ []))
unpack_features_reply-pack_features_reply_example =
    unpack_features_reply-pack_features_reply two_ports new_features_reply (9 ∷ [])
      two_ports-IsFeatures

abbrev a_packet_in : OfpPacketIn
a_packet_in = record new_packet_in { buffer_id = some 4; in_port = 2; data_bytes = 5 ∷ 6 ∷ [] }

unpack_packet_in-pack_packet_in_example :
    (bytes : Bytes) × (pack_packet_in a_packet_in ≡ ok bytes)
    × (length bytes ≡ packet_in_len a_packet_in)
    × (unpack_packet_in new_packet_in (bytes ++ (9 ∷ [])) ≡ (sent_packet_in a_packet_in, 9 ∷ []))
unpack_packet_in-pack_packet_in_example =
    unpack_packet_in-pack_packet_in a_packet_in new_packet_in (9 ∷ []) (record {
      known_kind = omega arith;
      fields = unfold wire_buffer in ground arith;
      buffer = omega arith;
    })

abbrev an_error : OfpError
an_error = record new_error { type = 1; code = 8; data_bytes = 1 ∷ 2 ∷ [] }

unpack_error-pack_error_example :
    (bytes : Bytes) × (pack_error an_error ≡ ok bytes)
    × (unpack_error new_error (bytes ++ (9 ∷ [])) ≡ (
      record an_error {
        header = record { version = 1; header_type = 1; length = 14; xid = 0 };
        data_bytes = [];
      },
      1 ∷ 2 ∷ 9 ∷ [],
    ))
unpack_error-pack_error_example = unpack_error-pack_error an_error new_error (9 ∷ []) (record {
  header = record {
    known = omega arith;
    fits = (omega arith, (omega arith, (omega arith, (omega arith, tt))));
  };
  type = omega arith;
  code = omega arith;
  bytes = (omega arith, (omega arith, tt));
})

small-IsRequest : IsRequest new_flow_stats_request
unfolding effective meaningful plain_networks
small-IsRequest = record {
  matching = ground arith;
  effective = unfold nw_addr normalize_wild in refl;
  table_id = omega arith;
  out_port = omega arith;
}

unpack_flow_stats_request-pack_flow_stats_request_example :
    (bytes : Bytes) × (pack_flow_stats_request new_flow_stats_request ≡ ok bytes)
    × (length bytes ≡ 44)
    × (unpack_flow_stats_request new_flow_stats_request bytes ≡ err index_error)
    × ((c : ℕ) (rest : Bytes)
        → unpack_flow_stats_request new_flow_stats_request (bytes ++ (c ∷ rest))
          ≡ ok (new_flow_stats_request, c ∷ []))
    × ((rest : Bytes)
        → unpack_aggregate_stats_request new_flow_stats_request (bytes ++ rest)
          ≡ (new_flow_stats_request, rest))
unpack_flow_stats_request-pack_flow_stats_request_example =
    unpack_flow_stats_request-pack_flow_stats_request new_flow_stats_request new_flow_stats_request
      small-IsRequest

-- ===== src/Wire/Stats/Counters.antt =====
-- The counters that a switch reports in its statistics, in libopenflow_01.py.
use cs425a_computer_networks.Base.{ℕ, refl, [], ◌∷◌, Bool, Result}
use cs425a_computer_networks.Bytes.{Bytes}
use cs425a_computer_networks.Bytes.Format.{Format, num, pad, Values, ◌&◌}
use cs425a_computer_networks.Wire.{Layout, pack_as, unpack_as, eq_as}

-- `ofp_port_stats`.
pub record PortStats : Type 0 where
  pub port_no : ℕ
  pub rx_packets : ℕ
  pub tx_packets : ℕ
  pub rx_bytes : ℕ
  pub tx_bytes : ℕ
  pub rx_dropped : ℕ
  pub tx_dropped : ℕ
  pub rx_errors : ℕ
  pub tx_errors : ℕ
  pub rx_frame_err : ℕ
  pub rx_over_err : ℕ
  pub rx_crc_err : ℕ
  pub collisions : ℕ

abbrev pub port_stats_format : Format
port_stats_format =
    num 2
    ∷ pad 6
    ∷ num 8
    ∷ num 8
    ∷ num 8
    ∷ num 8
    ∷ num 8
    ∷ num 8
    ∷ num 8
    ∷ num 8
    ∷ num 8
    ∷ num 8
    ∷ num 8
    ∷ num 8
    ∷ []

abbrev port_stats_values : PortStats → Values port_stats_format
port_stats_values s =
    s.port_no & s.rx_packets & s.tx_packets & s.rx_bytes & s.tx_bytes & s.rx_dropped & s.tx_dropped
    & s.rx_errors & s.tx_errors & s.rx_frame_err & s.rx_over_err & s.rx_crc_err & s.collisions & tt

abbrev port_stats_of : Values port_stats_format → PortStats
port_stats_of
      (port_no & rx_packets & tx_packets & rx_bytes & tx_bytes & rx_dropped & tx_dropped & rx_errors
        & tx_errors & rx_frame_err & rx_over_err & rx_crc_err & collisions & rest) =
    record {
      port_no = port_no;
      rx_packets = rx_packets;
      tx_packets = tx_packets;
      rx_bytes = rx_bytes;
      tx_bytes = tx_bytes;
      rx_dropped = rx_dropped;
      tx_dropped = tx_dropped;
      rx_errors = rx_errors;
      tx_errors = tx_errors;
      rx_frame_err = rx_frame_err;
      rx_over_err = rx_over_err;
      rx_crc_err = rx_crc_err;
      collisions = collisions;
    }

abbrev pub port_stats_layout : Layout PortStats port_stats_format
port_stats_layout = record {
  values = port_stats_values;
  of_values = port_stats_of;
  back = λ s. refl;
}

abbrev pub new_port_stats : PortStats
new_port_stats = record {
  port_no = 0;
  rx_packets = 0;
  tx_packets = 0;
  rx_bytes = 0;
  tx_bytes = 0;
  rx_dropped = 0;
  tx_dropped = 0;
  rx_errors = 0;
  tx_errors = 0;
  rx_frame_err = 0;
  rx_over_err = 0;
  rx_crc_err = 0;
  collisions = 0;
}

unfoldable pub pack_port_stats : PortStats → Result Bytes
pack_port_stats s = pack_as port_stats_layout s

unfoldable pub unpack_port_stats : PortStats → Bytes → PortStats × Bytes
unpack_port_stats self raw = unpack_as port_stats_layout self raw

unfoldable pub eq_port_stats : PortStats → PortStats → Bool
eq_port_stats a b = eq_as port_stats_layout a b

-- `ofp_queue_stats`.
pub record QueueStats : Type 0 where
  pub port_no : ℕ
  pub queue_id : ℕ
  pub tx_bytes : ℕ
  pub tx_packets : ℕ
  pub tx_errors : ℕ

abbrev pub queue_stats_format : Format
queue_stats_format = num 2 ∷ pad 2 ∷ num 4 ∷ num 8 ∷ num 8 ∷ num 8 ∷ []

abbrev queue_stats_values : QueueStats → Values queue_stats_format
queue_stats_values s = s.port_no & s.queue_id & s.tx_bytes & s.tx_packets & s.tx_errors & tt

abbrev queue_stats_of : Values queue_stats_format → QueueStats
queue_stats_of (port_no & queue_id & tx_bytes & tx_packets & tx_errors & rest) = record {
  port_no = port_no;
  queue_id = queue_id;
  tx_bytes = tx_bytes;
  tx_packets = tx_packets;
  tx_errors = tx_errors;
}

abbrev pub queue_stats_layout : Layout QueueStats queue_stats_format
queue_stats_layout = record {
  values = queue_stats_values;
  of_values = queue_stats_of;
  back = λ s. refl;
}

abbrev pub new_queue_stats : QueueStats
new_queue_stats = record { port_no = 0; queue_id = 0; tx_bytes = 0; tx_packets = 0; tx_errors = 0 }

unfoldable pub pack_queue_stats : QueueStats → Result Bytes
pack_queue_stats s = pack_as queue_stats_layout s

unfoldable pub unpack_queue_stats : QueueStats → Bytes → QueueStats × Bytes
unpack_queue_stats self raw = unpack_as queue_stats_layout self raw

unfoldable pub eq_queue_stats : QueueStats → QueueStats → Bool
eq_queue_stats a b = eq_as queue_stats_layout a b

-- `ofp_aggregate_stats`.
pub record AggregateStats : Type 0 where
  pub packet_count : ℕ
  pub byte_count : ℕ
  pub flow_count : ℕ

abbrev pub aggregate_stats_format : Format
aggregate_stats_format = num 8 ∷ num 8 ∷ num 4 ∷ pad 4 ∷ []

abbrev aggregate_stats_values : AggregateStats → Values aggregate_stats_format
aggregate_stats_values s = s.packet_count & s.byte_count & s.flow_count & tt

abbrev aggregate_stats_of : Values aggregate_stats_format → AggregateStats
aggregate_stats_of (packet_count & byte_count & flow_count & rest) = record {
  packet_count = packet_count;
  byte_count = byte_count;
  flow_count = flow_count;
}

abbrev pub aggregate_stats_layout : Layout AggregateStats aggregate_stats_format
aggregate_stats_layout = record {
  values = aggregate_stats_values;
  of_values = aggregate_stats_of;
  back = λ s. refl;
}

abbrev pub new_aggregate_stats : AggregateStats
new_aggregate_stats = record { packet_count = 0; byte_count = 0; flow_count = 0 }

unfoldable pub pack_aggregate_stats : AggregateStats → Result Bytes
pack_aggregate_stats s = pack_as aggregate_stats_layout s

unfoldable pub unpack_aggregate_stats : AggregateStats → Bytes → AggregateStats × Bytes
unpack_aggregate_stats self raw = unpack_as aggregate_stats_layout self raw

unfoldable pub eq_aggregate_stats : AggregateStats → AggregateStats → Bool
eq_aggregate_stats a b = eq_as aggregate_stats_layout a b

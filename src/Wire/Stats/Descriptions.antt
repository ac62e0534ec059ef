-- ===== src/Wire/Stats/Descriptions.antt =====
-- The descriptions and requests in the statistics of libopenflow_01.py.
use cs425a_computer_networks.Base.{
  ℕ, refl, [], ◌∷◌, Bool, leb, length, Result, type_error, guard, ◌>>◌,
}
use cs425a_computer_networks.Bytes.{Bytes}
use cs425a_computer_networks.Bytes.Format.{Format, num, pad, text, Values, ◌&◌}
use cs425a_computer_networks.Wire.{Layout, pack_as, unpack_as, eq_as}

-- `ofp_desc_stats`. A text that is too long is not packed.
pub record DescStats : Type 0 where
  pub mfr_desc : Bytes
  pub hw_desc : Bytes
  pub sw_desc : Bytes
  pub serial_num : Bytes
  pub dp_desc : Bytes

abbrev pub desc_stats_format : Format
desc_stats_format = text 256 ∷ text 256 ∷ text 256 ∷ text 32 ∷ text 256 ∷ []

abbrev desc_stats_values : DescStats → Values desc_stats_format
desc_stats_values s = s.mfr_desc & s.hw_desc & s.sw_desc & s.serial_num & s.dp_desc & tt

abbrev desc_stats_of : Values desc_stats_format → DescStats
desc_stats_of (mfr_desc & hw_desc & sw_desc & serial_num & dp_desc & rest) = record {
  mfr_desc = mfr_desc;
  hw_desc = hw_desc;
  sw_desc = sw_desc;
  serial_num = serial_num;
  dp_desc = dp_desc;
}

abbrev pub desc_stats_layout : Layout DescStats desc_stats_format
desc_stats_layout = record {
  values = desc_stats_values;
  of_values = desc_stats_of;
  back = λ s. refl;
}

abbrev pub new_desc_stats : DescStats
new_desc_stats = record { mfr_desc = []; hw_desc = []; sw_desc = []; serial_num = []; dp_desc = [] }

unfoldable pub pack_desc_stats : DescStats → Result Bytes
pack_desc_stats s = do
  guard (leb (length s.mfr_desc) 256) type_error
  guard (leb (length s.hw_desc) 256) type_error
  guard (leb (length s.sw_desc) 256) type_error
  guard (leb (length s.serial_num) 32) type_error
  guard (leb (length s.dp_desc) 256) type_error
  pack_as desc_stats_layout s

unfoldable pub unpack_desc_stats : DescStats → Bytes → DescStats × Bytes
unpack_desc_stats self raw = unpack_as desc_stats_layout self raw

unfoldable pub eq_desc_stats : DescStats → DescStats → Bool
eq_desc_stats a b = eq_as desc_stats_layout a b

-- `ofp_table_stats`. A name that is too long is not packed.
pub record TableStats : Type 0 where
  pub table_id : ℕ
  pub name : Bytes
  pub wildcards : ℕ
  pub max_entries : ℕ
  pub active_count : ℕ
  pub lookup_count : ℕ
  pub matched_count : ℕ

abbrev pub table_stats_format : Format
table_stats_format = num 1 ∷ pad 3 ∷ text 32 ∷ num 4 ∷ num 4 ∷ num 4 ∷ num 8 ∷ num 8 ∷ []

abbrev table_stats_values : TableStats → Values table_stats_format
table_stats_values s =
    s.table_id & s.name & s.wildcards & s.max_entries & s.active_count & s.lookup_count
    & s.matched_count & tt

abbrev table_stats_of : Values table_stats_format → TableStats
table_stats_of
      (table_id & name & wildcards & max_entries & active_count & lookup_count & matched_count
        & rest) =
    record {
      table_id = table_id;
      name = name;
      wildcards = wildcards;
      max_entries = max_entries;
      active_count = active_count;
      lookup_count = lookup_count;
      matched_count = matched_count;
    }

abbrev pub table_stats_layout : Layout TableStats table_stats_format
table_stats_layout = record {
  values = table_stats_values;
  of_values = table_stats_of;
  back = λ s. refl;
}

abbrev pub new_table_stats : TableStats
new_table_stats = record {
  table_id = 0;
  name = [];
  wildcards = 0;
  max_entries = 0;
  active_count = 0;
  lookup_count = 0;
  matched_count = 0;
}

unfoldable pub pack_table_stats : TableStats → Result Bytes
pack_table_stats s = do guard (leb (length s.name) 32) type_error; pack_as table_stats_layout s

unfoldable pub unpack_table_stats : TableStats → Bytes → TableStats × Bytes
unpack_table_stats self raw = unpack_as table_stats_layout self raw

unfoldable pub eq_table_stats : TableStats → TableStats → Bool
eq_table_stats a b = eq_as table_stats_layout a b

-- `ofp_port_stats_request`.
pub record PortStatsRequest : Type 0 where
  pub port_no : ℕ

abbrev pub port_stats_request_format : Format
port_stats_request_format = num 2 ∷ pad 6 ∷ []

abbrev port_stats_request_values : PortStatsRequest → Values port_stats_request_format
port_stats_request_values s = s.port_no & tt

abbrev port_stats_request_of : Values port_stats_request_format → PortStatsRequest
port_stats_request_of (port_no & rest) = record { port_no = port_no }

abbrev pub port_stats_request_layout : Layout PortStatsRequest port_stats_request_format
port_stats_request_layout = record {
  values = port_stats_request_values;
  of_values = port_stats_request_of;
  back = λ s. refl;
}

abbrev pub new_port_stats_request : PortStatsRequest
new_port_stats_request = record { port_no = 0 }

unfoldable pub pack_port_stats_request : PortStatsRequest → Result Bytes
pack_port_stats_request s = pack_as port_stats_request_layout s

unfoldable pub unpack_port_stats_request : PortStatsRequest → Bytes → PortStatsRequest × Bytes
unpack_port_stats_request self raw = unpack_as port_stats_request_layout self raw

unfoldable pub eq_port_stats_request : PortStatsRequest → PortStatsRequest → Bool
eq_port_stats_request a b = eq_as port_stats_request_layout a b

-- `ofp_queue_stats_request`.
pub record QueueStatsRequest : Type 0 where
  pub port_no : ℕ
  pub queue_id : ℕ

abbrev pub queue_stats_request_format : Format
queue_stats_request_format = num 2 ∷ pad 2 ∷ num 4 ∷ []

abbrev queue_stats_request_values : QueueStatsRequest → Values queue_stats_request_format
queue_stats_request_values s = s.port_no & s.queue_id & tt

abbrev queue_stats_request_of : Values queue_stats_request_format → QueueStatsRequest
queue_stats_request_of (port_no & queue_id & rest) = record {
  port_no = port_no;
  queue_id = queue_id;
}

abbrev pub queue_stats_request_layout : Layout QueueStatsRequest queue_stats_request_format
queue_stats_request_layout = record {
  values = queue_stats_request_values;
  of_values = queue_stats_request_of;
  back = λ s. refl;
}

abbrev pub new_queue_stats_request : QueueStatsRequest
new_queue_stats_request = record { port_no = 0; queue_id = 0 }

unfoldable pub pack_queue_stats_request : QueueStatsRequest → Result Bytes
pack_queue_stats_request s = pack_as queue_stats_request_layout s

unfoldable pub unpack_queue_stats_request : QueueStatsRequest → Bytes → QueueStatsRequest × Bytes
unpack_queue_stats_request self raw = unpack_as queue_stats_request_layout self raw

unfoldable pub eq_queue_stats_request : QueueStatsRequest → QueueStatsRequest → Bool
eq_queue_stats_request a b = eq_as queue_stats_request_layout a b

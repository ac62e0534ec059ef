-- ===== src/Wire/Messages/Queues.antt =====
-- The properties of queues in libopenflow_01.py.
use cs425a_computer_networks.Base.{ℕ, refl, [], ◌∷◌, Bool, length, Result}
use cs425a_computer_networks.Bytes.{Bytes}
use cs425a_computer_networks.Bytes.Format.{Format, num, pad, Values, ◌&◌}
use cs425a_computer_networks.Wire.{Layout, pack_as, unpack_as, eq_as}

-- `ofp_queue_prop_header`.
pub record QueuePropHeader : Type 0 where
  pub property : ℕ
  pub length : ℕ

abbrev pub queue_prop_header_format : Format
queue_prop_header_format = num 2 ∷ num 2 ∷ pad 4 ∷ []

abbrev queue_prop_header_values : QueuePropHeader → Values queue_prop_header_format
queue_prop_header_values s = s.property & s.length & tt

abbrev queue_prop_header_of : Values queue_prop_header_format → QueuePropHeader
queue_prop_header_of (property & length & rest) = record { property = property; length = length }

abbrev pub queue_prop_header_layout : Layout QueuePropHeader queue_prop_header_format
queue_prop_header_layout = record {
  values = queue_prop_header_values;
  of_values = queue_prop_header_of;
  back = λ s. refl;
}

abbrev pub new_queue_prop_header : QueuePropHeader
new_queue_prop_header = record { property = 0; length = 8 }

unfoldable pub pack_queue_prop_header : QueuePropHeader → Result Bytes
pack_queue_prop_header s = pack_as queue_prop_header_layout s

unfoldable pub unpack_queue_prop_header : QueuePropHeader → Bytes → QueuePropHeader × Bytes
unpack_queue_prop_header self raw = unpack_as queue_prop_header_layout self raw

unfoldable pub eq_queue_prop_header : QueuePropHeader → QueuePropHeader → Bool
eq_queue_prop_header a b = eq_as queue_prop_header_layout a b

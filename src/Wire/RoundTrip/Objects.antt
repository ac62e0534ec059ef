-- ===== src/Wire/RoundTrip/Objects.antt =====
-- The classes of libopenflow_01.py whose bytes are of one format, told apart by a class: their methods.
use cs425a_computer_networks.Base.{ℕ, ◌<◌, Bool, Result}
use cs425a_computer_networks.Bytes.{Bytes}
use cs425a_computer_networks.Wire.{FitsLayout}
use cs425a_computer_networks.Wire.Messages.Symmetric.{
  Hello, hello_layout, pack_hello, unpack_hello, eq_hello, BarrierRequest, barrier_request_layout,
  pack_barrier_request, unpack_barrier_request, eq_barrier_request, BarrierReply,
  barrier_reply_layout, pack_barrier_reply, unpack_barrier_reply, eq_barrier_reply, FeaturesRequest,
  features_request_layout, pack_features_request, unpack_features_request, eq_features_request,
  VendorHeader, vendor_header_layout, pack_vendor_header, unpack_vendor_header, eq_vendor_header,
}
use cs425a_computer_networks.Wire.Messages.Config.{
  SwitchConfig, switch_config_layout, pack_switch_config, unpack_switch_config, eq_switch_config,
  GetConfigReply, get_config_reply_layout, pack_get_config_reply, unpack_get_config_reply,
  eq_get_config_reply, SetConfig, set_config_layout, pack_set_config, unpack_set_config,
  eq_set_config, GetConfigRequest, get_config_request_layout, pack_get_config_request,
  unpack_get_config_request, eq_get_config_request,
}
use cs425a_computer_networks.Wire.Messages.Ports.{
  PortMod, port_mod_layout, pack_port_mod, unpack_port_mod, eq_port_mod, QueueGetConfigRequest,
  queue_get_config_request_layout, pack_queue_get_config_request, unpack_queue_get_config_request,
  eq_queue_get_config_request, OfpPhyPort, phy_port_layout, pack_phy_port, unpack_phy_port,
  eq_phy_port,
}
use cs425a_computer_networks.Wire.Messages.Queues.{
  QueuePropHeader, queue_prop_header_layout, pack_queue_prop_header, unpack_queue_prop_header,
  eq_queue_prop_header,
}
use cs425a_computer_networks.Wire.Stats.Counters.{
  PortStats, port_stats_layout, pack_port_stats, unpack_port_stats, eq_port_stats, QueueStats,
  queue_stats_layout, pack_queue_stats, unpack_queue_stats, eq_queue_stats, AggregateStats,
  aggregate_stats_layout, pack_aggregate_stats, unpack_aggregate_stats, eq_aggregate_stats,
}
use cs425a_computer_networks.Wire.Stats.Descriptions.{
  PortStatsRequest, port_stats_request_layout, pack_port_stats_request, unpack_port_stats_request,
  eq_port_stats_request, QueueStatsRequest, queue_stats_request_layout, pack_queue_stats_request,
  unpack_queue_stats_request, eq_queue_stats_request, TableStats, table_stats_layout,
  pack_table_stats, unpack_table_stats, eq_table_stats, DescStats, desc_stats_layout,
  pack_desc_stats, unpack_desc_stats, eq_desc_stats,
}

pub data FixedClass : Type 0 where
  a_hello a_barrier_request a_barrier_reply a_features_request a_vendor_header a_switch_config
        a_get_config_reply a_set_config a_get_config_request a_port_mod a_queue_get_config_request
        a_queue_prop_header a_port_stats a_queue_stats a_aggregate_stats a_port_stats_request
        a_queue_stats_request a_phy_port a_table_stats a_desc_stats :
      FixedClass

abbrev pub Object : FixedClass → Type 0
Object a_hello = Hello
Object a_barrier_request = BarrierRequest
Object a_barrier_reply = BarrierReply
Object a_features_request = FeaturesRequest
Object a_vendor_header = VendorHeader
Object a_switch_config = SwitchConfig
Object a_get_config_reply = GetConfigReply
Object a_set_config = SetConfig
Object a_get_config_request = GetConfigRequest
Object a_port_mod = PortMod
Object a_queue_get_config_request = QueueGetConfigRequest
Object a_queue_prop_header = QueuePropHeader
Object a_port_stats = PortStats
Object a_queue_stats = QueueStats
Object a_aggregate_stats = AggregateStats
Object a_port_stats_request = PortStatsRequest
Object a_queue_stats_request = QueueStatsRequest
Object a_phy_port = OfpPhyPort
Object a_table_stats = TableStats
Object a_desc_stats = DescStats

-- `pack`
unfoldable pub pack_object : (c : FixedClass) → Object c → Result Bytes
pack_object a_hello s = pack_hello s
pack_object a_barrier_request s = pack_barrier_request s
pack_object a_barrier_reply s = pack_barrier_reply s
pack_object a_features_request s = pack_features_request s
pack_object a_vendor_header s = pack_vendor_header s
pack_object a_switch_config s = pack_switch_config s
pack_object a_get_config_reply s = pack_get_config_reply s
pack_object a_set_config s = pack_set_config s
pack_object a_get_config_request s = pack_get_config_request s
pack_object a_port_mod s = pack_port_mod s
pack_object a_queue_get_config_request s = pack_queue_get_config_request s
pack_object a_queue_prop_header s = pack_queue_prop_header s
pack_object a_port_stats s = pack_port_stats s
pack_object a_queue_stats s = pack_queue_stats s
pack_object a_aggregate_stats s = pack_aggregate_stats s
pack_object a_port_stats_request s = pack_port_stats_request s
pack_object a_queue_stats_request s = pack_queue_stats_request s
pack_object a_phy_port s = pack_phy_port s
pack_object a_table_stats s = pack_table_stats s
pack_object a_desc_stats s = pack_desc_stats s

-- `unpack`
unfoldable pub unpack_object : (c : FixedClass) → Object c → Bytes → Object c × Bytes
unpack_object a_hello self raw = unpack_hello self raw
unpack_object a_barrier_request self raw = unpack_barrier_request self raw
unpack_object a_barrier_reply self raw = unpack_barrier_reply self raw
unpack_object a_features_request self raw = unpack_features_request self raw
unpack_object a_vendor_header self raw = unpack_vendor_header self raw
unpack_object a_switch_config self raw = unpack_switch_config self raw
unpack_object a_get_config_reply self raw = unpack_get_config_reply self raw
unpack_object a_set_config self raw = unpack_set_config self raw
unpack_object a_get_config_request self raw = unpack_get_config_request self raw
unpack_object a_port_mod self raw = unpack_port_mod self raw
unpack_object a_queue_get_config_request self raw = unpack_queue_get_config_request self raw
unpack_object a_queue_prop_header self raw = unpack_queue_prop_header self raw
unpack_object a_port_stats self raw = unpack_port_stats self raw
unpack_object a_queue_stats self raw = unpack_queue_stats self raw
unpack_object a_aggregate_stats self raw = unpack_aggregate_stats self raw
unpack_object a_port_stats_request self raw = unpack_port_stats_request self raw
unpack_object a_queue_stats_request self raw = unpack_queue_stats_request self raw
unpack_object a_phy_port self raw = unpack_phy_port self raw
unpack_object a_table_stats self raw = unpack_table_stats self raw
unpack_object a_desc_stats self raw = unpack_desc_stats self raw

-- `__eq__`, of two objects of one class
unfoldable pub eq_object : (c : FixedClass) → Object c → Object c → Bool
eq_object a_hello s t = eq_hello s t
eq_object a_barrier_request s t = eq_barrier_request s t
eq_object a_barrier_reply s t = eq_barrier_reply s t
eq_object a_features_request s t = eq_features_request s t
eq_object a_vendor_header s t = eq_vendor_header s t
eq_object a_switch_config s t = eq_switch_config s t
eq_object a_get_config_reply s t = eq_get_config_reply s t
eq_object a_set_config s t = eq_set_config s t
eq_object a_get_config_request s t = eq_get_config_request s t
eq_object a_port_mod s t = eq_port_mod s t
eq_object a_queue_get_config_request s t = eq_queue_get_config_request s t
eq_object a_queue_prop_header s t = eq_queue_prop_header s t
eq_object a_port_stats s t = eq_port_stats s t
eq_object a_queue_stats s t = eq_queue_stats s t
eq_object a_aggregate_stats s t = eq_aggregate_stats s t
eq_object a_port_stats_request s t = eq_port_stats_request s t
eq_object a_queue_stats_request s t = eq_queue_stats_request s t
eq_object a_phy_port s t = eq_phy_port s t
eq_object a_table_stats s t = eq_table_stats s t
eq_object a_desc_stats s t = eq_desc_stats s t

-- `__len__`, and the bytes that `unpack` asks for
unfoldable pub object_len : FixedClass → ℕ
object_len a_hello = 8
object_len a_barrier_request = 8
object_len a_barrier_reply = 8
object_len a_features_request = 8
object_len a_vendor_header = 12
object_len a_switch_config = 12
object_len a_get_config_reply = 12
object_len a_set_config = 12
object_len a_get_config_request = 8
object_len a_port_mod = 32
object_len a_queue_get_config_request = 12
object_len a_queue_prop_header = 8
object_len a_port_stats = 104
object_len a_queue_stats = 32
object_len a_aggregate_stats = 24
object_len a_port_stats_request = 8
object_len a_queue_stats_request = 8
object_len a_phy_port = 48
object_len a_table_stats = 64
object_len a_desc_stats = 1056

-- The fields fit their formats, and the type of a message is known.
abbrev pub IsSendable : (c : FixedClass) → Object c → Type 0
IsSendable a_hello s = (s.header.header_type < 22) × FitsLayout hello_layout s
IsSendable a_barrier_request s = (s.header.header_type < 22) × FitsLayout barrier_request_layout s
IsSendable a_barrier_reply s = (s.header.header_type < 22) × FitsLayout barrier_reply_layout s
IsSendable a_features_request s = (s.header.header_type < 22) × FitsLayout features_request_layout s
IsSendable a_vendor_header s = (s.header.header_type < 22) × FitsLayout vendor_header_layout s
IsSendable a_switch_config s = (s.header.header_type < 22) × FitsLayout switch_config_layout s
IsSendable a_get_config_reply s = (s.header.header_type < 22) × FitsLayout get_config_reply_layout s
IsSendable a_set_config s = (s.header.header_type < 22) × FitsLayout set_config_layout s
IsSendable a_get_config_request s =
    (s.header.header_type < 22) × FitsLayout get_config_request_layout s
IsSendable a_port_mod s = (s.header.header_type < 22) × FitsLayout port_mod_layout s
IsSendable a_queue_get_config_request s =
    (s.header.header_type < 22) × FitsLayout queue_get_config_request_layout s
IsSendable a_queue_prop_header s = FitsLayout queue_prop_header_layout s
IsSendable a_port_stats s = FitsLayout port_stats_layout s
IsSendable a_queue_stats s = FitsLayout queue_stats_layout s
IsSendable a_aggregate_stats s = FitsLayout aggregate_stats_layout s
IsSendable a_port_stats_request s = FitsLayout port_stats_request_layout s
IsSendable a_queue_stats_request s = FitsLayout queue_stats_request_layout s
IsSendable a_phy_port s = FitsLayout phy_port_layout s
IsSendable a_table_stats s = FitsLayout table_stats_layout s
IsSendable a_desc_stats s = FitsLayout desc_stats_layout s

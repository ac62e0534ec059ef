-- ===== src/Wire/Messages/Config.antt =====
-- The messages of libopenflow_01.py that set and ask for the configuration of a switch. A new message
-- has no xid; here it is 0, and set before it is packed.
use cs425a_computer_networks.Base.{ℕ, refl, [], ◌∷◌, Bool, Result, ◌>>◌}
use cs425a_computer_networks.Bytes.{Bytes}
use cs425a_computer_networks.Bytes.Format.{Format, num, Values, ◌&◌}
use cs425a_computer_networks.Wire.{
  Header, Layout, with_header, known_type, pack_as, unpack_as, eq_as,
}

-- `ofp_switch_config`.
pub record SwitchConfig : Type 0 where
  pub header : Header
  pub flags : ℕ
  pub miss_send_len : ℕ

abbrev pub switch_config_format : Format
switch_config_format = with_header (num 2 ∷ num 2 ∷ [])

abbrev switch_config_values : SwitchConfig → Values switch_config_format
switch_config_values s =
    s.header.version & s.header.header_type & s.header.length & s.header.xid & s.flags
    & s.miss_send_len & tt

abbrev switch_config_of : Values switch_config_format → SwitchConfig
switch_config_of (version & header_type & size & xid & flags & miss_send_len & rest) = record {
  header = record { version = version; header_type = header_type; length = size; xid = xid };
  flags = flags;
  miss_send_len = miss_send_len;
}

abbrev pub switch_config_layout : Layout SwitchConfig switch_config_format
switch_config_layout = record {
  values = switch_config_values;
  of_values = switch_config_of;
  back = λ s. refl;
}

abbrev pub new_switch_config : SwitchConfig
new_switch_config = record {
  header = record { version = 1; header_type = 9; length = 12; xid = 0 };
  flags = 0;
  miss_send_len = 128;
}

unfoldable pub pack_switch_config : SwitchConfig → Result Bytes
pack_switch_config s = do known_type s.header; pack_as switch_config_layout s

unfoldable pub unpack_switch_config : SwitchConfig → Bytes → SwitchConfig × Bytes
unpack_switch_config self raw = unpack_as switch_config_layout self raw

unfoldable pub eq_switch_config : SwitchConfig → SwitchConfig → Bool
eq_switch_config a b = eq_as switch_config_layout a b

-- `ofp_get_config_reply`.
pub record GetConfigReply : Type 0 where
  pub header : Header
  pub flags : ℕ
  pub miss_send_len : ℕ

abbrev pub get_config_reply_format : Format
get_config_reply_format = with_header (num 2 ∷ num 2 ∷ [])

abbrev get_config_reply_values : GetConfigReply → Values get_config_reply_format
get_config_reply_values s =
    s.header.version & s.header.header_type & s.header.length & s.header.xid & s.flags
    & s.miss_send_len & tt

abbrev get_config_reply_of : Values get_config_reply_format → GetConfigReply
get_config_reply_of (version & header_type & size & xid & flags & miss_send_len & rest) = record {
  header = record { version = version; header_type = header_type; length = size; xid = xid };
  flags = flags;
  miss_send_len = miss_send_len;
}

abbrev pub get_config_reply_layout : Layout GetConfigReply get_config_reply_format
get_config_reply_layout = record {
  values = get_config_reply_values;
  of_values = get_config_reply_of;
  back = λ s. refl;
}

abbrev pub new_get_config_reply : GetConfigReply
new_get_config_reply = record {
  header = record { version = 1; header_type = 8; length = 12; xid = 0 };
  flags = 0;
  miss_send_len = 128;
}

unfoldable pub pack_get_config_reply : GetConfigReply → Result Bytes
pack_get_config_reply s = do known_type s.header; pack_as get_config_reply_layout s

unfoldable pub unpack_get_config_reply : GetConfigReply → Bytes → GetConfigReply × Bytes
unpack_get_config_reply self raw = unpack_as get_config_reply_layout self raw

unfoldable pub eq_get_config_reply : GetConfigReply → GetConfigReply → Bool
eq_get_config_reply a b = eq_as get_config_reply_layout a b

-- `ofp_set_config`.
pub record SetConfig : Type 0 where
  pub header : Header
  pub flags : ℕ
  pub miss_send_len : ℕ

abbrev pub set_config_format : Format
set_config_format = with_header (num 2 ∷ num 2 ∷ [])

abbrev set_config_values : SetConfig → Values set_config_format
set_config_values s =
    s.header.version & s.header.header_type & s.header.length & s.header.xid & s.flags
    & s.miss_send_len & tt

abbrev set_config_of : Values set_config_format → SetConfig
set_config_of (version & header_type & size & xid & flags & miss_send_len & rest) = record {
  header = record { version = version; header_type = header_type; length = size; xid = xid };
  flags = flags;
  miss_send_len = miss_send_len;
}

abbrev pub set_config_layout : Layout SetConfig set_config_format
set_config_layout = record {
  values = set_config_values;
  of_values = set_config_of;
  back = λ s. refl;
}

abbrev pub new_set_config : SetConfig
new_set_config = record {
  header = record { version = 1; header_type = 9; length = 12; xid = 0 };
  flags = 0;
  miss_send_len = 128;
}

unfoldable pub pack_set_config : SetConfig → Result Bytes
pack_set_config s = do known_type s.header; pack_as set_config_layout s

unfoldable pub unpack_set_config : SetConfig → Bytes → SetConfig × Bytes
unpack_set_config self raw = unpack_as set_config_layout self raw

unfoldable pub eq_set_config : SetConfig → SetConfig → Bool
eq_set_config a b = eq_as set_config_layout a b

-- `ofp_get_config_request`.
pub record GetConfigRequest : Type 0 where
  pub header : Header

abbrev pub get_config_request_format : Format
get_config_request_format = with_header ([])

abbrev get_config_request_values : GetConfigRequest → Values get_config_request_format
get_config_request_values s =
    s.header.version & s.header.header_type & s.header.length & s.header.xid & tt

abbrev get_config_request_of : Values get_config_request_format → GetConfigRequest
get_config_request_of (version & header_type & size & xid & rest) = record {
  header = record { version = version; header_type = header_type; length = size; xid = xid };
}

abbrev pub get_config_request_layout : Layout GetConfigRequest get_config_request_format
get_config_request_layout = record {
  values = get_config_request_values;
  of_values = get_config_request_of;
  back = λ s. refl;
}

abbrev pub new_get_config_request : GetConfigRequest
new_get_config_request = record {
  header = record { version = 1; header_type = 7; length = 8; xid = 0 };
}

unfoldable pub pack_get_config_request : GetConfigRequest → Result Bytes
pack_get_config_request s = do known_type s.header; pack_as get_config_request_layout s

unfoldable pub unpack_get_config_request : GetConfigRequest → Bytes → GetConfigRequest × Bytes
unpack_get_config_request self raw = unpack_as get_config_request_layout self raw

unfoldable pub eq_get_config_request : GetConfigRequest → GetConfigRequest → Bool
eq_get_config_request a b = eq_as get_config_request_layout a b

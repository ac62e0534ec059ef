-- ===== src/Wire/Messages/Ports.antt =====
-- The messages of libopenflow_01.py on ports and queues, and the port that they describe.
use cs425a_computer_networks.Base.{
  ℕ, refl, [], ◌∷◌, Bool, leb, length, Result, type_error, guard, ◌>>◌,
}
use cs425a_computer_networks.Bytes.{Bytes}
use cs425a_computer_networks.Bytes.Format.{Format, num, pad, text, Values, ◌&◌}
use cs425a_computer_networks.Wire.{
  Header, Layout, with_header, known_type, pack_as, unpack_as, eq_as,
}

-- `ofp_phy_port`. A name that is too long is not packed: `pack` returns None, which no caller can append.
pub record OfpPhyPort : Type 0 where
  pub port_no : ℕ
  pub hw_addr : ℕ
  pub name : Bytes
  pub config : ℕ
  pub state : ℕ
  pub curr : ℕ
  pub advertised : ℕ
  pub supported : ℕ
  pub peer : ℕ

abbrev pub phy_port_format : Format
phy_port_format = num 2 ∷ num 6 ∷ text 16 ∷ num 4 ∷ num 4 ∷ num 4 ∷ num 4 ∷ num 4 ∷ num 4 ∷ []

abbrev phy_port_values : OfpPhyPort → Values phy_port_format
phy_port_values s =
    s.port_no & s.hw_addr & s.name & s.config & s.state & s.curr & s.advertised & s.supported
    & s.peer & tt

abbrev phy_port_of : Values phy_port_format → OfpPhyPort
phy_port_of
      (port_no & hw_addr & name & config & state & curr & advertised & supported & peer & rest) =
    record {
      port_no = port_no;
      hw_addr = hw_addr;
      name = name;
      config = config;
      state = state;
      curr = curr;
      advertised = advertised;
      supported = supported;
      peer = peer;
    }

abbrev pub phy_port_layout : Layout OfpPhyPort phy_port_format
phy_port_layout = record { values = phy_port_values; of_values = phy_port_of; back = λ s. refl }

abbrev pub new_phy_port : OfpPhyPort
new_phy_port = record {
  port_no = 0;
  hw_addr = 0;
  name = [];
  config = 0;
  state = 0;
  curr = 0;
  advertised = 0;
  supported = 0;
  peer = 0;
}

unfoldable pub pack_phy_port : OfpPhyPort → Result Bytes
pack_phy_port s = do guard (leb (length s.name) 16) type_error; pack_as phy_port_layout s

unfoldable pub unpack_phy_port : OfpPhyPort → Bytes → OfpPhyPort × Bytes
unpack_phy_port self raw = unpack_as phy_port_layout self raw

unfoldable pub eq_phy_port : OfpPhyPort → OfpPhyPort → Bool
eq_phy_port a b = eq_as phy_port_layout a b

-- `ofp_port_mod`.
pub record PortMod : Type 0 where
  pub header : Header
  pub port_no : ℕ
  pub hw_addr : ℕ
  pub config : ℕ
  pub mask : ℕ
  pub advertise : ℕ

abbrev pub port_mod_format : Format
port_mod_format = with_header (num 2 ∷ num 6 ∷ num 4 ∷ num 4 ∷ num 4 ∷ pad 4 ∷ [])

abbrev port_mod_values : PortMod → Values port_mod_format
port_mod_values s =
    s.header.version & s.header.header_type & s.header.length & s.header.xid & s.port_no & s.hw_addr
    & s.config & s.mask & s.advertise & tt

abbrev port_mod_of : Values port_mod_format → PortMod
port_mod_of
      (version & header_type & size & xid & port_no & hw_addr & config & mask & advertise & rest) =
    record {
      header = record { version = version; header_type = header_type; length = size; xid = xid };
      port_no = port_no;
      hw_addr = hw_addr;
      config = config;
      mask = mask;
      advertise = advertise;
    }

abbrev pub port_mod_layout : Layout PortMod port_mod_format
port_mod_layout = record { values = port_mod_values; of_values = port_mod_of; back = λ s. refl }

abbrev pub new_port_mod : PortMod
new_port_mod = record {
  header = record { version = 1; header_type = 15; length = 32; xid = 0 };
  port_no = 0;
  hw_addr = 0;
  config = 0;
  mask = 0;
  advertise = 0;
}

unfoldable pub pack_port_mod : PortMod → Result Bytes
pack_port_mod s = do known_type s.header; pack_as port_mod_layout s

unfoldable pub unpack_port_mod : PortMod → Bytes → PortMod × Bytes
unpack_port_mod self raw = unpack_as port_mod_layout self raw

unfoldable pub eq_port_mod : PortMod → PortMod → Bool
eq_port_mod a b = eq_as port_mod_layout a b

-- `ofp_queue_get_config_request`.
pub record QueueGetConfigRequest : Type 0 where
  pub header : Header
  pub port : ℕ

abbrev pub queue_get_config_request_format : Format
queue_get_config_request_format = with_header (num 2 ∷ pad 2 ∷ [])

abbrev queue_get_config_request_values :
    QueueGetConfigRequest → Values queue_get_config_request_format
queue_get_config_request_values s =
    s.header.version & s.header.header_type & s.header.length & s.header.xid & s.port & tt

abbrev queue_get_config_request_of : Values queue_get_config_request_format → QueueGetConfigRequest
queue_get_config_request_of (version & header_type & size & xid & port & rest) = record {
  header = record { version = version; header_type = header_type; length = size; xid = xid };
  port = port;
}

abbrev pub queue_get_config_request_layout :
    Layout QueueGetConfigRequest queue_get_config_request_format
queue_get_config_request_layout = record {
  values = queue_get_config_request_values;
  of_values = queue_get_config_request_of;
  back = λ s. refl;
}

abbrev pub new_queue_get_config_request : QueueGetConfigRequest
new_queue_get_config_request = record {
  header = record { version = 1; header_type = 20; length = 12; xid = 0 };
  port = 0;
}

unfoldable pub pack_queue_get_config_request : QueueGetConfigRequest → Result Bytes
pack_queue_get_config_request s = do known_type s.header; pack_as queue_get_config_request_layout s

unfoldable pub unpack_queue_get_config_request :
    QueueGetConfigRequest → Bytes → QueueGetConfigRequest × Bytes
unpack_queue_get_config_request self raw = unpack_as queue_get_config_request_layout self raw

unfoldable pub eq_queue_get_config_request : QueueGetConfigRequest → QueueGetConfigRequest → Bool
eq_queue_get_config_request a b = eq_as queue_get_config_request_layout a b

-- ===== src/Wire/Messages/Features.antt =====
-- The messages of libopenflow_01.py that describe the ports of a switch.
use cs425a_computer_networks.Base.{
  ℕ, zero, suc, ◌-◌, ◌/◌, List, [], ◌∷◌, ◌++◌, Bool, true, false, ◌&&◌, ◌==◌, ltb, if◌then◌else◌,
  length, drop, Option, none, some, Result, ok, ◌>>=◌, ◌>>◌,
}
use cs425a_computer_networks.Bytes.{Bytes}
use cs425a_computer_networks.Bytes.Format.{Format, num, pad, Values, read, write, ◌&◌}
use cs425a_computer_networks.Wire.{Header, with_header, known_type, eq_header}
use cs425a_computer_networks.Wire.Messages.Ports.{
  OfpPhyPort, new_phy_port, pack_phy_port, unpack_phy_port, eq_phy_port,
}

-- `ofp_features_reply`
pub record FeaturesReply : Type 0 where
  pub header : Header
  pub datapath_id : ℕ
  pub n_buffers : ℕ
  pub n_tables : ℕ
  pub capabilities : ℕ
  pub actions : ℕ
  pub ports : List OfpPhyPort

abbrev pub new_features_reply : FeaturesReply
new_features_reply = record {
  header = record { version = 1; header_type = 6; length = 32; xid = 0 };
  datapath_id = 0;
  n_buffers = 0;
  n_tables = 0;
  capabilities = 0;
  actions = 0;
  ports = [];
}

abbrev pub features_format : Format
features_format = with_header (num 8 ∷ num 4 ∷ num 1 ∷ pad 3 ∷ num 4 ∷ num 4 ∷ [])

abbrev pub features_values : FeaturesReply → Values features_format
features_values s =
    s.header.version & s.header.header_type & s.header.length & s.header.xid & s.datapath_id
    & s.n_buffers & s.n_tables & s.capabilities & s.actions & tt

-- `for i in self.ports: packed += i.pack(assertstruct)`
unfoldable pub pack_ports : List OfpPhyPort → Result Bytes
pack_ports [] = ok []
pack_ports (p ∷ ports) = do a ← pack_phy_port p; b ← pack_ports ports; ok (a ++ b)

-- The length in the header is not set by `pack`.
unfoldable pub pack_features_reply : FeaturesReply → Result Bytes
pack_features_reply s = do
  known_type s.header
  a ← write features_format (features_values s)
  b ← pack_ports s.ports
  ok (a ++ b)

-- `for i in xrange(0, portCount)`: a new port each, from 48 bytes further on. Where these are missing
-- the port stays new.
unfoldable pub unpack_ports : ℕ → Bytes → List OfpPhyPort
unpack_ports zero raw = []
unpack_ports (suc count) raw =
    (unpack_phy_port new_phy_port raw).0 ∷ unpack_ports count (drop 48 raw)

-- A length below 32 makes a count that is negative, and no ports.
unfoldable pub read_features_reply :
    FeaturesReply → Bytes → Option (Values features_format × Bytes) → FeaturesReply × Bytes
read_features_reply self raw none = (self, raw)
read_features_reply self raw
      (some (
        (version & header_type & size & xid & datapath_id & n_buffers & n_tables & capabilities
            & actions & values),
        rest,
      )) =
    (
      record {
        header = record { version = version; header_type = header_type; length = size; xid = xid };
        datapath_id = datapath_id;
        n_buffers = n_buffers;
        n_tables = n_tables;
        capabilities = capabilities;
        actions = actions;
        ports = unpack_ports ((size - 32) / 48) (drop 32 raw);
      },
      drop size raw,
    )

unfoldable pub unpack_features_reply : FeaturesReply → Bytes → FeaturesReply × Bytes
unpack_features_reply self raw = read_features_reply self raw (read features_format raw)

unfoldable pub eq_ports : List OfpPhyPort → List OfpPhyPort → Bool
eq_ports [] [] = true
eq_ports (p ∷ ps) (q ∷ qs) = eq_phy_port p q && eq_ports ps qs
eq_ports _ _ = false

unfoldable pub eq_features_reply : FeaturesReply → FeaturesReply → Bool
eq_features_reply a b =
    eq_header a.header b.header
    && (a.datapath_id == b.datapath_id
        && (a.n_buffers == b.n_buffers
            && (a.n_tables == b.n_tables
                && (a.capabilities == b.capabilities
                    && (a.actions == b.actions && eq_ports a.ports b.ports)))))

-- `ofp_port_status`
pub record PortStatus : Type 0 where
  pub header : Header
  pub reason : ℕ
  pub desc : OfpPhyPort

abbrev pub new_port_status : PortStatus
new_port_status = record {
  header = record { version = 1; header_type = 12; length = 64; xid = 0 };
  reason = 0;
  desc = new_phy_port;
}

abbrev pub port_status_format : Format
port_status_format = with_header (num 1 ∷ pad 7 ∷ [])

unfoldable pub pack_port_status : PortStatus → Result Bytes
pack_port_status s = do
  known_type s.header
  a ←
      write port_status_format
        (s.header.version & s.header.header_type & s.header.length & s.header.xid & s.reason & tt)
  b ← pack_phy_port s.desc
  ok (a ++ b)

unfoldable pub read_port_status :
    PortStatus → Bytes → Option (Values port_status_format × Bytes) → PortStatus × Bytes
read_port_status self raw none = (self, raw)
read_port_status self raw (some ((version & header_type & size & xid & reason & values), rest)) = (
  record {
    header = record { version = version; header_type = header_type; length = size; xid = xid };
    reason = reason;
    desc = (unpack_phy_port self.desc rest).0;
  },
  drop 64 raw,
)

unfoldable pub unpack_port_status : PortStatus → Bytes → PortStatus × Bytes
unpack_port_status self raw =
    if ltb (length raw) 64
    then (self, raw)
    else read_port_status self raw (read port_status_format raw)

unfoldable pub eq_port_status : PortStatus → PortStatus → Bool
eq_port_status a b =
    eq_header a.header b.header && (a.reason == b.reason && eq_phy_port a.desc b.desc)

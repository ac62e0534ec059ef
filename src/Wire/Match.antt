-- ===== src/Wire/Match.antt =====
-- `ofp_match` of libopenflow_01.py as bytes: `pack`, `unpack`, and the wildcard bits on the wire. Bits
-- above the 22 that have a meaning are not kept.
pub mod Bits
pub mod RoundTrip
use cs425a_computer_networks.Base.{
  ℕ, ◌+◌, ◌*◌, ◌/◌, ◌%◌, ◌^◌, [], ◌∷◌, Bool, true, false, ◌&&◌, ◌||◌, ◌==◌, if◌then◌else◌, Option,
  none, some, Result, ok,
}
use cs425a_computer_networks.Bytes.{Bytes}
use cs425a_computer_networks.Bytes.Format.{Format, num, pad, Values, read, write, unpacked, ◌&◌}
use cs425a_computer_networks.OpenFlow.Match.{Match, normalize_wild, nw_addr}

-- The wildcard bits of the fields, and the counts of wildcarded address bits.
pub record Wildcards : Type 0 where
  pub in_port : Bool
  pub dl_vlan : Bool
  pub dl_src : Bool
  pub dl_dst : Bool
  pub dl_type : Bool
  pub nw_proto : Bool
  pub tp_src : Bool
  pub tp_dst : Bool
  pub nw_src : ℕ
  pub nw_dst : ℕ
  pub dl_vlan_pcp : Bool
  pub nw_tos : Bool

unfoldable pub bit : Bool → ℕ
bit true = 1
bit false = 0

-- The number that they are, and the bits of a number.
unfoldable pub wild_number : Wildcards → ℕ
wild_number w =
    bit w.in_port
    + 2 * bit w.dl_vlan
    + 4 * bit w.dl_src
    + 8 * bit w.dl_dst
    + 16 * bit w.dl_type
    + 32 * bit w.nw_proto
    + 64 * bit w.tp_src
    + 128 * bit w.tp_dst
    + 2 ^ 8 * w.nw_src
    + 2 ^ 14 * w.nw_dst
    + 2 ^ 20 * bit w.dl_vlan_pcp
    + 2 ^ 21 * bit w.nw_tos

unfoldable pub wild_of : ℕ → Wildcards
wild_of n = record {
  in_port = n % 2 == 1;
  dl_vlan = n / 2 % 2 == 1;
  dl_src = n / 4 % 2 == 1;
  dl_dst = n / 8 % 2 == 1;
  dl_type = n / 16 % 2 == 1;
  nw_proto = n / 32 % 2 == 1;
  tp_src = n / 64 % 2 == 1;
  tp_dst = n / 128 % 2 == 1;
  nw_src = n / 2 ^ 8 % 2 ^ 6;
  nw_dst = n / 2 ^ 14 % 2 ^ 6;
  dl_vlan_pcp = n / 2 ^ 20 % 2 == 1;
  nw_tos = n / 2 ^ 21 % 2 == 1;
}

abbrev pub is_none : Option ℕ → Bool
is_none none = true
is_none (some v) = false

-- `val or 0`
abbrev pub or_zero : Option ℕ → ℕ
or_zero none = 0
or_zero (some v) = v

-- The bits of an object.
unfoldable pub match_wildcards : Match → Wildcards
match_wildcards m = record {
  in_port = is_none m.in_port;
  dl_vlan = is_none m.dl_vlan;
  dl_src = is_none m.dl_src;
  dl_dst = is_none m.dl_dst;
  dl_type = is_none m.dl_type;
  nw_proto = is_none m.nw_proto;
  tp_src = is_none m.tp_src;
  tp_dst = is_none m.tp_dst;
  nw_src = m.nw_src_wild;
  nw_dst = m.nw_dst_wild;
  dl_vlan_pcp = is_none m.dl_vlan_pcp;
  nw_tos = is_none m.nw_tos;
}

-- `nw_proto in (1, 6, 17)`
abbrev pub has_ports : ℕ → Bool
has_ports nw_proto = nw_proto == 1 || nw_proto == 6 || nw_proto == 17

-- `_wire_wildcards` for the type and the protocol of the match: the bits of the fields that do not
-- count are cleared.
unfoldable pub wire_wildcards : ℕ → ℕ → Wildcards → Wildcards
wire_wildcards dl_type nw_proto w =
    if dl_type == 0x0800
    then if has_ports nw_proto then w else record w { tp_src = false; tp_dst = false }
    else if dl_type == 0x0806
    then record w { nw_tos = false; tp_src = false; tp_dst = false }
    else record w {
      nw_tos = false;
      nw_proto = false;
      nw_src = 0;
      nw_dst = 0;
      tp_src = false;
      tp_dst = false;
    }

-- `_unwire_wildcards`, for the type and the protocol that were read: these bits are set.
unfoldable pub unwire_wildcards : ℕ → ℕ → Wildcards → Wildcards
unwire_wildcards dl_type nw_proto w =
    if dl_type == 0x0800
    then if has_ports nw_proto then w else record w { tp_src = true; tp_dst = true }
    else if dl_type == 0x0806
    then record w { nw_tos = true; tp_src = true; tp_dst = true }
    else record w {
      nw_tos = true;
      nw_proto = true;
      nw_src = 63;
      nw_dst = 63;
      tp_src = true;
      tp_dst = true;
    }

abbrev pub match_format : Format
match_format =
    num 4
    ∷ num 2
    ∷ num 6
    ∷ num 6
    ∷ num 2
    ∷ num 1
    ∷ pad 1
    ∷ num 2
    ∷ num 1
    ∷ num 1
    ∷ pad 2
    ∷ num 4
    ∷ num 4
    ∷ num 2
    ∷ num 2
    ∷ []

-- `check_ip`, `check_ip_or_arp` and `check_tp`
unfoldable pub check_ip : Match → Option ℕ → ℕ
check_ip m val = if or_zero m.dl_type == 0x0800 then or_zero val else 0

unfoldable pub check_ip_or_arp : Match → Option ℕ → ℕ
check_ip_or_arp m val =
    if or_zero m.dl_type == 0x0800 || or_zero m.dl_type == 0x0806 then or_zero val else 0

unfoldable pub check_tp : Match → Option ℕ → ℕ
check_tp m val =
    if or_zero m.dl_type == 0x0800 && has_ports (or_zero m.nw_proto) then or_zero val else 0

-- The bits that are written, for a flow mod and for anything else.
unfoldable pub sent_wildcards : Bool → Match → Wildcards
sent_wildcards flow_mod m =
    if flow_mod
    then wire_wildcards (or_zero m.dl_type) (or_zero m.nw_proto) (match_wildcards m)
    else match_wildcards m

unfoldable pub match_values : Bool → Match → Values match_format
match_values flow_mod m =
    wild_number (sent_wildcards flow_mod m)
    & or_zero m.in_port
    & or_zero m.dl_src
    & or_zero m.dl_dst
    & or_zero m.dl_vlan
    & or_zero m.dl_vlan_pcp
    & or_zero m.dl_type
    & check_ip m m.nw_tos
    & check_ip_or_arp m m.nw_proto
    & check_ip_or_arp m (nw_addr m.nw_src_addr m.nw_src_wild)
    & check_ip_or_arp m (nw_addr m.nw_dst_addr m.nw_dst_wild)
    & check_tp m m.tp_src
    & check_tp m m.tp_dst
    & tt

unfoldable pub pack_match : Bool → Match → Result Bytes
pack_match flow_mod m = write match_format (match_values flow_mod m)

-- A value under a wildcard bit.
abbrev pub under : Bool → ℕ → Option ℕ
under true v = none
under false v = some v

-- The bits that an object gets, before `_normalize_wildcards`.
unfoldable pub read_wildcards : Bool → ℕ → ℕ → ℕ → Wildcards
read_wildcards flow_mod n dl_type nw_proto =
    if flow_mod then unwire_wildcards dl_type nw_proto (wild_of n) else wild_of n

unfoldable pub match_of : Bool → Values match_format → Match
match_of flow_mod
      (n & in_port & dl_src & dl_dst & dl_vlan & dl_vlan_pcp & dl_type & nw_tos & nw_proto & nw_src
        & nw_dst & tp_src & tp_dst & values) =
    let w = read_wildcards flow_mod n dl_type nw_proto in
    record {
      in_port = under w.in_port in_port;
      dl_src = under w.dl_src dl_src;
      dl_dst = under w.dl_dst dl_dst;
      dl_vlan = under w.dl_vlan dl_vlan;
      dl_vlan_pcp = under w.dl_vlan_pcp dl_vlan_pcp;
      dl_type = under w.dl_type dl_type;
      nw_tos = under w.nw_tos nw_tos;
      nw_proto = under w.nw_proto nw_proto;
      tp_src = under w.tp_src tp_src;
      tp_dst = under w.tp_dst tp_dst;
      nw_src_addr = nw_src;
      nw_src_wild = normalize_wild w.nw_src;
      nw_dst_addr = nw_dst;
      nw_dst_wild = normalize_wild w.nw_dst;
    }

unfoldable pub unpack_match : Bool → Match → Bytes → Match × Bytes
unpack_match flow_mod self raw = unpacked (match_of flow_mod) self raw (read match_format raw)

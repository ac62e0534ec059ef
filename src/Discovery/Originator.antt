-- ===== src/Discovery/Originator.antt =====
-- The TLVs of a discovery packet, and what `_handle_PacketIn` of discovery.py reads in them: the switch
-- and the port that the packet left from.
use cs425a_computer_networks.Base.{
  ℕ, List, [], ◌∷◌, ◌++◌, Bool, ◌&&◌, ◌==◌, if◌then◌else◌, list_eq, length, take, drop, Option,
  none, some, ok, err,
}
use cs425a_computer_networks.Bytes.{Bytes}
use cs425a_computer_networks.Bytes.Format.{of_be}
use cs425a_computer_networks.Text.{Number, number, int_of, split_on, is_digits, digits}
use cs425a_computer_networks.Text.Numbers.{hexadecimal, decimal}

-- The TLVs: a subtype and an id, or a text.
pub record Tlv : Type 0 where
  pub tlv_type : ℕ
  pub subtype : ℕ
  pub id : Bytes
  pub text : Bytes

abbrev pub chassis_id_tlv : ℕ
chassis_id_tlv = 1

abbrev pub port_id_tlv : ℕ
port_id_tlv = 2

abbrev pub ttl_tlv : ℕ
ttl_tlv = 3

abbrev pub system_desc_tlv : ℕ
system_desc_tlv = 6

-- `chassis_id.SUB_MAC`, `chassis_id.SUB_LOCAL` and `port_id.SUB_PORT`
abbrev pub sub_mac : ℕ
sub_mac = 4

abbrev pub sub_local : ℕ
sub_local = 7

abbrev pub sub_port : ℕ
sub_port = 2

abbrev pub dpid_mark : Bytes
dpid_mark = 100 ∷ 112 ∷ 105 ∷ 100 ∷ 58 ∷ []

-- `line.startswith('dpid:')`
unfoldable pub is_dpid_line : Bytes → Bool
is_dpid_line line = list_eq (take 5 line) dpid_mark

-- The lines of a system description: the first that names a number.
unfoldable pub read_lines : List Bytes → Option Number
read_lines [] = none
read_lines (line ∷ rest) =
    let next = read_lines rest in
    if is_dpid_line line
    then elim (int_of 16 (drop 5 line)) [ ok n ↦ some n | err e ↦ next ]
    else next

-- A text without such a line may be a number of eight bytes.
unfoldable pub or_eight_bytes : Bytes → Option Number → Option Number
or_eight_bytes text (some n) = some n
or_eight_bytes text none = if length text == 8 then some (number (of_be 0 text)) else none

-- `lookInSysDesc`, on the TLVs behind the first three: the first system description decides.
unfoldable pub look_in_sys_desc : List Tlv → Option Number
look_in_sys_desc [] = none
look_in_sys_desc (t ∷ rest) =
    let next = look_in_sys_desc rest in
    if t.tlv_type == system_desc_tlv
    then or_eight_bytes t.text (read_lines (split_on 10 t.text))
    else next

-- The chassis id: the local form never gives a number, since a string has no `tostring` and the
-- AttributeError is dropped; a MAC address is the number of its six bytes.
unfoldable pub look_in_chassis : Tlv → Option Number
look_in_chassis t =
    if t.subtype == sub_mac && length t.id == 6 then some (number (of_be 0 t.id)) else none

unfoldable pub or_chassis : Tlv → Option Number → Option Number
or_chassis t (some n) = some n
or_chassis t none = look_in_chassis t

-- The port: decimal digits, or two bytes.
unfoldable pub read_port : Bytes → Option ℕ
read_port id =
    if is_digits id
    then elim (digits 10 0 id) [ ok n ↦ some n | err e ↦ none ]
    else if length id == 2
    then some (of_be 0 id)
    else none

-- The TLVs are at least the three that every packet has, in their order.
unfoldable pub originator : List Tlv → Option (Number × Tlv)
originator (chassis ∷ port ∷ ttl ∷ rest) =
    if chassis.tlv_type == chassis_id_tlv
      && (port.tlv_type == port_id_tlv && ttl.tlv_type == ttl_tlv)
    then elim (or_chassis chassis (look_in_sys_desc rest)) [ none ↦ none | some n ↦ some (n, port) ]
    else none
originator _ = none

-- `create_discovery_packet`, as the TLVs that it adds.
abbrev pub new_tlv : ℕ → Tlv
new_tlv tlv_type = record { tlv_type = tlv_type; subtype = 0; id = []; text = [] }

unfoldable pub discovery_tlvs : ℕ → ℕ → List Tlv
discovery_tlvs dpid port =
    record (new_tlv chassis_id_tlv) { subtype = sub_local; id = dpid_mark ++ hexadecimal dpid }
    ∷ record (new_tlv port_id_tlv) { subtype = sub_port; id = decimal port }
    ∷ new_tlv ttl_tlv
    ∷ record (new_tlv system_desc_tlv) { text = dpid_mark ++ hexadecimal dpid }
    ∷ new_tlv 0
    ∷ []

-- ===== src/Wire/Actions/Tags.antt =====
-- The actions of libopenflow_01.py on VLAN tags, and the header of vendor actions.
use cs425a_computer_networks.Base.{ℕ, refl, [], ◌∷◌, Bool, Result}
use cs425a_computer_networks.Bytes.{Bytes}
use cs425a_computer_networks.Bytes.Format.{Format, num, pad, Values, ◌&◌}
use cs425a_computer_networks.Wire.{Layout, pack_as, unpack_as, eq_as}

-- `ofp_action_vlan_vid`.
pub record ActionVlanVid : Type 0 where
  pub type : ℕ
  pub length : ℕ
  pub vlan_vid : ℕ

abbrev pub vlan_vid_format : Format
vlan_vid_format = num 2 ∷ num 2 ∷ num 2 ∷ pad 2 ∷ []

abbrev vlan_vid_values : ActionVlanVid → Values vlan_vid_format
vlan_vid_values s = s.type & s.length & s.vlan_vid & tt

abbrev vlan_vid_of : Values vlan_vid_format → ActionVlanVid
vlan_vid_of (type & length & vlan_vid & rest) = record {
  type = type;
  length = length;
  vlan_vid = vlan_vid;
}

abbrev pub vlan_vid_layout : Layout ActionVlanVid vlan_vid_format
vlan_vid_layout = record { values = vlan_vid_values; of_values = vlan_vid_of; back = λ s. refl }

abbrev pub new_vlan_vid : ActionVlanVid
new_vlan_vid = record { type = 1; length = 8; vlan_vid = 0 }

unfoldable pub pack_vlan_vid : ActionVlanVid → Result Bytes
pack_vlan_vid s = pack_as vlan_vid_layout s

unfoldable pub unpack_vlan_vid : ActionVlanVid → Bytes → ActionVlanVid × Bytes
unpack_vlan_vid self raw = unpack_as vlan_vid_layout self raw

unfoldable pub eq_vlan_vid : ActionVlanVid → ActionVlanVid → Bool
eq_vlan_vid a b = eq_as vlan_vid_layout a b

-- `ofp_action_vlan_pcp`.
pub record ActionVlanPcp : Type 0 where
  pub type : ℕ
  pub length : ℕ
  pub vlan_pcp : ℕ

abbrev pub vlan_pcp_format : Format
vlan_pcp_format = num 2 ∷ num 2 ∷ num 1 ∷ pad 3 ∷ []

abbrev vlan_pcp_values : ActionVlanPcp → Values vlan_pcp_format
vlan_pcp_values s = s.type & s.length & s.vlan_pcp & tt

abbrev vlan_pcp_of : Values vlan_pcp_format → ActionVlanPcp
vlan_pcp_of (type & length & vlan_pcp & rest) = record {
  type = type;
  length = length;
  vlan_pcp = vlan_pcp;
}

abbrev pub vlan_pcp_layout : Layout ActionVlanPcp vlan_pcp_format
vlan_pcp_layout = record { values = vlan_pcp_values; of_values = vlan_pcp_of; back = λ s. refl }

abbrev pub new_vlan_pcp : ActionVlanPcp
new_vlan_pcp = record { type = 2; length = 8; vlan_pcp = 0 }

unfoldable pub pack_vlan_pcp : ActionVlanPcp → Result Bytes
pack_vlan_pcp s = pack_as vlan_pcp_layout s

unfoldable pub unpack_vlan_pcp : ActionVlanPcp → Bytes → ActionVlanPcp × Bytes
unpack_vlan_pcp self raw = unpack_as vlan_pcp_layout self raw

unfoldable pub eq_vlan_pcp : ActionVlanPcp → ActionVlanPcp → Bool
eq_vlan_pcp a b = eq_as vlan_pcp_layout a b

-- `ofp_action_vendor_header`.
pub record ActionVendor : Type 0 where
  pub type : ℕ
  pub length : ℕ
  pub vendor : ℕ

abbrev pub vendor_format : Format
vendor_format = num 2 ∷ num 2 ∷ num 4 ∷ []

abbrev vendor_values : ActionVendor → Values vendor_format
vendor_values s = s.type & s.length & s.vendor & tt

abbrev vendor_of : Values vendor_format → ActionVendor
vendor_of (type & length & vendor & rest) = record { type = type; length = length; vendor = vendor }

abbrev pub vendor_layout : Layout ActionVendor vendor_format
vendor_layout = record { values = vendor_values; of_values = vendor_of; back = λ s. refl }

abbrev pub new_vendor : ActionVendor
new_vendor = record { type = 0xffff; length = 8; vendor = 0 }

unfoldable pub pack_vendor : ActionVendor → Result Bytes
pack_vendor s = pack_as vendor_layout s

unfoldable pub unpack_vendor : ActionVendor → Bytes → ActionVendor × Bytes
unpack_vendor self raw = unpack_as vendor_layout self raw

unfoldable pub eq_vendor : ActionVendor → ActionVendor → Bool
eq_vendor a b = eq_as vendor_layout a b

-- ===== src/Wire/Actions/Mpls.antt =====
-- The actions of libopenflow_01.py on MPLS labels.
use cs425a_computer_networks.Base.{
  ℕ, refl, [], ◌∷◌, Bool, ◌||◌, ◌==◌, Result, type_error, guard, ◌>>◌,
}
use cs425a_computer_networks.Bytes.{Bytes}
use cs425a_computer_networks.Bytes.Format.{Format, num, pad, Values, ◌&◌}
use cs425a_computer_networks.Wire.{Layout, pack_as, unpack_as, eq_as}

-- `ofp_action_push_mpls`. A type that is not one of MPLS is not packed: `pack` returns None then, which no caller can append to its bytes.
pub record ActionPushMpls : Type 0 where
  pub type : ℕ
  pub length : ℕ
  pub ethertype : ℕ

abbrev pub push_mpls_format : Format
push_mpls_format = num 2 ∷ num 2 ∷ num 2 ∷ pad 2 ∷ []

abbrev push_mpls_values : ActionPushMpls → Values push_mpls_format
push_mpls_values s = s.type & s.length & s.ethertype & tt

abbrev push_mpls_of : Values push_mpls_format → ActionPushMpls
push_mpls_of (type & length & ethertype & rest) = record {
  type = type;
  length = length;
  ethertype = ethertype;
}

abbrev pub push_mpls_layout : Layout ActionPushMpls push_mpls_format
push_mpls_layout = record { values = push_mpls_values; of_values = push_mpls_of; back = λ s. refl }

abbrev pub new_push_mpls : ActionPushMpls
new_push_mpls = record { type = 19; length = 8; ethertype = 0x8847 }

unfoldable pub pack_push_mpls : ActionPushMpls → Result Bytes
pack_push_mpls s = do
  guard (s.ethertype == 0x8847 || s.ethertype == 0x8848) type_error
  pack_as push_mpls_layout s

unfoldable pub unpack_push_mpls : ActionPushMpls → Bytes → ActionPushMpls × Bytes
unpack_push_mpls self raw = unpack_as push_mpls_layout self raw

unfoldable pub eq_push_mpls : ActionPushMpls → ActionPushMpls → Bool
eq_push_mpls a b = eq_as push_mpls_layout a b

-- `ofp_action_mpls_label`.
pub record ActionMplsLabel : Type 0 where
  pub type : ℕ
  pub length : ℕ
  pub mpls_label : ℕ

abbrev pub mpls_label_format : Format
mpls_label_format = num 2 ∷ num 2 ∷ num 4 ∷ []

abbrev mpls_label_values : ActionMplsLabel → Values mpls_label_format
mpls_label_values s = s.type & s.length & s.mpls_label & tt

abbrev mpls_label_of : Values mpls_label_format → ActionMplsLabel
mpls_label_of (type & length & mpls_label & rest) = record {
  type = type;
  length = length;
  mpls_label = mpls_label;
}

abbrev pub mpls_label_layout : Layout ActionMplsLabel mpls_label_format
mpls_label_layout = record {
  values = mpls_label_values;
  of_values = mpls_label_of;
  back = λ s. refl;
}

abbrev pub new_mpls_label : ActionMplsLabel
new_mpls_label = record { type = 13; length = 8; mpls_label = 0 }

unfoldable pub pack_mpls_label : ActionMplsLabel → Result Bytes
pack_mpls_label s = pack_as mpls_label_layout s

unfoldable pub unpack_mpls_label : ActionMplsLabel → Bytes → ActionMplsLabel × Bytes
unpack_mpls_label self raw = unpack_as mpls_label_layout self raw

unfoldable pub eq_mpls_label : ActionMplsLabel → ActionMplsLabel → Bool
eq_mpls_label a b = eq_as mpls_label_layout a b

-- `ofp_action_mpls_tc`.
pub record ActionMplsTc : Type 0 where
  pub type : ℕ
  pub length : ℕ
  pub mpls_tc : ℕ

abbrev pub mpls_tc_format : Format
mpls_tc_format = num 2 ∷ num 2 ∷ num 1 ∷ pad 3 ∷ []

abbrev mpls_tc_values : ActionMplsTc → Values mpls_tc_format
mpls_tc_values s = s.type & s.length & s.mpls_tc & tt

abbrev mpls_tc_of : Values mpls_tc_format → ActionMplsTc
mpls_tc_of (type & length & mpls_tc & rest) = record {
  type = type;
  length = length;
  mpls_tc = mpls_tc;
}

abbrev pub mpls_tc_layout : Layout ActionMplsTc mpls_tc_format
mpls_tc_layout = record { values = mpls_tc_values; of_values = mpls_tc_of; back = λ s. refl }

abbrev pub new_mpls_tc : ActionMplsTc
new_mpls_tc = record { type = 14; length = 8; mpls_tc = 0 }

unfoldable pub pack_mpls_tc : ActionMplsTc → Result Bytes
pack_mpls_tc s = pack_as mpls_tc_layout s

unfoldable pub unpack_mpls_tc : ActionMplsTc → Bytes → ActionMplsTc × Bytes
unpack_mpls_tc self raw = unpack_as mpls_tc_layout self raw

unfoldable pub eq_mpls_tc : ActionMplsTc → ActionMplsTc → Bool
eq_mpls_tc a b = eq_as mpls_tc_layout a b

-- `ofp_action_mpls_ttl`.
pub record ActionMplsTtl : Type 0 where
  pub type : ℕ
  pub length : ℕ
  pub mpls_ttl : ℕ

abbrev pub mpls_ttl_format : Format
mpls_ttl_format = num 2 ∷ num 2 ∷ num 1 ∷ pad 3 ∷ []

abbrev mpls_ttl_values : ActionMplsTtl → Values mpls_ttl_format
mpls_ttl_values s = s.type & s.length & s.mpls_ttl & tt

abbrev mpls_ttl_of : Values mpls_ttl_format → ActionMplsTtl
mpls_ttl_of (type & length & mpls_ttl & rest) = record {
  type = type;
  length = length;
  mpls_ttl = mpls_ttl;
}

abbrev pub mpls_ttl_layout : Layout ActionMplsTtl mpls_ttl_format
mpls_ttl_layout = record { values = mpls_ttl_values; of_values = mpls_ttl_of; back = λ s. refl }

abbrev pub new_mpls_ttl : ActionMplsTtl
new_mpls_ttl = record { type = 15; length = 8; mpls_ttl = 0 }

unfoldable pub pack_mpls_ttl : ActionMplsTtl → Result Bytes
pack_mpls_ttl s = pack_as mpls_ttl_layout s

unfoldable pub unpack_mpls_ttl : ActionMplsTtl → Bytes → ActionMplsTtl × Bytes
unpack_mpls_ttl self raw = unpack_as mpls_ttl_layout self raw

unfoldable pub eq_mpls_ttl : ActionMplsTtl → ActionMplsTtl → Bool
eq_mpls_ttl a b = eq_as mpls_ttl_layout a b

-- `ofp_action_pop_mpls`.
pub record ActionPopMpls : Type 0 where
  pub type : ℕ
  pub length : ℕ
  pub ethertype : ℕ

abbrev pub pop_mpls_format : Format
pop_mpls_format = num 2 ∷ num 2 ∷ num 2 ∷ pad 2 ∷ []

abbrev pop_mpls_values : ActionPopMpls → Values pop_mpls_format
pop_mpls_values s = s.type & s.length & s.ethertype & tt

abbrev pop_mpls_of : Values pop_mpls_format → ActionPopMpls
pop_mpls_of (type & length & ethertype & rest) = record {
  type = type;
  length = length;
  ethertype = ethertype;
}

abbrev pub pop_mpls_layout : Layout ActionPopMpls pop_mpls_format
pop_mpls_layout = record { values = pop_mpls_values; of_values = pop_mpls_of; back = λ s. refl }

abbrev pub new_pop_mpls : ActionPopMpls
new_pop_mpls = record { type = 20; length = 8; ethertype = 0 }

unfoldable pub pack_pop_mpls : ActionPopMpls → Result Bytes
pack_pop_mpls s = pack_as pop_mpls_layout s

unfoldable pub unpack_pop_mpls : ActionPopMpls → Bytes → ActionPopMpls × Bytes
unpack_pop_mpls self raw = unpack_as pop_mpls_layout self raw

unfoldable pub eq_pop_mpls : ActionPopMpls → ActionPopMpls → Bool
eq_pop_mpls a b = eq_as pop_mpls_layout a b

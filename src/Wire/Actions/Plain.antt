-- ===== src/Wire/Actions/Plain.antt =====
-- The actions of libopenflow_01.py that send a packet or rewrite its addresses and ports. Each `pack`
-- writes all fields in the order of the format, and `unpack` reads them from it.
use cs425a_computer_networks.Base.{ℕ, refl, [], ◌∷◌, Bool, ◌==◌, if◌then◌else◌, Result}
use cs425a_computer_networks.Bytes.{Bytes}
use cs425a_computer_networks.Bytes.Format.{Format, num, pad, Values, ◌&◌}
use cs425a_computer_networks.Wire.{Layout, pack_as, unpack_as, eq_as}

-- `ofp_action_output`. A new one has no port, and cannot be packed before it has one; here it is 0.
pub record ActionOutput : Type 0 where
  pub type : ℕ
  pub length : ℕ
  pub port : ℕ
  pub max_len : ℕ

abbrev pub output_format : Format
output_format = num 2 ∷ num 2 ∷ num 2 ∷ num 2 ∷ []

abbrev output_values : ActionOutput → Values output_format
output_values s = s.type & s.length & s.port & s.max_len & tt

abbrev output_of : Values output_format → ActionOutput
output_of (type & length & port & max_len & rest) = record {
  type = type;
  length = length;
  port = port;
  max_len = max_len;
}

abbrev pub output_layout : Layout ActionOutput output_format
output_layout = record { values = output_values; of_values = output_of; back = λ s. refl }

abbrev pub new_output : ActionOutput
new_output = record { type = 0; length = 8; port = 0; max_len = 0xffff }

-- The bytes to send along are asked for only where the port is that of the controller.
unfoldable pub settle_max_len : ActionOutput → ActionOutput
settle_max_len s = if s.port == 0xfffd then s else record s { max_len = 0 }

unfoldable pub pack_output : ActionOutput → Result Bytes
pack_output s = pack_as output_layout (settle_max_len s)

unfoldable pub unpack_output : ActionOutput → Bytes → ActionOutput × Bytes
unpack_output self raw = unpack_as output_layout self raw

unfoldable pub eq_output : ActionOutput → ActionOutput → Bool
eq_output a b = eq_as output_layout a b

-- `ofp_action_enqueue`.
pub record ActionEnqueue : Type 0 where
  pub type : ℕ
  pub length : ℕ
  pub port : ℕ
  pub queue_id : ℕ

abbrev pub enqueue_format : Format
enqueue_format = num 2 ∷ num 2 ∷ num 2 ∷ pad 6 ∷ num 4 ∷ []

abbrev enqueue_values : ActionEnqueue → Values enqueue_format
enqueue_values s = s.type & s.length & s.port & s.queue_id & tt

abbrev enqueue_of : Values enqueue_format → ActionEnqueue
enqueue_of (type & length & port & queue_id & rest) = record {
  type = type;
  length = length;
  port = port;
  queue_id = queue_id;
}

abbrev pub enqueue_layout : Layout ActionEnqueue enqueue_format
enqueue_layout = record { values = enqueue_values; of_values = enqueue_of; back = λ s. refl }

abbrev pub new_enqueue : ActionEnqueue
new_enqueue = record { type = 11; length = 16; port = 0; queue_id = 0 }

unfoldable pub pack_enqueue : ActionEnqueue → Result Bytes
pack_enqueue s = pack_as enqueue_layout s

unfoldable pub unpack_enqueue : ActionEnqueue → Bytes → ActionEnqueue × Bytes
unpack_enqueue self raw = unpack_as enqueue_layout self raw

unfoldable pub eq_enqueue : ActionEnqueue → ActionEnqueue → Bool
eq_enqueue a b = eq_as enqueue_layout a b

-- `ofp_action_nw_tos`.
pub record ActionNwTos : Type 0 where
  pub type : ℕ
  pub length : ℕ
  pub nw_tos : ℕ

abbrev pub nw_tos_format : Format
nw_tos_format = num 2 ∷ num 2 ∷ num 1 ∷ pad 3 ∷ []

abbrev nw_tos_values : ActionNwTos → Values nw_tos_format
nw_tos_values s = s.type & s.length & s.nw_tos & tt

abbrev nw_tos_of : Values nw_tos_format → ActionNwTos
nw_tos_of (type & length & nw_tos & rest) = record { type = type; length = length; nw_tos = nw_tos }

abbrev pub nw_tos_layout : Layout ActionNwTos nw_tos_format
nw_tos_layout = record { values = nw_tos_values; of_values = nw_tos_of; back = λ s. refl }

abbrev pub new_nw_tos : ActionNwTos
new_nw_tos = record { type = 8; length = 8; nw_tos = 0 }

unfoldable pub pack_nw_tos : ActionNwTos → Result Bytes
pack_nw_tos s = pack_as nw_tos_layout s

unfoldable pub unpack_nw_tos : ActionNwTos → Bytes → ActionNwTos × Bytes
unpack_nw_tos self raw = unpack_as nw_tos_layout self raw

unfoldable pub eq_nw_tos : ActionNwTos → ActionNwTos → Bool
eq_nw_tos a b = eq_as nw_tos_layout a b

-- `ofp_action_tp_port`.
pub record ActionTpPort : Type 0 where
  pub type : ℕ
  pub length : ℕ
  pub tp_port : ℕ

abbrev pub tp_port_format : Format
tp_port_format = num 2 ∷ num 2 ∷ num 2 ∷ pad 2 ∷ []

abbrev tp_port_values : ActionTpPort → Values tp_port_format
tp_port_values s = s.type & s.length & s.tp_port & tt

abbrev tp_port_of : Values tp_port_format → ActionTpPort
tp_port_of (type & length & tp_port & rest) = record {
  type = type;
  length = length;
  tp_port = tp_port;
}

abbrev pub tp_port_layout : Layout ActionTpPort tp_port_format
tp_port_layout = record { values = tp_port_values; of_values = tp_port_of; back = λ s. refl }

unfoldable pub pack_tp_port : ActionTpPort → Result Bytes
pack_tp_port s = pack_as tp_port_layout s

unfoldable pub unpack_tp_port : ActionTpPort → Bytes → ActionTpPort × Bytes
unpack_tp_port self raw = unpack_as tp_port_layout self raw

unfoldable pub eq_tp_port : ActionTpPort → ActionTpPort → Bool
eq_tp_port a b = eq_as tp_port_layout a b

-- `ofp_action_dl_addr`.
pub record ActionDlAddr : Type 0 where
  pub type : ℕ
  pub length : ℕ
  pub dl_addr : ℕ

abbrev pub dl_addr_format : Format
dl_addr_format = num 2 ∷ num 2 ∷ num 6 ∷ pad 6 ∷ []

abbrev dl_addr_values : ActionDlAddr → Values dl_addr_format
dl_addr_values s = s.type & s.length & s.dl_addr & tt

abbrev dl_addr_of : Values dl_addr_format → ActionDlAddr
dl_addr_of (type & length & dl_addr & rest) = record {
  type = type;
  length = length;
  dl_addr = dl_addr;
}

abbrev pub dl_addr_layout : Layout ActionDlAddr dl_addr_format
dl_addr_layout = record { values = dl_addr_values; of_values = dl_addr_of; back = λ s. refl }

unfoldable pub pack_dl_addr : ActionDlAddr → Result Bytes
pack_dl_addr s = pack_as dl_addr_layout s

unfoldable pub unpack_dl_addr : ActionDlAddr → Bytes → ActionDlAddr × Bytes
unpack_dl_addr self raw = unpack_as dl_addr_layout self raw

unfoldable pub eq_dl_addr : ActionDlAddr → ActionDlAddr → Bool
eq_dl_addr a b = eq_as dl_addr_layout a b

-- `ofp_action_nw_addr`. The format is signed, of the same bytes as the unsigned one.
pub record ActionNwAddr : Type 0 where
  pub type : ℕ
  pub length : ℕ
  pub nw_addr : ℕ

abbrev pub nw_addr_format : Format
nw_addr_format = num 2 ∷ num 2 ∷ num 4 ∷ []

abbrev nw_addr_values : ActionNwAddr → Values nw_addr_format
nw_addr_values s = s.type & s.length & s.nw_addr & tt

abbrev nw_addr_of : Values nw_addr_format → ActionNwAddr
nw_addr_of (type & length & nw_addr & rest) = record {
  type = type;
  length = length;
  nw_addr = nw_addr;
}

abbrev pub nw_addr_layout : Layout ActionNwAddr nw_addr_format
nw_addr_layout = record { values = nw_addr_values; of_values = nw_addr_of; back = λ s. refl }

unfoldable pub pack_nw_addr : ActionNwAddr → Result Bytes
pack_nw_addr s = pack_as nw_addr_layout s

unfoldable pub unpack_nw_addr : ActionNwAddr → Bytes → ActionNwAddr × Bytes
unpack_nw_addr self raw = unpack_as nw_addr_layout self raw

unfoldable pub eq_nw_addr : ActionNwAddr → ActionNwAddr → Bool
eq_nw_addr a b = eq_as nw_addr_layout a b

-- `ofp_action_dl_addr.set_dst` and `set_src`, and those of the network addresses and the ports: of
-- one class, told apart by their type.
abbrev pub set_dl : ℕ → ℕ → ActionDlAddr
set_dl type dl_addr = record { type = type; length = 16; dl_addr = dl_addr }

abbrev pub set_nw : ℕ → ℕ → ActionNwAddr
set_nw type nw_addr = record { type = type; length = 8; nw_addr = nw_addr }

abbrev pub set_tp : ℕ → ℕ → ActionTpPort
set_tp type tp_port = record { type = type; length = 8; tp_port = tp_port }

-- ===== src/Vns/Messages.antt =====
-- The message classes of VNSProtocol.py with their constructors and type numbers.
use cs425a_computer_networks.Base.{
  ℕ, List, [], ◌∷◌, Bool, ◌==◌, length, Result, ok, guard, ◌>>◌, protocol_error,
}
use cs425a_computer_networks.Bytes.{Bytes}

-- `topo_id` is an `int` of the source, here one that is not negative.
pub record VnsOpen : Type 0 where
  pub topo_id : ℕ
  pub vhost : Bytes
  pub user : Bytes
  pub pw : Bytes

pub record VnsPacket : Type 0 where
  pub intf_name : Bytes
  pub ethernet_frame : Bytes

pub record VnsInterface : Type 0 where
  pub name : Bytes
  pub mac : Bytes
  pub ip : Bytes
  pub mask : Bytes

pub record VnsRtable : Type 0 where
  pub vrhost : Bytes
  pub rtable : Bytes

pub record VnsOpenTemplate : Type 0 where
  pub template_name : Bytes
  pub vrhost : Bytes
  pub src_filters : List (Bytes × ℕ)

pub record VnsAuthReply : Type 0 where
  pub username : Bytes
  pub ssp : Bytes

pub record VnsAuthStatus : Type 0 where
  pub auth_ok : Bool
  pub msg : Bytes

-- An object of one of the classes in `VNS_MESSAGES`.
pub data Message : Type 0 where
  open_msg : VnsOpen → Message
  close_msg : Bytes → Message
  packet_msg : VnsPacket → Message
  banner_msg : Bytes → Message
  hardware_info_msg : List VnsInterface → Message
  rtable_msg : VnsRtable → Message
  open_template_msg : VnsOpenTemplate → Message
  auth_request_msg : Bytes → Message
  auth_reply_msg : VnsAuthReply → Message
  auth_status_msg : VnsAuthStatus → Message

-- `get_type` of each class.
unfoldable pub get_type : Message → ℕ
get_type (open_msg _) = 1
get_type (close_msg _) = 2
get_type (packet_msg _) = 4
get_type (banner_msg _) = 8
get_type (hardware_info_msg _) = 16
get_type (rtable_msg _) = 32
get_type (open_template_msg _) = 64
get_type (auth_request_msg _) = 128
get_type (auth_reply_msg _) = 256
get_type (auth_status_msg _) = 512

-- `VNSInterface.__init__`: the three lengths are checked in this order.
unfoldable pub new_interface : Bytes → Bytes → Bytes → Bytes → Result VnsInterface
new_interface name mac ip mask = do
  guard (length mac == 6) protocol_error
  guard (length ip == 4) protocol_error
  guard (length mask == 4) protocol_error
  ok (record { name = name; mac = mac; ip = ip; mask = mask })

-- `VNSOpenTemplate.NO_SRC_FILTERS` is `[('0.0.0.0', 0)]`.
abbrev pub no_src_filters : List (Bytes × ℕ)
no_src_filters = (b'0' ∷ b'.' ∷ b'0' ∷ b'.' ∷ b'0' ∷ b'.' ∷ b'0' ∷ [], 0) ∷ []

-- `__set_src_filters`
unfoldable pub set_src_filters : List (Bytes × ℕ) → List (Bytes × ℕ)
set_src_filters [] = no_src_filters
set_src_filters (f ∷ fs) = f ∷ fs

-- `VNSOpenTemplate.__init__`
unfoldable pub new_open_template : Bytes → Bytes → List (Bytes × ℕ) → VnsOpenTemplate
unfolding set_src_filters
new_open_template template_name vhost filters = record {
  template_name = template_name;
  vrhost = vhost;
  src_filters = set_src_filters filters;
}

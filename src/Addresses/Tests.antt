-- ===== src/Addresses/Tests.antt =====
-- The theorems on addresses at concrete ones.
use cs425a_computer_networks.Base.{
  ◌+◌, ◌^◌, ◌<◌, ◌≤◌, ◌≡◌, ◌↔◌, refl, arith, [], ◌∷◌, true, ok, some, none,
}
use cs425a_computer_networks.Bytes.{Bytes}
use cs425a_computer_networks.SrHandler.Listener.{pack_mac}
use cs425a_computer_networks.Addresses.{to_str, in_network, infer_net_mask, hex2, hex_digit}
use cs425a_computer_networks.Addresses.Text.{pack_mac-to_str}
use cs425a_computer_networks.Addresses.Network.{in_network_range, infer_net_mask-none}

abbrev mac : Bytes
mac = 0x01 ∷ 0x80 ∷ 0xc2 ∷ 0 ∷ 0 ∷ 0x0e ∷ []

mac_text : to_str (0xab ∷ 0x05 ∷ []) ≡ b'a' ∷ b'b' ∷ b':' ∷ b'0' ∷ b'5' ∷ []
unfolding to_str hex2 hex_digit
mac_text = refl

class_c : infer_net_mask 0xc0a80000 ≡ some 8
unfolding infer_net_mask
class_c = refl

pack_mac-to_str_example : pack_mac (to_str mac) ≡ ok mac
pack_mac-to_str_example = pack_mac-to_str mac refl (omega arith)

in_network_range_example :
    (in_network 0xc0a80105 0xc0a80100 8 ≡ true)
    ↔ ((0xc0a80100 ≤ 0xc0a80105) × (0xc0a80105 < 0xc0a80100 + 2 ^ 8))
in_network_range_example = in_network_range 0xc0a80105 0xc0a80100 8 refl

infer_net_mask-none_example : (infer_net_mask 0xf1000000 ≡ none) ↔ (0xf000_0000 ≤ 0xf1000000)
infer_net_mask-none_example = infer_net_mask-none 0xf1000000 (omega arith)

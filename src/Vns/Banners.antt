-- ===== src/Vns/Banners.antt =====
-- `VNSBanner.get_banners` and `VNSClose.get_banners_and_close` of VNSProtocol.py.
use cs425a_computer_networks.Base.{
  ℕ, zero, suc, ◌+◌, ◌-◌, ◌*◌, ◌/◌, List, [], ◌∷◌, ltb, if◌then◌else◌, length, take, drop,
}
use cs425a_computer_networks.Bytes.{Bytes}
use cs425a_computer_networks.Vns.Messages.{Message, banner_msg, close_msg}

-- `msg[i*255:(i+1)*255]`
unfoldable pub chunk : Bytes → ℕ → Bytes
chunk msg i = take ((i + 1) * 255 - i * 255) (drop (i * 255) msg)

-- The rounds of the loop from `i` on; the first argument is the number of rounds left.
unfoldable pub banners_from : ℕ → ℕ → Bytes → List Bytes
banners_from zero i msg = []
banners_from (suc rounds) i msg = chunk msg i ∷ banners_from rounds (i + 1) msg

-- `get_banners`; a banner is its text.
unfoldable pub get_banners : Bytes → List Bytes
get_banners msg = banners_from (length msg / 255 + 1) 0 msg

-- The same loop with the test `i+1 < n`.
unfoldable pub close_from : ℕ → ℕ → ℕ → Bytes → List Message
close_from zero i n msg = []
close_from (suc rounds) i n msg =
    (if ltb (i + 1) n then banner_msg (chunk msg i) else close_msg (chunk msg i))
    ∷ close_from rounds (i + 1) n msg

unfoldable pub get_banners_and_close : Bytes → List Message
get_banners_and_close msg = let n = length msg / 255 + 1 in close_from n 0 n msg

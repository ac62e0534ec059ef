-- ===== src/Addresses.antt =====
-- Project-4/pox/pox/lib/addresses.py. An `EthAddr` is its six bytes; an `IPAddr` is the number
-- that its `toUnsigned()` returns, below 2 ^ 32.
pub mod Text
pub mod Network
mod Tests
use cs425a_computer_networks.Base.{
  ℕ, zero, suc, ◌+◌, ◌-◌, ◌*◌, ◌/◌, ◌%◌, ◌^◌, ◌<◌, List, [], ◌∷◌, ◌++◌, Bool, true, false, not,
  ◌&&◌, ltb, leb, ◌==◌, if◌then◌else◌, Option, none, some,
}
use cs425a_computer_networks.Bytes.{Bytes}

-- `val.insert(0, addr & 0xFF)`, six times.
unfoldable pub eth_of_int_loop : ℕ → ℕ → Bytes → Bytes
eth_of_int_loop zero addr val = val
eth_of_int_loop (suc rounds) addr val = eth_of_int_loop rounds (addr / 256) ((addr % 256) ∷ val)

unfoldable pub eth_of_int : ℕ → Bytes
unfolding eth_of_int_loop
eth_of_int addr = eth_of_int_loop 6 addr []

-- `toInt`: byte `i` counts 2 ^ (8 * (5 - i)).
unfoldable pub to_int_loop : ℕ → Bytes → ℕ → ℕ
to_int_loop i [] value = value
to_int_loop i (b ∷ bs) value = to_int_loop (i + 1) bs (value + b * 2 ^ (8 * (5 - i)))

unfoldable pub to_int : Bytes → ℕ
unfolding to_int_loop
to_int addr = to_int_loop 0 addr 0

-- The two bits of the first byte; an address has six bytes, so the other cases do not arise.
unfoldable pub is_multicast : Bytes → Bool
is_multicast [] = false
is_multicast (b ∷ bs) = b % 2 == 1

unfoldable pub is_local : Bytes → Bool
is_local [] = false
is_local (b ∷ bs) = b / 2 % 2 == 1

unfoldable pub is_global : Bytes → Bool
unfolding is_local
is_global addr = not (is_local addr)

unfoldable pub is_bridge_filtered : Bytes → Bool
is_bridge_filtered (a ∷ b ∷ c ∷ d ∷ e ∷ f ∷ []) =
    a == 0x01 && (b == 0x80 && (c == 0xc2 && (d == 0x00 && (e == 0x00 && leb f 0x0f))))
is_bridge_filtered _ = false

-- One hexadecimal digit of '%02x'.
unfoldable pub hex_digit : ℕ → ℕ
hex_digit d = if ltb d 10 then 48 + d else 87 + d

unfoldable pub hex2 : ℕ → Bytes
hex2 b = hex_digit (b / 16) ∷ hex_digit (b % 16) ∷ []

-- `toStr`: the bytes in hexadecimal, joined by ':'.
unfoldable pub to_str : Bytes → Bytes
to_str [] = []
to_str (b ∷ []) = hex2 b
to_str (b ∷ c ∷ bs) = hex2 b ++ (b':' ∷ to_str (c ∷ bs))

-- `IPAddr.inNetwork((n, b))`: the lowest `b` bits are cleared.
unfoldable pub in_network : ℕ → ℕ → ℕ → Bool
in_network addr n b = addr / 2 ^ b * 2 ^ b == n

-- `inferNetMask`. The last `return 0` of the source belongs to the branch of class D, so an
-- address of class E gets Python's `None`.
unfoldable pub infer_net_mask : ℕ → Option ℕ
infer_net_mask addr =
    if addr == 0
    then some 32
    else if addr / 2 ^ 31 % 2 == 0
    then some 24
    else if addr / 2 ^ 30 % 4 == 2
    then some 16
    else if addr / 2 ^ 29 % 8 == 6
    then some 8
    else if addr / 2 ^ 28 % 16 == 14
    then some 0
    else none

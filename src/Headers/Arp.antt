-- ===== src/Headers/Arp.antt =====
-- `arp` of Project-4/pox/pox/lib/packet/arp.py. An Ethernet address is its bytes, an IP address
-- its `toUnsigned()`.
use cs425a_computer_networks.Base.{
  ℕ, [], ◌∷◌, ◌++◌, Bool, true, false, ltb, ◌==◌, if◌then◌else◌, length, take, drop, Result, ok,
  ◌>>=◌,
}
use cs425a_computer_networks.Bytes.{
  Bytes, pack_u8, pack_u16, pack_u32, unpack_u8, unpack_u16, unpack_u32,
}

pub record Arp : Type 0 where
  pub hwtype : ℕ
  pub prototype : ℕ
  pub hwlen : ℕ
  pub protolen : ℕ
  pub opcode : ℕ
  pub hwsrc : Bytes
  pub hwdst : Bytes
  pub protosrc : ℕ
  pub protodst : ℕ
  pub next : Bytes
  pub parsed : Bool

abbrev pub arp_min_len : ℕ
arp_min_len = 28

abbrev pub ether_any : Bytes
ether_any = 0 ∷ 0 ∷ 0 ∷ 0 ∷ 0 ∷ 0 ∷ []

-- `arp()`
abbrev pub new_arp : Arp
new_arp = record {
  hwtype = 1;
  prototype = 0x0800;
  hwlen = 6;
  protolen = 4;
  opcode = 0;
  hwsrc = ether_any;
  hwdst = ether_any;
  protosrc = 0;
  protodst = 0;
  next = [];
  parsed = false;
}

-- `raw[a:b]`
abbrev pub slice : ℕ → ℕ → Bytes → Bytes
slice a n raw = take n (drop a raw)

-- The addresses are read only if their lengths are those of Ethernet and IP.
unfoldable pub arp_hardware : Bytes → Arp → Arp
arp_hardware raw p =
    if p.hwlen == 6 then record p { hwsrc = slice 8 6 raw; hwdst = slice 18 6 raw } else p

unfoldable pub read_protocol : Bytes → Arp → Result Arp
read_protocol raw p = do
  src ← unpack_u32 (slice 14 4 raw)
  dst ← unpack_u32 (slice 24 4 raw)
  ok (record p { protosrc = src; protodst = dst })

unfoldable pub arp_protocol : Bytes → Arp → Result Arp
arp_protocol raw p = if p.protolen == 4 then read_protocol raw p else ok p

-- `parse` on data that is long enough; the message of an unknown type is only logged.
unfoldable pub read_arp : Bytes → Result Arp
read_arp raw = do
  hwtype ← unpack_u16 (take 2 raw)
  prototype ← unpack_u16 (slice 2 2 raw)
  hwlen ← unpack_u8 (slice 4 1 raw)
  protolen ← unpack_u8 (slice 5 1 raw)
  opcode ← unpack_u16 (slice 6 2 raw)
  p ← arp_protocol raw (
      arp_hardware raw (record new_arp {
        hwtype = hwtype;
        prototype = prototype;
        hwlen = hwlen;
        protolen = protolen;
        opcode = opcode;
      }))
  ok (record p { next = drop 28 raw; parsed = true })

-- `arp(raw)`
unfoldable pub parse_arp : Bytes → Result Arp
parse_arp raw = if ltb (length raw) arp_min_len then ok new_arp else read_arp raw

-- `hdr`
unfoldable pub hdr_arp : Arp → Result Bytes
hdr_arp p = do
  hwtype ← pack_u16 p.hwtype
  prototype ← pack_u16 p.prototype
  hwlen ← pack_u8 p.hwlen
  protolen ← pack_u8 p.protolen
  opcode ← pack_u16 p.opcode
  protosrc ← pack_u32 p.protosrc
  protodst ← pack_u32 p.protodst
  ok (
      hwtype
      ++ (prototype
          ++ (hwlen ++ (protolen ++ (opcode ++ (p.hwsrc ++ (protosrc ++ (p.hwdst ++ protodst))))))))

-- `pack` of the base class: the header, and the payload behind it.
unfoldable pub pack_arp : Arp → Result Bytes
pack_arp p = do header ← hdr_arp p; ok (header ++ p.next)

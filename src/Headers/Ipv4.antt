-- ===== src/Headers/Ipv4.antt =====
-- `checksum` of packet_utils.py and the class `ipv4` of ipv4.py, in Project-4/pox/pox/lib/packet. The
-- machine is little-endian: `array('H')` takes the first byte of a word as the low one.
use cs425a_computer_networks.Base.{
  ℕ, zero, suc, ◌+◌, ◌-◌, ◌*◌, ◌/◌, ◌%◌, ◌^◌, [], ◌∷◌, ◌++◌, Bool, true, false, not, ◌||◌, ◌==◌,
  ltb, leb, if◌then◌else◌, length, take, drop, Result, ok, ◌>>=◌,
}
use cs425a_computer_networks.Bytes.{
  Bytes, pack_u8, pack_u16, pack_u32, unpack_u8, unpack_u16, unpack_u32,
}
use cs425a_computer_networks.Headers.Arp.{slice}

-- The sum of the words; of an odd number of bytes the last one is a word with a zero behind it.
unfoldable pub sum_words : Bytes → ℕ
sum_words [] = 0
sum_words (a ∷ []) = a
sum_words (a ∷ b ∷ rest) = (a + b * 256) + sum_words rest

unfoldable pub fold_sum : ℕ → ℕ
fold_sum start = let start' = start / 2 ^ 16 + start % 2 ^ 16 in start' + start' / 2 ^ 16

-- `ntohs`
unfoldable pub ntohs : ℕ → ℕ
ntohs x = x % 256 * 256 + x / 256 % 256

-- `checksum(data)`, without a start and a word to skip.
unfoldable pub checksum : Bytes → ℕ
checksum bytes = ntohs (65535 - fold_sum (sum_words bytes) % 2 ^ 16)

-- `next` is the bytes that the parser of the protocol goes on with.
pub record Ipv4 : Type 0 where
  pub version : ℕ
  pub hl : ℕ
  pub tos : ℕ
  pub iplen : ℕ
  pub id : ℕ
  pub flags : ℕ
  pub frag : ℕ
  pub ttl : ℕ
  pub protocol : ℕ
  pub csum : ℕ
  pub srcip : ℕ
  pub dstip : ℕ
  pub next : Bytes
  pub parsed : Bool

-- `a | b`, where the fuel is at least the sum of the two numbers.
unfoldable pub bit_or : ℕ → ℕ → ℕ → ℕ
bit_or zero a b = 0
bit_or (suc fuel) a b =
    let rest = bit_or fuel (a / 2) (b / 2) in (if a % 2 == 1 then 1 else b % 2) + 2 * rest

-- `(flags << 13) | frag`
unfoldable pub flags_or_frag : ℕ → ℕ → ℕ
flags_or_frag flags frag = bit_or (flags + frag) flags (frag / 2 ^ 13) * 2 ^ 13 + frag % 2 ^ 13

-- The format '!BBHHHBBHII' with a checksum.
unfoldable pub pack_ipv4 : ℕ → Ipv4 → Result Bytes
pack_ipv4 csum p = do
  vhl ← pack_u8 (p.version * 16 + p.hl)
  tos ← pack_u8 p.tos
  iplen ← pack_u16 p.iplen
  id ← pack_u16 p.id
  frag ← pack_u16 (flags_or_frag p.flags p.frag)
  ttl ← pack_u8 p.ttl
  protocol ← pack_u8 p.protocol
  sum ← pack_u16 csum
  srcip ← pack_u32 p.srcip
  dstip ← pack_u32 p.dstip
  ok ((vhl ++ (tos ++ (iplen ++ (id ++ (frag ++ (ttl ++ protocol)))))) ++ (sum ++ (srcip ++ dstip)))

-- `hdr`: the length and the checksum are set, the checksum over a header whose own is 0.
unfoldable pub hdr_ipv4 : Bytes → Ipv4 → Result Bytes
hdr_ipv4 payload p = do
  let p' : Ipv4 = record p { iplen = p.hl * 4 + length payload }
  blank ← pack_ipv4 0 p'
  pack_ipv4 (checksum blank) p'

-- The tests of `parse` on the header, in its order: the packet is given up if one holds.
unfoldable pub is_bad_ipv4 : ℕ → Ipv4 → Bool
is_bad_ipv4 dlen p =
    not (p.version == 4)
    || (ltb p.hl 5 || (ltb p.iplen 20 || (leb p.iplen (p.hl * 4) || ltb dlen (p.hl * 4))))

-- The fields of the first twenty bytes, and then the payload up to the length of the packet, or to
-- the end of the data if that comes first.
unfoldable pub read_ipv4 : Bytes → Result Ipv4
read_ipv4 raw = do
  vhl ← unpack_u8 (take 1 raw)
  tos ← unpack_u8 (slice 1 1 raw)
  iplen ← unpack_u16 (slice 2 2 raw)
  id ← unpack_u16 (slice 4 2 raw)
  frag ← unpack_u16 (slice 6 2 raw)
  ttl ← unpack_u8 (slice 8 1 raw)
  protocol ← unpack_u8 (slice 9 1 raw)
  csum ← unpack_u16 (slice 10 2 raw)
  srcip ← unpack_u32 (slice 12 4 raw)
  dstip ← unpack_u32 (slice 16 4 raw)
  let dlen = length raw
  let p : Ipv4 = record {
    version = vhl / 16;
    hl = vhl % 16;
    tos = tos;
    iplen = iplen;
    id = id;
    flags = frag / 2 ^ 13;
    frag = frag % 2 ^ 13;
    ttl = ttl;
    protocol = protocol;
    csum = csum;
    srcip = srcip;
    dstip = dstip;
    next = [];
    parsed = false;
  }
  let end = if ltb dlen iplen then dlen else iplen
  let start = p.hl * 4
  ok (
      if is_bad_ipv4 dlen p
      then p
      else record p { next = take (end - start) (drop start raw); parsed = true })

-- ===== src/Headers/Udp.antt =====
-- `udp` of Project-4/pox/pox/lib/packet/udp.py. The header that stands before it is an `ipv4`, or
-- `none` for any other.
use cs425a_computer_networks.Base.{
  ℕ, zero, suc, ◌+◌, ◌-◌, ◌*◌, ◌%◌, ◌^◌, [], ◌∷◌, ◌++◌, Bool, true, false, ◌||◌, ◌==◌, ltb,
  if◌then◌else◌, length, take, drop, Option, none, some, Result, ok, ◌>>=◌,
}
use cs425a_computer_networks.Bytes.{Bytes, pack_u8, pack_u16, pack_u32, unpack_u16}
use cs425a_computer_networks.Headers.Arp.{slice}
use cs425a_computer_networks.Headers.Ipv4.{Ipv4, sum_words, fold_sum, ntohs}

-- What `parse` makes of the bytes behind the header: they go to the parser of DHCP or DNS, or they are
-- the payload; or nothing is set.
pub data UdpNext : Type 0 where
  to_dhcp to_dns plain : Bytes → UdpNext
  nothing : UdpNext

pub record Udp : Type 0 where
  pub srcport : ℕ
  pub dstport : ℕ
  pub size : ℕ
  pub csum : ℕ
  pub next : UdpNext
  pub parsed : Bool

abbrev pub udp_min_len : ℕ
udp_min_len = 8

-- `udp()`
abbrev pub new_udp : Udp
new_udp = record { srcport = 0; dstport = 0; size = 8; csum = 0; next = nothing; parsed = false }

unfoldable pub udp_next : ℕ → ℕ → ℕ → Bytes → UdpNext
udp_next srcport dstport size raw =
    if ltb size udp_min_len
    then nothing
    else if dstport == 67 || dstport == 68
    then to_dhcp (drop 8 raw)
    else if dstport == 53 || srcport == 53
    then to_dns (drop 8 raw)
    else if ltb (length raw) size
    then nothing
    else plain (drop 8 raw)

unfoldable pub read_udp : Bytes → Result Udp
read_udp raw = do
  srcport ← unpack_u16 (take 2 raw)
  dstport ← unpack_u16 (slice 2 2 raw)
  size ← unpack_u16 (slice 4 2 raw)
  csum ← unpack_u16 (slice 6 2 raw)
  ok (record {
    srcport = srcport;
    dstport = dstport;
    size = size;
    csum = csum;
    next = udp_next srcport dstport size raw;
    parsed = true;
  })

-- `udp(raw)`
unfoldable pub parse_udp : Bytes → Result Udp
parse_udp raw = if ltb (length raw) udp_min_len then ok new_udp else read_udp raw

-- The sum of the words but that of index `skip`.
unfoldable pub sum_words_but : ℕ → Bytes → ℕ
sum_words_but skip [] = 0
sum_words_but skip (a ∷ []) = a
sum_words_but zero (a ∷ b ∷ rest) = sum_words rest
sum_words_but (suc skip) (a ∷ b ∷ rest) = (a + b * 256) + sum_words_but skip rest

-- `checksum(data, 0, skip)`
unfoldable pub checksum_but : ℕ → Bytes → ℕ
checksum_but skip bytes = ntohs (65535 - fold_sum (sum_words_but skip bytes) % 2 ^ 16)

-- The format '!HHHH'.
unfoldable pub pack_udp : ℕ → ℕ → ℕ → ℕ → Result Bytes
pack_udp srcport dstport size csum = do
  a ← pack_u16 srcport
  b ← pack_u16 dstport
  c ← pack_u16 size
  d ← pack_u16 csum
  ok (a ++ (b ++ (c ++ d)))

-- The pseudo header, '!IIBBH'.
unfoldable pub pseudo_header : Ipv4 → ℕ → Result Bytes
pseudo_header ip size = do
  a ← pack_u32 ip.srcip
  b ← pack_u32 ip.dstip
  c ← pack_u8 0
  d ← pack_u8 ip.protocol
  e ← pack_u16 size
  ok (a ++ (b ++ (c ++ (d ++ e))))

-- A sum of 0 is sent as 0xffff, since 0 means that there is none.
unfoldable pub not_zero : ℕ → ℕ
not_zero r = if r == 0 then 0xffff else r

-- `checksum()`, with the payload that is packed.
unfoldable pub udp_checksum : Option Ipv4 → Bytes → Udp → Result ℕ
udp_checksum none payload u = ok 0
udp_checksum (some ip) payload u = do
  pseudo ← pseudo_header ip (8 + length payload)
  header ← pack_udp u.srcport u.dstport (8 + length payload) 0
  ok (not_zero (checksum_but 9 (pseudo ++ (header ++ payload))))

-- `hdr`
unfoldable pub hdr_udp : Option Ipv4 → Bytes → Udp → Result Bytes
hdr_udp prev payload u = do
  csum ← udp_checksum prev payload u
  pack_udp u.srcport u.dstport (length payload + 8) csum

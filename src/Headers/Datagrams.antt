-- ===== src/Headers/Datagrams.antt =====
-- A datagram that is packed in an IP packet and parsed again.
use cs425a_computer_networks.Base.{
  ℕ, ◌+◌, ◌^◌, ◌<◌, ◌≤◌, ◌≡◌, refl, sym, ap, ◌∙◌, arith, [], ◌∷◌, ◌++◌, true, false, ◌||◌, ◌==◌,
  ltb, length, drop, some, ok, >>=-eq-ok, ok-injective,
}
use cs425a_computer_networks.Bytes.{Bytes, be16, be32, pack_u8, unpack_u16}
use cs425a_computer_networks.Bytes.RoundTrip.{pack_u16-be16, pack_u32-be32, whole16}
use cs425a_computer_networks.Headers.Ipv4.{Ipv4, ntohs}
use cs425a_computer_networks.Headers.Udp.{
  Udp, plain, parse_udp, read_udp, udp_next, pseudo_header, pack_udp, hdr_udp, udp_checksum,
  not_zero, checksum_but,
}

not_zero_lem : (r : ℕ) → r < 2 ^ 16 → (0 < not_zero r) × (not_zero r < 2 ^ 16)
unfolding not_zero
not_zero_lem r h = ground arith

checksum_but_range : (skip : ℕ) (bytes : Bytes) → checksum_but skip bytes < 2 ^ 16
unfolding checksum_but ntohs
checksum_but_range skip bytes = omega arith

-- A checksum over an IP pseudo header is never 0, and fits its field.
udp_checksum_range :
    (ip : Ipv4) (payload : Bytes) (u : Udp) (c : ℕ)
    → udp_checksum (some ip) payload u ≡ ok c
    → (0 < c) × (c < 2 ^ 16)
unfolding udp_checksum
udp_checksum_range ip payload u c e =
    let (pseudo, e1, h1) = >>=-eq-ok (pseudo_header ip (8 + length payload)) _ e in
    let (header, e2, h2) = >>=-eq-ok (pack_udp u.srcport u.dstport (8 + length payload) 0) _ h1 in
    let r = checksum_but 9 (pseudo ++ (header ++ payload)) in
    let same : not_zero r ≡ c = ok-injective h2 in
    let range = not_zero_lem r (checksum_but_range 9 (pseudo ++ (header ++ payload))) in
    (omega (arith, same, range.0), omega (arith, same, range.1))

udp_bytes : ℕ → ℕ → ℕ → ℕ → Bytes
udp_bytes srcport dstport size csum = be16 srcport ++ (be16 dstport ++ (be16 size ++ be16 csum))

pack_udp-udp_bytes :
    (srcport dstport size csum : ℕ)
    → srcport < 2 ^ 16
    → dstport < 2 ^ 16
    → size < 2 ^ 16
    → csum < 2 ^ 16
    → pack_udp srcport dstport size csum ≡ ok (udp_bytes srcport dstport size csum)
unfolding pack_udp udp_bytes
pack_udp-udp_bytes srcport dstport size csum h1 h2 h3 h4 =
    rw
      (
        pack_u16-be16 srcport h1,
        pack_u16-be16 dstport h2,
        pack_u16-be16 size h3,
        pack_u16-be16 csum h4,
      )
      refl

-- No port of DHCP or DNS.
pub record IsPlain (srcport dstport : ℕ) : Type 0 where
  pub no_dhcp : (dstport == 67 || dstport == 68) ≡ false
  pub no_dns : (dstport == 53 || srcport == 53) ≡ false

udp_next_plain :
    (srcport dstport : ℕ) (raw : Bytes)
    → IsPlain srcport dstport
    → 8 ≤ length raw
    → udp_next srcport dstport (length raw) raw ≡ plain (drop 8 raw)
unfolding udp_next
udp_next_plain srcport dstport raw h long = ground (arith, h.no_dhcp, h.no_dns)

parse_udp_long : (raw : Bytes) → 8 ≤ length raw → parse_udp raw ≡ read_udp raw
unfolding parse_udp
parse_udp_long raw h = ground arith

length-udp_bytes :
    (srcport dstport size csum : ℕ) (payload : Bytes)
    → length (udp_bytes srcport dstport size csum ++ payload) ≡ length payload + 8
unfolding udp_bytes be16
length-udp_bytes srcport dstport size csum payload = ground arith

read_udp-udp_bytes :
    (srcport dstport size csum : ℕ) (payload : Bytes)
    → read_udp (udp_bytes srcport dstport size csum ++ payload)
      ≡ ok (record {
        srcport = srcport;
        dstport = dstport;
        size = size;
        csum = csum;
        next = udp_next srcport dstport size (udp_bytes srcport dstport size csum ++ payload);
        parsed = true;
      })
unfolding read_udp udp_bytes be16 unpack_u16
read_udp-udp_bytes srcport dstport size csum payload =
    rw (whole16 srcport, whole16 dstport, whole16 size, whole16 csum) refl

drop-udp_bytes :
    (srcport dstport size csum : ℕ) (payload : Bytes)
    → drop 8 (udp_bytes srcport dstport size csum ++ payload) ≡ payload
unfolding udp_bytes be16
drop-udp_bytes srcport dstport size csum payload = refl

module _ (srcport dstport csum : ℕ) (payload : Bytes) (h : IsPlain srcport dstport) where
  -- The bytes of a datagram.
  abbrev datagram : Bytes
  datagram = udp_bytes srcport dstport (length payload + 8) csum ++ payload

  udp_next-datagram : udp_next srcport dstport (length payload + 8) datagram ≡ plain payload
  udp_next-datagram =
      ap (λ n. udp_next srcport dstport n datagram)
        (sym (length-udp_bytes srcport dstport (length payload + 8) csum payload))
      ∙ udp_next_plain srcport dstport datagram h
          (omega (arith, length-udp_bytes srcport dstport (length payload + 8) csum payload))
      ∙ ap plain (drop-udp_bytes srcport dstport (length payload + 8) csum payload)

  parse_udp-datagram :
      parse_udp datagram
      ≡ ok (record {
        srcport = srcport;
        dstport = dstport;
        size = length payload + 8;
        csum = csum;
        next = plain payload;
        parsed = true;
      })
  parse_udp-datagram =
      parse_udp_long datagram
        (omega (arith, length-udp_bytes srcport dstport (length payload + 8) csum payload))
      ∙ read_udp-udp_bytes srcport dstport (length payload + 8) csum payload
      ∙ rw udp_next-datagram refl

-- The addresses and the protocol of an IP packet are in range.
pub record IsPseudo (ip : Ipv4) : Type 0 where
  pub srcip_range : ip.srcip < 2 ^ 32
  pub dstip_range : ip.dstip < 2 ^ 32
  pub protocol_range : ip.protocol < 256

module _ (ip : Ipv4) (payload : Bytes) (u : Udp) (pseudo : IsPseudo ip) (hs : u.srcport < 2 ^ 16)
    (hd : u.dstport < 2 ^ 16) (hl : length payload + 8 < 2 ^ 16) where
  pseudo_header_total : (b : Bytes) × (pseudo_header ip (8 + length payload) ≡ ok b)
  unfolding pseudo_header pack_u8
  pseudo_header_total =
      let small : ltb ip.protocol 256 ≡ true = ground (arith, pseudo.protocol_range) in
      (
        be32 ip.srcip
            ++ (be32 ip.dstip ++ ((0 ∷ []) ++ ((ip.protocol ∷ []) ++ be16 (8 + length payload)))),
        rw
            (
              pack_u32-be32 ip.srcip pseudo.srcip_range,
              pack_u32-be32 ip.dstip pseudo.dstip_range,
              small,
              pack_u16-be16 (8 + length payload) (omega (arith, hl)),
            )
            refl,
      )

  udp_checksum_total : (c : ℕ) × (udp_checksum (some ip) payload u ≡ ok c)
  unfolding udp_checksum
  udp_checksum_total =
      let (b, e) = pseudo_header_total in
      let size = 8 + length payload in
      (
        not_zero (checksum_but 9 (b ++ (udp_bytes u.srcport u.dstport size 0 ++ payload))),
        rw
            (
              e,
              pack_udp-udp_bytes u.srcport u.dstport size 0 hs hd (omega (arith, hl)) (omega arith),
            )
            refl,
      )

  -- A datagram whose ports are not those of DHCP and DNS, in an IP packet with its fields in range
  -- and with a payload that fits, has a header, and header and payload are parsed to its ports,
  -- its length, a checksum that is not 0, and the payload.
  pub parse_udp-hdr_udp :
      IsPlain u.srcport u.dstport
      → (header : Bytes) × (hdr_udp (some ip) payload u ≡ ok header)
        × (csum : ℕ) × (0 < csum)
        × (parse_udp (header ++ payload)
            ≡ ok (record {
              srcport = u.srcport;
              dstport = u.dstport;
              size = length payload + 8;
              csum = csum;
              next = plain payload;
              parsed = true;
            }))
  unfolding hdr_udp
  parse_udp-hdr_udp plain' =
      let (csum, e) = udp_checksum_total in
      let range = udp_checksum_range ip payload u csum e in
      let size = length payload + 8 in
      (
        udp_bytes u.srcport u.dstport size csum,
        rw e (pack_udp-udp_bytes u.srcport u.dstport size csum hs hd hl range.1),
        csum,
        range.0,
        parse_udp-datagram u.srcport u.dstport csum payload plain',
      )

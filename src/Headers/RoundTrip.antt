-- ===== src/Headers/RoundTrip.antt =====
-- ARP packets, parsed from what was packed.
use cs425a_computer_networks.Base.{
  ℕ, ◌+◌, ◌^◌, ◌<◌, ◌≤◌, ◌≡◌, refl, ◌∙◌, arith, [], ◌∷◌, ◌++◌, true, length, ok, ◌>>=◌,
}
use mathlib.Core.Path.{subst}
use cs425a_computer_networks.Bytes.{Bytes, be16, be32, pack_u8, unpack_u8, unpack_u16, unpack_u32}
use cs425a_computer_networks.Bytes.RoundTrip.{pack_u16-be16, pack_u32-be32, whole16, whole32}
use cs425a_computer_networks.Headers.Arp.{
  Arp, read_arp, parse_arp, hdr_arp, pack_arp, arp_hardware, arp_protocol, read_protocol,
}

-- Six bytes, one by one.
pub six : (s : Bytes) → length s ≡ 6 → (a b c d e f : ℕ) × (s ≡ a ∷ b ∷ c ∷ d ∷ e ∷ f ∷ [])
six (a ∷ b ∷ c ∷ d ∷ e ∷ f ∷ []) h = (a, b, c, d, e, f, refl)
six _ h = absurd (omega arith)

-- The fields of an ARP packet for Ethernet and IP that are in range.
pub record IsArp (p : Arp) : Type 0 where
  pub hwtype_range : p.hwtype < 2 ^ 16
  pub prototype_range : p.prototype < 2 ^ 16
  pub hwlen_six : p.hwlen ≡ 6
  pub protolen_four : p.protolen ≡ 4
  pub opcode_range : p.opcode < 2 ^ 16
  pub hwsrc_six : length p.hwsrc ≡ 6
  pub hwdst_six : length p.hwdst ≡ 6
  pub protosrc_range : p.protosrc < 2 ^ 32
  pub protodst_range : p.protodst < 2 ^ 32
  pub is_parsed : p.parsed ≡ true

-- The bytes of a packet for Ethernet and IP.
arp_bytes : ℕ → ℕ → ℕ → Bytes → ℕ → Bytes → ℕ → Bytes → Bytes
arp_bytes hwtype prototype opcode src protosrc dst protodst next =
    (be16 hwtype
      ++ (be16 prototype
          ++ ((6 ∷ [])
              ++ ((4 ∷ [])
                  ++ (be16 opcode ++ (src ++ (be32 protosrc ++ (dst ++ be32 protodst))))))))
    ++ next

read_arp-arp_bytes :
    (hwtype prototype opcode protosrc protodst a b c d e f g h i j k l : ℕ) (next : Bytes)
    → read_arp (
        arp_bytes hwtype prototype opcode
          (a ∷ b ∷ c ∷ d ∷ e ∷ f ∷ [])
          protosrc
          (g ∷ h ∷ i ∷ j ∷ k ∷ l ∷ [])
          protodst
          next)
      ≡ ok (record {
        hwtype = hwtype;
        prototype = prototype;
        hwlen = 6;
        protolen = 4;
        opcode = opcode;
        hwsrc = a ∷ b ∷ c ∷ d ∷ e ∷ f ∷ [];
        hwdst = g ∷ h ∷ i ∷ j ∷ k ∷ l ∷ [];
        protosrc = protosrc;
        protodst = protodst;
        next = next;
        parsed = true;
      })
unfolding read_arp arp_bytes be16 be32 arp_hardware arp_protocol read_protocol unpack_u8 unpack_u16
    unpack_u32
read_arp-arp_bytes hwtype prototype opcode protosrc protodst a b c d e f g h i j k l next =
    rw (whole16 hwtype, whole16 prototype, whole16 opcode, whole32 protosrc, whole32 protodst) refl

parse_arp_long : (raw : Bytes) → 28 ≤ length raw → parse_arp raw ≡ read_arp raw
unfolding parse_arp
parse_arp_long raw h = ground arith

hdr_arp-arp_bytes :
    (p : Arp)
    → IsArp p
    → pack_arp p
      ≡ ok (arp_bytes p.hwtype p.prototype p.opcode p.hwsrc p.protosrc p.hwdst p.protodst p.next)
unfolding pack_arp hdr_arp pack_u8 arp_bytes
hdr_arp-arp_bytes p h =
    rw
      (
        pack_u16-be16 p.hwtype h.hwtype_range,
        pack_u16-be16 p.prototype h.prototype_range,
        h.hwlen_six,
        h.protolen_four,
        pack_u16-be16 p.opcode h.opcode_range,
        pack_u32-be32 p.protosrc h.protosrc_range,
        pack_u32-be32 p.protodst h.protodst_range,
      )
      refl

length-arp_bytes :
    (hwtype prototype opcode protosrc protodst a b c d e f g h i j k l : ℕ) (next : Bytes)
    → length (
        arp_bytes hwtype prototype opcode
          (a ∷ b ∷ c ∷ d ∷ e ∷ f ∷ [])
          protosrc
          (g ∷ h ∷ i ∷ j ∷ k ∷ l ∷ [])
          protodst
          next)
      ≡ 28 + length next
unfolding arp_bytes be16 be32
length-arp_bytes hwtype prototype opcode protosrc protodst a b c d e f g h i j k l next =
    ground arith

module _ (hwtype prototype opcode protosrc protodst : ℕ) (next : Bytes) where
  -- The packet of these bytes.
  arp_packet : Bytes → Bytes → Arp
  arp_packet src dst = record {
    hwtype = hwtype;
    prototype = prototype;
    hwlen = 6;
    protolen = 4;
    opcode = opcode;
    hwsrc = src;
    hwdst = dst;
    protosrc = protosrc;
    protodst = protodst;
    next = next;
    parsed = true;
  }

  parse_arp-arp_bytes :
      (src dst : Bytes)
      → length src ≡ 6
      → length dst ≡ 6
      → parse_arp (arp_bytes hwtype prototype opcode src protosrc dst protodst next)
        ≡ ok (arp_packet src dst)
  unfolding arp_packet
  parse_arp-arp_bytes src dst hs hd =
      let (a, b, c, d, e, f, src_eq) = six src hs in
      let (g, h, i, j, k, l, dst_eq) = six dst hd in
      rw (src_eq, dst_eq)
        (parse_arp_long _ (
            omega (
              arith,
              length-arp_bytes hwtype prototype opcode protosrc protodst a b c d e f g h i j k l
                  next,
            ))
          ∙ read_arp-arp_bytes hwtype prototype opcode protosrc protodst a b c d e f g h i j k l
              next)

arp_packet-fields :
    (p : Arp)
    → IsArp p
    → ok (arp_packet p.hwtype p.prototype p.opcode p.protosrc p.protodst p.next p.hwsrc p.hwdst)
      ≡ ok p
unfolding arp_packet
arp_packet-fields p h =
    subst (λ n. ok (record p { hwlen = n; protolen = 4; parsed = true }) ≡ ok p) h.hwlen_six
      (subst (λ n. ok (record p { protolen = n; parsed = true }) ≡ ok p) h.protolen_four
        (subst (λ b. ok (record p { parsed = b }) ≡ ok p) h.is_parsed refl))

-- A parsed ARP packet with the address lengths of Ethernet and IP and its fields in range is
-- parsed from its packed bytes as it was.
pub parse_arp-pack_arp : (p : Arp) → IsArp p → (pack_arp p >>= parse_arp) ≡ ok p
parse_arp-pack_arp p h = rw (hdr_arp-arp_bytes p h) (
    parse_arp-arp_bytes p.hwtype p.prototype p.opcode p.protosrc p.protodst p.next p.hwsrc p.hwdst
      h.hwsrc_six h.hwdst_six
    ∙ arp_packet-fields p h)

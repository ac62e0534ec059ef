-- ===== src/Headers/Frames.antt =====
-- Frames and VLAN tags, parsed from what was packed.
use cs425a_computer_networks.Base.{
  ℕ, ◌+◌, ◌*◌, ◌/◌, ◌%◌, ◌^◌, ◌<◌, ◌≤◌, ◌≡◌, ◌≢◌, refl, ap, ◌∙◌, arith, [], ◌∷◌, ◌++◌, true, false,
  ltb, ◌==◌, length, take, ok, err, ◌>>=◌, struct_error, >>=-eq-ok, ok-injective, guard, not,
  assertion_error, ◌⊎◌, inl, inr,
}
use mathlib.Core.Path.{subst}
use cs425a_computer_networks.Bytes.{Bytes, be16, pack_u16, unpack_u16, pack_s}
use cs425a_computer_networks.Bytes.RoundTrip.{pack_u16-be16, whole16}
use cs425a_computer_networks.Headers.Arp.{slice}
use cs425a_computer_networks.Headers.Ethernet.{
  Ethernet, read_ethernet, parse_ethernet, hdr_ethernet, Vlan, parse_vlan, hdr_vlan,
}
use cs425a_computer_networks.Headers.RoundTrip.{six}

ethernet_bytes : ℕ → Bytes → Bytes → Bytes → Bytes
ethernet_bytes eth_type dst src rest = (pack_s 6 dst ++ (pack_s 6 src ++ be16 eth_type)) ++ rest

read_ethernet-bytes :
    (eth_type a b c d e f g h i j k l : ℕ) (rest : Bytes)
    → read_ethernet
        (ethernet_bytes eth_type (a ∷ b ∷ c ∷ d ∷ e ∷ f ∷ []) (g ∷ h ∷ i ∷ j ∷ k ∷ l ∷ []) rest)
      ≡ ok (record {
        dst = a ∷ b ∷ c ∷ d ∷ e ∷ f ∷ [];
        src = g ∷ h ∷ i ∷ j ∷ k ∷ l ∷ [];
        eth_type = eth_type;
        rest = rest;
        parsed = true;
      })
unfolding ethernet_bytes read_ethernet be16 unpack_u16 pack_s
read_ethernet-bytes eth_type a b c d e f g h i j k l rest = rw (whole16 eth_type) refl

length-ethernet_bytes :
    (eth_type a b c d e f g h i j k l : ℕ) (rest : Bytes)
    → length
        (ethernet_bytes eth_type (a ∷ b ∷ c ∷ d ∷ e ∷ f ∷ []) (g ∷ h ∷ i ∷ j ∷ k ∷ l ∷ []) rest)
      ≡ 14 + length rest
unfolding ethernet_bytes pack_s be16
length-ethernet_bytes eth_type a b c d e f g h i j k l rest = ground arith

parse_ethernet_long : (raw : Bytes) → 14 ≤ length raw → parse_ethernet raw ≡ read_ethernet raw
unfolding parse_ethernet
parse_ethernet_long raw h = ground arith

parse_ethernet-bytes :
    (eth_type : ℕ) (dst src rest : Bytes)
    → length dst ≡ 6
    → length src ≡ 6
    → parse_ethernet (ethernet_bytes eth_type dst src rest)
      ≡ ok (record { dst = dst; src = src; eth_type = eth_type; rest = rest; parsed = true })
parse_ethernet-bytes eth_type dst src rest hd hs =
    let (a, b, c, d, e, f, dst_eq) = six dst hd in
    let (g, h, i, j, k, l, src_eq) = six src hs in
    rw (dst_eq, src_eq)
      (parse_ethernet_long _
          (omega (arith, length-ethernet_bytes eth_type a b c d e f g h i j k l rest))
        ∙ read_ethernet-bytes eth_type a b c d e f g h i j k l rest)

-- The header of a frame is read back from the frame.
pub parse_ethernet-hdr_ethernet :
    (p : Ethernet)
    → length p.dst ≡ 6
    → length p.src ≡ 6
    → p.eth_type < 2 ^ 16
    → p.parsed ≡ true
    → (hdr_ethernet p >>= λ header. parse_ethernet (header ++ p.rest)) ≡ ok p
unfolding hdr_ethernet ethernet_bytes
parse_ethernet-hdr_ethernet p hd hs ht parsed = rw (pack_u16-be16 p.eth_type ht) (
    parse_ethernet-bytes p.eth_type p.dst p.src p.rest hd hs
    ∙ subst (λ b. ok (record p { parsed = b }) ≡ ok p) parsed refl)

parse_vlan-be16 :
    (n eth_type : ℕ) (rest : Bytes)
    → (eth_type == 0x8100) ≡ false
    → parse_vlan ((be16 n ++ be16 eth_type) ++ rest)
      ≡ ok (record {
        pcp = n / 2 ^ 13;
        c = n / 0x1000 % 2 * 0x1000;
        id = n % 0x1000;
        eth_type = eth_type;
        rest = rest;
      })
unfolding parse_vlan be16 unpack_u16
parse_vlan-be16 n eth_type rest tagged = rw (whole16 n, whole16 eth_type, tagged) refl

-- A VLAN tag with a priority below 8, an id below 4096, no flag and a type that is not itself VLAN
-- is parsed from its header and payload as it was.
pub parse_vlan-hdr_vlan :
    (p : Vlan)
    → p.pcp < 8
    → p.id < 4096
    → p.c ≡ 0
    → p.eth_type < 2 ^ 16
    → (p.eth_type == 0x8100) ≡ false
    → (hdr_vlan p >>= λ header. parse_vlan (header ++ p.rest)) ≡ ok p
unfolding hdr_vlan
parse_vlan-hdr_vlan p hp hi hc ht tagged =
    let n = p.pcp * 2 ^ 13 + p.c * 2 ^ 12 + p.id in
    let pcp : n / 2 ^ 13 ≡ p.pcp = omega arith in
    let flag : n / 0x1000 % 2 * 0x1000 ≡ p.c = omega arith in
    let id : n % 0x1000 ≡ p.id = omega arith in
    rw (pack_u16-be16 n (omega arith), pack_u16-be16 p.eth_type ht)
      (parse_vlan-be16 n p.eth_type p.rest tagged ∙ rw (pcp, flag, id) refl)

parse_vlan-flag : (raw : Bytes) (p : Vlan) → parse_vlan raw ≡ ok p → (p.c ≡ 0) ⊎ (p.c ≡ 0x1000)
unfolding parse_vlan
parse_vlan-flag raw p e =
    let (n, e1, h1) = >>=-eq-ok (unpack_u16 (take 2 raw)) _ e in
    let (t, e2, h2) = >>=-eq-ok (unpack_u16 (slice 2 2 raw)) _ h1 in
    let (u, e3, h3) = >>=-eq-ok (guard (not (t == 0x8100)) assertion_error) _ h2 in
    let c : n / 0x1000 % 2 * 0x1000 ≡ p.c = ap (λ (v : Vlan). v.c) (ok-injective h3) in
    ground (arith, c)

-- A VLAN tag that was parsed with the flag set cannot be packed: `hdr` raises a struct.error.
pub hdr_vlan_flag :
    (raw : Bytes) (p : Vlan) → parse_vlan raw ≡ ok p → p.c ≢ 0 → hdr_vlan p ≡ err struct_error
unfolding hdr_vlan pack_u16
hdr_vlan_flag raw p e flag = elim (parse_vlan-flag raw p e) [
  | inl zero' ↦ absurd (flag zero')
  | inr set' ↦
      let large : ltb (p.pcp * 2 ^ 13 + p.c * 2 ^ 12 + p.id) (2 ^ 16) ≡ false =
        ground (arith, set') in
      rw large refl
]

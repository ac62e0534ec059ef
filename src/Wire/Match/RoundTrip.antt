-- ===== src/Wire/Match/RoundTrip.antt =====
-- A match that is packed and unpacked again.
use mathlib.Core.Path.{subst}
use cs425a_computer_networks.Base.{
  ℕ, ◌^◌, ◌<◌, ◌≡◌, refl, arith, ◌++◌, Bool, true, false, ◌==◌, if◌then◌else◌, Bool-cases, inl, inr,
  length, Option, none, some, ok,
}
use cs425a_computer_networks.Bytes.{Bytes}
use cs425a_computer_networks.Bytes.Format.{Fits, encode}
use cs425a_computer_networks.Bytes.Format.RoundTrip.{write-encode, read-encode, length-encode}
use cs425a_computer_networks.OpenFlow.Match.{Match, normalize_wild, nw_addr}
use cs425a_computer_networks.Wire.Match.{
  wild_number, wild_of, is_none, or_zero, match_wildcards, has_ports, wire_wildcards,
  unwire_wildcards, match_format, check_ip, check_ip_or_arp, check_tp, sent_wildcards, match_values,
  pack_match, under, read_wildcards, match_of, unpack_match,
}
use cs425a_computer_networks.Wire.Match.Bits.{wild_of-wild_number, wild_number_range}

-- Every value fits its field.
pub record IsInRange (m : Match) : Type 0 where
  pub in_port : or_zero m.in_port < 2 ^ 16
  pub dl_src : or_zero m.dl_src < 2 ^ 48
  pub dl_dst : or_zero m.dl_dst < 2 ^ 48
  pub dl_vlan : or_zero m.dl_vlan < 2 ^ 16
  pub dl_vlan_pcp : or_zero m.dl_vlan_pcp < 2 ^ 8
  pub dl_type : or_zero m.dl_type < 2 ^ 16
  pub nw_tos : or_zero m.nw_tos < 2 ^ 8
  pub nw_proto : or_zero m.nw_proto < 2 ^ 8
  pub tp_src : or_zero m.tp_src < 2 ^ 16
  pub tp_dst : or_zero m.tp_dst < 2 ^ 16
  pub nw_src_addr : m.nw_src_addr < 2 ^ 32
  pub nw_dst_addr : m.nw_dst_addr < 2 ^ 32
  pub nw_src_wild : m.nw_src_wild < 2 ^ 6
  pub nw_dst_wild : m.nw_dst_wild < 2 ^ 6

-- The match without the fields that have no meaning for its type and protocol.
abbrev without_ports : Match → Match
without_ports m = record m { tp_src = none; tp_dst = none }

abbrev without_network : Match → Match
without_network m = record m {
  nw_tos = none;
  nw_proto = none;
  tp_src = none;
  tp_dst = none;
  nw_src_addr = 0;
  nw_src_wild = 32;
  nw_dst_addr = 0;
  nw_dst_wild = 32;
}

unfoldable pub meaningful : Match → Match
meaningful m =
    if or_zero m.dl_type == 0x0800
    then if has_ports (or_zero m.nw_proto) then m else without_ports m
    else if or_zero m.dl_type == 0x0806
    then without_ports (record m { nw_tos = none })
    else without_network m

-- An address of which no bit counts is 0, and its count of bits is 32.
unfoldable pub plain_networks : Match → Match
plain_networks m = record m {
  nw_src_addr = or_zero (nw_addr m.nw_src_addr m.nw_src_wild);
  nw_src_wild = normalize_wild m.nw_src_wild;
  nw_dst_addr = or_zero (nw_addr m.nw_dst_addr m.nw_dst_wild);
  nw_dst_wild = normalize_wild m.nw_dst_wild;
}

unfoldable pub effective : Match → Match
unfolding meaningful plain_networks
effective m = plain_networks (meaningful m)

under-or_zero : (o : Option ℕ) → under (is_none o) (or_zero o) ≡ o
under-or_zero none = refl
under-or_zero (some v) = refl

-- The bytes of a match.
abbrev pub encode_match : Match → Bool → Bytes
encode_match m flow_mod = encode match_format (match_values flow_mod m)

module _ (m : Match) (range : IsInRange m) where
  sent_src : (flow_mod : Bool) → (sent_wildcards flow_mod m).nw_src < 2 ^ 6
  unfolding sent_wildcards wire_wildcards match_wildcards
  sent_src true = ground (arith, range.nw_src_wild)
  sent_src false = range.nw_src_wild

  sent_dst : (flow_mod : Bool) → (sent_wildcards flow_mod m).nw_dst < 2 ^ 6
  unfolding sent_wildcards wire_wildcards match_wildcards
  sent_dst true = ground (arith, range.nw_dst_wild)
  sent_dst false = range.nw_dst_wild

  sent_bits :
      (flow_mod : Bool)
      → wild_of (wild_number (sent_wildcards flow_mod m)) ≡ sent_wildcards flow_mod m
  sent_bits flow_mod =
      wild_of-wild_number (sent_wildcards flow_mod m) (sent_src flow_mod) (sent_dst flow_mod)

  match_of-match_values : match_of true (match_values true m) ≡ effective m
  unfolding match_of match_values read_wildcards
  match_of-match_values = rw (sent_bits true) (
      unfold sent_wildcards wire_wildcards unwire_wildcards match_wildcards check_ip check_ip_or_arp
        check_tp effective meaningful plain_networks normalize_wild nw_addr in
      elim (Bool-cases (or_zero m.dl_type == 0x0800)) [
        | inl ip ↦ elim (Bool-cases (has_ports (or_zero m.nw_proto))) [
          | inl ports ↦ simp (ip, ports, under-or_zero)
          | inr no_ports ↦ simp (ip, no_ports, under-or_zero)
        ]
        | inr not_ip ↦ elim (Bool-cases (or_zero m.dl_type == 0x0806)) [
          | inl arp ↦ simp (not_ip, arp, under-or_zero)
          | inr not_arp ↦ simp (not_ip, not_arp, under-or_zero)
        ]
      ])

  check_ip_range : (k : ℕ) (o : Option ℕ) → 0 < k → or_zero o < k → check_ip m o < k
  unfolding check_ip
  check_ip_range k o p h = ground arith

  check_ip_or_arp_range : (k : ℕ) (o : Option ℕ) → 0 < k → or_zero o < k → check_ip_or_arp m o < k
  unfolding check_ip_or_arp
  check_ip_or_arp_range k o p h = ground arith

  check_tp_range : (k : ℕ) (o : Option ℕ) → 0 < k → or_zero o < k → check_tp m o < k
  unfolding check_tp
  check_tp_range k o p h = ground arith

  nw_addr_range : (addr wild : ℕ) → addr < 2 ^ 32 → or_zero (nw_addr addr wild) < 2 ^ 32
  unfolding nw_addr
  nw_addr_range addr wild h = ground arith

  match_values-Fits : (flow_mod : Bool) → Fits match_format (match_values flow_mod m)
  unfolding match_values
  match_values-Fits flow_mod = (
    omega (
      arith,
      wild_number_range (sent_wildcards flow_mod m) (sent_src flow_mod) (sent_dst flow_mod),
    ),
    (
      range.in_port,
      (
        range.dl_src,
        (
          range.dl_dst,
          (
            range.dl_vlan,
            (
              range.dl_vlan_pcp,
              (
                range.dl_type,
                (
                  check_ip_range _ m.nw_tos (omega arith) range.nw_tos,
                  (
                    check_ip_or_arp_range _ m.nw_proto (omega arith) range.nw_proto,
                    (
                      check_ip_or_arp_range _ (nw_addr m.nw_src_addr m.nw_src_wild) (omega arith)
                          (nw_addr_range _ m.nw_src_wild range.nw_src_addr),
                      (
                        check_ip_or_arp_range _ (nw_addr m.nw_dst_addr m.nw_dst_wild) (omega arith)
                            (nw_addr_range _ m.nw_dst_wild range.nw_dst_addr),
                        (
                          check_tp_range _ m.tp_src (omega arith) range.tp_src,
                          (check_tp_range _ m.tp_dst (omega arith) range.tp_dst, tt),
                        ),
                      ),
                    ),
                  ),
                ),
              ),
            ),
          ),
        ),
      ),
    ),
  )

  pub pack_match-encode : (flow_mod : Bool) → pack_match flow_mod m ≡ ok (encode_match m flow_mod)
  unfolding pack_match
  pack_match-encode flow_mod =
      write-encode match_format (match_values flow_mod m) (match_values-Fits flow_mod)

  pub length-encode_match : (flow_mod : Bool) → length (encode_match m flow_mod) ≡ 40
  length-encode_match flow_mod =
      length-encode match_format (match_values flow_mod m) (match_values-Fits flow_mod)

  pub unpack_match-encode :
      (self : Match) (rest : Bytes)
      → unpack_match true self (encode_match m true ++ rest) ≡ (effective m, rest)
  unfolding unpack_match
  unpack_match-encode self rest =
      rw
        (
          read-encode match_format (match_values true m) rest (match_values-Fits true),
          match_of-match_values,
        )
        refl

-- A network that is plain stays as it is.
plain_addr :
    (addr wild : ℕ)
    → wild < 2 ^ 6
    → or_zero (nw_addr (or_zero (nw_addr addr wild)) (normalize_wild wild))
      ≡ or_zero (nw_addr addr wild)
unfolding nw_addr normalize_wild
plain_addr addr wild h = ground arith

normalize_wild-normalize_wild :
    (wild : ℕ) → normalize_wild (normalize_wild wild) ≡ normalize_wild wild
unfolding normalize_wild
normalize_wild-normalize_wild wild = ground arith

module _ (m : Match) (range : IsInRange m) where
  effective-IsInRange : IsInRange (effective m)
  unfolding effective meaningful plain_networks nw_addr normalize_wild
  effective-IsInRange = ground (arith, range)

  match_of-effective : match_of false (match_values false (effective m)) ≡ effective m
  unfolding match_of match_values read_wildcards
  match_of-effective = rw (sent_bits (effective m) effective-IsInRange false) (
      unfold sent_wildcards match_wildcards check_ip check_ip_or_arp check_tp effective meaningful
        plain_networks in
      elim (Bool-cases (or_zero m.dl_type == 0x0800)) [
        | inl ip ↦ elim (Bool-cases (has_ports (or_zero m.nw_proto))) [
          | inl ports ↦ simp (
            ip,
            ports,
            under-or_zero,
            plain_addr m.nw_src_addr m.nw_src_wild range.nw_src_wild,
            plain_addr m.nw_dst_addr m.nw_dst_wild range.nw_dst_wild,
            normalize_wild-normalize_wild,
          )
          | inr no_ports ↦ simp (
            ip,
            no_ports,
            under-or_zero,
            plain_addr m.nw_src_addr m.nw_src_wild range.nw_src_wild,
            plain_addr m.nw_dst_addr m.nw_dst_wild range.nw_dst_wild,
            normalize_wild-normalize_wild,
          )
        ]
        | inr not_ip ↦ elim (Bool-cases (or_zero m.dl_type == 0x0806)) [
          | inl arp ↦ simp (
            not_ip,
            arp,
            under-or_zero,
            plain_addr m.nw_src_addr m.nw_src_wild range.nw_src_wild,
            plain_addr m.nw_dst_addr m.nw_dst_wild range.nw_dst_wild,
            normalize_wild-normalize_wild,
          )
          | inr not_arp ↦
              rw (not_ip, not_arp, not_ip, not_arp)
                (unfold nw_addr normalize_wild in simp under-or_zero)
        ]
      ])

-- A match with no field that has no meaning.
abbrev pub IsEffective : Match → Type 0
IsEffective m = effective m ≡ m

module _ (m : Match) (range : IsInRange m) (plain : IsEffective m) where
  pub unpack_match-encode_plain :
      (self : Match) (rest : Bytes)
      → unpack_match false self (encode_match m false ++ rest) ≡ (m, rest)
  unfolding unpack_match
  unpack_match-encode_plain self rest =
      rw
        (
          read-encode match_format (match_values false m) rest (match_values-Fits m range false),
          subst (λ n. match_of false (match_values false n) ≡ n) plain (match_of-effective m range),
        )
        refl

-- A match in range that is packed for a flow mod has 40 bytes, and is unpacked to the match without
-- the fields that have no meaning for its type and protocol, whatever the object was before.
pub unpack_match-pack_match :
    (m self : Match) (rest : Bytes)
    → IsInRange m
    → (bytes : Bytes) × (pack_match true m ≡ ok bytes)
      × (length bytes ≡ 40)
      × (unpack_match true self (bytes ++ rest) ≡ (effective m, rest))
unpack_match-pack_match m self rest range = (
  encode_match m true,
  pack_match-encode m range true,
  length-encode_match m range true,
  unpack_match-encode m range self rest,
)

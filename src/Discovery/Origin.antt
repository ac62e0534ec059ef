-- ===== src/Discovery/Origin.antt =====
-- A discovery packet names the switch and the port that it left from.
use cs425a_computer_networks.Base.{ℕ, ◌≡◌, refl, arith, [], ◌∷◌, ◌++◌, false, ◌==◌, All, some}
use cs425a_computer_networks.Bytes.{Bytes}
use cs425a_computer_networks.Text.{number, split_on}
use cs425a_computer_networks.Text.Numbers.{
  IsDigitChar, digit_char, hexadecimal, decimal, int_of-hexadecimal, digits-decimal_all,
  hexadecimal-IsDigitChar,
}
use cs425a_computer_networks.Discovery.Originator.{
  Tlv, dpid_mark, is_dpid_line, read_lines, or_eight_bytes, look_in_sys_desc, or_chassis, read_port,
  originator, discovery_tlvs, new_tlv, port_id_tlv, sub_port,
}

no_break : (c : ℕ) → IsDigitChar c → (c == 10) ≡ false
no_break c (d, h, e) = rw e (unfold digit_char in ground arith)

one_line : (s : Bytes) → All (λ c. (c == 10) ≡ false) s → split_on 10 s ≡ s ∷ []
unfolding split_on
one_line [] h = refl
one_line (c ∷ s) (p, h) = rw (p, one_line s h) refl

all_unbroken : (s : Bytes) → All IsDigitChar s → All (λ c. (c == 10) ≡ false) s
all_unbroken [] h = tt
all_unbroken (c ∷ s) (p, h) = (no_break c p, all_unbroken s h)

mark_line : (n : ℕ) → split_on 10 (dpid_mark ++ hexadecimal n) ≡ (dpid_mark ++ hexadecimal n) ∷ []
mark_line n =
    one_line (dpid_mark ++ hexadecimal n) (
      refl,
      (refl, (refl, (refl, (refl, all_unbroken (hexadecimal n) (hexadecimal-IsDigitChar n))))),
    )

read_mark : (n : ℕ) → read_lines ((dpid_mark ++ hexadecimal n) ∷ []) ≡ some (number n)
unfolding read_lines is_dpid_line
read_mark n = rw (int_of-hexadecimal n) refl

pub read_port-decimal : (n : ℕ) → read_port (decimal n) ≡ some n
unfolding read_port
read_port-decimal n = rw (digits-decimal_all n).0 (rw (digits-decimal_all n).1 refl)

-- The TLV of the port in a discovery packet.
abbrev pub port_tlv : ℕ → Tlv
port_tlv port = record (new_tlv port_id_tlv) { subtype = sub_port; id = decimal port }

pub originator-discovery_tlvs :
    (dpid port : ℕ) → originator (discovery_tlvs dpid port) ≡ some (number dpid, port_tlv port)
unfolding originator discovery_tlvs look_in_sys_desc
originator-discovery_tlvs dpid port =
    rw (mark_line dpid, read_mark dpid) (unfold or_eight_bytes or_chassis in refl)

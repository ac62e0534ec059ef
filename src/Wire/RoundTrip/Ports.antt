-- ===== src/Wire/RoundTrip/Ports.antt =====
-- The messages that describe the ports of a switch, packed and unpacked again.
use mathlib.Core.List.{append_assoc}
use cs425a_computer_networks.Base.{
  ◌+◌, ◌-◌, ◌*◌, ◌/◌, ◌<◌, ◌≡◌, refl, ap, ◌∙◌, arith, List, [], ◌∷◌, ◌++◌, le→leb, length, drop,
  length-append, drop-append, All, ok,
}
use cs425a_computer_networks.Bytes.{Bytes}
use cs425a_computer_networks.Bytes.Format.{Fits, encode, read}
use cs425a_computer_networks.Bytes.Format.RoundTrip.{length-encode, write-encode, read-encode}
use cs425a_computer_networks.Wire.{FitsLayout, encode_as, pack_as-encode, unpack_as-encode}
use cs425a_computer_networks.Wire.Messages.Ports.{
  OfpPhyPort, phy_port_format, phy_port_layout, new_phy_port, pack_phy_port, unpack_phy_port,
}
use cs425a_computer_networks.Wire.Messages.Features.{
  FeaturesReply, features_format, features_values, pack_ports, unpack_ports, pack_features_reply,
  read_features_reply, unpack_features_reply,
}
use cs425a_computer_networks.Wire.RoundTrip.Fixed.{known}

abbrev encode_port : OfpPhyPort → Bytes
encode_port p = encode_as phy_port_layout p

module _ (p : OfpPhyPort) (h : FitsLayout phy_port_layout p) where
  pack_phy_port-encode : pack_phy_port p ≡ ok (encode_port p)
  unfolding pack_phy_port
  pack_phy_port-encode = rw (le→leb _ _ h.1.1.0) (pack_as-encode phy_port_layout p h)

  length-encode_port : length (encode_port p) ≡ 48
  length-encode_port = length-encode phy_port_format (phy_port_layout.values p) h

  unpack_phy_port-encode :
      (self : OfpPhyPort) (rest : Bytes) → unpack_phy_port self (encode_port p ++ rest) ≡ (p, rest)
  unfolding unpack_phy_port
  unpack_phy_port-encode self rest = unpack_as-encode phy_port_layout self p rest h

abbrev encode_ports : List OfpPhyPort → Bytes
encode_ports [] = []
encode_ports (p ∷ ports) = encode_port p ++ encode_ports ports

abbrev FitPorts : List OfpPhyPort → Type 0
FitPorts ports = All (λ p. FitsLayout phy_port_layout p) ports

pack_ports-encode :
    (ports : List OfpPhyPort) → FitPorts ports → pack_ports ports ≡ ok (encode_ports ports)
unfolding pack_ports
pack_ports-encode [] h = refl
pack_ports-encode (p ∷ ports) (h, hs) =
    rw (pack_phy_port-encode p h, pack_ports-encode ports hs) refl

length-encode_ports :
    (ports : List OfpPhyPort) → FitPorts ports → length (encode_ports ports) ≡ 48 * length ports
length-encode_ports [] h = refl
length-encode_ports (p ∷ ports) (h, hs) = omega (
  arith,
  length-append (encode_port p) (encode_ports ports),
  length-encode_port p h,
  length-encode_ports ports hs,
)

unpack_ports-encode :
    (ports : List OfpPhyPort) (rest : Bytes)
    → FitPorts ports
    → unpack_ports (length ports) (encode_ports ports ++ rest) ≡ ports
unfolding unpack_ports
unpack_ports-encode [] rest h = refl
unpack_ports-encode (p ∷ ports) rest (h, hs) =
    rw
      (
        append_assoc (encode_port p) (encode_ports ports) rest,
        unpack_phy_port-encode p h new_phy_port (encode_ports ports ++ rest),
        drop-append 48 (encode_port p) (encode_ports ports ++ rest) (length-encode_port p h),
        unpack_ports-encode ports rest hs,
      )
      refl

-- A reply whose fields and ports fit, with the length that they take.
pub record IsFeatures (s : FeaturesReply) : Type 0 where
  pub known_kind : s.header.header_type < 22
  pub fields : Fits features_format (features_values s)
  pub ports : FitPorts s.ports
  pub sized : s.header.length ≡ 32 + 48 * length s.ports

module _ (s : FeaturesReply) (is : IsFeatures s) where
  abbrev head : Bytes
  head = encode features_format (features_values s)

  length-head : length head ≡ 32
  length-head = length-encode features_format (features_values s) is.fields

  pack_features_reply-encode : pack_features_reply s ≡ ok (head ++ encode_ports s.ports)
  unfolding pack_features_reply
  pack_features_reply-encode =
      rw
        (
          known s.header is.known_kind,
          write-encode features_format (features_values s) is.fields,
          pack_ports-encode s.ports is.ports,
        )
        refl

  length-features : length (head ++ encode_ports s.ports) ≡ s.header.length
  length-features = omega (
    arith,
    length-append head (encode_ports s.ports),
    length-head,
    length-encode_ports s.ports is.ports,
    is.sized,
  )

  port_count : (s.header.length - 32) / 48 ≡ length s.ports
  port_count = omega (arith, is.sized)

  unpack_features_reply-encode :
      (self : FeaturesReply) (rest : Bytes)
      → unpack_features_reply self ((head ++ encode_ports s.ports) ++ rest) ≡ (s, rest)
  unfolding unpack_features_reply read_features_reply
  unpack_features_reply-encode self rest =
      let apart = append_assoc head (encode_ports s.ports) rest in
      let fields =
        ap (read features_format) apart
        ∙ read-encode features_format (features_values s) (encode_ports s.ports ++ rest)
            is.fields in
      let behind =
        ap (drop 32) apart ∙ drop-append 32 head (encode_ports s.ports ++ rest) length-head in
      rw
        (
          fields,
          drop-append s.header.length (head ++ encode_ports s.ports) rest length-features,
          behind,
          port_count,
          unpack_ports-encode s.ports rest is.ports,
        )
        refl

-- A features reply whose fields and ports fit, and whose header has its length, is packed, and
-- unpacking the bytes gives it back with all its ports, and the bytes behind it.
pub unpack_features_reply-pack_features_reply :
    (s self : FeaturesReply) (rest : Bytes)
    → IsFeatures s
    → (bytes : Bytes) × (pack_features_reply s ≡ ok bytes)
      × (length bytes ≡ s.header.length)
      × (unpack_features_reply self (bytes ++ rest) ≡ (s, rest))
unpack_features_reply-pack_features_reply s self rest is = (
  head s is ++ encode_ports s.ports,
  pack_features_reply-encode s is,
  length-features s is,
  unpack_features_reply-encode s is self rest,
)

-- ===== src/Headers/Checksum.antt =====
-- The checksum of a header with its own checksum in it.
use cs425a_computer_networks.Base.{
  ℕ, ◌+◌, ◌-◌, ◌*◌, ◌/◌, ◌%◌, ◌^◌, ◌<◌, ◌≡◌, refl, ◌∙◌, arith, List, [], ◌∷◌, ◌++◌, length, ok,
}
use cs425a_computer_networks.Bytes.{Bytes, be16, be32, pack_u8}
use cs425a_computer_networks.Bytes.RoundTrip.{pack_u16-be16, pack_u32-be32}
use cs425a_computer_networks.Headers.Ipv4.{
  sum_words, fold_sum, ntohs, checksum, Ipv4, flags_or_frag, pack_ipv4, hdr_ipv4,
}

-- The two bytes of each word, in order.
unfoldable pub word_bytes : List (ℕ × ℕ) → Bytes
word_bytes [] = []
word_bytes ((a, b) ∷ ws) = a ∷ b ∷ word_bytes ws

sum_words-append :
    (ws : List (ℕ × ℕ)) (rest : Bytes)
    → sum_words (word_bytes ws ++ rest) ≡ sum_words (word_bytes ws) + sum_words rest
unfolding sum_words word_bytes
sum_words-append [] rest = omega arith
sum_words-append ((a, b) ∷ ws) rest = omega (arith, sum_words-append ws rest)

-- Adding the complement of a folded sum gives a sum that folds to 65535.
fold_sum-complement :
    (s : ℕ) → s < 2 ^ 31 → fold_sum (s + (65535 - fold_sum s % 2 ^ 16)) % 2 ^ 16 ≡ 65535
unfolding fold_sum
fold_sum-complement s h = omega arith

ntohs-bytes : (x : ℕ) → x < 2 ^ 16 → ntohs x / 256 + ntohs x % 256 * 256 ≡ x
unfolding ntohs
ntohs-bytes x h = omega arith

sum_words-checksum :
    (front : List (ℕ × ℕ)) (back : Bytes) (x : ℕ)
    → x < 2 ^ 16
    → sum_words (word_bytes front ++ (be16 (ntohs x) ++ back))
      ≡ sum_words (word_bytes front ++ (0 ∷ 0 ∷ back)) + x
unfolding sum_words be16
sum_words-checksum front back x h = omega (
  arith,
  sum_words-append front (ntohs x / 256 ∷ ntohs x % 256 ∷ back),
  sum_words-append front (0 ∷ 0 ∷ back),
  ntohs-bytes x h,
)

-- Data of less than 2 ^ 31 in words, with two zero bytes on a word boundary: once they are replaced by
-- the checksum of the data, the checksum of the result is 0.
pub checksum-checksum :
    (front : List (ℕ × ℕ)) (back : Bytes)
    → sum_words (word_bytes front ++ (0 ∷ 0 ∷ back)) < 2 ^ 31
    → checksum (word_bytes front ++ (be16 (checksum (word_bytes front ++ (0 ∷ 0 ∷ back))) ++ back))
      ≡ 0
unfolding checksum
checksum-checksum front back h =
    let s = sum_words (word_bytes front ++ (0 ∷ 0 ∷ back)) in
    rw
      (
        sum_words-checksum front back (65535 - fold_sum s % 2 ^ 16) (omega arith),
        fold_sum-complement s h,
      )
      (unfold ntohs in refl)

-- The words before the checksum of a header, and the bytes behind it.
header_front : Ipv4 → List (ℕ × ℕ)
header_front p =
    (p.version * 16 + p.hl, p.tos)
    ∷ (p.iplen / 256, p.iplen % 256)
    ∷ (p.id / 256, p.id % 256)
    ∷ (flags_or_frag p.flags p.frag / 256, flags_or_frag p.flags p.frag % 256)
    ∷ (p.ttl, p.protocol)
    ∷ []

header_back : Ipv4 → Bytes
header_back p = be32 p.srcip ++ be32 p.dstip

-- The fields of a header are in range.
pub record IsHeader (p : Ipv4) : Type 0 where
  pub version_range : p.version * 16 + p.hl < 256
  pub tos_range : p.tos < 256
  pub iplen_range : p.iplen < 2 ^ 16
  pub id_range : p.id < 2 ^ 16
  pub frag_range : flags_or_frag p.flags p.frag < 2 ^ 16
  pub ttl_range : p.ttl < 256
  pub protocol_range : p.protocol < 256
  pub srcip_range : p.srcip < 2 ^ 32
  pub dstip_range : p.dstip < 2 ^ 32

pack_u8_fits : (n : ℕ) → n < 256 → pack_u8 n ≡ ok (n ∷ [])
unfolding pack_u8
pack_u8_fits n h = ground arith

pack_ipv4-front :
    (csum : ℕ) (p : Ipv4)
    → IsHeader p
    → csum < 2 ^ 16
    → pack_ipv4 csum p ≡ ok (word_bytes (header_front p) ++ (be16 csum ++ header_back p))
unfolding pack_ipv4 header_front header_back word_bytes
pack_ipv4-front csum p h hc =
    rw
      (
        pack_u8_fits (p.version * 16 + p.hl) h.version_range,
        pack_u8_fits p.tos h.tos_range,
        pack_u16-be16 p.iplen h.iplen_range,
        pack_u16-be16 p.id h.id_range,
        pack_u16-be16 (flags_or_frag p.flags p.frag) h.frag_range,
        pack_u8_fits p.ttl h.ttl_range,
        pack_u8_fits p.protocol h.protocol_range,
        pack_u16-be16 csum hc,
        pack_u32-be32 p.srcip h.srcip_range,
        pack_u32-be32 p.dstip h.dstip_range,
      )
      (unfold be16 in refl)

checksum_range : (bytes : Bytes) → checksum bytes < 2 ^ 16
unfolding checksum ntohs
checksum_range bytes = omega arith

header_small :
    (p : Ipv4)
    → IsHeader p
    → sum_words (word_bytes (header_front p) ++ (0 ∷ 0 ∷ header_back p)) < 2 ^ 31
unfolding sum_words word_bytes header_front header_back be32
header_small p h = omega (
  arith, h.version_range, h.tos_range, h.iplen_range, h.id_range, h.frag_range, h.ttl_range,
  h.protocol_range, h.srcip_range, h.dstip_range,
)

-- If the fields of an IP packet, with the length set for its payload, are in range, `hdr` writes a
-- header, and the checksum of this header is 0.
pub checksum-hdr_ipv4 :
    (payload : Bytes) (p : Ipv4)
    → IsHeader (record p { iplen = p.hl * 4 + length payload })
    → (header : Bytes) × (hdr_ipv4 payload p ≡ ok header) × (checksum header ≡ 0)
unfolding hdr_ipv4
checksum-hdr_ipv4 payload p h =
    let p' : Ipv4 = record p { iplen = p.hl * 4 + length payload } in
    let blank : Bytes = word_bytes (header_front p') ++ (0 ∷ 0 ∷ header_back p') in
    let e0 : pack_ipv4 0 p' ≡ ok blank =
      pack_ipv4-front 0 p' h (omega arith) ∙ (unfold be16 in refl) in
    (
      word_bytes (header_front p') ++ (be16 (checksum blank) ++ header_back p'),
      rw e0 (pack_ipv4-front (checksum blank) p' h (checksum_range blank)),
      checksum-checksum (header_front p') (header_back p') (header_small p' h),
    )

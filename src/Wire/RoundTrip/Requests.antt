-- ===== src/Wire/RoundTrip/Requests.antt =====
-- Requests for the statistics of flows, packed and unpacked again.
use mathlib.Core.List.{append_assoc, append-nil}
use cs425a_computer_networks.Base.{
  ℕ, ◌^◌, ◌<◌, ◌≡◌, refl, sym, ap, ◌∙◌, arith, [], ◌∷◌, ◌++◌, false, ltb, length, drop,
  length-append, drop-append, some, ok, err, index_error,
}
use cs425a_computer_networks.Bytes.{Bytes}
use cs425a_computer_networks.Bytes.Format.{Values, encode, read, ◌&◌}
use cs425a_computer_networks.Bytes.Format.RoundTrip.{length-encode, write-encode, read-encode}
use cs425a_computer_networks.Wire.Match.{unpack_match}
use cs425a_computer_networks.Wire.Match.RoundTrip.{
  IsInRange, IsEffective, encode_match, pack_match-encode, length-encode_match,
  unpack_match-encode_plain,
}
use cs425a_computer_networks.Wire.Stats.Flows.{
  FlowStatsRequest, stats_request_format, pack_flow_stats_request, read_stats_request, byte_behind,
  unpack_flow_stats_request, unpack_aggregate_stats_request,
}

-- A request whose fields fit, with a match that has no field without a meaning.
pub record IsRequest (s : FlowStatsRequest) : Type 0 where
  pub matching : IsInRange s.matching
  pub effective : IsEffective s.matching
  pub table_id : s.table_id < 2 ^ 8
  pub out_port : s.out_port < 2 ^ 16

module _ (s : FlowStatsRequest) (is : IsRequest s) where
  abbrev a : Bytes
  a = encode_match s.matching false

  abbrev values : Values stats_request_format
  values = s.table_id & 0 & s.out_port & tt

  abbrev bytes : Bytes
  bytes = a ++ encode stats_request_format values

  length-a : length a ≡ 40
  length-a = length-encode_match s.matching is.matching false

  length-bytes : length bytes ≡ 44
  length-bytes = omega (
    arith,
    length-append a (encode stats_request_format values),
    length-a,
    length-encode stats_request_format values (is.table_id, (omega arith, (is.out_port, tt))),
  )

  pack_request-bytes : pack_flow_stats_request s ≡ ok bytes
  unfolding pack_flow_stats_request
  pack_request-bytes =
      rw
        (
          pack_match-encode s.matching is.matching false,
          write-encode stats_request_format values (is.table_id, (omega arith, (is.out_port, tt))),
        )
        refl

  module _ (self : FlowStatsRequest) (rest : Bytes) where
    long : ltb (length (bytes ++ rest)) 44 ≡ false
    long = ground (arith, length-append bytes rest, length-bytes)

    apart : bytes ++ rest ≡ a ++ (encode stats_request_format values ++ rest)
    apart = append_assoc a (encode stats_request_format values) rest

    match-back :
        unpack_match false self.matching (bytes ++ rest)
        ≡ (s.matching, encode stats_request_format values ++ rest)
    match-back =
        ap (unpack_match false self.matching) apart
        ∙ unpack_match-encode_plain s.matching is.matching is.effective self.matching
            (encode stats_request_format values ++ rest)

    fields-back : read stats_request_format (drop 40 (bytes ++ rest)) ≡ some (values, rest)
    fields-back =
        ap (λ r. read stats_request_format (drop 40 r)) apart
        ∙ ap (read stats_request_format)
            (drop-append 40 a (encode stats_request_format values ++ rest) length-a)
        ∙ read-encode stats_request_format values rest
            (is.table_id, (omega arith, (is.out_port, tt)))

    unpack_flow-bytes : unpack_flow_stats_request self (bytes ++ rest) ≡ byte_behind s rest
    unfolding unpack_flow_stats_request read_stats_request
    unpack_flow-bytes =
        rw (long, match-back, fields-back, drop-append 44 bytes rest length-bytes) refl

    unpack_aggregate-bytes : unpack_aggregate_stats_request self (bytes ++ rest) ≡ (s, rest)
    unfolding unpack_aggregate_stats_request read_stats_request
    unpack_aggregate-bytes =
        rw (long, match-back, fields-back, drop-append 44 bytes rest length-bytes) refl

-- A request for the statistics of flows whose fields fit and whose match has no field without a
-- meaning is packed to 44 bytes. Unpacking just these bytes raises an IndexError; with bytes behind
-- them the request is read back, but only the first of those is returned. As a request for aggregate
-- statistics the same bytes are read back, and all the bytes behind them are returned.
pub unpack_flow_stats_request-pack_flow_stats_request :
    (s self : FlowStatsRequest)
    → IsRequest s
    → (bytes : Bytes) × (pack_flow_stats_request s ≡ ok bytes)
      × (length bytes ≡ 44)
      × (unpack_flow_stats_request self bytes ≡ err index_error)
      × ((c : ℕ) (rest : Bytes)
          → unpack_flow_stats_request self (bytes ++ (c ∷ rest)) ≡ ok (s, c ∷ []))
      × ((rest : Bytes) → unpack_aggregate_stats_request self (bytes ++ rest) ≡ (s, rest))
unpack_flow_stats_request-pack_flow_stats_request s self is = (
  bytes s is,
  pack_request-bytes s is,
  length-bytes s is,
  ap (unpack_flow_stats_request self) (sym (append-nil (bytes s is)))
      ∙ unpack_flow-bytes s is self []
      ∙ unfold byte_behind in refl,
  λ c rest. unpack_flow-bytes s is self (c ∷ rest) ∙ unfold byte_behind in refl,
  λ rest. unpack_aggregate-bytes s is self rest,
)

-- ===== src/OpenFlow/Connection/Messages.antt =====
-- The messages that a controller sends, as `pack` writes them and as the read loop's classes unpack
-- them: `make_type_to_class_table` of Project-4/pox/pox/openflow/util.py for their types.
use cs425a_computer_networks.Base.{
  ℕ, ◌≡◌, Option, none, some, ◌==◌, Result, ok, ◌>>=◌, ltb, if◌then◌else◌,
}
use cs425a_computer_networks.Bytes.{Bytes}
use cs425a_computer_networks.Wire.{Header}
use cs425a_computer_networks.Wire.Messages.Symmetric.{
  Hello, pack_hello, unpack_hello, new_hello, FeaturesRequest, pack_features_request,
  unpack_features_request, new_features_request, BarrierRequest, pack_barrier_request,
  unpack_barrier_request, new_barrier_request,
}
use cs425a_computer_networks.Wire.Messages.Config.{
  SetConfig, pack_set_config, unpack_set_config, new_set_config,
}
use cs425a_computer_networks.Wire.Messages.FlowMod.{
  OfpFlowMod, new_ofp_flow_mod, pack_flow_mod, unpack_flow_mod,
}
use cs425a_computer_networks.Wire.Messages.PacketOut.{
  OfpPacketOut, new_packet_out, pack_packet_out, unpack_packet_out,
}
use cs425a_computer_networks.Wire.RoundTrip.FlowMod.{IsFlowMod, sent_flow_mod}
use cs425a_computer_networks.Wire.RoundTrip.PacketOut.{IsPacketOut, sent_packet_out}
use cs425a_computer_networks.Wire.RoundTrip.Objects.{
  a_hello, a_features_request, a_set_config, a_barrier_request, IsSendable,
}

pub data OfpMessage : Type 0 where
  hello : Hello → OfpMessage
  features_request : FeaturesRequest → OfpMessage
  set_config : SetConfig → OfpMessage
  packet_out : OfpPacketOut → OfpMessage
  flow_mod : OfpFlowMod → OfpMessage
  barrier_request : BarrierRequest → OfpMessage

abbrev pub message_type : OfpMessage → ℕ
message_type (hello x) = 0
message_type (features_request x) = 5
message_type (set_config x) = 9
message_type (packet_out x) = 13
message_type (flow_mod x) = 14
message_type (barrier_request x) = 18

unfoldable pub pack_message : OfpMessage → Result Bytes
pack_message (hello x) = pack_hello x
pack_message (features_request x) = pack_features_request x
pack_message (set_config x) = pack_set_config x
pack_message (packet_out x) = pack_packet_out x
pack_message (flow_mod x) = pack_flow_mod x
pack_message (barrier_request x) = pack_barrier_request x

-- The message of an `unpack`, without the bytes behind it.
abbrev pub unpacked_as {ℓ} :
    {X : Type ℓ} → (X → OfpMessage) → Result (X × Bytes) → Result OfpMessage
unpacked_as message r = do (x, rest) ← r; ok (message x)

-- A new object of the class for a type unpacks the buffer; `others` are the classes for the types of
-- the messages that are not here.
unfoldable pub class_table :
    (ℕ → Option (Bytes → Result OfpMessage)) → ℕ → Option (Bytes → Result OfpMessage)
class_table others t =
    if t == 0
    then some (λ b. ok (hello (unpack_hello new_hello b).0))
    else if t == 5
    then some (λ b. ok (features_request (unpack_features_request new_features_request b).0))
    else if t == 9
    then some (λ b. ok (set_config (unpack_set_config new_set_config b).0))
    else if t == 13
    then some (λ b. unpacked_as packet_out (unpack_packet_out new_packet_out b))
    else if t == 14
    then some (λ b. unpacked_as flow_mod (unpack_flow_mod new_ofp_flow_mod b))
    else if t == 18
    then some (λ b. ok (barrier_request (unpack_barrier_request new_barrier_request b).0))
    else if ltb t 21
    then others t
    else none

-- What the other side gets.
abbrev pub sent_message : OfpMessage → OfpMessage
sent_message (packet_out s) = packet_out (sent_packet_out s)
sent_message (flow_mod s) = flow_mod (sent_flow_mod s)
sent_message m = m

-- The header of a new object of the class, but for its xid.
abbrev pub IsHeaderOf : Header → ℕ → ℕ → Type 0
IsHeaderOf h t size = (h.version ≡ 1) × (h.header_type ≡ t) × (h.length ≡ size)

-- The fields fit, and the header is that of the class.
abbrev pub IsMessage : OfpMessage → Type 0
IsMessage (hello x) = IsSendable a_hello x × IsHeaderOf x.header 0 8
IsMessage (features_request x) = IsSendable a_features_request x × IsHeaderOf x.header 5 8
IsMessage (set_config x) = IsSendable a_set_config x × IsHeaderOf x.header 9 12
IsMessage (packet_out s) = IsPacketOut s × (s.header.version ≡ 1) × (s.header.header_type ≡ 13)
IsMessage (flow_mod s) = IsFlowMod s × (s.header.version ≡ 1) × (s.header.header_type ≡ 14)
IsMessage (barrier_request x) = IsSendable a_barrier_request x × IsHeaderOf x.header 18 8

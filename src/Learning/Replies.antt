-- ===== src/Learning/Replies.antt =====
-- What a learning switch sends for one packet.
use cs425a_computer_networks.Base.{
  ℕ, nat_key, map, ◌≡◌, refl, List, [], ◌∷◌, true, false, ◌==◌, Option, none, some, All, Dict,
  lookup, Option-cases, Bool-cases, inl, inr,
}
use cs425a_computer_networks.Addresses.{eth_of_int, is_multicast}
use cs425a_computer_networks.OpenFlow.FlowTable.{Action}
use cs425a_computer_networks.Learning.{
  LearningSwitch, PacketIn, Sent, packet_out, flow_mod, new_flow_mod, flood, drop_packet, forward,
  decide, handle_learning, is_link_local,
}

-- The buffer that a message frees, and its actions.
unfoldable pub freed : Sent → Option ℕ
freed (packet_out id port actions) = id
freed (flow_mod m) = m.buffer_id

unfoldable pub actions_of : Sent → List Action
actions_of (packet_out id port actions) = actions
actions_of (flow_mod m) = m.actions

module _ (id : ℕ) (event : PacketIn) (buffered : event.buffer_id ≡ some id) where
  freed-flood : map freed (flood event) ≡ some id ∷ []
  unfolding flood freed
  freed-flood = rw buffered refl

  freed-drop_packet : (duration : Option ℕ) → map freed (drop_packet duration event) ≡ some id ∷ []
  unfolding drop_packet freed new_flow_mod
  freed-drop_packet none = rw buffered refl
  freed-drop_packet (some duration) = rw buffered refl

  freed-forward : (port : ℕ) → map freed (forward port event) ≡ some id ∷ []
  unfolding forward freed new_flow_mod
  freed-forward port = elim (Bool-cases (port == event.port)) [
    | inl same ↦ rw same (freed-drop_packet (some 10))
    | inr other ↦ rw (other, freed, new_flow_mod, buffered) refl
  ]

  freed-decide : (table : Dict ℕ ℕ) → map freed (decide table event) ≡ some id ∷ []
  unfolding decide
  freed-decide table = elim (Bool-cases (is_multicast (eth_of_int event.packet.dst))) [
    | inl y ↦ rw y freed-flood
    | inr n ↦ elim (Option-cases (lookup event.packet.dst table)) [
      | inl missing ↦ rw (n, missing) freed-flood
      | inr (port, found) ↦ rw (n, found) (freed-forward port)
    ]
  ]

  -- For a packet that is buffered in the switch, the learning switch sends exactly one message,
  -- and it frees the buffer.
  pub freed-handle_learning :
      (s : LearningSwitch) → map freed (handle_learning s event).1 ≡ some id ∷ []
  unfolding handle_learning
  freed-handle_learning s = elim (Bool-cases s.transparent) [
    | inl y ↦ rw y (freed-decide _)
    | inr n ↦ elim (Bool-cases (is_link_local event.packet)) [
      | inl local ↦ rw (n, local) (freed-drop_packet none)
      | inr other ↦ rw (n, other) (freed-decide _)
    ]
  ]

-- A learning switch that is not transparent lets no link-local packet out of any port: no message
-- that it sends for one has an action.
pub actions_of-handle_learning_local :
    (s : LearningSwitch) (event : PacketIn)
    → s.transparent ≡ false
    → is_link_local event.packet ≡ true
    → All (λ m. actions_of m ≡ []) (handle_learning s event).1
unfolding actions_of handle_learning drop_packet
actions_of-handle_learning_local s event opaque local =
    rw (opaque, local)
      (elim (Option-cases event.buffer_id) [
        | inl none' ↦ rw none' tt
        | inr (id, some') ↦ rw some' (refl, tt)
      ])

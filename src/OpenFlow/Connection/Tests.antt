-- ===== src/OpenFlow/Connection/Tests.antt =====
-- A flow mod and a barrier request that a connection reads, and the theorems at them.
use cs425a_computer_networks.Base.{
  ℕ, ◌≡◌, refl, List, [], ◌∷◌, ◌++◌, ◌==◌, if◌then◌else◌, Bool, true, false, none, Option, Result,
  index_error,
}
use cs425a_computer_networks.Bytes.{Bytes}
use cs425a_computer_networks.Wire.Actions.Plain.{new_output}
use cs425a_computer_networks.Wire.Actions.Union.{act_output}
use cs425a_computer_networks.Wire.Messages.Symmetric.{new_barrier_request}
use cs425a_computer_networks.Wire.Messages.FlowMod.{OfpFlowMod, new_ofp_flow_mod}
use cs425a_computer_networks.OpenFlow.Connection.{
  read_loop, unpack_message, read_message, handle_message, raised, stopped,
}
use cs425a_computer_networks.OpenFlow.Connection.Messages.{
  OfpMessage, flow_mod, barrier_request, class_table,
}

abbrev no_others : ℕ → Option (Bytes → Result OfpMessage)
no_others t = none

-- Handlers that keep the messages they get; there is none for type 0.
abbrev keep : ℕ → OfpMessage → List OfpMessage → List OfpMessage × Bool
keep t m kept = if t == 0 then (kept, false) else (kept ++ (m ∷ []), true)

abbrev a_flow : OfpFlowMod
a_flow = record new_ofp_flow_mod { actions = act_output (record new_output { port = 2 }) ∷ [] }

abbrev both : List OfpMessage
both = flow_mod a_flow ∷ barrier_request new_barrier_request ∷ []

-- Type 21 has no class in the list.
type_21_raises :
    read_loop (class_table no_others) keep 1 (1 ∷ 21 ∷ 0 ∷ 8 ∷ 0 ∷ 0 ∷ 0 ∷ 1 ∷ []) []
    ≡ record { state = []; left = 1 ∷ 21 ∷ 0 ∷ 8 ∷ 0 ∷ 0 ∷ 0 ∷ 1 ∷ []; ending = raised index_error }
unfolding read_loop unpack_message read_message class_table
type_21_raises = refl

-- A message without a handler is taken off the buffer.
hello_stops :
    read_loop (class_table no_others) keep 1 (1 ∷ 0 ∷ 0 ∷ 8 ∷ 0 ∷ 0 ∷ 0 ∷ 1 ∷ []) []
    ≡ record { state = []; left = []; ending = stopped }
unfolding read_loop unpack_message read_message handle_message class_table
hello_stops = refl

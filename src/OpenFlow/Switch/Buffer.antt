-- ===== src/OpenFlow/Switch/Buffer.antt =====
-- `_buffer_packet`.
use cs425a_computer_networks.Base.{ℕ, ◌+◌, List, [], ◌∷◌, Option, none, some}
use cs425a_computer_networks.OpenFlow.Switch.{Held, Switch}

-- The loop, from index `i` on, and the `append` behind it. The new buffer and the buffer id.
unfoldable pub fill_slot : Held → ℕ → List (Option Held) → List (Option Held) × ℕ
fill_slot v i [] = (some v ∷ [], i + 1)
fill_slot v i (none ∷ slots) = (some v ∷ slots, i + 1)
fill_slot v i (some w ∷ slots) =
    let (slots', id) = fill_slot v (i + 1) slots in (some w ∷ slots', id)

unfoldable pub buffer_packet : Held → Switch → Switch × ℕ
buffer_packet v s =
    let (slots, id) = fill_slot v 0 s.packet_buffer in (record s { packet_buffer = slots }, id)

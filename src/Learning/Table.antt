-- ===== src/Learning/Table.antt =====
-- The table of addresses and ports of a learning switch.
use cs425a_computer_networks.Base.{
  ℕ, ◌≡◌, refl, ◌∙◌, arith, List, [], ◌∷◌, ◌==◌, if◌then◌else◌, Option, some, lookup, insert,
  lookup-insert, nat_key,
}
use cs425a_computer_networks.Learning.{LearningSwitch, PacketIn, handle_learning, handle_all}

pub mac_to_port-handle_learning :
    (s : LearningSwitch) (event : PacketIn)
    → (handle_learning s event).0.mac_to_port ≡ insert event.packet.src event.port s.mac_to_port
unfolding handle_learning
mac_to_port-handle_learning s event = ground arith

-- The port of the last packet from an address; `found` where there is none.
unfoldable pub last_port : ℕ → List PacketIn → Option ℕ → Option ℕ
last_port mac [] found = found
last_port mac (event ∷ events) found =
    last_port mac events (if event.packet.src == mac then some event.port else found)

-- After any packets the table of a learning switch has an address at the port where the last
-- packet from it came in, and where there was none, what it had before.
pub lookup-handle_all :
    (events : List PacketIn) (s : LearningSwitch) (mac : ℕ)
    → lookup mac (handle_all s events).mac_to_port ≡ last_port mac events (lookup mac s.mac_to_port)
unfolding handle_all last_port
lookup-handle_all [] s mac = refl
lookup-handle_all (event ∷ events) s mac =
    lookup-handle_all events (handle_learning s event).0 mac
    ∙ rw
        (
          mac_to_port-handle_learning s event,
          lookup-insert event.packet.src mac event.port s.mac_to_port,
        )
        refl

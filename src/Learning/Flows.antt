-- ===== src/Learning/Flows.antt =====
-- The flows that a learning switch installs, in the flow table of the switch.
use cs425a_computer_networks.Base.{
  ℕ, nat_key, ◌≡◌, refl, ◌∙◌, arith, List, [], ◌∷◌, Bool, true, false, not, ◌||◌, ◌==◌, none, some,
  Dict, lookup, ok, insert,
}
use cs425a_computer_networks.Addresses.{eth_of_int, is_multicast}
use cs425a_computer_networks.OpenFlow.Match.{Match}
use cs425a_computer_networks.OpenFlow.Match.Packets.{from_packet}
use cs425a_computer_networks.OpenFlow.FlowTable.{
  Action, output, TableEntry, Table, Processed, added, from_flow_mod, add_entry, process_flow_mod,
  run_command, remove_matching_entries, first_match, select, entry_for_packet,
}
use cs425a_computer_networks.OpenFlow.FlowTable.Sorting.{IsSorted}
use cs425a_computer_networks.OpenFlow.FlowTable.Removal.{
  DistinctEntries, remove_matching_entries_lem,
}
use cs425a_computer_networks.OpenFlow.FlowTable.Mods.{remove_matching_entries-IsSorted}
use cs425a_computer_networks.OpenFlow.FlowTable.Lookup.{entry_for_packet-add_entry}
use cs425a_computer_networks.Learning.{
  LearningSwitch, PacketIn, flow_mod, new_flow_mod, forward, decide, handle_learning, is_link_local,
}
use cs425a_computer_networks.Learning.Matches.{matches-from_packet}

first_match-select :
    (pm : Match) (test : TableEntry → Bool) (t : Table)
    → first_match pm t ≡ none
    → first_match pm (select test t) ≡ none
unfolding first_match select
first_match-select pm test [] h = refl
first_match-select pm test (x ∷ xs) h = ground (arith, first_match-select pm test xs)

-- If no flow of a sorted table of distinct entries lets a packet pass, then once the table has
-- processed a flow mod that a learning switch made for the packet, without an exception, the
-- packet finds the new flow.
pub entry_for_packet-process_flow_mod :
    (event : PacketIn) (idle hard : ℕ) (actions : List Action) (in_port identity now : ℕ)
    (t : Table)
    → IsSorted t
    → DistinctEntries t
    → entry_for_packet event.packet in_port t ≡ none
    → let m = new_flow_mod event idle hard actions in
      (r : Processed) × (process_flow_mod m identity now t ≡ ok r)
      × (entry_for_packet event.packet in_port r.table ≡ some (from_flow_mod identity now m))
unfolding process_flow_mod run_command new_flow_mod from_flow_mod
entry_for_packet-process_flow_mod event idle hard actions in_port identity now t h distinct missed =
    let m = new_flow_mod event idle hard actions in
    let pm = from_packet event.packet (some in_port) in
    let e = from_flow_mod identity now m in
    let t' = (remove_matching_entries m.matching m.priority true t).0 in
    let missed' : entry_for_packet event.packet in_port t' ≡ none =
      rw (remove_matching_entries_lem m.matching m.priority true t distinct) (
        unfold entry_for_packet in first_match-select pm _ t (unfold entry_for_packet in missed)) in
    (
      record { table = add_entry e t'; verb = added; affected = [] },
      refl,
      entry_for_packet-add_entry event.packet in_port e t'
            (remove_matching_entries-IsSorted m.matching m.priority true t h)
          ∙ rw (missed', matches-from_packet event.packet (some in_port)) refl,
    )

decide_known :
    (event : PacketIn) (port : ℕ) (table : Dict ℕ ℕ)
    → is_multicast (eth_of_int event.packet.dst) ≡ false
    → lookup event.packet.dst table ≡ some port
    → (port == event.port) ≡ false
    → decide table event ≡ flow_mod (new_flow_mod event 10 30 (output port ∷ [])) ∷ []
unfolding decide forward
decide_known event port table unicast known other = rw (unicast, known, other) refl

-- The packet is to be forwarded: the switch is transparent, or the packet is not link-local.
pub handle_learning-decide :
    (s : LearningSwitch) (event : PacketIn)
    → (s.transparent || not (is_link_local event.packet)) ≡ true
    → (handle_learning s event).1 ≡ decide (insert event.packet.src event.port s.mac_to_port) event
unfolding handle_learning
handle_learning-decide s event allowed = ground arith

-- A packet to an address that is known at another port, not link-local in a switch that is not
-- transparent and not multicast: the switch installs one flow to that port for ten seconds of
-- silence and thirty in all.
pub handle_learning_known :
    (s : LearningSwitch) (event : PacketIn) (port : ℕ)
    → (s.transparent || not (is_link_local event.packet)) ≡ true
    → is_multicast (eth_of_int event.packet.dst) ≡ false
    → lookup event.packet.dst (insert event.packet.src event.port s.mac_to_port) ≡ some port
    → (port == event.port) ≡ false
    → (handle_learning s event).1 ≡ flow_mod (new_flow_mod event 10 30 (output port ∷ [])) ∷ []
handle_learning_known s event port allowed unicast known other =
    handle_learning-decide s event allowed
    ∙ decide_known event port (insert event.packet.src event.port s.mac_to_port) unicast known other

-- ===== src/OpenFlow/FlowTable/Tests.antt =====
-- A small table, and the theorems at it.
use cs425a_computer_networks.Base.{
  ℕ, ◌≤◌, ◌≡◌, refl, arith, [], ◌∷◌, false, not, All, none, some, ok, inl,
}
use cs425a_computer_networks.OpenFlow.Match.{
  any_match, is_wildcarded, match_eq, matches_with_wildcards, opt_eq, fields_cover, bits_cover,
  match_fail, match_fail_eth, nw_covers, nw_addr, nw_bits, bit_covers, get_nw_src, get_nw_dst,
}
use cs425a_computer_networks.Addresses.{in_network}
use cs425a_computer_networks.OpenFlow.Match.Packets.{
  Packet, from_packet, no_vlan, no_network, match_tag, match_network,
}
use cs425a_computer_networks.OpenFlow.FlowTable.{
  output, TableEntry, Table, FlowMod, add, delete, Processed, removed, sort_key, sort_in,
  sort_table, add_entry, select, is_expired, from_flow_mod, first_match, entry_for_packet,
  remove_expired_entries, process_flow_mod,
}
use cs425a_computer_networks.OpenFlow.FlowTable.Sorting.{
  IsSorted, add_entry-insert_after, insert_after,
}
use cs425a_computer_networks.OpenFlow.FlowTable.Removal.{
  DistinctEntries, remove_expired_entries_lem,
}
use cs425a_computer_networks.OpenFlow.FlowTable.Lookup.{
  Passes, with_new, entry_for_packet-add_entry, entry_for_packet_best,
}
use cs425a_computer_networks.OpenFlow.FlowTable.Mods.{process_flow_mod-IsSorted}
use cs425a_computer_networks.OpenFlow.FlowTable.Commands.{
  IsSupported, same_flow, process_flow_mod_delete, process_flow_mod_add,
}

abbrev entry : ℕ → ℕ → TableEntry
entry identity priority = record {
  identity = identity;
  counters = record { created = 10; last_touched = 10; bytes = 0; packets = 0 };
  priority = priority;
  cookie = 0;
  idle_timeout = 5;
  hard_timeout = 0;
  matching = any_match;
  actions = output 1 ∷ [];
  buffer_id = none;
}

abbrev table : Table
table = entry 1 300 ∷ entry 2 200 ∷ entry 3 200 ∷ []

abbrev packet : Packet
packet = record { src = 1; dst = 2; eth_type = 0x0806; tag = no_vlan; next = no_network }

abbrev mod_of : FlowMod
mod_of = record {
  command = add;
  matching = any_match;
  priority = 200;
  cookie = 0;
  idle_timeout = 0;
  hard_timeout = 0;
  actions = output 2 ∷ [];
  buffer_id = none;
  out_port = 0xffff;
  check_overlap = false;
}

table-IsSorted : IsSorted table
unfolding sort_key is_wildcarded
table-IsSorted = omega arith

table-DistinctEntries : DistinctEntries table
table-DistinctEntries = ((refl, (refl, tt)), ((refl, tt), (tt, tt)))

mod_of-IsSupported : IsSupported mod_of
mod_of-IsSupported = record { no_check = refl; no_port = refl }

-- The new entry of priority 200 stands behind the two old ones.
added_last :
    add_entry (entry 4 200) table ≡ entry 1 300 ∷ entry 2 200 ∷ entry 3 200 ∷ entry 4 200 ∷ []
unfolding add_entry sort_table sort_in sort_key is_wildcarded
added_last = refl

found_first : entry_for_packet packet 7 table ≡ some (entry 1 300)
unfolding entry_for_packet first_match from_packet match_tag match_network matches_with_wildcards
    match_eq fields_cover bits_cover match_fail match_fail_eth nw_covers nw_addr nw_bits opt_eq
    bit_covers get_nw_src get_nw_dst in_network
found_first = refl

add_entry-insert_after_example : add_entry (entry 4 200) table ≡ insert_after (entry 4 200) table
add_entry-insert_after_example = add_entry-insert_after (entry 4 200) table table-IsSorted

entry_for_packet-add_entry_example :
    entry_for_packet packet 7 (add_entry (entry 4 400) table)
    ≡ with_new (from_packet packet (some 7)) (entry 4 400) (entry_for_packet packet 7 table)
entry_for_packet-add_entry_example =
    entry_for_packet-add_entry packet 7 (entry 4 400) table table-IsSorted

entry_for_packet_best_example :
    Passes (from_packet packet (some 7)) (entry 1 300)
    × All (λ x. Passes (from_packet packet (some 7)) x → sort_key x ≤ sort_key (entry 1 300)) table
entry_for_packet_best_example =
    entry_for_packet_best packet 7 table (entry 1 300) table-IsSorted found_first

remove_expired_entries_lem_example :
    remove_expired_entries 20 table
    ≡ (select (λ e. not (is_expired 20 e)) table, select (is_expired 20) table)
remove_expired_entries_lem_example = remove_expired_entries_lem 20 table table-DistinctEntries

abbrev delete_mod : FlowMod
delete_mod = record mod_of { command = delete }

delete_result :
    process_flow_mod delete_mod 9 30 table
    ≡ ok (record {
      table = select (λ e. not (same_flow delete_mod e)) table;
      verb = removed;
      affected = select (same_flow delete_mod) table;
    })
delete_result =
    process_flow_mod_delete delete_mod 9 30 table (record { no_check = refl; no_port = refl })
      table-DistinctEntries (inl refl)

process_flow_mod-IsSorted_example : IsSorted (select (λ e. not (same_flow delete_mod e)) table)
process_flow_mod-IsSorted_example =
    process_flow_mod-IsSorted delete_mod 9 30 table table-IsSorted _ delete_result

process_flow_mod_delete_example :
    process_flow_mod delete_mod 9 30 table
    ≡ ok (record {
      table = select (λ e. not (same_flow delete_mod e)) table;
      verb = removed;
      affected = select (same_flow delete_mod) table;
    })
process_flow_mod_delete_example =
    process_flow_mod_delete delete_mod 9 30 table (record { no_check = refl; no_port = refl })
      table-DistinctEntries (inl refl)

process_flow_mod_add_example :
    (r : Processed) × (process_flow_mod mod_of 9 30 table ≡ ok r)
    × (select (same_flow mod_of) r.table ≡ from_flow_mod 9 30 mod_of ∷ [])
    × (select (λ e. not (same_flow mod_of e)) r.table
        ≡ select (λ e. not (same_flow mod_of e)) table)
process_flow_mod_add_example =
    process_flow_mod_add mod_of 9 30 table mod_of-IsSupported table-IsSorted table-DistinctEntries
      refl

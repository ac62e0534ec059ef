-- ===== src/OpenFlow/Pending/Tests.antt =====
-- The theorems of `NOMFlowTable` at small tables.
use cs425a_computer_networks.Base.{ℕ, ◌≡◌, ◌∙◌, refl, List, [], ◌∷◌, true, none, some, value_error}
use cs425a_computer_networks.OpenFlow.Match.{any_match, is_wildcarded}
use cs425a_computer_networks.OpenFlow.FlowTable.{
  output, TableEntry, add_entry, sort_table, sort_in, sort_key,
}
use cs425a_computer_networks.OpenFlow.FlowTable.Sorting.{IsSorted}
use cs425a_computer_networks.OpenFlow.Pending.{
  NomFlowTable, nom_add, sent_barrier, sent_flow_mod, sent_delete_all, sent_plain_barrier,
  table_modified, mod_entries, sync_pending, adds, new_nom,
}
use cs425a_computer_networks.OpenFlow.Pending.Answers.{handle_barrier_in, take_op}
use cs425a_computer_networks.OpenFlow.Pending.Installs.{
  answered, messages, barrier_xid, add_op, add_each, handle_barrier_in-mod_entries,
}
use cs425a_computer_networks.OpenFlow.Pending.Repeats.{
  handle_barrier_in-second_install, handle_barrier_in-sync_pending,
}
use cs425a_computer_networks.OpenFlow.Pending.Reach.{
  at_start, one_step, asked, barrier_in, NomReach-IsSorted,
}

abbrev flow : ℕ → ℕ → TableEntry
flow identity priority = record {
  identity = identity;
  counters = record { created = 10; last_touched = 10; bytes = 0; packets = 0 };
  priority = priority;
  cookie = 0;
  idle_timeout = 5;
  hard_timeout = 0;
  matching = any_match;
  actions = output 1 ∷ [];
  buffer_id = none;
}

abbrev empty : NomFlowTable
empty = new_nom true 7

abbrev one_flow : NomFlowTable
one_flow = record empty { flow_table = flow 1 300 ∷ [] }

abbrev two_flows : List TableEntry
two_flows = flow 1 300 ∷ flow 2 400 ∷ []

handle_barrier_in-mod_entries_example :
    ((mod_entries 50 nom_add two_flows empty).1
      ≡ sent_flow_mod 7 (add_op (flow 1 300))
        ∷ sent_flow_mod 8 (add_op (flow 2 400))
        ∷ sent_barrier 9
        ∷ [])
    × ((answered 50 two_flows empty).0.flow_table ≡ add_each two_flows [])
    × ((answered 50 two_flows empty).0.pending ≡ [])
    × ((answered 50 two_flows empty).1 ≡ table_modified two_flows [] ∷ [])
    × ((answered 50 two_flows empty).2 ≡ none)
handle_barrier_in-mod_entries_example = handle_barrier_in-mod_entries 50 two_flows empty refl refl

handle_barrier_in-sync_pending_example :
    ((sync_pending 60 true one_flow).1
      ≡ sent_delete_all ∷ sent_plain_barrier ∷ messages 7 (add_op (flow 1 300) ∷ adds []))
    × (handle_barrier_in
          (barrier_xid 7 (add_op (flow 1 300) ∷ adds []))
          (sync_pending 60 true one_flow).0
        ≡ (
          record ((sync_pending 60 true one_flow).0) {
            flow_table = add_entry (flow 1 300) (flow 1 300 ∷ []);
          },
          [],
          some value_error,
        ))
handle_barrier_in-sync_pending_example =
    handle_barrier_in-sync_pending 60 (flow 1 300) [] one_flow refl refl
      (unfold adds take_op in refl)

abbrev both_sent : NomFlowTable
both_sent =
    (mod_entries 51 nom_add (flow 2 400 ∷ []) (mod_entries 50 nom_add (flow 1 300 ∷ []) empty).0).0

handle_barrier_in-second_install_example :
    ((mod_entries 51 nom_add (flow 2 400 ∷ []) (mod_entries 50 nom_add (flow 1 300 ∷ []) empty).0).1
      ≡ sent_flow_mod 9 (add_op (flow 1 300))
        ∷ sent_flow_mod 10 (add_op (flow 2 400))
        ∷ sent_barrier 11
        ∷ [])
    × ((handle_barrier_in 8 both_sent).0.flow_table ≡ add_entry (flow 1 300) [])
    × ((handle_barrier_in 8 both_sent).2 ≡ none)
    × (handle_barrier_in 11 (handle_barrier_in 8 both_sent).0 ≡ (
      record ((handle_barrier_in 8 both_sent).0) {
        flow_table = add_entry (flow 1 300) (add_entry (flow 1 300) []);
      },
      [],
      some value_error,
    ))
    × ((handle_barrier_in 8 both_sent).0.pending ≡ add_op (flow 2 400) ∷ [])
handle_barrier_in-second_install_example =
    handle_barrier_in-second_install 50 51 (flow 1 300) (flow 2 400) empty refl refl refl

abbrev two_installed : NomFlowTable
two_installed = (answered 50 two_flows empty).0

two_installed_table : two_installed.flow_table ≡ flow 2 400 ∷ flow 1 300 ∷ []
two_installed_table =
    handle_barrier_in-mod_entries_example.1
    ∙ unfold add_entry sort_table sort_in sort_key is_wildcarded in refl

NomReach-IsSorted_example : IsSorted two_installed.flow_table
NomReach-IsSorted_example =
    NomReach-IsSorted true 7
      (one_step (one_step at_start (asked 50 nom_add two_flows refl)) (barrier_in 9 refl))

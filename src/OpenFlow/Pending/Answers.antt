-- ===== src/OpenFlow/Pending/Answers.antt =====
-- How a `NOMFlowTable` takes the answers of the switch: barrier replies, removed flows, a lost connection.
use cs425a_computer_networks.Base.{
  ℕ, List, [], ◌∷◌, ◌++◌, Bool, true, false, ◌&&◌, ◌==◌, list_eq, if◌then◌else◌, Option, none, some,
  Error, value_error, nat_key, bytes_key, lookup, erase,
}
use cs425a_computer_networks.OpenFlow.Match.{Match, match_eq}
use cs425a_computer_networks.OpenFlow.FlowTable.{
  TableEntry, Table, add_entry, remove, remove_matching_entries,
}
use cs425a_computer_networks.OpenFlow.Pending.{
  NomCommand, nom_add, nom_remove, nom_remove_strict, Op, op_key, NomFlowTable, NomEffect,
  table_modified, NomRun,
}

-- `self.pending.remove(op)`; `none` is its ValueError.
unfoldable pub take_op : Op → List Op → Option (List Op)
take_op op [] = none
take_op op (p ∷ ps) =
    if list_eq (op_key p) (op_key op)
    then some ps
    else elim (take_op op ps) [ none ↦ none | some rest ↦ some (p ∷ rest) ]

-- The state of the loop of `_handle_BarrierIn`.
pub record Applied : Type 0 where
  pub flow_table : Table
  pub pending : List Op
  pub added : List TableEntry
  pub removed : List TableEntry
  pub raised : Option Error

abbrev pub apply_removal : TableEntry → Bool → Applied → Applied
apply_removal e strict a =
    let (t, gone) = remove_matching_entries e.matching e.priority strict a.flow_table in
    record a { flow_table = t; removed = a.removed ++ gone }

abbrev pub apply_command : NomCommand → TableEntry → Applied → Applied
apply_command nom_add e a = record a {
  flow_table = add_entry e a.flow_table;
  added = a.added ++ (e ∷ []);
}
apply_command nom_remove e a = apply_removal e false a
apply_command nom_remove_strict e a = apply_removal e true a

unfoldable pub apply_ops : List Op → Applied → Applied
apply_ops [] a = a
apply_ops (op ∷ ops) a =
    let a' : Applied = apply_command op.command op.entry a in
    elim (take_op op a.pending) [
      | none ↦ record a' { raised = some value_error }
      | some rest ↦ apply_ops ops (record a' { pending = rest })
    ]

unfoldable pub finish_barrier : ℕ → Applied → NomFlowTable → NomRun
finish_barrier xid a s =
    let s' : NomFlowTable = record s { flow_table = a.flow_table; pending = a.pending } in
    elim a.raised [
      | some x ↦ (s', [], some x)
      | none ↦ (
        record s' { barrier_to_ops = erase xid s.barrier_to_ops },
        table_modified a.added a.removed ∷ [],
        none,
      )
    ]

-- `_handle_BarrierIn`
abbrev pub at_barrier : NomFlowTable → Applied
at_barrier s = record {
  flow_table = s.flow_table;
  pending = s.pending;
  added = [];
  removed = [];
  raised = none;
}

unfoldable pub handle_barrier_in : ℕ → NomFlowTable → NomRun
handle_barrier_in xid s = elim (lookup xid s.barrier_to_ops) [
  | none ↦ (s, [], none)
  | some ops ↦ finish_barrier xid (apply_ops ops (at_barrier s)) s
]

-- `_handle_SwitchConnectionDown`
unfoldable pub connection_down : NomFlowTable → NomFlowTable
connection_down s = record s { barrier_to_ops = []; op_to_barrier = [] }

-- `_handle_FlowRemoved`: the first entry with the match and the priority.
unfoldable pub find_flow : Match → ℕ → Table → Option TableEntry
find_flow m priority [] = none
find_flow m priority (e ∷ t) =
    if match_eq m e.matching && priority == e.priority then some e else find_flow m priority t

unfoldable pub flow_removed : Match → ℕ → NomFlowTable → NomFlowTable × List NomEffect
flow_removed m priority s = elim (find_flow m priority s.flow_table) [
  | none ↦ (s, [])
  | some e ↦ (record s { flow_table = remove e s.flow_table }, table_modified [] (e ∷ []) ∷ [])
]

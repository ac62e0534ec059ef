-- ===== src/OpenFlow/Pending/Reach.antt =====
-- What holds of a `NOMFlowTable` after any events.
use cs425a_computer_networks.Base.{
  ℕ, ◌≡◌, refl, List, [], ◌∷◌, Bool, true, false, sym, Bool-cases, Option, Option-cases, none, some,
  inl, inr, nat_key, lookup,
}
use mathlib.Core.Path.{subst}
use cs425a_computer_networks.OpenFlow.Match.{Match}
use cs425a_computer_networks.OpenFlow.FlowTable.{TableEntry}
use cs425a_computer_networks.OpenFlow.FlowTable.Sorting.{IsSorted, add_entry-IsSorted}
use cs425a_computer_networks.OpenFlow.FlowTable.Removal.{remove-IsSorted}
use cs425a_computer_networks.OpenFlow.FlowTable.Mods.{remove_matching_entries-IsSorted}
use cs425a_computer_networks.OpenFlow.Pending.{
  NomCommand, nom_add, nom_remove, nom_remove_strict, Op, NomFlowTable, send_todo, resync,
  sync_pending, finish_mod, mod_loop, mod_entries, new_nom,
}
use cs425a_computer_networks.OpenFlow.Pending.Answers.{
  take_op, Applied, apply_command, apply_ops, finish_barrier, at_barrier, handle_barrier_in,
  connection_down, find_flow, flow_removed,
}

-- One event, whether its handler raises or not.
pub data NomStep (s : NomFlowTable) (s' : NomFlowTable) : Type 0 where
  asked :
      (now : ℕ) (command : NomCommand) (es : List TableEntry)
      → (mod_entries now command es s).0 ≡ s'
      → NomStep s s'
  switch_changes : (connected : Bool) → record s { connected = connected } ≡ s' → NomStep s s'
  switch_up : (now : ℕ) → (sync_pending now true s).0 ≡ s' → NomStep s s'
  switch_down : connection_down s ≡ s' → NomStep s s'
  barrier_in : (xid : ℕ) → (handle_barrier_in xid s).0 ≡ s' → NomStep s s'
  flow_gone : (m : Match) (priority : ℕ) → (flow_removed m priority s).0 ≡ s' → NomStep s s'

pub data NomReach (s : NomFlowTable) : NomFlowTable → Type 0 where
  at_start : NomReach s s
  one_step : {t u : NomFlowTable} → NomReach s t → NomStep t u → NomReach s u

sync_pending-flow_table :
    (now : ℕ) (clear : Bool) (s : NomFlowTable)
    → (sync_pending now clear s).0.flow_table ≡ s.flow_table
unfolding sync_pending resync send_todo
sync_pending-flow_table now clear s = elim (Bool-cases s.connected) [
  | inl up ↦ elim (Bool-cases clear) [ inl y ↦ rw (up, y) refl | inr n ↦ rw (up, n) refl ]
  | inr down ↦ rw down refl
]

finish_mod-flow_table :
    (now : ℕ) (p : List Op × Option _) (s : NomFlowTable)
    → (finish_mod now p s).0.flow_table ≡ s.flow_table
unfolding finish_mod
finish_mod-flow_table now (pending, some x) s = refl
finish_mod-flow_table now (pending, none) s =
    sync_pending-flow_table now false (record s { pending = pending })

apply_command-IsSorted :
    (c : NomCommand) (e : TableEntry) (a : Applied)
    → IsSorted a.flow_table
    → IsSorted (apply_command c e a).flow_table
apply_command-IsSorted nom_add e a h = add_entry-IsSorted e a.flow_table
apply_command-IsSorted nom_remove e a h =
    remove_matching_entries-IsSorted e.matching e.priority false a.flow_table h
apply_command-IsSorted nom_remove_strict e a h =
    remove_matching_entries-IsSorted e.matching e.priority true a.flow_table h

apply_ops-IsSorted :
    (ops : List Op) (a : Applied) → IsSorted a.flow_table → IsSorted (apply_ops ops a).flow_table
unfolding apply_ops
apply_ops-IsSorted [] a h = h
apply_ops-IsSorted (op ∷ ops) a h = elim (Option-cases (take_op op a.pending)) [
  | inl gone ↦ rw (gone, apply_ops) (apply_command-IsSorted op.command op.entry a h)
  | inr (rest, here) ↦
      rw (here, apply_ops)
        (apply_ops-IsSorted ops (record (apply_command op.command op.entry a) { pending = rest })
          (apply_command-IsSorted op.command op.entry a h))
]

finish_barrier-flow_table :
    (xid : ℕ) (a : Applied) (s : NomFlowTable)
    → (finish_barrier xid a s).0.flow_table ≡ a.flow_table
unfolding finish_barrier
finish_barrier-flow_table xid a s = elim (Option-cases a.raised) [
  | inl fine ↦ rw (fine, finish_barrier) refl
  | inr (x, bad) ↦ rw (bad, finish_barrier) refl
]

handle_barrier_in-IsSorted :
    (xid : ℕ) (s : NomFlowTable)
    → IsSorted s.flow_table
    → IsSorted (handle_barrier_in xid s).0.flow_table
unfolding handle_barrier_in
handle_barrier_in-IsSorted xid s h = elim (Option-cases (lookup xid s.barrier_to_ops)) [
  | inl unknown ↦ rw (unknown, handle_barrier_in) h
  | inr (ops, known) ↦
      rw (known, handle_barrier_in)
        (subst IsSorted (sym (finish_barrier-flow_table xid (apply_ops ops (at_barrier s)) s))
          (apply_ops-IsSorted ops (at_barrier s) h))
]

flow_removed-IsSorted :
    (m : Match) (priority : ℕ) (s : NomFlowTable)
    → IsSorted s.flow_table
    → IsSorted (flow_removed m priority s).0.flow_table
unfolding flow_removed
flow_removed-IsSorted m priority s h = elim (Option-cases (find_flow m priority s.flow_table)) [
  | inl unknown ↦ rw (unknown, flow_removed) h
  | inr (e, known) ↦ rw (known, flow_removed) (remove-IsSorted e s.flow_table h)
]

abbrev HasSorted : NomFlowTable → Type 0
HasSorted s = IsSorted s.flow_table

NomStep-IsSorted :
    {s s' : NomFlowTable} → NomStep s s' → IsSorted s.flow_table → IsSorted s'.flow_table
unfolding mod_entries
NomStep-IsSorted {s} (asked now command es h) k =
    subst HasSorted h
      (subst IsSorted (sym (finish_mod-flow_table now (mod_loop command es s.pending) s)) k)
NomStep-IsSorted (switch_changes c h) k = subst HasSorted h k
NomStep-IsSorted {s} (switch_up now h) k =
    subst HasSorted h (subst IsSorted (sym (sync_pending-flow_table now true s)) k)
NomStep-IsSorted {s} (switch_down h) k = subst HasSorted h (unfold connection_down in k)
NomStep-IsSorted {s} (barrier_in xid h) k = subst HasSorted h (handle_barrier_in-IsSorted xid s k)
NomStep-IsSorted {s} (flow_gone m priority h) k =
    subst HasSorted h (flow_removed-IsSorted m priority s k)

-- The table of a `NOMFlowTable` is sorted after any events, also those whose handlers raise.
pub NomReach-IsSorted :
    (connected : Bool) (xid : ℕ) {s : NomFlowTable}
    → NomReach (new_nom connected xid) s
    → IsSorted s.flow_table
NomReach-IsSorted c xid at_start = tt
NomReach-IsSorted c xid (one_step r st) = NomStep-IsSorted st (NomReach-IsSorted c xid r)

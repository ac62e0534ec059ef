-- ===== src/OpenFlow/Pending.antt =====
-- `NOMFlowTable` of Project-4/pox/pox/openflow/flow_table.py: the controller's copy of a flow table, with
-- the changes that the switch has not confirmed. Entries are objects, told apart by their identity.
pub mod Answers
pub mod Installs
pub mod Repeats
pub mod Reach
mod Tests
use cs425a_computer_networks.Base.{
  ℕ, ◌+◌, ◌^◌, ◌%◌, List, [], ◌∷◌, ◌++◌, Bool, true, false, not, ◌&&◌, ◌==◌, list_eq, if◌then◌else◌,
  Option, none, some, Error, value_error, attribute_error, Dict, nat_key, bytes_key, lookup, insert,
  erase,
}
use cs425a_computer_networks.Bytes.{Bytes}
use cs425a_computer_networks.OpenFlow.Match.{Match, match_eq}
use cs425a_computer_networks.OpenFlow.FlowTable.{
  TableEntry, Table, add_entry, remove, remove_matching_entries,
}

pub data NomCommand : Type 0 where
  nom_add nom_remove nom_remove_strict : NomCommand

abbrev pub command_number : NomCommand → ℕ
command_number nom_add = 0
command_number nom_remove = 3
command_number nom_remove_strict = 4

-- A pair of `pending`.
pub record Op : Type 0 where
  pub command : NomCommand
  pub entry : TableEntry

-- What the pair is compared and hashed by.
abbrev pub op_key : Op → Bytes
op_key op = command_number op.command ∷ op.entry.identity ∷ []

abbrev pub is_add : Op → Bool
is_add op = command_number op.command == 0

-- `connected` and `next_xid` are the switch's.
pub record NomFlowTable : Type 0 where
  pub flow_table : Table
  pub connected : Bool
  pub next_xid : ℕ
  pub pending : List Op
  pub barrier_to_ops : Dict ℕ (List Op)
  pub op_to_barrier : Dict Bytes (ℕ × ℕ)

-- The messages to the switch (a flow mod is the `to_flow_mod` of the entry, with the command), and
-- the event. The first two have no xid of the switch.
pub data NomEffect : Type 0 where
  sent_delete_all sent_plain_barrier : NomEffect
  sent_flow_mod : ℕ → Op → NomEffect
  sent_barrier : ℕ → NomEffect
  table_modified : List TableEntry → List TableEntry → NomEffect

abbrev pub NomRun : Type 0
NomRun = NomFlowTable × List NomEffect × Option Error

-- `xid_generator`
abbrev pub after_xid : ℕ → ℕ
after_xid n = (n + 1) % 2 ^ 31

-- `t < time.time`: a number is less than a function in Python 2, whatever the number is.
abbrev pub less_than_function : ℕ → Bool
less_than_function t = true

unfoldable pub is_due : Dict Bytes (ℕ × ℕ) → Op → Bool
is_due d op = elim (lookup (op_key op) d) [
  | none ↦ true
  | some (xid, time) ↦ less_than_function (time + 2)
]

unfoldable pub due_ops : Dict Bytes (ℕ × ℕ) → List Op → List Op
due_ops d [] = []
due_ops d (op ∷ ops) = let rest = due_ops d ops in if is_due d op then op ∷ rest else rest

unfoldable pub adds : List Op → List Op
adds [] = []
adds (op ∷ ops) = let rest = adds ops in if is_add op then op ∷ rest else rest

unfoldable pub add_all : Table → List Op
add_all [] = []
add_all (e ∷ t) = record { command = nom_add; entry = e } ∷ add_all t

-- The loop that sends, from the xid on, with the xid behind it.
unfoldable pub send_ops : ℕ → List Op → ℕ × List NomEffect
send_ops n [] = (n, [])
send_ops n (op ∷ ops) =
    let (m, effects) = send_ops (after_xid n) ops in (m, sent_flow_mod n op ∷ effects)

unfoldable pub note_ops : ℕ → ℕ → List Op → Dict Bytes (ℕ × ℕ) → Dict Bytes (ℕ × ℕ)
note_ops xid now [] d = d
note_ops xid now (op ∷ ops) d = note_ops xid now ops (insert (op_key op) (xid, now) d)

-- `_sync_pending` from `for op in todo` on.
unfoldable pub send_todo : ℕ → List Op → NomFlowTable → NomFlowTable × List NomEffect
send_todo now todo s =
    let (xid, effects) = send_ops s.next_xid todo in
    (
      record s {
        next_xid = after_xid xid;
        barrier_to_ops = insert xid todo s.barrier_to_ops;
        op_to_barrier = note_ops xid now todo s.op_to_barrier;
      },
      effects ++ (sent_barrier xid ∷ []),
    )

-- `_sync_pending(clear=True)`, behind the test of the connection.
unfoldable pub resync : ℕ → NomFlowTable → NomFlowTable × List NomEffect
resync now s =
    let kept = adds s.pending in
    let cleared : NomFlowTable = record s {
      barrier_to_ops = [];
      op_to_barrier = [];
      pending = kept;
    } in
    let (s', effects) = send_todo now (add_all s.flow_table ++ kept) cleared in
    (s', sent_delete_all ∷ sent_plain_barrier ∷ effects)

unfoldable pub sync_pending : ℕ → Bool → NomFlowTable → NomFlowTable × List NomEffect
sync_pending now clear s =
    if not s.connected
    then (s, [])
    else if clear
    then resync now s
    else send_todo now (due_ops s.op_to_barrier s.pending) s

-- What a removal takes out of `pending`. The one that is not strict calls a method that entries do not
-- have, if there is anything to compare.
unfoldable pub has_add : List Op → Bool
has_add [] = false
has_add (op ∷ ops) = if is_add op then true else has_add ops

unfoldable pub without_adds : ℕ → List Op → List Op
without_adds identity [] = []
without_adds identity (op ∷ ops) =
    let rest = without_adds identity ops in
    if is_add op && identity == op.entry.identity then rest else op ∷ rest

unfoldable pub drop_pending : NomCommand → TableEntry → List Op → List Op × Option Error
drop_pending nom_add e pending = (pending, none)
drop_pending nom_remove e pending =
    (pending, if has_add pending then some attribute_error else none)
drop_pending nom_remove_strict e pending = (without_adds e.identity pending, none)

-- The loop of `_mod`.
unfoldable pub mod_loop : NomCommand → List TableEntry → List Op → List Op × Option Error
mod_loop command [] pending = (pending, none)
mod_loop command (e ∷ es) pending =
    let (kept, raised) = drop_pending command e pending in
    let rest = mod_loop command es (kept ++ (record { command = command; entry = e } ∷ [])) in
    elim raised [ some x ↦ (pending, some x) | none ↦ rest ]

-- What `_mod` does behind its loop: nothing, where that raised.
unfoldable pub finish_mod : ℕ → List Op × Option Error → NomFlowTable → NomRun
finish_mod now (pending, some x) s = (record s { pending = pending }, [], some x)
finish_mod now (pending, none) s =
    let (s', effects) = sync_pending now false (record s { pending = pending }) in
    (s', effects, none)

-- `_mod`, for `install`, `remove_with_wildcards` and `remove_strict`.
unfoldable pub mod_entries : ℕ → NomCommand → List TableEntry → NomFlowTable → NomRun
mod_entries now command es s = finish_mod now (mod_loop command es s.pending) s

abbrev pub new_nom : Bool → ℕ → NomFlowTable
new_nom connected xid = record {
  flow_table = [];
  connected = connected;
  next_xid = xid;
  pending = [];
  barrier_to_ops = [];
  op_to_barrier = [];
}

-- ===== src/OpenFlow/Pending/Installs.antt =====
-- What becomes of the entries that a `NOMFlowTable` was asked to install.
use cs425a_computer_networks.Base.{
  map, ℕ, ◌≡◌, refl, sym, ap, ◌∙◌, arith, List, [], ◌∷◌, ◌++◌, true, false, none, some, value_error,
  Dict, nat_key, bytes_key, lookup, erase, lookup-insert_self,
}
use mathlib.Core.List.{append-nil, append_assoc}
use cs425a_computer_networks.Bytes.{Bytes}
use cs425a_computer_networks.OpenFlow.FlowTable.{TableEntry, Table, add_entry}
use cs425a_computer_networks.OpenFlow.Pending.{
  nom_add, Op, op_key, NomFlowTable, NomEffect, sent_barrier, sent_flow_mod, after_xid, NomRun,
  table_modified, is_due, due_ops, add_all, send_ops, send_todo, sync_pending, drop_pending,
  finish_mod, mod_loop, mod_entries,
}
use cs425a_computer_networks.OpenFlow.Pending.Answers.{
  take_op, Applied, apply_command, apply_ops, finish_barrier, at_barrier, handle_barrier_in,
}

due_ops_all : (d : Dict Bytes (ℕ × ℕ)) (ops : List Op) → due_ops d ops ≡ ops
unfolding due_ops is_due
due_ops_all d [] = refl
due_ops_all d (op ∷ ops) = ground (arith, due_ops_all d ops)

mod_loop_add :
    (es : List TableEntry) (pending : List Op)
    → mod_loop nom_add es pending ≡ (pending ++ add_all es, none)
unfolding mod_loop drop_pending add_all
mod_loop_add [] pending = rw append-nil refl
mod_loop_add (e ∷ es) pending =
    rw (mod_loop_add es (pending ++ (record { command = nom_add; entry = e } ∷ [])), append_assoc)
      refl

-- The table with entries that are added one after the other.
abbrev pub add_each : List TableEntry → Table → Table
add_each [] t = t
add_each (e ∷ es) t = add_each es (add_entry e t)

take_op_first : (op : Op) (ops : List Op) → take_op op (op ∷ ops) ≡ some ops
unfolding take_op
take_op_first op ops = ground (arith, bytes_key.beq_refl (op_key op))

module _ (op : Op) (ops rest : List Op) (a : Applied) where
  apply_ops_step :
      take_op op a.pending ≡ some rest
      → apply_ops (op ∷ ops) a
        ≡ apply_ops ops (record (apply_command op.command op.entry a) { pending = rest })
  unfolding apply_ops
  apply_ops_step h = rw (h, apply_ops) refl

  pub apply_ops_stuck :
      take_op op a.pending ≡ none
      → apply_ops (op ∷ ops) a
        ≡ record (apply_command op.command op.entry a) { raised = some value_error }
  unfolding apply_ops
  apply_ops_stuck h = rw (h, apply_ops) refl

pub apply_ops-add_all :
    (es : List TableEntry) (rest : List Op) (a : Applied)
    → a.pending ≡ add_all es ++ rest
    → apply_ops (add_all es) a
      ≡ record a { flow_table = add_each es a.flow_table; pending = rest; added = a.added ++ es }
unfolding apply_ops add_all
apply_ops-add_all [] rest a h = rw (append-nil, h) refl
apply_ops-add_all (e ∷ es) rest a h =
    apply_ops_step (record { command = nom_add; entry = e }) (add_all es) (add_all es ++ rest) a
      (ap (take_op _) h
        ∙ take_op_first (record { command = nom_add; entry = e }) (add_all es ++ rest))
    ∙ apply_ops-add_all es rest
        (record a {
          flow_table = add_entry e a.flow_table;
          added = a.added ++ (e ∷ []);
          pending = add_all es ++ rest;
        })
        refl
    ∙ rw append_assoc refl

-- What the messages of a loop leave as the next number.
abbrev pub xid_behind : ℕ → List Op → ℕ
xid_behind n ops = (send_ops n ops).0

module _ (now : ℕ) (s : NomFlowTable) (up : s.connected ≡ true) where
  sync_pending-send_todo : sync_pending now false s ≡ send_todo now s.pending s
  unfolding sync_pending
  sync_pending-send_todo = rw (sync_pending, up, due_ops_all s.op_to_barrier s.pending) refl

module _ (now : ℕ) (s : NomFlowTable) (up : s.connected ≡ true) where
  pub mod_entries-add :
      (es : List TableEntry)
      → mod_entries now nom_add es s ≡ (
        (send_todo now
            (s.pending ++ add_all es)
            (record s { pending = s.pending ++ add_all es })).0,
        (send_todo now
            (s.pending ++ add_all es)
            (record s { pending = s.pending ++ add_all es })).1,
        none,
      )
  unfolding mod_entries finish_mod
  mod_entries-add es =
      ap (λ p. finish_mod now p s) (mod_loop_add es s.pending)
      ∙ ap (λ r. (r.0, r.1, none))
          (sync_pending-send_todo now (record s { pending = s.pending ++ add_all es }) up)

pub handle_barrier_in_known :
    (xid : ℕ) (ops : List Op) (a : Applied) (s : NomFlowTable)
    → lookup xid s.barrier_to_ops ≡ some ops
    → apply_ops ops (at_barrier s) ≡ a
    → handle_barrier_in xid s ≡ finish_barrier xid a s
unfolding handle_barrier_in
handle_barrier_in_known xid ops a s h k = rw (h, k, handle_barrier_in) refl

module _ (now : ℕ) (es : List TableEntry) (s : NomFlowTable) where
  -- Where the changes of `es` are all that is pending, and were sent.
  abbrev sent_adds : NomFlowTable × List NomEffect
  sent_adds = send_todo now (add_all es) (record s { pending = add_all es })

  confirmed : handle_barrier_in (xid_behind s.next_xid (add_all es)) sent_adds.0 ≡ (
    record (sent_adds.0) {
      flow_table = add_each es s.flow_table;
      pending = [];
      barrier_to_ops = erase (xid_behind s.next_xid (add_all es)) sent_adds.0.barrier_to_ops;
    },
    table_modified es [] ∷ [],
    none,
  )
  unfolding send_todo
  confirmed =
      handle_barrier_in_known (xid_behind s.next_xid (add_all es)) (add_all es)
        (record {
          flow_table = add_each es s.flow_table;
          pending = [];
          added = es;
          removed = [];
          raised = none;
        })
        sent_adds.0
        (lookup-insert_self (xid_behind s.next_xid (add_all es)) (add_all es) s.barrier_to_ops)
        (apply_ops-add_all es [] (at_barrier sent_adds.0) (sym (append-nil (add_all es))))
      ∙ unfold finish_barrier in refl

abbrev pub add_op : TableEntry → Op
add_op e = record { command = nom_add; entry = e }

-- What a switch is sent for some changes: one flow mod each, in order, numbered from `n` on, and then a
-- barrier with the number behind theirs.
abbrev pub messages : ℕ → List Op → List NomEffect
messages n [] = sent_barrier n ∷ []
messages n (op ∷ ops) = sent_flow_mod n op ∷ messages (after_xid n) ops

abbrev pub barrier_xid : ℕ → List Op → ℕ
barrier_xid n [] = n
barrier_xid n (op ∷ ops) = barrier_xid (after_xid n) ops

pub send_ops-messages :
    (n : ℕ) (ops : List Op)
    → (send_ops n ops).1 ++ (sent_barrier (send_ops n ops).0 ∷ []) ≡ messages n ops
unfolding send_ops
send_ops-messages n [] = refl
send_ops-messages n (op ∷ ops) =
    ap (λ l. sent_flow_mod n op ∷ l) (send_ops-messages (after_xid n) ops)

pub send_ops-barrier_xid : (n : ℕ) (ops : List Op) → (send_ops n ops).0 ≡ barrier_xid n ops
unfolding send_ops
send_ops-barrier_xid n [] = refl
send_ops-barrier_xid n (op ∷ ops) = send_ops-barrier_xid (after_xid n) ops

pub add_all-add_op : (t : List TableEntry) → add_all t ≡ map add_op t
unfolding add_all
add_all-add_op [] = refl
add_all-add_op (e ∷ t) = ap (λ l. add_op e ∷ l) (add_all-add_op t)

-- The answer to the barrier behind entries that were installed.
abbrev pub answered : ℕ → List TableEntry → NomFlowTable → NomRun
answered now es s =
    handle_barrier_in (barrier_xid s.next_xid (map add_op es)) (mod_entries now nom_add es s).0

-- Entries that are installed while the switch is connected and nothing is pending: one flow mod for
-- each is sent, in order and with the next numbers, and then a barrier; when the switch answers the
-- barrier, the entries are in the table as if they were added one after the other, nothing is pending,
-- the event names them, and nothing raises.
pub handle_barrier_in-mod_entries :
    (now : ℕ) (es : List TableEntry) (s : NomFlowTable)
    → s.connected ≡ true
    → s.pending ≡ []
    → ((mod_entries now nom_add es s).1 ≡ messages s.next_xid (map add_op es))
      × ((answered now es s).0.flow_table ≡ add_each es s.flow_table)
      × ((answered now es s).0.pending ≡ [])
      × ((answered now es s).1 ≡ table_modified es [] ∷ [])
      × ((answered now es s).2 ≡ none)
handle_barrier_in-mod_entries now es s up nothing =
    let r = confirmed now es s in
    rw
      (
        ← add_all-add_op es,
        mod_entries-add now s up es,
        nothing,
        ← send_ops-barrier_xid s.next_xid (add_all es),
      )
      (
        unfold send_todo in send_ops-messages s.next_xid (add_all es),
        ap (λ q. q.0.flow_table) r,
        ap (λ q. q.0.pending) r,
        ap (λ q. q.1) r,
        ap (λ q. q.2) r,
      )

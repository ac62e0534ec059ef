-- ===== src/OpenFlow/Pending/Repeats.antt =====
-- Changes that a `NOMFlowTable` sends again, and what the answer of the switch does then.
use cs425a_computer_networks.Base.{
  map, ℕ, ◌≡◌, refl, ap, ◌∙◌, arith, List, [], ◌∷◌, ◌++◌, true, false, ◌==◌, if◌then◌else◌, none,
  some, value_error, nat_key, bytes_key, lookup, insert, erase, lookup-insert_self, lookup-insert,
  lookup-erase,
}
use cs425a_computer_networks.OpenFlow.FlowTable.{TableEntry, Table, add_entry}
use cs425a_computer_networks.OpenFlow.Pending.{
  nom_add, Op, NomFlowTable, sent_barrier, sent_flow_mod, sent_delete_all, sent_plain_barrier,
  table_modified, after_xid, adds, add_all, send_ops, send_todo, resync, sync_pending, mod_entries,
}
use cs425a_computer_networks.OpenFlow.Pending.Answers.{
  take_op, finish_barrier, at_barrier, handle_barrier_in,
}
use cs425a_computer_networks.OpenFlow.Pending.Installs.{
  add_op, messages, barrier_xid, send_ops-messages, send_ops-barrier_xid, add_all-add_op,
  xid_behind, apply_ops_stuck, apply_ops-add_all, handle_barrier_in_known, mod_entries-add,
}

-- The first change that waits for the barrier is not pending any more.
module _ (xid : ℕ) (e : TableEntry) (ops : List Op) (s : NomFlowTable) where
  stuck :
      lookup xid s.barrier_to_ops ≡ some (add_op e ∷ ops)
      → take_op (add_op e) s.pending ≡ none
      → handle_barrier_in xid s
        ≡ (record s { flow_table = add_entry e s.flow_table }, [], some value_error)
  stuck h k =
      handle_barrier_in_known xid (add_op e ∷ ops) _ s h
        (apply_ops_stuck (add_op e) ops [] (at_barrier s) k)
      ∙ unfold finish_barrier in refl

-- When a switch connects, and the first entry of the table is not pending to be added, then all flows
-- are deleted at the switch, and one flow mod is sent for each entry of the table and then for each
-- addition that is pending, in order, and a barrier behind them; but the answer to this barrier adds
-- the first entry to the table a second time and raises a ValueError.
pub handle_barrier_in-sync_pending :
    (now : ℕ) (e : TableEntry) (t : Table) (s : NomFlowTable)
    → s.connected ≡ true
    → s.flow_table ≡ e ∷ t
    → take_op (add_op e) (adds s.pending) ≡ none
    → ((sync_pending now true s).1
        ≡ sent_delete_all
          ∷ sent_plain_barrier
          ∷ messages s.next_xid (map add_op (e ∷ t) ++ adds s.pending))
      × (handle_barrier_in
            (barrier_xid s.next_xid (map add_op (e ∷ t) ++ adds s.pending))
            (sync_pending now true s).0
          ≡ (
            record ((sync_pending now true s).0) { flow_table = add_entry e (e ∷ t) },
            [],
            some value_error,
          ))
unfolding sync_pending resync send_todo add_all send_ops
handle_barrier_in-sync_pending now e t s up table gone =
    let todo : List Op = add_all (e ∷ t) ++ adds s.pending in
    rw
      (
        ← add_all-add_op t,
        up,
        table,
        ← send_ops-barrier_xid (after_xid s.next_xid) (add_all t ++ adds s.pending),
      )
      (
        ap (λ l. sent_delete_all ∷ sent_plain_barrier ∷ l) (send_ops-messages s.next_xid todo),
        stuck (xid_behind s.next_xid todo) e (add_all t ++ adds s.pending) _
            (lookup-insert_self (xid_behind s.next_xid todo) todo []) gone,
      )

module _ (now later : ℕ) (e f : TableEntry) (s : NomFlowTable) (up : s.connected ≡ true)
    (nothing : s.pending ≡ []) (apart : (f.identity == e.identity) ≡ false) where
  abbrev pub first_install : NomFlowTable
  first_install = (mod_entries now nom_add (e ∷ []) s).0

  abbrev pub second_install : NomFlowTable
  second_install = (mod_entries later nom_add (f ∷ []) first_install).0

  -- The numbers of the two barriers, behind those of one flow mod and of two more.
  abbrev pub first_xid : ℕ
  first_xid = after_xid s.next_xid

  abbrev pub second_xid : ℕ
  second_xid = after_xid (after_xid (after_xid first_xid))

  xids_differ : (second_xid == first_xid) ≡ false
  xids_differ = ground arith

  after_first :
      first_install ≡ (send_todo now (add_op e ∷ []) (record s { pending = add_op e ∷ [] })).0
  unfolding add_all
  after_first =
      ap (λ r. r.0) (mod_entries-add now s up (e ∷ []))
      ∙ ap
          (λ p.
            (send_todo now (p ++ (add_op e ∷ [])) (record s { pending = p ++ (add_op e ∷ []) })).0)
          nothing

  after_second :
      second_install
      ≡ (send_todo later
          (add_op e ∷ add_op f ∷ [])
          (record first_install { pending = add_op e ∷ add_op f ∷ [] })).0
  unfolding add_all send_todo
  after_second =
      ap (λ r. r.0)
        (mod_entries-add later first_install (ap (λ q. q.connected) after_first ∙ up) (f ∷ []))
      ∙ ap
          (λ p.
            (send_todo later (p ++ (add_op f ∷ []))
              (record first_install { pending = p ++ (add_op f ∷ []) })).0)
          (ap (λ q. q.pending) after_first)

  second_ops :
      second_install.barrier_to_ops
      ≡ insert second_xid
          (add_op e ∷ add_op f ∷ [])
          (insert first_xid (add_op e ∷ []) s.barrier_to_ops)
  unfolding send_todo
  second_ops =
      ap (λ q. q.barrier_to_ops) after_second
      ∙ ap
          (λ q.
            insert ((send_ops q.next_xid (add_op e ∷ add_op f ∷ [])).0) (add_op e ∷ add_op f ∷ [])
              q.barrier_to_ops)
          after_first
      ∙ unfold send_ops in refl

  second_pending : second_install.pending ≡ add_op e ∷ add_op f ∷ []
  unfolding send_todo
  second_pending = ap (λ q. q.pending) after_second

  second_table : second_install.flow_table ≡ s.flow_table
  unfolding send_todo
  second_table = ap (λ q. q.flow_table) after_second ∙ ap (λ q. q.flow_table) after_first

  at_first : lookup first_xid second_install.barrier_to_ops ≡ some (add_op e ∷ [])
  at_first =
      ap (lookup first_xid) second_ops
      ∙ lookup-insert second_xid first_xid (add_op e ∷ add_op f ∷ []) _
      ∙ ap
          (λ b.
            if b
            then some (add_op e ∷ add_op f ∷ [])
            else lookup first_xid (insert first_xid (add_op e ∷ []) s.barrier_to_ops))
          xids_differ
      ∙ lookup-insert_self first_xid (add_op e ∷ []) s.barrier_to_ops

  at_second : lookup second_xid second_install.barrier_to_ops ≡ some (add_op e ∷ add_op f ∷ [])
  at_second =
      ap (lookup second_xid) second_ops ∙ lookup-insert_self second_xid (add_op e ∷ add_op f ∷ []) _

  abbrev pub once_answered : NomFlowTable
  once_answered = record second_install {
    flow_table = add_entry e second_install.flow_table;
    pending = add_op f ∷ [];
    barrier_to_ops = erase first_xid second_install.barrier_to_ops;
  }

  first_answer :
      handle_barrier_in first_xid second_install
      ≡ (once_answered, table_modified (e ∷ []) [] ∷ [], none)
  first_answer =
      handle_barrier_in_known first_xid (add_op e ∷ [])
        (record {
          flow_table = add_entry e second_install.flow_table;
          pending = add_op f ∷ [];
          added = e ∷ [];
          removed = [];
          raised = none;
        })
        second_install at_first
        (unfold add_all in
          apply_ops-add_all (e ∷ []) (add_op f ∷ []) (at_barrier second_install) second_pending)
      ∙ unfold finish_barrier in refl

  second_answer : handle_barrier_in second_xid once_answered ≡ (
    record once_answered { flow_table = add_entry e once_answered.flow_table },
    [],
    some value_error,
  )
  second_answer =
      stuck second_xid e (add_op f ∷ []) once_answered
        (lookup-erase first_xid second_xid second_install.barrier_to_ops
          ∙ ground (arith, xids_differ, at_second))
        (unfold take_op in ground (arith, apart))

  second_effects :
      (mod_entries later nom_add (f ∷ []) first_install).1
      ≡ messages (after_xid first_xid) (add_op e ∷ add_op f ∷ [])
  unfolding add_all send_todo send_ops
  second_effects =
      ap (λ r. r.1)
        (mod_entries-add later first_install (ap (λ q. q.connected) after_first ∙ up) (f ∷ []))
      ∙ ap (λ (q : NomFlowTable). (send_todo later (q.pending ++ (add_op f ∷ [])) q).1) after_first

  -- Two entries that are installed one after the other at a connected switch, before it has answered,
  -- where nothing was pending before: with the second also the first is sent again, each with a flow
  -- mod of its own, since the age of what was sent is compared with a function. The answer to the first barrier adds the first entry to the table; the
  -- answer to the second adds it once more, and then raises a ValueError, with the second entry still
  -- pending and not in the table.
  pub handle_barrier_in-second_install :
      ((mod_entries later nom_add (f ∷ []) first_install).1
        ≡ sent_flow_mod (after_xid first_xid) (add_op e)
          ∷ sent_flow_mod (after_xid (after_xid first_xid)) (add_op f)
          ∷ sent_barrier second_xid
          ∷ [])
      × ((handle_barrier_in first_xid second_install).0.flow_table ≡ add_entry e s.flow_table)
      × ((handle_barrier_in first_xid second_install).2 ≡ none)
      × (handle_barrier_in second_xid (handle_barrier_in first_xid second_install).0 ≡ (
        record ((handle_barrier_in first_xid second_install).0) {
          flow_table = add_entry e (add_entry e s.flow_table);
        },
        [],
        some value_error,
      ))
      × ((handle_barrier_in first_xid second_install).0.pending ≡ add_op f ∷ [])
  handle_barrier_in-second_install = rw first_answer (
    second_effects,
    ap (add_entry e) second_table,
    refl,
    second_answer
        ∙ ap
            (λ t. (
              record once_answered { flow_table = add_entry e (add_entry e t) },
              [],
              some value_error,
            ))
            second_table,
    refl,
  )

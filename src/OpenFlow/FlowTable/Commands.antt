-- ===== src/OpenFlow/FlowTable/Commands.antt =====
-- The table behind ADD and DELETE, entry by entry.
use cs425a_computer_networks.Base.{
  ℕ, ◌≡◌, refl, ap, ◌∙◌, [], ◌∷◌, Bool, true, false, not, ◌⊎◌, ==-refl, inl, inr, none, ok,
}
use cs425a_computer_networks.OpenFlow.Match.{Match, match_eq}
use cs425a_computer_networks.OpenFlow.FlowTable.{
  TableEntry, Table, FlowMod, add, delete, delete_strict, Processed, removed, added, add_entry,
  select, is_matched_by, check_port, from_flow_mod, remove_matching_entries, delete_matching,
  run_command, process_flow_mod,
}
use cs425a_computer_networks.OpenFlow.Match.Fields.{opt_eq_refl}
use cs425a_computer_networks.OpenFlow.FlowTable.Sorting.{
  IsSorted, add_entry-insert_after, insert_after,
}
use cs425a_computer_networks.OpenFlow.FlowTable.Mods.{remove_matching_entries-IsSorted}
use cs425a_computer_networks.OpenFlow.FlowTable.Select.{
  select-select-not, select-insert_after, select-insert_after_no, select_idem,
}
use cs425a_computer_networks.OpenFlow.FlowTable.Removal.{
  DistinctEntries, remove_matching_entries_lem,
}

-- Entries whose match is that of the flow mod, at its priority.
abbrev pub same_flow : FlowMod → TableEntry → Bool
same_flow m e = is_matched_by e m.matching m.priority true none

-- The flow mod passes the two guards.
pub record IsSupported (m : FlowMod) : Type 0 where
  pub no_check : m.check_overlap ≡ false
  pub no_port : m.out_port ≡ 0xffff

supported_runs :
    (m : FlowMod) (identity now : ℕ) (t : Table)
    → IsSupported m
    → process_flow_mod m identity now t ≡ run_command m.command m identity now t
unfolding process_flow_mod
supported_runs m identity now t s = rw (s.no_check, s.no_port)

-- Both DELETE commands, without the unsupported options and on a table of distinct entries, remove
-- the entries that are equal to the match and have its priority, and no others: also the one that
-- is not strict leaves the flows that the match only encompasses.
pub process_flow_mod_delete :
    (m : FlowMod) (identity now : ℕ) (t : Table)
    → IsSupported m
    → DistinctEntries t
    → (m.command ≡ delete) ⊎ (m.command ≡ delete_strict)
    → process_flow_mod m identity now t
      ≡ ok (record {
        table = select (λ e. not (same_flow m e)) t;
        verb = removed;
        affected = select (same_flow m) t;
      })
process_flow_mod_delete m identity now t s distinct (inl c) =
    supported_runs m identity now t s
    ∙ rw c (
        unfold run_command delete_matching in
        rw (remove_matching_entries_lem m.matching m.priority true t distinct))
process_flow_mod_delete m identity now t s distinct (inr c) =
    supported_runs m identity now t s
    ∙ rw c (
        unfold run_command delete_matching in
        rw (remove_matching_entries_lem m.matching m.priority true t distinct))

match_eq_refl : (a : Match) → match_eq a a ≡ true
unfolding match_eq
match_eq_refl a = simp (==-refl, opt_eq_refl)

-- ADD without the unsupported options, on a sorted table of distinct entries, succeeds; the
-- entries of the result that have the match and the priority of the flow mod are exactly the new
-- one, made from the flow mod, and the other entries are those that were there.
pub process_flow_mod_add :
    (m : FlowMod) (identity now : ℕ) (t : Table)
    → IsSupported m
    → IsSorted t
    → DistinctEntries t
    → m.command ≡ add
    → (r : Processed) × (process_flow_mod m identity now t ≡ ok r)
      × (select (same_flow m) r.table ≡ from_flow_mod identity now m ∷ [])
      × (select (λ e. not (same_flow m e)) r.table ≡ select (λ e. not (same_flow m e)) t)
process_flow_mod_add m identity now t s sorted distinct c = (
  record {
    table = add_entry new (remove_matching_entries m.matching m.priority true t).0;
    verb = added;
    affected = [];
  },
  supported_runs m identity now t s ∙ rw c (unfold run_command in refl),
  rw
      (
        added_to,
        select-insert_after (same_flow m) new kept is_same (select-select-not (same_flow m) t),
      )
      refl,
  rw
      (
        added_to,
        select-insert_after_no (λ e. not (same_flow m e)) new kept (ap not is_same),
        select_idem (λ e. not (same_flow m e)) t,
      )
      refl,
)
  where
    new : TableEntry
    new = from_flow_mod identity now m

    kept : Table
    kept = select (λ e. not (same_flow m e)) t

    left : (remove_matching_entries m.matching m.priority true t).0 ≡ kept
    left = ap (λ r. r.0) (remove_matching_entries_lem m.matching m.priority true t distinct)

    added_to :
        add_entry new (remove_matching_entries m.matching m.priority true t).0
        ≡ insert_after new kept
    added_to = rw (← left) (
        add_entry-insert_after new (remove_matching_entries m.matching m.priority true t).0
          (remove_matching_entries-IsSorted m.matching m.priority true t sorted))

    is_same : same_flow m new ≡ true
    is_same =
        unfold is_matched_by from_flow_mod check_port in
        rw (match_eq_refl m.matching, ==-refl m.priority)

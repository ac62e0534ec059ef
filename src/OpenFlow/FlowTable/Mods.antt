-- ===== src/OpenFlow/FlowTable/Mods.antt =====
-- Every command of `process_flow_mod` keeps the table sorted.
use cs425a_computer_networks.Base.{
  ℕ, ◌≤◌, ◌≡◌, sym, ◌∙◌, List, [], ◌∷◌, Bool, true, false, ◌==◌, Bool-cases, inl, inr, All, none,
  ok, err, ok-injective, not_implemented,
}
use mathlib.Core.Path.{subst}
use cs425a_computer_networks.OpenFlow.Match.{Match}
use cs425a_computer_networks.OpenFlow.FlowTable.{
  TableEntry, Table, FlowMod, Command, add, modify, modify_strict, delete, delete_strict, unknown,
  Processed, sort_key, is_matched_by, from_flow_mod, remove_matching_entries, modify_loop,
  modify_or_add, delete_matching, run_command, process_flow_mod, matching_entries, finish_modify,
}
use cs425a_computer_networks.OpenFlow.FlowTable.Sorting.{IsSorted, add_entry-IsSorted}
use cs425a_computer_networks.OpenFlow.FlowTable.Removal.{remove_all-IsSorted}

pub remove_matching_entries-IsSorted :
    (m : Match) (priority : ℕ) (strict : Bool) (t : Table)
    → IsSorted t
    → IsSorted (remove_matching_entries m priority strict t).0
unfolding remove_matching_entries
remove_matching_entries-IsSorted m priority strict t h =
    remove_all-IsSorted (matching_entries m priority strict none t) t h

module _ (m : FlowMod) (strict : Bool) where
  modify_loop-All :
      (n : ℕ) (t : Table)
      → All (λ x. sort_key x ≤ n) t
      → All (λ x. sort_key x ≤ n) (modify_loop m strict t).0
  unfolding modify_loop sort_key
  modify_loop-All n [] h = tt
  modify_loop-All n (e ∷ es) (p, h) =
      elim (Bool-cases (is_matched_by e m.matching m.priority strict none)) [
        | inl y ↦ rw (y, modify_loop) (p, modify_loop-All n es h)
        | inr k ↦ rw (k, modify_loop) (p, modify_loop-All n es h)
      ]

  modify_loop-IsSorted : (t : Table) → IsSorted t → IsSorted (modify_loop m strict t).0
  unfolding modify_loop
  modify_loop-IsSorted [] h = tt
  modify_loop-IsSorted (e ∷ es) (all, h) =
      elim (Bool-cases (is_matched_by e m.matching m.priority strict none)) [
        | inl y ↦
            rw (y, modify_loop)
              (unfold sort_key in modify_loop-All (sort_key e) es all, modify_loop-IsSorted es h)
        | inr k ↦
            rw (k, modify_loop) (modify_loop-All (sort_key e) es all, modify_loop-IsSorted es h)
      ]

finish_modify-IsSorted :
    (es : List TableEntry) (t : Table) (new : TableEntry) (r : Processed)
    → IsSorted t
    → finish_modify es t new ≡ ok r
    → IsSorted r.table
unfolding finish_modify
finish_modify-IsSorted [] t new r h e =
    subst (λ (q : Processed). IsSorted q.table) (ok-injective e) (add_entry-IsSorted new t)
finish_modify-IsSorted (x ∷ es) t new r h e =
    subst (λ (q : Processed). IsSorted q.table) (ok-injective e) h

module _ (m : FlowMod) (identity now : ℕ) (t : Table) (h : IsSorted t) (r : Processed) where
  modify_or_add-IsSorted :
      (strict : Bool) → modify_or_add m strict identity now t ≡ ok r → IsSorted r.table
  unfolding modify_or_add
  modify_or_add-IsSorted strict e =
      finish_modify-IsSorted (modify_loop m strict t).1 (modify_loop m strict t).0
        (from_flow_mod identity now m) r (modify_loop-IsSorted m strict t h) e

  delete_matching-IsSorted : delete_matching m t ≡ ok r → IsSorted r.table
  unfolding delete_matching
  delete_matching-IsSorted e =
      subst (λ (q : Processed). IsSorted q.table) (ok-injective e)
        (remove_matching_entries-IsSorted m.matching m.priority true t h)

  run_command-IsSorted : (c : Command) → run_command c m identity now t ≡ ok r → IsSorted r.table
  unfolding run_command
  run_command-IsSorted add e =
      subst (λ (q : Processed). IsSorted q.table) (ok-injective e) (add_entry-IsSorted _ _)
  run_command-IsSorted modify e = modify_or_add-IsSorted false e
  run_command-IsSorted modify_strict e = modify_or_add-IsSorted true e
  run_command-IsSorted delete e = delete_matching-IsSorted e
  run_command-IsSorted delete_strict e = delete_matching-IsSorted e
  run_command-IsSorted (unknown n) e = absurd (cc)

  -- Every flow mod that is carried out without an exception leaves a sorted table sorted.
  pub process_flow_mod-IsSorted : process_flow_mod m identity now t ≡ ok r → IsSorted r.table
  unfolding process_flow_mod
  process_flow_mod-IsSorted e = elim (Bool-cases m.check_overlap) [
    | inl y ↦ absurd (cc (sym (stops y) ∙ e))
    | inr n ↦ elim (Bool-cases (m.out_port == 0xffff)) [
      | inl y ↦ run_command-IsSorted m.command (sym (goes n y) ∙ e)
      | inr k ↦ absurd (cc (sym (refused n k) ∙ e))
    ]
  ]
    where
      stops : m.check_overlap ≡ true → process_flow_mod m identity now t ≡ err not_implemented
      stops y = rw y

      goes :
          m.check_overlap ≡ false
          → (m.out_port == 0xffff) ≡ true
          → process_flow_mod m identity now t ≡ run_command m.command m identity now t
      goes n y = rw (n, y)

      refused :
          m.check_overlap ≡ false
          → (m.out_port == 0xffff) ≡ false
          → process_flow_mod m identity now t ≡ err not_implemented
      refused n k = rw (n, k)

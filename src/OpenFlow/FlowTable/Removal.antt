-- ===== src/OpenFlow/FlowTable/Removal.antt =====
-- What `remove_matching_entries` and `remove_expired_entries` leave in the table.
use cs425a_computer_networks.Base.{
  ℕ, ◌≤◌, ◌≡◌, refl, ap, ◌∙◌, arith, [], ◌∷◌, Bool, true, false, not, ◌==◌, Bool-cases, inl, inr,
  All, none,
}
use cs425a_computer_networks.OpenFlow.Match.{Match}
use cs425a_computer_networks.OpenFlow.FlowTable.{
  TableEntry, Table, sort_key, remove, remove_all, select, is_matched_by, is_expired,
  matching_entries, expired_entries, remove_expired_entries, remove_matching_entries,
}
use cs425a_computer_networks.OpenFlow.FlowTable.Sorting.{IsSorted}

-- No two entries are the same object.
abbrev pub DistinctEntries : Table → Type 0
DistinctEntries [] = Unit {0}
DistinctEntries (e ∷ es) = All (λ x. (e.identity == x.identity) ≡ false) es × DistinctEntries es

select-All {ℓ} :
    (P : TableEntry → Type ℓ) (test : TableEntry → Bool) (t : Table)
    → All P t
    → All P (select test t)
unfolding select
select-All P test [] h = tt
select-All P test (e ∷ es) (h, hs) = elim (Bool-cases (test e)) [
  | inl y ↦ rw (y, select) (h, select-All P test es hs)
  | inr n ↦ rw (n, select) (select-All P test es hs)
]

remove_all-other :
    (e : TableEntry) (es t : Table)
    → All (λ x. (e.identity == x.identity) ≡ false) es
    → remove_all es (e ∷ t) ≡ e ∷ remove_all es t
unfolding remove_all remove
remove_all-other e [] t h = refl
remove_all-other e (x ∷ es) t (h, hs) = rw h (remove_all-other e es (remove x t) hs)

module _ (test : TableEntry → Bool) (e : TableEntry) (es : Table) where
  pub select_yes : test e ≡ true → select test (e ∷ es) ≡ e ∷ select test es
  unfolding select
  select_yes h = rw h

  pub select_no : test e ≡ false → select test (e ∷ es) ≡ select test es
  unfolding select
  select_no h = rw h

remove_all-cons :
    (e : TableEntry) (es t : Table) → remove_all (e ∷ es) t ≡ remove_all es (remove e t)
unfolding remove_all
remove_all-cons e es t = refl

remove_self : (e : TableEntry) (t : Table) → remove e (e ∷ t) ≡ t
unfolding remove
remove_self e t = ground arith

-- Removing the selected entries one by one leaves the others, in their order.
pub remove_all-select :
    (test : TableEntry → Bool) (t : Table)
    → DistinctEntries t
    → remove_all (select test t) t ≡ select (λ e. not (test e)) t
remove_all-select test [] h = unfold remove_all select in refl
remove_all-select test (e ∷ es) (h, hs) = elim (Bool-cases (test e)) [
  | inl y ↦ chosen y (remove_all-select test es hs)
  | inr n ↦ kept n (remove_all-select test es hs)
]
  where
    chosen :
        test e ≡ true
        → remove_all (select test es) es ≡ select (λ x. not (test x)) es
        → remove_all (select test (e ∷ es)) (e ∷ es) ≡ select (λ x. not (test x)) (e ∷ es)
    chosen y ih =
        rw
          (
            select_yes test e es y,
            remove_all-cons e (select test es) (e ∷ es),
            remove_self e es,
            select_no (λ x. not (test x)) e es (ap not y),
          )
          ih

    kept :
        test e ≡ false
        → remove_all (select test es) es ≡ select (λ x. not (test x)) es
        → remove_all (select test (e ∷ es)) (e ∷ es) ≡ select (λ x. not (test x)) (e ∷ es)
    kept n ih =
        rw (select_no test e es n, select_yes (λ x. not (test x)) e es (ap not n))
          (remove_all-other e (select test es) es (select-All _ test es h) ∙ ap (λ r. e ∷ r) ih)

-- In a table of distinct entries, `remove_matching_entries` returns the entries that the match
-- selects, and leaves the others in their order.
pub remove_matching_entries_lem :
    (m : Match) (priority : ℕ) (strict : Bool) (t : Table)
    → DistinctEntries t
    → remove_matching_entries m priority strict t ≡ (
      select (λ e. not (is_matched_by e m priority strict none)) t,
      select (λ e. is_matched_by e m priority strict none) t,
    )
unfolding remove_matching_entries matching_entries
remove_matching_entries_lem m priority strict t h =
    ap (λ r. (r, select (λ e. is_matched_by e m priority strict none) t))
      (remove_all-select (λ e. is_matched_by e m priority strict none) t h)

-- In a table of distinct entries, `remove_expired_entries` returns the entries that have expired,
-- and leaves the others in their order.
pub remove_expired_entries_lem :
    (now : ℕ) (t : Table)
    → DistinctEntries t
    → remove_expired_entries now t
      ≡ (select (λ e. not (is_expired now e)) t, select (is_expired now) t)
unfolding remove_expired_entries expired_entries
remove_expired_entries_lem now t h =
    ap (λ r. (r, select (is_expired now) t)) (remove_all-select (is_expired now) t h)

remove-All :
    (n : ℕ) (e : TableEntry) (t : Table)
    → All (λ x. sort_key x ≤ n) t
    → All (λ x. sort_key x ≤ n) (remove e t)
unfolding remove
remove-All n e [] h = tt
remove-All n e (x ∷ xs) (p, h) = elim (Bool-cases (x.identity == e.identity)) [
  | inl y ↦ rw (y, remove) h
  | inr k ↦ rw (k, remove) (p, remove-All n e xs h)
]

pub remove-IsSorted : (e : TableEntry) (t : Table) → IsSorted t → IsSorted (remove e t)
unfolding remove
remove-IsSorted e [] h = tt
remove-IsSorted e (x ∷ xs) (all, h) = elim (Bool-cases (x.identity == e.identity)) [
  | inl y ↦ rw (y, remove) h
  | inr k ↦ rw (k, remove) (remove-All (sort_key x) e xs all, remove-IsSorted e xs h)
]

pub remove_all-IsSorted : (es t : Table) → IsSorted t → IsSorted (remove_all es t)
unfolding remove_all
remove_all-IsSorted [] t h = h
remove_all-IsSorted (e ∷ es) t h = remove_all-IsSorted es (remove e t) (remove-IsSorted e t h)

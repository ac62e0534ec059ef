-- ===== src/OpenFlow/FlowTable/Select.antt =====
-- The entries that a test selects, before and after an insertion.
use cs425a_computer_networks.Base.{
  ◌≡◌, refl, sym, ap, ◌∙◌, [], ◌∷◌, Bool, true, false, not, leb, Bool-cases, inl, inr,
}
use cs425a_computer_networks.OpenFlow.FlowTable.{TableEntry, Table, sort_key, select}
use cs425a_computer_networks.OpenFlow.FlowTable.Sorting.{insert_after}
use cs425a_computer_networks.OpenFlow.FlowTable.Removal.{select_yes, select_no}

pub select-select-not :
    (test : TableEntry → Bool) (t : Table) → select test (select (λ e. not (test e)) t) ≡ []
select-select-not test [] = unfold select in refl
select-select-not test (e ∷ es) = elim (Bool-cases (test e)) [
  | inl y ↦ rw (select_no (λ x. not (test x)) e es (ap not y)) (select-select-not test es)
  | inr n ↦
      rw (select_yes (λ x. not (test x)) e es (ap not n), select_no test e _ n)
        (select-select-not test es)
]

pub select-insert_after :
    (test : TableEntry → Bool) (e : TableEntry) (t : Table)
    → test e ≡ true
    → select test t ≡ []
    → select test (insert_after e t) ≡ e ∷ []
select-insert_after test e [] y h =
    unfold insert_after in (select_yes test e [] y ∙ ap (λ r. e ∷ r) h)
select-insert_after test e (x ∷ xs) y h = elim (Bool-cases (test x)) [
  | inl p ↦ absurd (cc (sym (select_yes test x xs p) ∙ h))
  | inr n ↦ other n (select-insert_after test e xs y (sym (select_no test x xs n) ∙ h))
]
  where
    other :
        test x ≡ false
        → select test (insert_after e xs) ≡ e ∷ []
        → select test (insert_after e (x ∷ xs)) ≡ e ∷ []
    other n ih = elim (Bool-cases (leb (sort_key e) (sort_key x))) [
      | inl le ↦
          unfold insert_after in rw (le, insert_after) (select_no test x (insert_after e xs) n ∙ ih)
      | inr gt ↦
          unfold insert_after in
          rw (gt, insert_after) (select_yes test e (x ∷ xs) y ∙ ap (λ r. e ∷ r) h)
    ]

pub select-insert_after_no :
    (test : TableEntry → Bool) (e : TableEntry) (t : Table)
    → test e ≡ false
    → select test (insert_after e t) ≡ select test t
select-insert_after_no test e [] n = unfold insert_after in select_no test e [] n
select-insert_after_no test e (x ∷ xs) n = elim (Bool-cases (leb (sort_key e) (sort_key x))) [
  | inl le ↦ behind le (select-insert_after_no test e xs n)
  | inr gt ↦ unfold insert_after in rw (gt, insert_after) (select_no test e (x ∷ xs) n)
]
  where
    behind :
        leb (sort_key e) (sort_key x) ≡ true
        → select test (insert_after e xs) ≡ select test xs
        → select test (insert_after e (x ∷ xs)) ≡ select test (x ∷ xs)
    behind le ih = elim (Bool-cases (test x)) [
      | inl y ↦
          unfold insert_after in
          rw (le, insert_after)
            (select_yes test x (insert_after e xs) y
              ∙ ap (λ r. x ∷ r) ih
              ∙ sym (select_yes test x xs y))
      | inr k ↦
          unfold insert_after in
          rw (le, insert_after)
            (select_no test x (insert_after e xs) k ∙ ih ∙ sym (select_no test x xs k))
    ]

pub select_idem :
    (test : TableEntry → Bool) (t : Table) → select test (select test t) ≡ select test t
select_idem test [] = unfold select in refl
select_idem test (x ∷ xs) = elim (Bool-cases (test x)) [
  | inl y ↦
      rw (select_yes test x xs y, select_yes test x _ y) (ap (λ r. x ∷ r) (select_idem test xs))
  | inr n ↦ rw (select_no test x xs n) (select_idem test xs)
]

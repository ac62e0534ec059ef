-- ===== src/OpenFlow/FlowTable/Sorting.antt =====
-- The order of the table: `add_entry` keeps it sorted, and loses and invents nothing.
use cs425a_computer_networks.Base.{
  ℕ, ◌≤◌, ◌<◌, ◌≡◌, refl, ap, arith, [], ◌∷◌, ◌++◌, false, leb, leb→le, if◌then◌else◌, Bool-cases,
  inl, inr, All,
}
use mathlib.Core.List.{Perm, perm_middle, append-nil}
use mathlib.Core.List.Perm
use cs425a_computer_networks.OpenFlow.FlowTable.{
  TableEntry, Table, sort_key, sort_in, sort_table, add_entry,
}

-- No later entry has a larger key.
abbrev pub IsSorted : Table → Type 0
IsSorted [] = Unit {0}
IsSorted (e ∷ es) = All (λ x. sort_key x ≤ sort_key e) es × IsSorted es

All-weaken :
    (a b : ℕ) (t : Table) → a ≤ b → All (λ x. sort_key x ≤ a) t → All (λ x. sort_key x ≤ b) t
All-weaken a b [] h k = tt
All-weaken a b (x ∷ xs) h (p, k) = (omega arith, All-weaken a b xs h k)

sort_in-All :
    (n : ℕ) (e : TableEntry) (t : Table)
    → sort_key e ≤ n
    → All (λ x. sort_key x ≤ n) t
    → All (λ x. sort_key x ≤ n) (sort_in e t)
sort_in-All n e [] h k = unfold sort_in in (h, tt)
sort_in-All n e (x ∷ xs) h (p, k) = elim (Bool-cases (leb (sort_key x) (sort_key e))) [
  | inl le ↦ unfold sort_in in rw (le, sort_in) (h, (p, k))
  | inr gt ↦ later gt (sort_in-All n e xs h k)
]
  where
    later :
        leb (sort_key x) (sort_key e) ≡ false
        → All (λ y. sort_key y ≤ n) (sort_in e xs)
        → All (λ y. sort_key y ≤ n) (sort_in e (x ∷ xs))
    later gt ih = unfold sort_in in rw (gt, sort_in) (p, ih)

sort_in-IsSorted : (e : TableEntry) (t : Table) → IsSorted t → IsSorted (sort_in e t)
sort_in-IsSorted e [] h = unfold sort_in in (tt, tt)
sort_in-IsSorted e (x ∷ xs) (all, h) = elim (Bool-cases (leb (sort_key x) (sort_key e))) [
  | inl le ↦
      unfold sort_in in
      rw (le, sort_in) ((leb→le _ _ le, All-weaken _ _ xs (leb→le _ _ le) all), (all, h))
  | inr gt ↦ later gt (sort_in-IsSorted e xs h)
]
  where
    later :
        leb (sort_key x) (sort_key e) ≡ false
        → IsSorted (sort_in e xs)
        → IsSorted (sort_in e (x ∷ xs))
    later gt ih =
        unfold sort_in in rw (gt, sort_in) (sort_in-All (sort_key x) e xs (ground arith) all, ih)

sort_table-IsSorted : (t : Table) → IsSorted (sort_table t)
unfolding sort_table
sort_table-IsSorted [] = tt
sort_table-IsSorted (e ∷ es) = sort_in-IsSorted e (sort_table es) (sort_table-IsSorted es)

-- Whatever the table was, `add_entry` leaves it sorted.
pub add_entry-IsSorted : (e : TableEntry) (t : Table) → IsSorted (add_entry e t)
unfolding add_entry
add_entry-IsSorted e t = sort_table-IsSorted (t ++ (e ∷ []))

sort_in-perm : (e : TableEntry) (t : Table) → Perm (sort_in e t) (e ∷ t)
sort_in-perm e [] = unfold sort_in in Perm.refl (e ∷ [])
sort_in-perm e (x ∷ xs) = elim (Bool-cases (leb (sort_key x) (sort_key e))) [
  | inl le ↦ unfold sort_in in rw (le, sort_in) (Perm.refl (e ∷ x ∷ xs))
  | inr gt ↦ later gt (sort_in-perm e xs)
]
  where
    later :
        leb (sort_key x) (sort_key e) ≡ false
        → Perm (sort_in e xs) (e ∷ xs)
        → Perm (sort_in e (x ∷ xs)) (e ∷ x ∷ xs)
    later gt ih =
        unfold sort_in in rw (gt, sort_in) (Perm.trans (Perm.cons x ih) (Perm.swap e x xs))

sort_table-perm : (t : Table) → Perm (sort_table t) t
unfolding sort_table
sort_table-perm [] = Perm.refl []
sort_table-perm (e ∷ es) =
    Perm.trans (sort_in-perm e (sort_table es)) (Perm.cons e (sort_table-perm es))

-- `add_entry` adds the entry once and keeps all others, each as often as before.
pub add_entry-perm : (e : TableEntry) (t : Table) → Perm (add_entry e t) (e ∷ t)
unfolding add_entry
add_entry-perm e t =
    Perm.trans (sort_table-perm (t ++ (e ∷ []))) (rw (append-nil) at (perm_middle {a = e} t []))

-- Where a new entry goes: behind all entries whose key is not smaller than its own.
unfoldable pub insert_after : TableEntry → Table → Table
insert_after e [] = e ∷ []
insert_after e (x ∷ xs) =
    if leb (sort_key e) (sort_key x) then x ∷ insert_after e xs else e ∷ x ∷ xs

sort_in-front :
    (e : TableEntry) (t : Table) → All (λ x. sort_key x ≤ sort_key e) t → sort_in e t ≡ e ∷ t
unfolding sort_in
sort_in-front e [] h = refl
sort_in-front e (x ∷ xs) (h, hs) = ground arith

insert_after-All :
    (n : ℕ) (e : TableEntry) (t : Table)
    → sort_key e ≤ n
    → All (λ x. sort_key x ≤ n) t
    → All (λ x. sort_key x ≤ n) (insert_after e t)
unfolding insert_after
insert_after-All n e [] h k = (h, tt)
insert_after-All n e (x ∷ xs) h (p, k) = elim (Bool-cases (leb (sort_key e) (sort_key x))) [
  | inl le ↦ rw (le, insert_after) (p, insert_after-All n e xs h k)
  | inr gt ↦ rw (gt, insert_after) (h, (p, k))
]

insert_after-front :
    (e : TableEntry) (t : Table) → All (λ x. sort_key x < sort_key e) t → insert_after e t ≡ e ∷ t
unfolding insert_after
insert_after-front e [] h = refl
insert_after-front e (x ∷ xs) (h, hs) = ground arith

pub All-below :
    (n m : ℕ) (t : Table) → n < m → All (λ x. sort_key x ≤ n) t → All (λ x. sort_key x < m) t
All-below n m [] h k = tt
All-below n m (x ∷ xs) h (p, k) = (omega arith, All-below n m xs h k)

-- `add_entry` on a sorted table puts the new entry behind those whose key is not smaller than its
-- own, and leaves the order of the others.
pub add_entry-insert_after :
    (e : TableEntry) (t : Table) → IsSorted t → add_entry e t ≡ insert_after e t
unfolding add_entry sort_table
add_entry-insert_after e [] h = unfold sort_in insert_after in refl
add_entry-insert_after e (x ∷ xs) (all, h) =
    rw (add_entry-insert_after e xs h) (elim (Bool-cases (leb (sort_key e) (sort_key x))) [
      | inl le ↦
          unfold insert_after in
          rw (le, insert_after)
            (sort_in-front x (insert_after e xs)
              (insert_after-All (sort_key x) e xs (leb→le _ _ le) all))
      | inr gt ↦
          let over : sort_key x < sort_key e = ground arith in
          rw (insert_after-front e xs (All-below _ _ xs over all)) (
            unfold insert_after sort_in in
            rw (gt, insert_after) (ap (λ r. e ∷ r) (sort_in-front x xs all)))
    ])

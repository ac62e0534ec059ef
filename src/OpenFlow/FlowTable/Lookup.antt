-- ===== src/OpenFlow/FlowTable/Lookup.antt =====
-- Which entry `entry_for_packet` finds.
use cs425a_computer_networks.Base.{
  ℕ, ◌≤◌, ◌<◌, ◌≡◌, refl, sym, ap, ◌∙◌, arith, [], ◌∷◌, Bool, true, false, leb, if◌then◌else◌,
  Bool-cases, inl, inr, All, Option, none, some,
}
use mathlib.Core.Path.{subst}
use cs425a_computer_networks.OpenFlow.Match.{Match, matches_with_wildcards}
use cs425a_computer_networks.OpenFlow.Match.Packets.{Packet, from_packet}
use cs425a_computer_networks.OpenFlow.FlowTable.{
  TableEntry, Table, sort_key, add_entry, first_match, entry_for_packet,
}
use cs425a_computer_networks.OpenFlow.FlowTable.Sorting.{
  IsSorted, insert_after, add_entry-insert_after, All-below,
}

abbrev pub Passes : Match → TableEntry → Type 0
Passes pm e = matches_with_wildcards e.matching pm false ≡ true

module _ (pm : Match) where
  module _ (e : TableEntry) (es : Table) where
    first_yes : Passes pm e → first_match pm (e ∷ es) ≡ some e
    unfolding first_match
    first_yes h = rw h

    first_no :
        matches_with_wildcards e.matching pm false ≡ false
        → first_match pm (e ∷ es) ≡ first_match pm es
    unfolding first_match
    first_no h = rw h

  -- What holds of all entries holds of the one that is found.
  first_match-All :
      (P : TableEntry → Type 0) (t : Table) (o : TableEntry)
      → All P t
      → first_match pm t ≡ some o
      → P o
  first_match-All P [] o h k = absurd (unfold first_match in cc k)
  first_match-All P (x ∷ xs) o (p, h) k =
      elim (Bool-cases (matches_with_wildcards x.matching pm false)) [
        | inl y ↦
            let found : some x ≡ some o = sym (first_yes x xs y) ∙ k in
            let eq : x ≡ o = cc in subst P eq p
        | inr m ↦ first_match-All P xs o h (sym (first_no x xs m) ∙ k)
      ]

  All-Passes :
      (n : ℕ) (t : Table) → All (λ x. sort_key x ≤ n) t → All (λ x. Passes pm x → sort_key x ≤ n) t
  All-Passes n [] h = tt
  All-Passes n (x ∷ xs) (p, h) = ((λ _. p), All-Passes n xs h)

  -- The entry that is found lets the packet pass, and no entry that does has a larger key.
  first_match_best :
      (t : Table) (o : TableEntry)
      → IsSorted t
      → first_match pm t ≡ some o
      → Passes pm o × All (λ x. Passes pm x → sort_key x ≤ sort_key o) t
  first_match_best [] o h k = absurd (unfold first_match in cc k)
  first_match_best (x ∷ xs) o (all, h) k =
      elim (Bool-cases (matches_with_wildcards x.matching pm false)) [
        | inl y ↦
            let found : some x ≡ some o = sym (first_yes x xs y) ∙ k in
            let eq : x ≡ o = cc in
            subst (λ q. Passes pm q × All (λ z. Passes pm z → sort_key z ≤ sort_key q) (x ∷ xs)) eq
              (y, ((λ _. omega arith), All-Passes (sort_key x) xs all))
        | inr m ↦
            let (passes, best) = first_match_best xs o h (sym (first_no x xs m) ∙ k) in
            (passes, ((λ y. cc), best))
      ]

  first_match-none :
      (t : Table)
      → first_match pm t ≡ none
      → All (λ x. matches_with_wildcards x.matching pm false ≡ false) t
  first_match-none [] k = tt
  first_match-none (x ∷ xs) k = elim (Bool-cases (matches_with_wildcards x.matching pm false)) [
    | inl y ↦ absurd (cc (sym (first_yes x xs y) ∙ k))
    | inr m ↦ (m, first_match-none xs (sym (first_no x xs m) ∙ k))
  ]

-- Of two candidates, the old one and the new one, the old one stays unless its key is smaller.
abbrev pub prefer : TableEntry → Option TableEntry → TableEntry
prefer e none = e
prefer e (some o) = if leb (sort_key e) (sort_key o) then o else e

module _ (pm : Match) (e : TableEntry) where
  -- What the lookup finds once `e` is in.
  abbrev pub with_new : Option TableEntry → Option TableEntry
  with_new old = if matches_with_wildcards e.matching pm false then some (prefer e old) else old

  prefer-lower :
      (o : Option TableEntry)
      → ((x : TableEntry) → o ≡ some x → sort_key x < sort_key e)
      → prefer e o ≡ e
  prefer-lower none h = refl
  prefer-lower (some x) h = let lower : sort_key x < sort_key e = h x refl in ground arith

  with_new-front :
      (t : Table)
      → All (λ x. sort_key x < sort_key e) t
      → first_match pm (e ∷ t) ≡ with_new (first_match pm t)
  with_new-front t h = elim (Bool-cases (matches_with_wildcards e.matching pm false)) [
    | inr m ↦ first_no pm e t m ∙ rw m
    | inl y ↦
        first_yes pm e t y
        ∙ rw y (
            ap some (
              sym (
                prefer-lower (first_match pm t)
                  (λ x k. first_match-All pm (λ z. sort_key z < sort_key e) t x h k))))
  ]

  first_match-insert_after :
      (t : Table) → IsSorted t → first_match pm (insert_after e t) ≡ with_new (first_match pm t)
  first_match-insert_after [] h = unfold insert_after in with_new-front [] tt
  first_match-insert_after (x ∷ xs) (all, h) = elim (Bool-cases (leb (sort_key e) (sort_key x))) [
    | inr gt ↦
        let over : sort_key x < sort_key e = ground arith in
        unfold insert_after in
        rw (gt, insert_after) (with_new-front (x ∷ xs) (over, All-below _ _ xs over all))
    | inl le ↦ behind le (first_match-insert_after xs h)
  ]
    where
      behind :
          leb (sort_key e) (sort_key x) ≡ true
          → first_match pm (insert_after e xs) ≡ with_new (first_match pm xs)
          → first_match pm (insert_after e (x ∷ xs)) ≡ with_new (first_match pm (x ∷ xs))
      behind le ih = elim (Bool-cases (matches_with_wildcards x.matching pm false)) [
        | inl y ↦
            unfold insert_after in
            rw (le, insert_after)
              (first_yes pm x (insert_after e xs) y
                ∙ rw (first_yes pm x xs y) (stays (matches_with_wildcards e.matching pm false) le))
        | inr m ↦
            unfold insert_after in
            rw (le, insert_after, first_no pm x (insert_after e xs) m, first_no pm x xs m) ih
      ]
        where
          stays :
              (b : Bool)
              → leb (sort_key e) (sort_key x) ≡ true
              → some x ≡ (if b then some (prefer e (some x)) else some x)
          stays b l = ground arith

-- In a table sorted by descending key, the lookup of a packet after `add_entry` is decided by the
-- lookup before: the new entry is found if it lets the packet pass and the entry found before, if
-- any, has a smaller key; otherwise the result is the old one.
pub entry_for_packet-add_entry :
    (packet : Packet) (in_port : ℕ) (e : TableEntry) (t : Table)
    → IsSorted t
    → entry_for_packet packet in_port (add_entry e t)
      ≡ with_new (from_packet packet (some in_port)) e (entry_for_packet packet in_port t)
unfolding entry_for_packet
entry_for_packet-add_entry packet in_port e t h =
    rw (add_entry-insert_after e t h)
      (first_match-insert_after (from_packet packet (some in_port)) e t h)

-- In a sorted table, an entry that is found for a packet lets it pass, and every other entry of
-- the table that does has a key that is no larger.
pub entry_for_packet_best :
    (packet : Packet) (in_port : ℕ) (t : Table) (o : TableEntry)
    → IsSorted t
    → entry_for_packet packet in_port t ≡ some o
    → Passes (from_packet packet (some in_port)) o
      × All (λ x. Passes (from_packet packet (some in_port)) x → sort_key x ≤ sort_key o) t
unfolding entry_for_packet
entry_for_packet_best packet in_port t o h k =
    first_match_best (from_packet packet (some in_port)) t o h k

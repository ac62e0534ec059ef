-- ===== src/OpenFlow/Switch/Slots.antt =====
-- The packet buffer: what `_buffer_packet` puts there, and what comes out of it again.
use cs425a_computer_networks.Base.{
  ℕ, zero, suc, ◌+◌, ◌-◌, ◌<◌, ◌≤◌, ◌≡◌, refl, arith, List, [], ◌∷◌, ◌==◌, ltb, ==→eq, Bool-cases,
  inl, inr, true, false, if◌then◌else◌, Option, none, some, length, get_elem?, set, index_error,
}
use mathlib.Core.Path.{subst}
use cs425a_computer_networks.OpenFlow.FlowTable.{Action}
use cs425a_computer_networks.OpenFlow.Switch.{Held, Switch, finish, fail, and_then}
use cs425a_computer_networks.OpenFlow.Switch.Buffer.{fill_slot, buffer_packet}
use cs425a_computer_networks.OpenFlow.Switch.Dataplane.{
  process_actions, process_held, process_slot, process_from_buffer, release,
}

-- The packet in a slot, if there is one.
unfoldable pub held : List (Option Held) → ℕ → Option Held
held [] k = none
held (slot ∷ slots) zero = slot
held (slot ∷ slots) (suc k) = held slots k

-- Where `fill_slot` puts the packet.
record Placed (v : Held) (slots : List (Option Held)) (slots' : List (Option Held)) (k : ℕ)
    : Type 0 where
  was_free : held slots k ≡ none
  now_held : get_elem? slots' k ≡ some (some v)
  in_range : k < length slots'
  others : (j : ℕ) → held slots' j ≡ (if j == k then some v else held slots j)

first_append : (v : Held) (j : ℕ) → held (some v ∷ []) j ≡ (if j == 0 then some v else held [] j)
unfolding held
first_append v zero = refl
first_append v (suc j) = ground arith

first_free :
    (v : Held) (slots : List (Option Held)) (j : ℕ)
    → held (some v ∷ slots) j ≡ (if j == 0 then some v else held (none ∷ slots) j)
unfolding held
first_free v slots zero = refl
first_free v slots (suc j) = ground arith

behind :
    (v w : Held) (slots slots' : List (Option Held)) (k : ℕ)
    → ((j : ℕ) → held slots' j ≡ (if j == k then some v else held slots j))
    → (j : ℕ) → held (some w ∷ slots') j ≡ (if j == suc k then some v else held (some w ∷ slots) j)
unfolding held
behind v w slots slots' k h zero = ground arith
behind v w slots slots' k h (suc j) = ground (arith, h j)

fill_slot_lem :
    (v : Held) (i : ℕ) (slots : List (Option Held))
    → (k : ℕ) × ((fill_slot v i slots).1 ≡ i + k + 1) × Placed v slots (fill_slot v i slots).0 k
unfolding fill_slot held
fill_slot_lem v i [] = (
  0,
  omega arith,
  record { was_free = refl; now_held = refl; in_range = omega arith; others = first_append v },
)
fill_slot_lem v i (none ∷ slots) = (
  0,
  omega arith,
  record { was_free = refl; now_held = refl; in_range = omega arith; others = first_free v slots },
)
fill_slot_lem v i (some w ∷ slots) =
    let (k, eq, p) = fill_slot_lem v (i + 1) slots in
    (
      suc k,
      omega arith,
      record {
        was_free = p.was_free;
        now_held = p.now_held;
        in_range = omega (arith, p.in_range);
        others = behind v w slots _ k p.others;
      },
    )

-- `_buffer_packet` returns a buffer id of at least 1, whose slot was free, and holds the packet in
-- this slot; every other slot is as it was.
pub buffer_packet_lem :
    (v : Held) (s : Switch)
    → let slots = (buffer_packet v s).0.packet_buffer in
      let k = (buffer_packet v s).1 - 1 in
      (0 < (buffer_packet v s).1)
      × (held s.packet_buffer k ≡ none)
      × ((j : ℕ) → held slots j ≡ (if j == k then some v else held s.packet_buffer j))
unfolding buffer_packet
buffer_packet_lem v s =
    let (k, eq, p) = fill_slot_lem v 0 s.packet_buffer in
    let same : k ≡ (fill_slot v 0 s.packet_buffer).1 - 1 = omega arith in
    (
      omega arith,
      subst (λ n. held s.packet_buffer n ≡ none) same p.was_free,
      subst
          (λ n.
            (j : ℕ)
            → held (fill_slot v 0 s.packet_buffer).0 j
              ≡ (if j == n then some v else held s.packet_buffer j))
          same p.others,
    )

-- A packet that is in the buffer is processed with the port that it came in at, and its slot is
-- freed behind that.
process_slot_held :
    (actions : List Action) (k : ℕ) (v : Held) (s : Switch)
    → k < length s.packet_buffer
    → get_elem? s.packet_buffer k ≡ some (some v)
    → process_slot actions k s ≡ and_then (process_actions actions v.0 v.1 s) (release k)
unfolding process_slot process_held
process_slot_held actions k v s lt h =
    let inside : ltb (length s.packet_buffer) k ≡ false = ground arith in rw (inside, h) refl

pub held-set : (slots : List (Option Held)) (k : ℕ) → held (set slots k none) k ≡ none
unfolding held
held-set [] k = refl
held-set (slot ∷ slots) zero = refl
held-set (slot ∷ slots) (suc k) = held-set slots k

-- The buffer id that `_buffer_packet` returns gives the packet back: the actions are applied to it
-- with the port that it came in at, and then its slot is freed.
pub process_from_buffer-buffer_packet :
    (actions : List Action) (v : Held) (s : Switch)
    → let s' = (buffer_packet v s).0 in
      let id = (buffer_packet v s).1 in
      process_from_buffer actions id s'
      ≡ and_then (process_actions actions v.0 v.1 s') (release (id - 1))
unfolding buffer_packet process_from_buffer
process_from_buffer-buffer_packet actions v s =
    let (k, eq, p) = fill_slot_lem v 0 s.packet_buffer in
    let s' : Switch = record s { packet_buffer = (fill_slot v 0 s.packet_buffer).0 } in
    let same : k ≡ (fill_slot v 0 s.packet_buffer).1 - 1 = omega arith in
    subst
      (λ n. process_slot actions n s' ≡ and_then (process_actions actions v.0 v.1 s') (release n))
      same (process_slot_held actions k v s' p.in_range p.now_held)

get_elem?-large : {A : Type 0} (xs : List A) (i : ℕ) → length xs ≤ i → get_elem? xs i ≡ none
get_elem?-large [] i h = refl
get_elem?-large (x ∷ xs) zero h = absurd (omega arith)
get_elem?-large (x ∷ xs) (suc i) h = get_elem?-large xs i (omega arith)

-- A buffer id larger than the buffer raises an IndexError if it is the one behind the last slot,
-- and is ignored without any effect otherwise.
pub process_from_buffer_large :
    (actions : List Action) (s : Switch) (id : ℕ)
    → length s.packet_buffer < id
    → process_from_buffer actions id s
      ≡ (if id == length s.packet_buffer + 1 then fail index_error s else finish s)
unfolding process_from_buffer process_slot
process_from_buffer_large actions s id lt = elim (Bool-cases (id == length s.packet_buffer + 1)) [
  | inl y ↦
      let inside : ltb (length s.packet_buffer) (id - 1) ≡ false =
        ground (arith, ==→eq id (length s.packet_buffer + 1)) in
      rw (y, inside, get_elem?-large s.packet_buffer (id - 1) (omega arith)) refl
  | inr n ↦
      let outside : ltb (length s.packet_buffer) (id - 1) ≡ true = ground arith in
      rw (n, outside) refl
]

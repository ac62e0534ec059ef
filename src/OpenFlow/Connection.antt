-- ===== src/OpenFlow/Connection.antt =====
-- `ControllerConnection.read` of Project-4/pox/pox/openflow/switch_impl.py: the loop that takes
-- messages off the receive buffer of the worker. `ofp_msgs t` is what unpacks a message of type `t`
-- from the front of the buffer, and `none` for a type that the list of classes does not have; `handle
-- t m s` is what the handler that the connection was made with makes of the message `m` and the
-- switch `s`, and whether it returned (a type without a handler is an exception in the same block).
pub mod Framing
pub mod Messages
pub mod Written
pub mod Sent
mod Tests
use cs425a_computer_networks.Base.{
  ℕ, zero, suc, ◌+◌, ◌*◌, List, [], ◌∷◌, Bool, true, false, not, ◌==◌, ltb, if◌then◌else◌, length,
  drop, Option, none, some, Error, index_error, Result, ok, err,
}
use cs425a_computer_networks.Bytes.{Bytes}

-- How `read` ends: with True, with False, with None for lack of bytes, or in an exception.
pub data Ending : Type 0 where
  done_reading stopped incomplete : Ending
  raised : Error → Ending
  -- not an end of `read`: more rounds are needed
  out_of_fuel : Ending

-- The switch, the bytes that are left in the buffer, and the ending.
pub record Reading {ℓ} (S : Type ℓ) : Type ℓ where
  pub state : S
  pub left : Bytes
  pub ending : Ending

module _ {ℓ} {S M : Type ℓ} (ofp_msgs : ℕ → Option (Bytes → Result M))
    (handle : ℕ → M → S → S × Bool) where
  -- `self.ofp_msgs[ofp_type]()`, which unpacks the buffer.
  unfoldable pub unpack_message : Option (Bytes → Result M) → Bytes → Result M
  unpack_message none buf = err index_error
  unpack_message (some unpack) buf = unpack buf

  -- The handler: the loop goes on if it returned.
  unfoldable pub handle_message : (S → Reading S) → Bytes → S × Bool → Reading S
  handle_message more left (s, true) = more s
  handle_message more left (s, false) = record { state = s; left = left; ending = stopped }

  -- A message that cannot be unpacked stays in the buffer; else the buffer is consumed before the
  -- handler runs.
  unfoldable pub read_message : (S → Reading S) → ℕ → Bytes → Bytes → S → Result M → Reading S
  read_message more t buf left s (err e) = record { state = s; left = buf; ending = raised e }
  read_message more t buf left s (ok m) = handle_message more left (handle t m s)

  unfoldable pub read_loop : ℕ → Bytes → S → Reading S
  read_loop zero buf s = record { state = s; left = buf; ending = out_of_fuel }
  read_loop (suc fuel) [] s = record { state = s; left = []; ending = done_reading }
  read_loop (suc fuel) (a ∷ []) s = record { state = s; left = a ∷ []; ending = done_reading }
  read_loop (suc fuel) (a ∷ b ∷ []) s = record {
    state = s;
    left = a ∷ b ∷ [];
    ending = done_reading;
  }
  read_loop (suc fuel) (a ∷ b ∷ c ∷ []) s = record {
    state = s;
    left = a ∷ b ∷ c ∷ [];
    ending = done_reading;
  }
  read_loop (suc fuel) (a ∷ b ∷ c ∷ d ∷ []) s = record {
    state = s;
    left = a ∷ b ∷ c ∷ d ∷ [];
    ending = done_reading;
  }
  read_loop (suc fuel) (version ∷ t ∷ high ∷ low ∷ e ∷ more) s =
      let buf = version ∷ t ∷ high ∷ low ∷ e ∷ more in
      let n = high * 256 + low in
      let more = λ (z : S). read_loop fuel (drop n buf) z in
      if not (version == 1)
      then record { state = s; left = buf; ending = stopped }
      else if ltb (length buf) n
      then record { state = s; left = buf; ending = incomplete }
      else read_message more t buf (drop n buf) s (unpack_message (ofp_msgs t) buf)

-- ===== src/Wire/Actions/Loop.antt =====
-- `_unpack_actions` of libopenflow_01.py, and the loops that pack, measure and compare actions.
use cs425a_computer_networks.Base.{
  ℕ, zero, suc, ◌+◌, List, [], ◌∷◌, ◌++◌, Bool, true, false, ◌&&◌, ◌==◌, ltb, if◌then◌else◌, length,
  take, drop, Option, none, some, Result, ok, err, struct_error, more_fuel, assertion_error, ◌>>=◌,
}
use cs425a_computer_networks.Bytes.{Bytes}
use cs425a_computer_networks.Bytes.Format.{Values, read, ◌&◌}
use cs425a_computer_networks.Wire.Actions.Union.{
  WireAction, type_length, new_action, pack_action, unpack_action, action_len, eq_action,
}

-- One round of the loop, on the bytes from the offset on; `more` goes on behind an action that takes
-- `size` bytes. Where these are not all there, the actions that were parsed before are dropped.
unfoldable pub parse_action :
    (ℕ → WireAction → Result (List WireAction × ℕ))
    → Bytes
    → ℕ
    → Option (Values type_length × Bytes)
    → Result (List WireAction × ℕ)
parse_action more rest offset none = err struct_error
parse_action more rest offset (some ((t & size & values), behind)) =
    let a = unpack_action (new_action t) (take size rest) in
    if ltb (length rest) size
    then ok ([], offset)
    else if action_len a == size
    then more size a
    else err assertion_error

-- The loop up to the offset `stop`, with the actions so far. The fuel is the rounds that may be
-- made; where it is used up, the result says so.
unfoldable pub parse_actions : ℕ → List WireAction → Bytes → ℕ → ℕ → Result (List WireAction × ℕ)
parse_actions zero actions rest offset stop =
    if ltb offset stop then err more_fuel else ok (actions, offset)
parse_actions (suc fuel) actions rest offset stop =
    let next : Result (List WireAction × ℕ) =
      parse_action
        (λ size a. parse_actions fuel (actions ++ (a ∷ [])) (drop size rest) (offset + size) stop)
        rest offset (read type_length rest) in
    if ltb offset stop then next else ok (actions, offset)

-- `_unpack_actions(b, length, offset)`, with the offset `stop` of `length` bytes further on.
unfoldable pub unpack_actions : Bytes → ℕ → ℕ → Result (List WireAction × ℕ)
unpack_actions b stop offset =
    if ltb (length b) stop
    then ok ([], offset)
    else parse_actions (suc (length b)) [] (drop offset b) offset stop

-- The loop of the callers: the bytes of all actions.
unfoldable pub pack_actions : List WireAction → Result Bytes
pack_actions [] = ok []
pack_actions (a ∷ actions) = do b ← pack_action a; rest ← pack_actions actions; ok (b ++ rest)

-- The sum of the lengths.
unfoldable pub actions_len : List WireAction → ℕ
actions_len [] = 0
actions_len (a ∷ actions) = action_len a + actions_len actions

unfoldable pub eq_actions : List WireAction → List WireAction → Bool
eq_actions [] [] = true
eq_actions (a ∷ actions) (b ∷ others) = eq_action a b && eq_actions actions others
eq_actions _ _ = false

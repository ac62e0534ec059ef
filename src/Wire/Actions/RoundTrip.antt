-- ===== src/Wire/Actions/RoundTrip.antt =====
-- Lists of actions that are packed and parsed again.
use mathlib.Core.List.{append_assoc, append-nil}
use cs425a_computer_networks.Base.{
  ℕ, zero, suc, ◌+◌, ◌≤◌, ◌≡◌, refl, ap, ◌∙◌, arith, List, [], ◌∷◌, ◌++◌, true, false, ◌==◌, ltb,
  length, length-append, take-append, drop-append, map, All, some, Result, ok,
}
use cs425a_computer_networks.Bytes.{Bytes}
use cs425a_computer_networks.Bytes.Format.{encode, read, ◌&◌}
use cs425a_computer_networks.Bytes.Format.RoundTrip.{read-encode}
use cs425a_computer_networks.Wire.Actions.Union.{WireAction, action_len, type_length}
use cs425a_computer_networks.Wire.Actions.Loop.{
  parse_action, parse_actions, unpack_actions, pack_actions, actions_len,
}
use cs425a_computer_networks.Wire.Actions.Fuel.{long_enough}
use cs425a_computer_networks.Wire.Actions.Sent.{
  IsPackable, IsSent, IsPackable-IsSent, settle_action,
}

-- The bytes of a list of actions, with what they are parsed to.
pub data AreSent : List WireAction → Bytes → List WireAction → Type 0 where
  none_sent : AreSent [] [] []
  one_more :
      {a parsed : WireAction} {b bytes : Bytes} {actions all : List WireAction}
      → IsSent a b parsed
      → AreSent actions bytes all
      → AreSent (a ∷ actions) (b ++ bytes) (parsed ∷ all)

pub pack_actions-AreSent :
    {actions all : List WireAction} {bytes : Bytes}
    → AreSent actions bytes all
    → pack_actions actions ≡ ok bytes
unfolding pack_actions
pack_actions-AreSent none_sent = refl
pack_actions-AreSent (one_more s h) = rw (s.packed, pack_actions-AreSent h) refl

pub actions_len-AreSent :
    {actions all : List WireAction} {bytes : Bytes}
    → AreSent actions bytes all
    → actions_len all ≡ length bytes
unfolding actions_len
actions_len-AreSent none_sent = refl
actions_len-AreSent (one_more {parsed = p} {b = b} {bytes = bs} s h) =
    omega (arith, s.sized, actions_len-AreSent h, length-append b bs)

module _ {a parsed : WireAction} {b : Bytes} (s : IsSent a b parsed) (rest : Bytes) where
  read_head : read type_length (b ++ rest) ≡ some ((s.kind & length b & tt), s.body ++ rest)
  read_head =
      ap (λ c. read type_length (c ++ rest)) s.head
      ∙ ap (read type_length)
          (append_assoc (encode type_length (s.kind & length b & tt)) s.body rest)
      ∙ read-encode type_length (s.kind & length b & tt) (s.body ++ rest) s.fits

  -- One round takes one action that was sent.
  parse_action-IsSent :
      (more : ℕ → WireAction → Result (List WireAction × ℕ)) (offset : ℕ)
      → parse_action more (b ++ rest) offset (read type_length (b ++ rest)) ≡ more (length b) parsed
  unfolding parse_action
  parse_action-IsSent more offset =
      let all_there : ltb (length (b ++ rest)) (length b) ≡ false =
        ground (arith, length-append b rest) in
      let sized : (action_len parsed == length b) ≡ true = ground (arith, s.sized) in
      rw (read_head, take-append (length b) b rest refl, s.unpacked_to, all_there, sized) refl

  -- An action that was sent has eight bytes at least.
  eight_le : 8 ≤ length b
  eight_le = long_enough s.kind b (ap action_len s.unpacked_to ∙ s.sized)

-- The loop takes them all.
parse_actions-AreSent :
    {actions all : List WireAction} {bytes : Bytes} (h : AreSent actions bytes all)
    (before : List WireAction) (rest : Bytes) (n offset stop : ℕ)
    → offset + length bytes ≡ stop
    → length (bytes ++ rest) ≤ n
    → parse_actions n before (bytes ++ rest) offset stop ≡ ok (before ++ all, stop)
unfolding parse_actions
parse_actions-AreSent none_sent before rest zero offset stop e f =
    let stops : ltb offset stop ≡ false = ground arith in
    let same : offset ≡ stop = omega arith in
    rw (stops, append-nil before) (ap (λ n. ok (before, n)) same)
parse_actions-AreSent none_sent before rest (suc n) offset stop e f =
    let stops : ltb offset stop ≡ false = ground arith in
    let same : offset ≡ stop = omega arith in
    rw (stops, append-nil before) (ap (λ n. ok (before, n)) same)
parse_actions-AreSent (one_more {b = b} {bytes = bs} s h) before rest zero offset stop e f =
    absurd (omega (arith, length-append (b ++ bs) rest, length-append b bs, eight_le s rest))
parse_actions-AreSent (one_more {parsed = p} {b = b} {bytes = bs} s h) before rest (suc n) offset
      stop e f =
    let again : ltb offset stop ≡ true = ground (arith, length-append b bs, eight_le s rest) in
    rw
      (
        again,
        append_assoc b bs rest,
        parse_action-IsSent s (bs ++ rest),
        drop-append (length b) b (bs ++ rest) refl,
      )
      (parse_actions-AreSent h (before ++ (p ∷ [])) rest n (offset + length b) stop
          (omega (arith, length-append b bs))
          (omega (
            arith,
            length-append (b ++ bs) rest,
            length-append b bs,
            length-append bs rest,
            eight_le s rest,
          ))
        ∙ ap (λ l. ok (l, stop)) (append_assoc before (p ∷ []) _))

IsPackable-AreSent :
    (actions : List WireAction)
    → All IsPackable actions
    → (bytes : Bytes) × AreSent actions bytes (map settle_action actions)
IsPackable-AreSent [] h = ([], none_sent)
IsPackable-AreSent (a ∷ actions) (p, h) =
    let (b, s) = IsPackable-IsSent a p in
    let (bytes, more) = IsPackable-AreSent actions h in (b ++ bytes, one_more s more)

-- Actions of any classes whose fields are in range and whose type and length are those of the class
-- (a generic header has a type that no class of its own has, and an MPLS push one of the two MPLS
-- ethertypes) are packed; written behind any bytes and before any others, the lengths of what comes
-- back add up to the bytes written, and `_unpack_actions` gives back an output with the `max_len` that
-- `pack` sets, a vendor action as a generic header, a generic header without its data, and any other
-- action as it was, and the offset behind them.
pub unpack_actions-pack_actions :
    (actions : List WireAction) (before behind : Bytes)
    → All IsPackable actions
    → (bytes : Bytes) × (pack_actions actions ≡ ok bytes)
      × (actions_len (map settle_action actions) ≡ length bytes)
      × (unpack_actions (before ++ (bytes ++ behind)) (length before + length bytes) (length before)
          ≡ ok (map settle_action actions, length before + length bytes))
unfolding unpack_actions
unpack_actions-pack_actions actions before behind h =
    let (bytes, sent) = IsPackable-AreSent actions h in
    let all = before ++ (bytes ++ behind) in
    let there : ltb (length all) (length before + length bytes) ≡ false =
      ground (arith, length-append before (bytes ++ behind), length-append bytes behind) in
    (
      bytes,
      pack_actions-AreSent sent,
      actions_len-AreSent sent,
      rw (there, drop-append (length before) before (bytes ++ behind) refl)
          (parse_actions-AreSent sent [] behind (suc (length all)) (length before)
            (length before + length bytes) refl
            (omega (arith, length-append before (bytes ++ behind)))),
    )

-- ===== src/OpenFlow/Connection/Framing.antt =====
-- Which messages the read loop finds in a stream of bytes.
use cs425a_computer_networks.Base.{
  ℕ, zero, suc, ◌+◌, ◌*◌, ◌≡◌, refl, ap, ◌∙◌, arith, List, [], ◌∷◌, ◌++◌, Bool, true, false, ltb,
  length, drop-append, length-append, Option, some, Result, ok,
}
use mathlib.Core.List.{append_assoc}
use cs425a_computer_networks.Bytes.{Bytes}
use cs425a_computer_networks.OpenFlow.Connection.{
  out_of_fuel, read_loop, unpack_message, read_message, handle_message,
}

-- A message of version 1 with at least one byte behind the length field, which is right.
pub record Frame : Type 0 where
  pub kind : ℕ
  pub high : ℕ
  pub low : ℕ
  pub first : ℕ
  pub body : Bytes
  pub size : high * 256 + low ≡ 5 + length body

abbrev pub bytes_of : Frame → Bytes
bytes_of f = 1 ∷ f.kind ∷ f.high ∷ f.low ∷ f.first ∷ f.body

unfoldable pub stream : List Frame → Bytes
stream [] = []
stream (f ∷ fs) = bytes_of f ++ stream fs

module _ {ℓ} {S M : Type ℓ} (ofp_msgs : ℕ → Option (Bytes → Result M))
    (handle : ℕ → M → S → S × Bool) where
  -- The message of a frame, whatever bytes follow it.
  pub record Holds (f : Frame) (m : M) : Type ℓ where
    pub unpack : Bytes → Result M
    pub known : ofp_msgs f.kind ≡ some unpack
    pub unpacked : (rest : Bytes) → unpack (bytes_of f ++ rest) ≡ ok m

  -- Frames with the messages that they hold, handled one after the other: every handler returns.
  pub data Handles : List Frame → S → S → Type ℓ where
    nothing_left : {s : S} → Handles [] s s
    next :
        {f : Frame} {m : M} {fs : List Frame} {s after last : S}
        → Holds f m
        → handle f.kind m s ≡ (after, true)
        → Handles fs after last
        → Handles (f ∷ fs) s last

  read_loop_frame :
      (fuel : ℕ) (f : Frame) (m : M) (rest : Bytes) (s after : S)
      → Holds f m
      → handle f.kind m s ≡ (after, true)
      → read_loop ofp_msgs handle (suc fuel) (bytes_of f ++ rest) s
        ≡ read_loop ofp_msgs handle fuel rest after
  unfolding read_loop unpack_message read_message handle_message
  read_loop_frame fuel f m rest s after holds returns =
      let size : f.high * 256 + f.low ≡ length (bytes_of f) = omega (arith, f.size) in
      let enough : ltb (length (bytes_of f ++ rest)) (length (bytes_of f)) ≡ false =
        ground (arith, length-append (bytes_of f) rest) in
      rw
        (
          size,
          drop-append (length (bytes_of f)) (bytes_of f) rest refl,
          enough,
          holds.known,
          holds.unpacked rest,
          returns,
        )
        refl

  -- From a stream of messages of version 1, each longer than four bytes with the right length
  -- field, of a known type, and one that its class unpacks to the same message whatever bytes
  -- follow, the read loop hands each message to its handler once and in order, as long as the
  -- handlers return, and goes on with what follows the stream.
  pub read_loop-stream :
      {fs : List Frame} {s last : S} (fuel : ℕ) (rest : Bytes)
      → Handles fs s last
      → read_loop ofp_msgs handle (length fs + fuel) (stream fs ++ rest) s
        ≡ read_loop ofp_msgs handle fuel rest last
  unfolding stream
  read_loop-stream {s = s} fuel rest nothing_left =
      let none' : 0 + fuel ≡ fuel = omega arith in
      ap (λ n. read_loop ofp_msgs handle n rest s) none'
  read_loop-stream {s = s} fuel rest
        (next {f = f} {m = m} {fs = fs} {after = after} holds returns h) =
      let more : suc (length fs) + fuel ≡ suc (length fs + fuel) = omega arith in
      ap (λ n. read_loop ofp_msgs handle n ((bytes_of f ++ stream fs) ++ rest) s) more
      ∙ ap (λ b. read_loop ofp_msgs handle (suc (length fs + fuel)) b s)
          (append_assoc (bytes_of f) (stream fs) rest)
      ∙ read_loop_frame (length fs + fuel) f m (stream fs ++ rest) s after holds returns
      ∙ read_loop-stream fuel rest h

  -- A message of a known type that can be unpacked and whose length field is 0 is never taken off
  -- the buffer: as long as its handler returns, no number of rounds ends the read loop.
  pub read_loop_zero_length :
      (fuel kind first : ℕ) (body : Bytes) (s : S) (m : M)
      → unpack_message ofp_msgs handle (ofp_msgs kind) (1 ∷ kind ∷ 0 ∷ 0 ∷ first ∷ body) ≡ ok m
      → ((z : S) → (handle kind m z).1 ≡ true)
      → (read_loop ofp_msgs handle fuel (1 ∷ kind ∷ 0 ∷ 0 ∷ first ∷ body) s).ending ≡ out_of_fuel
  unfolding read_loop read_message handle_message
  read_loop_zero_length zero kind first body s m unpacked returns = refl
  read_loop_zero_length (suc fuel) kind first body s m unpacked returns =
      let buf : Bytes = 1 ∷ kind ∷ 0 ∷ 0 ∷ first ∷ body in
      let inside : ltb (length buf) 0 ≡ false = ground arith in
      let turn : handle kind m s ≡ ((handle kind m s).0, true) =
        ap (λ b. ((handle kind m s).0, b)) (returns s) in
      rw (inside, unpacked, turn)
        (read_loop_zero_length fuel kind first body (handle kind m s).0 m unpacked returns)

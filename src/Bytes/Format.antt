-- ===== src/Bytes/Format.antt =====
-- Formats of Python's `struct` module as data: big-endian numbers of some bytes, padding, and strings
-- that are filled up with zeros. What `struct.pack` writes in a format, `struct.unpack_from` reads.
pub mod RoundTrip
use cs425a_computer_networks.Base.{
  ℕ, zero, suc, ◌+◌, ◌*◌, ◌/◌, ◌%◌, ◌≤◌, ◌<◌, List, [], ◌∷◌, ◌++◌, Bool, true, false, ◌&&◌, ◌==◌,
  ltb, leb, if◌then◌else◌, length, take, drop, list_eq, All, Option, none, some, Result, ok,
  struct_error, guard, ◌>>=◌, ◌>>◌,
}
use cs425a_computer_networks.Bytes.{Bytes}

-- A number of so many bytes, so many bytes of padding, a string that fills so many bytes.
pub data Code : Type 0 where
  num pad text : ℕ → Code

abbrev pub Format : Type 0
Format = List Code

-- The values that a format takes, closed by `tt`.
abbrev pub Values : Format → Type 0
Values [] = Unit {0}
Values (num w ∷ f) = ℕ × Values f
Values (pad w ∷ f) = Values f
Values (text w ∷ f) = Bytes × Values f

-- A value and those behind it.
infixr 20 ◌&◌
pattern abbrev pub ◌&◌ {ℓ κ} : {A : Type ℓ} {B : Type κ} → A → B → A × B
a & b = (a, b)

-- The bytes of a format.
abbrev pub size : Format → ℕ
size [] = 0
size (num w ∷ f) = w + size f
size (pad w ∷ f) = w + size f
size (text w ∷ f) = w + size f

-- The first number that `w` bytes cannot hold.
abbrev pub bound : ℕ → ℕ
bound zero = 1
bound (suc w) = 256 * bound w

-- The last `w` bytes of a number, highest first, and the number of some bytes.
abbrev pub be : ℕ → ℕ → Bytes
be zero n = []
be (suc w) n = be w (n / 256) ++ (n % 256 ∷ [])

abbrev pub of_be : ℕ → Bytes → ℕ
of_be acc [] = acc
of_be acc (b ∷ bs) = of_be (acc * 256 + b) bs

abbrev pub zeros : ℕ → Bytes
zeros zero = []
zeros (suc w) = 0 ∷ zeros w

-- `s.ljust(w, '\0')`, and `s.replace('\0', '')`.
unfoldable pub ljust : ℕ → Bytes → Bytes
ljust zero s = s
ljust (suc w) [] = 0 ∷ ljust w []
ljust (suc w) (c ∷ s) = c ∷ ljust w s

unfoldable pub no_zeros : Bytes → Bytes
no_zeros [] = []
no_zeros (c ∷ s) = if c == 0 then no_zeros s else c ∷ no_zeros s

-- A number out of range is refused.
abbrev pub pack_num : ℕ → ℕ → Result Bytes
pack_num w n = do guard (ltb n (bound w)) struct_error; ok (be w n)

unfoldable pub write : (f : Format) → Values f → Result Bytes
unfolding ljust
write [] v = ok []
write (num w ∷ f) (n, v) = do b ← pack_num w n; rest ← write f v; ok (b ++ rest)
write (pad w ∷ f) v = do rest ← write f v; ok (zeros w ++ rest)
write (text w ∷ f) (s, v) = do rest ← write f v; ok (ljust w s ++ rest)

-- One more value in front of those read.
abbrev pub with_first {ℓ κ} :
    {A : Type ℓ} {V : Type κ} → A → Option (V × Bytes) → Option ((A × V) × Bytes)
with_first a none = none
with_first a (some (v, rest)) = some ((a, v), rest)

-- The values and the bytes behind them; `none` where the bytes are too short.
unfoldable pub read : (f : Format) → Bytes → Option (Values f × Bytes)
unfolding no_zeros
read [] b = some (tt, b)
read (num w ∷ f) b =
    if leb w (length b) then with_first (of_be 0 (take w b)) (read f (drop w b)) else none
read (pad w ∷ f) b = if leb w (length b) then read f (drop w b) else none
read (text w ∷ f) b =
    if leb w (length b) then with_first (no_zeros (take w b)) (read f (drop w b)) else none

-- The numbers are in range, the strings fit and have no zero byte.
abbrev pub Fits : (f : Format) → Values f → Type 0
Fits [] v = Unit {0}
Fits (num w ∷ f) (n, v) = (n < bound w) × Fits f v
Fits (pad w ∷ f) v = Fits f v
Fits (text w ∷ f) (s, v) = (length s ≤ w) × All (λ c. 0 < c) s × Fits f v

-- What `write` writes, if the values fit.
unfoldable pub encode : (f : Format) → Values f → Bytes
encode [] v = []
encode (num w ∷ f) (n, v) = be w n ++ encode f v
encode (pad w ∷ f) v = zeros w ++ encode f v
encode (text w ∷ f) (s, v) = ljust w s ++ encode f v

-- `==` of all values.
unfoldable pub same : (f : Format) → Values f → Values f → Bool
same [] v w = true
same (num k ∷ f) (a, v) (b, w) = a == b && same f v w
same (pad k ∷ f) v w = same f v w
same (text k ∷ f) (a, v) (b, w) = list_eq a b && same f v w

-- `unpack` of an object: its fields are set and the rest is returned, or, for bytes that are too
-- short, it stays as it is and all bytes are returned.
abbrev pub unpacked {ℓ κ} :
    {V : Type ℓ} {X : Type κ} → (V → X) → X → Bytes → Option (V × Bytes) → X × Bytes
unpacked set self raw none = (self, raw)
unpacked set self raw (some (v, rest)) = (set v, rest)

-- ===== src/Text.antt =====
-- What the programs use of Python's string methods, on strings as lists of byte values.
pub mod Numbers
use cs425a_computer_networks.Base.{
  ℕ, ◌+◌, ◌-◌, ◌*◌, List, [], ◌∷◌, ◌++◌, Bool, true, false, ◌&&◌, ◌||◌, ltb, leb, ◌==◌,
  if◌then◌else◌, Result, ok, err, value_error, guard, ◌>>=◌, ◌>>◌, Option, none, some,
}
use mathlib.Core.List.{reverse}
use cs425a_computer_networks.Bytes.{Bytes}

-- The six bytes that `isspace` accepts.
unfoldable pub is_space : ℕ → Bool
is_space c = c == 32 || (leb 9 c && leb c 13)

unfoldable pub lstrip : Bytes → Bytes
unfolding is_space
lstrip [] = []
lstrip (c ∷ s) = if is_space c then lstrip s else c ∷ s

unfoldable pub strip : Bytes → Bytes
unfolding lstrip
strip s = reverse (lstrip (reverse (lstrip s)))

-- Put one more byte in front of the first piece.
abbrev pub cons_piece : ℕ → List Bytes → List Bytes
cons_piece c [] = (c ∷ []) ∷ []
cons_piece c (p ∷ ps) = (c ∷ p) ∷ ps

-- `s.split(sep)`: always one piece at least.
unfoldable pub split_on : ℕ → Bytes → List Bytes
split_on sep [] = [] ∷ []
split_on sep (c ∷ s) =
    let rest = split_on sep s in if c == sep then [] ∷ rest else cons_piece c rest

-- `s.split()`: the pieces between runs of white space, none of them empty. The first argument is
-- the piece that is being read.
unfoldable pub words_from : Bytes → Bytes → List Bytes
unfolding is_space
words_from [] [] = []
words_from (p ∷ ps) [] = (p ∷ ps) ∷ []
words_from [] (c ∷ s) =
    let skip = words_from [] s in
    let take_in = words_from (c ∷ []) s in if is_space c then skip else take_in
words_from (p ∷ ps) (c ∷ s) =
    let cut = (p ∷ ps) ∷ words_from [] s in
    let take_in = words_from ((p ∷ ps) ++ (c ∷ [])) s in if is_space c then cut else take_in

unfoldable pub words : Bytes → List Bytes
unfolding words_from
words s = words_from [] s

-- The value of a digit in a base up to 16.
unfoldable pub digit_value : ℕ → Option ℕ
digit_value c =
    if leb 48 c && leb c 57
    then some (c - 48)
    else if leb 97 c && leb c 102
    then some (c - 87)
    else if leb 65 c && leb c 70
    then some (c - 55)
    else none

unfoldable pub digits : ℕ → ℕ → Bytes → Result ℕ
unfolding digit_value
digits base acc [] = ok acc
digits base acc (c ∷ s) = elim (digit_value c) [
  | none ↦ err value_error
  | some d ↦ if ltb d base then digits base (acc * base + d) s else err value_error
]

-- `int` wants a digit at least.
unfoldable pub digits1 : ℕ → Bytes → Result ℕ
unfolding digits
digits1 base [] = err value_error
digits1 base (c ∷ s) = digits base 0 (c ∷ s)

-- In base 16 the digits may follow `0x`.
unfoldable pub prefixed : ℕ → Bytes → Result ℕ
unfolding digits1
prefixed base (c ∷ x ∷ s) =
    if base == 16 && (c == b'0' && (x == b'x' || x == b'X'))
    then digits1 base s
    else digits1 base (c ∷ x ∷ s)
prefixed base s = digits1 base s

-- `chr(int(s, base))`: white space around is dropped, one sign may stand in front, and `chr`
-- raises the same ValueError where the number is negative or above 255.
unfoldable pub signed_byte : ℕ → Bytes → Result ℕ
unfolding prefixed
signed_byte base [] = err value_error
signed_byte base (c ∷ s) =
    if c == b'-'
    then (do n ← prefixed base s; guard (n == 0) value_error; ok 0)
    else do n ← prefixed base (if c == b'+' then s else c ∷ s); guard (ltb n 256) value_error; ok n

unfoldable pub chr_int : ℕ → Bytes → Result ℕ
unfolding signed_byte strip
chr_int base s = signed_byte base (strip s)

-- `int(s, base)` of a number that may be negative.
pub data Number : Type 0 where
  number : ℕ → Number
  negative : Number

unfoldable pub signed_int : ℕ → Bytes → Result Number
unfolding prefixed
signed_int base [] = err value_error
signed_int base (c ∷ s) =
    if c == b'-'
    then (do n ← prefixed base s; ok (if n == 0 then number 0 else negative))
    else do n ← prefixed base (if c == b'+' then s else c ∷ s); ok (number n)

unfoldable pub int_of : ℕ → Bytes → Result Number
unfolding signed_int strip
int_of base s = signed_int base (strip s)

-- `s.isdigit()`
unfoldable pub all_digits : Bytes → Bool
all_digits [] = true
all_digits (c ∷ s) = (leb 48 c && leb c 57) && all_digits s

abbrev pub is_digits : Bytes → Bool
is_digits [] = false
is_digits (c ∷ s) = all_digits (c ∷ s)

-- Python's `for x in xs: ret += chr(int(x, base))`.
unfoldable pub chr_ints : ℕ → List Bytes → Result Bytes
chr_ints base [] = ok []
chr_ints base (s ∷ ss) = do b ← chr_int base s; rest ← chr_ints base ss; ok (b ∷ rest)

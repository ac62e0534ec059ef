-- ===== src/Bytes.antt =====
-- What the programs use of Python's `struct` module, on byte strings as lists of numbers:
-- big-endian integers and fixed-width strings.
pub mod Format
pub mod RoundTrip
use cs425a_computer_networks.Base.{
  ℕ, zero, suc, ◌+◌, ◌*◌, ◌/◌, ◌%◌, ◌^◌, ◌<◌, List, [], ◌∷◌, Bool, ltb, Result, ok, err, Error,
  struct_error, guard, ◌>>◌,
}

abbrev pub Bytes : Type 0
Bytes = List ℕ

abbrev pub IsByte : ℕ → Type 0
IsByte b = b < 256

-- The two and four bytes of a number below 2 ^ 16 and 2 ^ 32, highest first.
unfoldable pub be16 : ℕ → Bytes
be16 n = (n / 256) ∷ (n % 256) ∷ []

unfoldable pub be32 : ℕ → Bytes
be32 n = (n / 2 ^ 24) ∷ (n / 2 ^ 16 % 256) ∷ (n / 256 % 256) ∷ (n % 256) ∷ []

-- `struct.pack('>B', n)`, `'>H'` and `'>I'`: a number out of range is refused.
unfoldable pub pack_u8 : ℕ → Result Bytes
pack_u8 n = do guard (ltb n 256) struct_error; ok (n ∷ [])

unfoldable pub pack_u16 : ℕ → Result Bytes
unfolding be16
pack_u16 n = do guard (ltb n (2 ^ 16)) struct_error; ok (be16 n)

unfoldable pub pack_u32 : ℕ → Result Bytes
unfolding be32
pack_u32 n = do guard (ltb n (2 ^ 32)) struct_error; ok (be32 n)

-- `struct.unpack` of the same formats: the length has to fit.
unfoldable pub unpack_u8 : Bytes → Result ℕ
unpack_u8 (a ∷ []) = ok a
unpack_u8 _ = err struct_error

unfoldable pub unpack_u16 : Bytes → Result ℕ
unpack_u16 (a ∷ b ∷ []) = ok (a * 256 + b)
unpack_u16 _ = err struct_error

unfoldable pub unpack_u32 : Bytes → Result ℕ
unpack_u32 (a ∷ b ∷ c ∷ d ∷ []) = ok (a * 2 ^ 24 + b * 2 ^ 16 + c * 256 + d)
unpack_u32 _ = err struct_error

-- `struct.pack('%us' % w, s)`: cut to `w` bytes, or filled up with zeros.
unfoldable pub pack_s : ℕ → Bytes → Bytes
pack_s zero s = []
pack_s (suc w) [] = 0 ∷ pack_s w []
pack_s (suc w) (b ∷ s) = b ∷ pack_s w s

-- ===== src/Bytes/RoundTrip.antt =====
-- `struct.unpack` undoes `struct.pack`.
use cs425a_computer_networks.Base.{
  ℕ, zero, suc, ◌+◌, ◌*◌, ◌/◌, ◌%◌, ◌^◌, ◌<◌, ◌≡◌, refl, ap, arith, [], ◌∷◌, length, ok,
}
use cs425a_computer_networks.Bytes.{
  Bytes, be16, be32, unpack_u16, unpack_u32, pack_u16, pack_u32, pack_s,
}

pub unpack_u16-be16 : (n : ℕ) → unpack_u16 (be16 n) ≡ ok n
unfolding unpack_u16 be16
unpack_u16-be16 n = ap ok (omega arith)

pub unpack_u32-be32 : (n : ℕ) → unpack_u32 (be32 n) ≡ ok n
unfolding unpack_u32 be32
unpack_u32-be32 n = ap ok (omega arith)

pub pack_u16-be16 : (n : ℕ) → n < 2 ^ 16 → pack_u16 n ≡ ok (be16 n)
unfolding pack_u16
pack_u16-be16 n h = ground arith

pub pack_u32-be32 : (n : ℕ) → n < 2 ^ 32 → pack_u32 n ≡ ok (be32 n)
unfolding pack_u32
pack_u32-be32 n h = ground arith

pub length-be16 : (n : ℕ) → length (be16 n) ≡ 2
unfolding be16
length-be16 n = refl

pub length-be32 : (n : ℕ) → length (be32 n) ≡ 4
unfolding be32
length-be32 n = refl

pub length-pack_s : (w : ℕ) (s : Bytes) → length (pack_s w s) ≡ w
unfolding pack_s
length-pack_s zero s = refl
length-pack_s (suc w) [] = ap suc (length-pack_s w [])
length-pack_s (suc w) (b ∷ s) = ap suc (length-pack_s w s)

pub whole16 : (n : ℕ) → n / 256 * 256 + n % 256 ≡ n
whole16 n = omega arith

pub whole32 :
    (n : ℕ) → n / 2 ^ 24 * 2 ^ 24 + n / 2 ^ 16 % 256 * 2 ^ 16 + n / 256 % 256 * 256 + n % 256 ≡ n
whole32 n = omega arith

-- ===== src/Bytes/Format/RoundTrip.antt =====
-- What is written in a format is read back.
use mathlib.Core.List.{append_assoc}
use cs425a_computer_networks.Base.{
  ℕ, zero, suc, ◌+◌, ◌*◌, ◌/◌, ◌%◌, ◌≤◌, ◌<◌, ◌≡◌, refl, ap, ◌∙◌, arith, [], ◌∷◌, ◌++◌, true, ltb,
  leb, Bool-cases, inl, inr, length, take, drop, length-append, length-drop, take-append,
  drop-append, le→leb, All, none, some, ok, and_elim, ==→eq, ==-refl, list_eq→eq, list_eq_refl,
}
use cs425a_computer_networks.Bytes.{Bytes}
use cs425a_computer_networks.Bytes.Format.{
  Format, num, pad, text, Values, size, bound, be, of_be, zeros, ljust, no_zeros, write, read, Fits,
  encode, same,
}

of_be-append : (acc b : ℕ) (bs : Bytes) → of_be acc (bs ++ (b ∷ [])) ≡ of_be acc bs * 256 + b
of_be-append acc b [] = refl
of_be-append acc b (c ∷ bs) = of_be-append (acc * 256 + c) b bs

of_be-be : (w n : ℕ) → n < bound w → of_be 0 (be w n) ≡ n
of_be-be zero n h = omega arith
of_be-be (suc w) n h =
    of_be-append 0 (n % 256) (be w (n / 256)) ∙ omega (arith, of_be-be w (n / 256) (omega arith))

length-be : (w n : ℕ) → length (be w n) ≡ w
length-be zero n = refl
length-be (suc w) n =
    omega (arith, length-append (be w (n / 256)) (n % 256 ∷ []), length-be w (n / 256))

length-zeros : (w : ℕ) → length (zeros w) ≡ w
length-zeros zero = refl
length-zeros (suc w) = ap suc (length-zeros w)

length-ljust : (w : ℕ) (s : Bytes) → length s ≤ w → length (ljust w s) ≡ w
unfolding ljust
length-ljust zero [] h = refl
length-ljust zero (c ∷ s) h = absurd (omega arith)
length-ljust (suc w) [] h = ap suc (length-ljust w [] (omega arith))
length-ljust (suc w) (c ∷ s) h = ap suc (length-ljust w s (omega arith))

no_zeros-ljust : (w : ℕ) (s : Bytes) → All (λ c. 0 < c) s → no_zeros (ljust w s) ≡ s
unfolding ljust no_zeros
no_zeros-ljust zero [] h = refl
no_zeros-ljust zero (c ∷ s) (p, h) = ground (arith, no_zeros-ljust zero s h)
no_zeros-ljust (suc w) [] h = no_zeros-ljust w [] tt
no_zeros-ljust (suc w) (c ∷ s) (p, h) = ground (arith, no_zeros-ljust w s h)

pub write-encode : (f : Format) (v : Values f) → Fits f v → write f v ≡ ok (encode f v)
unfolding write encode
write-encode [] v h = refl
write-encode (num w ∷ f) (n, v) (p, h) =
    let small : ltb n (bound w) ≡ true = ground arith in rw (small, write-encode f v h) refl
write-encode (pad w ∷ f) v h = rw (write-encode f v h) refl
write-encode (text w ∷ f) (s, v) (p, q, h) = rw (write-encode f v h) refl

pub length-encode : (f : Format) (v : Values f) → Fits f v → length (encode f v) ≡ size f
unfolding encode
length-encode [] v h = refl
length-encode (num w ∷ f) (n, v) (p, h) =
    omega (arith, length-append (be w n) (encode f v), length-be w n, length-encode f v h)
length-encode (pad w ∷ f) v h =
    omega (arith, length-append (zeros w) (encode f v), length-zeros w, length-encode f v h)
length-encode (text w ∷ f) (s, v) (p, q, h) =
    omega (arith, length-append (ljust w s) (encode f v), length-ljust w s p, length-encode f v h)

-- The first part of the bytes is as long as the code says: it is read, and the rest goes on.
module _ (w : ℕ) (a b rest : Bytes) (h : length a ≡ w) where
  enough : leb w (length ((a ++ b) ++ rest)) ≡ true
  enough = le→leb w _ (omega (arith, length-append (a ++ b) rest, length-append a b))

  first : take w ((a ++ b) ++ rest) ≡ a
  first = ap (take w) (append_assoc a b rest) ∙ take-append w a (b ++ rest) h

  behind : drop w ((a ++ b) ++ rest) ≡ b ++ rest
  behind = ap (drop w) (append_assoc a b rest) ∙ drop-append w a (b ++ rest) h

-- Values that fit are read back from what `write` wrote, and the bytes behind them are left.
pub read-encode :
    (f : Format) (v : Values f) (rest : Bytes)
    → Fits f v
    → read f (encode f v ++ rest) ≡ some (v, rest)
unfolding read encode
read-encode [] v rest h = refl
read-encode (num w ∷ f) (n, v) rest (p, h) =
    rw
      (
        enough w (be w n) (encode f v) rest (length-be w n),
        first w (be w n) (encode f v) rest (length-be w n),
        behind w (be w n) (encode f v) rest (length-be w n),
        of_be-be w n p,
        read-encode f v rest h,
      )
      refl
read-encode (pad w ∷ f) v rest h =
    rw
      (
        enough w (zeros w) (encode f v) rest (length-zeros w),
        behind w (zeros w) (encode f v) rest (length-zeros w),
        read-encode f v rest h,
      )
      refl
read-encode (text w ∷ f) (s, v) rest (p, q, h) =
    rw
      (
        enough w (ljust w s) (encode f v) rest (length-ljust w s p),
        first w (ljust w s) (encode f v) rest (length-ljust w s p),
        behind w (ljust w s) (encode f v) rest (length-ljust w s p),
        no_zeros-ljust w s q,
        read-encode f v rest h,
      )
      refl

-- `==` of values is equality.
pub same→eq : (f : Format) (v w : Values f) → same f v w ≡ true → v ≡ w
unfolding same
same→eq [] v w h = refl
same→eq (num k ∷ f) (a, v) (b, w) h =
    let (p, q) = and_elim _ _ h in rw (==→eq a b p, same→eq f v w q) refl
same→eq (pad k ∷ f) v w h = same→eq f v w h
same→eq (text k ∷ f) (a, v) (b, w) h =
    let (p, q) = and_elim _ _ h in rw (list_eq→eq a b p, same→eq f v w q) refl

pub same_refl : (f : Format) (v : Values f) → same f v v ≡ true
unfolding same
same_refl [] v = refl
same_refl (num k ∷ f) (a, v) = rw (==-refl a, same_refl f v) refl
same_refl (pad k ∷ f) v = same_refl f v
same_refl (text k ∷ f) (a, v) = rw (list_eq_refl a, same_refl f v) refl

-- Bytes are too short for a format if there are fewer than its size.
pub read-none : (f : Format) (raw : Bytes) → length raw < size f → read f raw ≡ none
unfolding read
read-none [] raw h = absurd (omega arith)
read-none (num w ∷ f) raw h = elim (Bool-cases (leb w (length raw))) [
  | inl long ↦ rw (long, read-none f (drop w raw) (ground (arith, length-drop w raw))) refl
  | inr short ↦ rw short refl
]
read-none (pad w ∷ f) raw h = elim (Bool-cases (leb w (length raw))) [
  | inl long ↦ rw (long, read-none f (drop w raw) (ground (arith, length-drop w raw))) refl
  | inr short ↦ rw short refl
]
read-none (text w ∷ f) raw h = elim (Bool-cases (leb w (length raw))) [
  | inl long ↦ rw (long, read-none f (drop w raw) (ground (arith, length-drop w raw))) refl
  | inr short ↦ rw short refl
]

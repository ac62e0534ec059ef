-- ===== src/Text/Numbers.antt =====
-- Numbers as text, `'%d' % n` and `'%x' % n`, and `int` that reads them back.
use mathlib.Core.List.{reverse, reverse_aux, reverse-reverse}
use cs425a_computer_networks.Base.{
  ℕ, zero, suc, ◌+◌, ◌*◌, ◌/◌, ◌%◌, ◌≤◌, ◌<◌, ◌≡◌, refl, ap, ◌∙◌, arith, [], ◌∷◌, ◌++◌, true, false,
  ◌&&◌, ◌||◌, ◌==◌, ltb, leb, if◌then◌else◌, Bool-cases, Option-cases, inl, inr, ◌≢◌, All,
  All-append, none, some, ok, err, value_error, ◌>>=◌,
}
use cs425a_computer_networks.Bytes.{Bytes}
use cs425a_computer_networks.Text.{
  is_space, lstrip, strip, digit_value, digits, digits1, prefixed, number, signed_int, int_of,
  all_digits, is_digits,
}

unfoldable pub digit_char : ℕ → ℕ
digit_char d = if ltb d 10 then 48 + d else 87 + d

-- The digits of a number, highest first, on fuel that is more than the number.
unfoldable pub digits_of : ℕ → ℕ → ℕ → Bytes
digits_of zero base n = []
digits_of (suc fuel) base n =
    let front = digits_of fuel base (n / base) in
    if ltb n base then digit_char n ∷ [] else front ++ (digit_char (n % base) ∷ [])

unfoldable pub hexadecimal : ℕ → Bytes
hexadecimal n = digits_of (suc n) 16 n

unfoldable pub decimal : ℕ → Bytes
decimal n = digits_of (suc n) 10 n

-- The characters that `digits_of` writes.
abbrev pub IsDigitChar : ℕ → Type 0
IsDigitChar c = (d : ℕ) × (d < 16) × (c ≡ digit_char d)

digit_value-digit_char : (d : ℕ) → d < 16 → digit_value (digit_char d) ≡ some d
unfolding digit_value digit_char
digit_value-digit_char d h = ground arith

-- One character more or less in front.
digits_bad :
    (base acc x : ℕ) (s : Bytes) → digit_value x ≡ none → digits base acc (x ∷ s) ≡ err value_error
unfolding digits
digits_bad base acc x s e = rw (e, digits) refl

digits_good :
    (base acc x d : ℕ) (s : Bytes)
    → digit_value x ≡ some d
    → digits base acc (x ∷ s)
      ≡ (if ltb d base then digits base (acc * base + d) s else err value_error)
unfolding digits
digits_good base acc x d s e = rw (e, digits) refl

digits-append :
    (base acc c : ℕ) (s : Bytes)
    → digits base acc (s ++ (c ∷ [])) ≡ (digits base acc s >>= λ v. digits base v (c ∷ []))
digits-append base acc c [] = unfold digits in refl
digits-append base acc c (x ∷ s) = elim (Option-cases (digit_value x)) [
  | inl bad ↦ rw (digits_bad base acc x (s ++ (c ∷ [])) bad, digits_bad base acc x s bad) refl
  | inr (d, good) ↦ elim (Bool-cases (ltb d base)) [
    | inl small ↦
        rw (digits_good base acc x d (s ++ (c ∷ [])) good, digits_good base acc x d s good, small)
          (digits-append base (acc * base + d) c s)
    | inr large ↦
        rw (digits_good base acc x d (s ++ (c ∷ [])) good, digits_good base acc x d s good, large)
          refl
  ]
]

-- A base in which digits are below it and numbers are made of their quotient and digit.
record IsBase (base : ℕ) : Type 0 where
  at_most : base ≤ 16
  small : (n : ℕ) → n % base < base
  whole : (n : ℕ) → n / base * base + n % base ≡ n
  less : (n : ℕ) → base ≤ n → n / base < n

one_digit :
    (base acc d : ℕ)
    → d < base
    → base ≤ 16
    → digits base acc (digit_char d ∷ []) ≡ ok (acc * base + d)
one_digit base acc d h k =
    let small : ltb d base ≡ true = ground arith in
    rw (digits_good base acc (digit_char d) d [] (digit_value-digit_char d (omega arith)), small)
      (unfold digits in refl)

module _ (base : ℕ) (is : IsBase base) where
  digits-digits_of : (fuel n : ℕ) → n < fuel → digits base 0 (digits_of fuel base n) ≡ ok n
  unfolding digits_of
  digits-digits_of zero n h = absurd (omega arith)
  digits-digits_of (suc fuel) n h = elim (Bool-cases (ltb n base)) [
    | inl one ↦ rw one (one_digit base 0 n (ground arith) is.at_most ∙ ap ok (omega arith))
    | inr more ↦
        rw
          (
            more,
            digits-append base 0 (digit_char (n % base)) (digits_of fuel base (n / base)),
            digits-digits_of fuel (n / base) (ground (arith, is.less n)),
          )
          (one_digit base (n / base) (n % base) (is.small n) is.at_most ∙ ap ok (is.whole n))
  ]

  digits_of-IsDigitChar : (fuel n : ℕ) → All IsDigitChar (digits_of fuel base n)
  unfolding digits_of
  digits_of-IsDigitChar zero n = tt
  digits_of-IsDigitChar (suc fuel) n = elim (Bool-cases (ltb n base)) [
    | inl one ↦ rw one ((n, ground (arith, is.at_most), refl), tt)
    | inr more ↦ rw more (
        All-append IsDigitChar (digits_of fuel base (n / base)) (digit_char (n % base) ∷ [])
          (digits_of-IsDigitChar fuel (n / base))
          ((n % base, omega (arith, is.small n, is.at_most), refl), tt))
  ]

-- No such character is a space, a sign or the mark of base 16.
record IsPlainChar (c : ℕ) : Type 0 where
  no_space : is_space c ≡ false
  no_minus : (c == b'-') ≡ false
  no_plus : (c == b'+') ≡ false
  no_x : (c == b'x' || c == b'X') ≡ false

digit_char-IsPlainChar : (d : ℕ) → d < 16 → IsPlainChar (digit_char d)
unfolding digit_char is_space
digit_char-IsPlainChar d h = record {
  no_space = ground arith;
  no_minus = ground arith;
  no_plus = ground arith;
  no_x = ground arith;
}

plain_chars : (s : Bytes) → All IsDigitChar s → All IsPlainChar s
plain_chars [] h = tt
plain_chars (c ∷ s) ((d, small, e), h) = (rw e (digit_char-IsPlainChar d small), plain_chars s h)

All-reverse_aux :
    (s t : Bytes) → All IsPlainChar s → All IsPlainChar t → All IsPlainChar (reverse_aux s t)
All-reverse_aux [] t h k = k
All-reverse_aux (c ∷ s) t (p, h) k = All-reverse_aux s (c ∷ t) h (p, k)

lstrip_plain : (s : Bytes) → All IsPlainChar s → lstrip s ≡ s
unfolding lstrip
lstrip_plain [] h = refl
lstrip_plain (c ∷ s) (p, h) = rw p.no_space refl

strip_plain : (s : Bytes) → All IsPlainChar s → strip s ≡ s
unfolding strip
strip_plain s h =
    rw (lstrip_plain s h, lstrip_plain (reverse s) (All-reverse_aux s [] h tt)) (reverse-reverse s)

prefixed_plain :
    (base c : ℕ) (s : Bytes) → All IsPlainChar s → prefixed base (c ∷ s) ≡ digits base 0 (c ∷ s)
unfolding prefixed digits1
prefixed_plain base c [] h = refl
prefixed_plain base c (x ∷ s) (p, h) = ground (arith, p.no_x)

int_of_plain :
    (base n : ℕ) (s : Bytes)
    → All IsPlainChar s
    → s ≢ []
    → digits base 0 s ≡ ok n
    → int_of base s ≡ ok (number n)
unfolding int_of signed_int
int_of_plain base n [] h k e = absurd (k refl)
int_of_plain base n (c ∷ s) (p, h) k e =
    rw (strip_plain (c ∷ s) (p, h), p.no_minus, p.no_plus, prefixed_plain base c s h, e) refl

append-ne_nil : (s : Bytes) (c : ℕ) → s ++ (c ∷ []) ≢ []
append-ne_nil [] c h = cc
append-ne_nil (x ∷ s) c h = cc

digits_of-ne_nil : (base fuel n : ℕ) → digits_of (suc fuel) base n ≢ []
unfolding digits_of
digits_of-ne_nil base fuel n = elim (Bool-cases (ltb n base)) [
  | inl one ↦ rw one (λ h. cc)
  | inr more ↦ rw more (append-ne_nil _ _)
]

sixteen : IsBase 16
sixteen = record {
  at_most = omega arith;
  small = λ n. omega arith;
  whole = λ n. omega arith;
  less = λ n h. omega arith;
}

ten : IsBase 10
ten = record {
  at_most = omega arith;
  small = λ n. omega arith;
  whole = λ n. omega arith;
  less = λ n h. omega arith;
}

-- `int` reads a hexadecimal number back.
pub int_of-hexadecimal : (n : ℕ) → int_of 16 (hexadecimal n) ≡ ok (number n)
unfolding hexadecimal
int_of-hexadecimal n =
    int_of_plain 16 n (digits_of (suc n) 16 n)
      (plain_chars _ (digits_of-IsDigitChar 16 sixteen (suc n) n)) (digits_of-ne_nil 16 n n)
      (digits-digits_of 16 sixteen (suc n) n (omega arith))

digits-decimal : (n : ℕ) → digits 10 0 (decimal n) ≡ ok n
unfolding decimal
digits-decimal n = digits-digits_of 10 ten (suc n) n (omega arith)

-- Decimal digits, and no line break in hexadecimal ones.
all_digits-append :
    (s : Bytes) (c : ℕ)
    → all_digits s ≡ true
    → (leb 48 c && leb c 57) ≡ true
    → all_digits (s ++ (c ∷ [])) ≡ true
unfolding all_digits
all_digits-append [] c h k = ground arith
all_digits-append (x ∷ s) c h k = ground (arith, all_digits-append s c)

all_digits-digits_of : (fuel n : ℕ) → all_digits (digits_of fuel 10 n) ≡ true
unfolding digits_of
all_digits-digits_of zero n = unfold all_digits in refl
all_digits-digits_of (suc fuel) n = elim (Bool-cases (ltb n 10)) [
  | inl one ↦ rw one (unfold all_digits digit_char in ground arith)
  | inr more ↦ rw more (
      all_digits-append (digits_of fuel 10 (n / 10)) (digit_char (n % 10))
        (all_digits-digits_of fuel (n / 10)) (unfold digit_char in ground arith))
]

is_digits-all_digits : (s : Bytes) → s ≢ [] → all_digits s ≡ true → is_digits s ≡ true
is_digits-all_digits [] k h = absurd (k refl)
is_digits-all_digits (c ∷ s) k h = h

-- A decimal number is all digits, and they are read back.
pub digits-decimal_all : (n : ℕ) → (is_digits (decimal n) ≡ true) × (digits 10 0 (decimal n) ≡ ok n)
unfolding decimal
digits-decimal_all n = (
  is_digits-all_digits _ (digits_of-ne_nil 10 n n) (all_digits-digits_of (suc n) n),
  digits-digits_of 10 ten (suc n) n (omega arith),
)

-- Without a line break a text is one line.
pub hexadecimal-IsDigitChar : (n : ℕ) → All IsDigitChar (hexadecimal n)
unfolding hexadecimal
hexadecimal-IsDigitChar n = digits_of-IsDigitChar 16 sixteen (suc n) n

-- ===== src/Vns/Strip.antt =====
-- `strip_null_chars` of VNSProtocol.py against the padding of `struct.pack`.
use cs425a_computer_networks.Base.{
  ℕ, zero, suc, ◌<◌, ◌≤◌, ◌≡◌, refl, ap, arith, [], ◌∷◌, length, All,
}
use cs425a_computer_networks.Bytes.{Bytes, pack_s}
use cs425a_computer_networks.Vns.Codec.{strip_null_chars}

-- A string that can be sent in a field of fixed width: no null byte in it.
abbrev pub NoNull : Bytes → Type 0
NoNull = All (λ b. 0 < b)

pub strip_null_chars-NoNull : (s : Bytes) → NoNull s → strip_null_chars s ≡ s
unfolding strip_null_chars
strip_null_chars-NoNull [] h = refl
strip_null_chars-NoNull (zero ∷ s) h = absurd (omega arith)
strip_null_chars-NoNull (suc b ∷ s) h = ap (λ r. suc b ∷ r) (strip_null_chars-NoNull s h.1)

strip_null_chars-zeros : (w : ℕ) → strip_null_chars (pack_s w []) ≡ []
unfolding strip_null_chars pack_s
strip_null_chars-zeros zero = refl
strip_null_chars-zeros (suc w) = strip_null_chars-zeros w

pub strip_null_chars-pack_s :
    (w : ℕ) (s : Bytes) → NoNull s → length s ≤ w → strip_null_chars (pack_s w s) ≡ s
unfolding strip_null_chars pack_s
strip_null_chars-pack_s zero [] h l = refl
strip_null_chars-pack_s zero (b ∷ s) h l = absurd (omega arith)
strip_null_chars-pack_s (suc w) [] h l = strip_null_chars-zeros w
strip_null_chars-pack_s (suc w) (zero ∷ s) h l = absurd (omega arith)
strip_null_chars-pack_s (suc w) (suc b ∷ s) h l =
    ap (λ r. suc b ∷ r) (strip_null_chars-pack_s w s h.1 (omega arith))

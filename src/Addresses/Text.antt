-- ===== src/Addresses/Text.antt =====
-- The text form of an Ethernet address, and its way back through `pack_mac` of srhandler.py.
use cs425a_computer_networks.Base.{
  ℕ, zero, suc, ◌/◌, ◌%◌, ◌<◌, ◌≡◌, refl, ap, arith, [], ◌∷◌, ◌++◌, Bool, true, false, ◌&&◌, ◌==◌,
  ==→eq, All, length, Result, ok, err,
}
use cs425a_computer_networks.Bytes.{Bytes, IsByte}
use cs425a_computer_networks.Text.{split_on, chr_int, chr_ints}
use cs425a_computer_networks.Addresses.{hex_digit, hex2, to_str}
use cs425a_computer_networks.SrHandler.Listener.{pack_mac}

abbrev is_ok_with : ℕ → Result ℕ → Bool
is_ok_with n (ok m) = m == n
is_ok_with n (err e) = false

is_ok_with→eq : (n : ℕ) (r : Result ℕ) → is_ok_with n r ≡ true → r ≡ ok n
is_ok_with→eq n (ok m) h = ap ok (==→eq m n h)
is_ok_with→eq n (err e) h = cc

every : (ℕ → Bool) → ℕ → Bool
every test zero = true
every test (suc n) = test n && every test n

every-at : (test : ℕ → Bool) (n k : ℕ) → k < n → every test n ≡ true → test k ≡ true
unfolding every
every-at test zero k below all = absurd (omega arith)
every-at test (suc n) k below all = ground (arith, every-at test n k)

-- Every byte comes back from its two hexadecimal digits; checked over the 256 of them.
chr_int-hex2_table : every (λ b. is_ok_with b (chr_int 16 (hex2 b))) 256 ≡ true
unfolding every chr_int hex2 hex_digit
chr_int-hex2_table = refl

chr_int-hex2 : (b : ℕ) → IsByte b → chr_int 16 (hex2 b) ≡ ok b
chr_int-hex2 b h =
    is_ok_with→eq b (chr_int 16 (hex2 b))
      (every-at (λ x. is_ok_with x (chr_int 16 (hex2 x))) 256 b h chr_int-hex2_table)

hex_digit-ne_colon : (d : ℕ) → d < 16 → (hex_digit d == b':') ≡ false
unfolding hex_digit
hex_digit-ne_colon d h = ground arith

split_on-hex2 : (b : ℕ) → IsByte b → split_on b':' (hex2 b) ≡ hex2 b ∷ []
unfolding split_on hex2
split_on-hex2 b h =
    ground
      (arith, hex_digit-ne_colon (b / 16) (omega arith), hex_digit-ne_colon (b % 16) (omega arith))

split_on-hex2_more :
    (b : ℕ) (s : Bytes) → IsByte b → split_on b':' (hex2 b ++ (b':' ∷ s)) ≡ hex2 b ∷ split_on b':' s
unfolding split_on hex2
split_on-hex2_more b s h =
    ground
      (arith, hex_digit-ne_colon (b / 16) (omega arith), hex_digit-ne_colon (b % 16) (omega arith))

chr_ints-to_str :
    (b : ℕ) (bs : Bytes)
    → All IsByte (b ∷ bs)
    → chr_ints 16 (split_on b':' (to_str (b ∷ bs))) ≡ ok (b ∷ bs)
unfolding chr_ints to_str
chr_ints-to_str b [] (h, _) = rw (split_on-hex2 b h, chr_int-hex2 b h)
chr_ints-to_str b (c ∷ bs) (h, hs) =
    rw (split_on-hex2_more b (to_str (c ∷ bs)) h, chr_int-hex2 b h, chr_ints-to_str c bs hs)

-- `pack_mac` reads the six bytes of an Ethernet address back from its text.
pub pack_mac-to_str :
    (addr : Bytes) → length addr ≡ 6 → All IsByte addr → pack_mac (to_str addr) ≡ ok addr
unfolding pack_mac
pack_mac-to_str [] l h = absurd (omega arith)
pack_mac-to_str (b ∷ bs) l h = chr_ints-to_str b bs h

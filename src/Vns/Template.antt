-- ===== src/Vns/Template.antt =====
-- `VNSOpenTemplate` of VNSProtocol.py, with `socket.inet_aton` and `socket.inet_ntoa`.
use cs425a_computer_networks.Base.{
  ℕ, zero, suc, ◌+◌, ◌*◌, ◌-◌, ◌/◌, ◌^◌, ◌≤◌, ◌≡◌, refl, ap, ◌∙◌, sym, arith, List, [], ◌∷◌, ◌++◌,
  ◌||◌, ◌==◌, ltb, leb, le→leb, if◌then◌else◌, length, take, drop, All, Result, ok, err,
  struct_error, protocol_error, socket_error, guard, ◌>>◌, ◌>>=◌, length-append, take-append,
  drop-append, drop-append_add,
}
use cs425a_computer_networks.Bytes.{Bytes, pack_u8, pack_s}
use cs425a_computer_networks.Bytes.Format.{be}
use cs425a_computer_networks.Bytes.RoundTrip.{length-pack_s}
use cs425a_computer_networks.Text.{is_space, split_on, digits, digits1}
use cs425a_computer_networks.Text.Numbers.{decimal}
use cs425a_computer_networks.Vns.Messages.{VnsOpenTemplate, new_open_template, set_src_filters}
use cs425a_computer_networks.Vns.Codec.{id_size, strip_null_chars}
use cs425a_computer_networks.Vns.RoundTrip.{Fits, field_back}

-- A part of an address is a number of C: hexadecimal behind `0x`, octal behind `0`, or decimal.
unfoldable pub read_part : Bytes → Result ℕ
unfolding digits1
read_part (c ∷ x ∷ s) =
    if c == b'0'
    then if x == b'x' || x == b'X' then digits1 16 s else digits 8 0 (x ∷ s)
    else digits 10 0 (c ∷ x ∷ s)
read_part s = digits1 10 s

unfoldable pub read_parts : List Bytes → Result (List ℕ)
read_parts [] = ok []
read_parts (p ∷ ps) = do n ← read_part p; rest ← read_parts ps; ok (n ∷ rest)

-- All parts but the last are one byte; the last fills the rest of the address, high byte first.
unfoldable pub fill_address : ℕ → List ℕ → Result Bytes
fill_address room [] = err socket_error
fill_address zero (n ∷ []) = err socket_error
fill_address zero (n ∷ m ∷ ns) = err socket_error
fill_address (suc room) (n ∷ []) =
    if ltb n (256 ^ suc room) then ok (be (suc room) n) else err socket_error
fill_address (suc room) (n ∷ m ∷ ns) = do
  guard (ltb n 256) socket_error
  rest ← fill_address room (m ∷ ns)
  ok (n ∷ rest)

-- What stands behind white space is not read.
unfoldable pub before_space : Bytes → Bytes
unfolding is_space
before_space [] = []
before_space (c ∷ s) = let rest = before_space s in if is_space c then [] else c ∷ rest

abbrev pub as_address : Result Bytes → Result Bytes
as_address (ok b) = ok b
as_address (err e) = err socket_error

unfoldable pub inet_aton : Bytes → Result Bytes
inet_aton s = as_address (read_parts (split_on b'.' (before_space s)) >>= fill_address 4)

-- The bytes in decimal, with dots between them.
unfoldable pub inet_ntoa : Bytes → Bytes
inet_ntoa [] = []
inet_ntoa (b ∷ []) = decimal b
inet_ntoa (b ∷ c ∷ rest) = decimal b ++ (b'.' ∷ inet_ntoa (c ∷ rest))

-- '> 30s 32s'
abbrev pub template_header_size : ℕ
template_header_size = 62

-- `length`, which counts the template name twice.
abbrev pub length_open_template : VnsOpenTemplate → ℕ
length_open_template m = template_header_size + 30 + 5 * length m.src_filters

unfoldable pub pack_filters : List (Bytes × ℕ) → Result Bytes
pack_filters [] = ok []
pack_filters ((ip, mask) ∷ fs) = do
  a ← inet_aton ip
  m ← pack_u8 mask
  rest ← pack_filters fs
  ok (a ++ (m ++ rest))

unfoldable pub pack_open_template : VnsOpenTemplate → Result Bytes
pack_open_template m = do
  body ← pack_filters m.src_filters
  ok (pack_s 30 m.template_name ++ (pack_s id_size m.vrhost ++ body))

-- The loop of `unpack`, over a count of filters of five bytes each.
unfoldable pub read_filters : ℕ → Bytes → Result (List (Bytes × ℕ))
read_filters (suc n) (a ∷ b ∷ c ∷ d ∷ mask ∷ rest) = do
  guard (leb mask 32) protocol_error
  fs ← read_filters n rest
  ok ((inet_ntoa (a ∷ b ∷ c ∷ d ∷ []), mask) ∷ fs)
read_filters n rest = ok []

unfoldable pub unpack_open_template : Bytes → Result VnsOpenTemplate
unfolding new_open_template
unpack_open_template body = do
  guard (leb template_header_size (length body)) struct_error
  fs ← read_filters ((length body - template_header_size) / 5) (drop template_header_size body)
  ok (
      new_open_template (strip_null_chars (take 30 body))
        (strip_null_chars (take id_size (drop 30 body))) fs)

-- A filter with the address in the form that `inet_ntoa` writes.
pub record IsFilter (f : Bytes × ℕ) : Type 0 where
  pub address : Bytes
  pub reads : inet_aton f.0 ≡ ok address
  pub four : length address ≡ 4
  pub writes : inet_ntoa address ≡ f.0
  pub mask : f.1 ≤ 32

read_step :
    (n : ℕ) (address : Bytes) (m : ℕ) (rest : Bytes) (fs : List (Bytes × ℕ))
    → length address ≡ 4
    → m ≤ 32
    → read_filters n rest ≡ ok fs
    → read_filters (suc n) (address ++ (m ∷ rest)) ≡ ok ((inet_ntoa address, m) ∷ fs)
unfolding read_filters
read_step n (a ∷ b ∷ c ∷ d ∷ []) m rest fs four low h = ground (arith, h, le→leb m 32 low)
read_step n [] m rest fs four low h = absurd (omega arith)
read_step n (a ∷ []) m rest fs four low h = absurd (omega arith)
read_step n (a ∷ b ∷ []) m rest fs four low h = absurd (omega arith)
read_step n (a ∷ b ∷ c ∷ []) m rest fs four low h = absurd (omega arith)
read_step n (a ∷ b ∷ c ∷ d ∷ e ∷ x) m rest fs four low h = absurd (omega arith)

pack_mask : (m : ℕ) → m ≤ 32 → pack_u8 m ≡ ok (m ∷ [])
unfolding pack_u8
pack_mask m low = ground arith

read_filters-pack_filters :
    (fs : List (Bytes × ℕ))
    → All IsFilter fs
    → (bytes : Bytes) × (pack_filters fs ≡ ok bytes)
      × (length bytes ≡ 5 * length fs)
      × (read_filters (length fs) bytes ≡ ok fs)
unfolding pack_filters
read_filters-pack_filters [] h = ([], refl, refl, unfold read_filters in refl)
read_filters-pack_filters ((ip, m) ∷ fs) (f, h) =
    let (bytes, packs, size, back) = read_filters-pack_filters fs h in
    let a : Bytes = f.address in
    (
      a ++ (m ∷ bytes),
      rw (f.reads, pack_mask m f.mask, packs) refl,
      length-append a (m ∷ bytes) ∙ omega (arith, size, f.four),
      read_step (length fs) a m bytes fs f.four f.mask back ∙ ap (λ t. ok ((t, m) ∷ fs)) f.writes,
    )

-- An open-template message with at least one filter, names that fit and have no null bytes, filters
-- whose address is as `inet_ntoa` writes it and whose mask is at most 32, is unpacked as it was packed;
-- its `length()` is 30 more than the bytes.
pub unpack_open_template-pack_open_template :
    (m : VnsOpenTemplate)
    → Fits 30 m.template_name
    → Fits 32 m.vrhost
    → set_src_filters m.src_filters ≡ m.src_filters
    → All IsFilter m.src_filters
    → (bytes : Bytes) × (pack_open_template m ≡ ok bytes)
      × (length bytes + 30 ≡ length_open_template m)
      × (unpack_open_template bytes ≡ ok m)
unfolding pack_open_template unpack_open_template
unpack_open_template-pack_open_template m name host some_filter h =
    let (body, packs, size, back) = read_filters-pack_filters m.src_filters h in
    let t : Bytes = pack_s 30 m.template_name in
    let v : Bytes = pack_s 32 m.vrhost in
    let all : length (t ++ (v ++ body)) ≡ 62 + length body =
      length-append t (v ++ body)
      ∙ omega (
        arith,
        length-append v body,
        length-pack_s 30 m.template_name,
        length-pack_s 32 m.vrhost,
      ) in
    let count : (length (t ++ (v ++ body)) - 62) / 5 ≡ length m.src_filters =
      omega (arith, all, size) in
    let drop_both : drop 62 (t ++ (v ++ body)) ≡ body =
      drop-append_add 30 32 t (v ++ body) (length-pack_s 30 m.template_name)
      ∙ drop-append 32 v body (length-pack_s 32 m.vrhost) in
    (
      t ++ (v ++ body),
      rw packs refl,
      omega (arith, all, size),
      rw
          (
            all,
            le→leb 62 (62 + length body) (omega arith),
            sym all,
            count,
            drop_both,
            back,
            take-append 30 t (v ++ body) (length-pack_s 30 m.template_name),
            drop-append 30 t (v ++ body) (length-pack_s 30 m.template_name),
            take-append 32 v body (length-pack_s 32 m.vrhost),
            field_back 30 m.template_name name,
            field_back 32 m.vrhost host,
            some_filter,
          )
          refl,
    )

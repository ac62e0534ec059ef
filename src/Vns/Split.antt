-- ===== src/Vns/Split.antt =====
-- A long text in banners: the pieces, what they join to, and how many there are.
use cs425a_computer_networks.Base.{
  ℕ, zero, suc, ◌+◌, ◌-◌, ◌*◌, ◌/◌, ◌%◌, ◌<◌, ◌≤◌, ◌≡◌, refl, sym, ap, ◌∙◌, arith, List, [], ◌∷◌,
  ◌++◌, length, take, drop, All, take-append-drop, All-take, All-drop, drop_all, drop-nil, ok,
  Result, ◌>>=◌,
}
use native.Mathlib.Numerals.{add-one}
use native.Mathlib.Nat.{zero-add, suc-add}
use cs425a_computer_networks.Bytes.{Bytes}
use cs425a_computer_networks.Vns.Messages.{Message, banner_msg, close_msg}
use cs425a_computer_networks.Vns.Banners.{
  chunk, banners_from, get_banners, close_from, get_banners_and_close,
}
use cs425a_computer_networks.Vns.Codec.{pack_banner, unpack_banner}
use cs425a_computer_networks.Vns.RoundTrip.{unpack_banner-pack_banner}
use cs425a_computer_networks.Vns.Strip.{NoNull}

abbrev pub join : List Bytes → Bytes
join [] = []
join (p ∷ ps) = p ++ join ps

drop-drop : (n m : ℕ) (s : Bytes) → drop m (drop n s) ≡ drop (n + m) s
drop-drop zero m s = rw zero-add refl
drop-drop (suc n) m [] = rw suc-add (drop-nil m)
drop-drop (suc n) m (x ∷ s) = rw suc-add (drop-drop n m s)

chunk_lem : (msg : Bytes) (i : ℕ) → chunk msg i ≡ take 255 (drop (i * 255) msg)
unfolding chunk
chunk_lem msg i = ap (λ k. take k (drop (i * 255) msg)) width
  where
    width : (i + 1) * 255 - i * 255 ≡ 255
    width = omega arith

length-take_le : (n : ℕ) (s : Bytes) → length (take n s) ≤ n
length-take_le zero s = omega arith
length-take_le (suc n) [] = omega arith
length-take_le (suc n) (x ∷ s) = omega (arith, length-take_le n s)

pub length-chunk : (msg : Bytes) (i : ℕ) → length (chunk msg i) ≤ 255
length-chunk msg i = rw chunk_lem (length-take_le 255 _)

drop_next : (msg : Bytes) (i : ℕ) → chunk msg i ++ drop ((i + 1) * 255) msg ≡ drop (i * 255) msg
drop_next msg i =
    rw (chunk_lem msg i, distrib)
      (rw (← drop-drop (i * 255) 255 msg) (take-append-drop 255 (drop (i * 255) msg)))
  where
    distrib : (i + 1) * 255 ≡ i * 255 + 255
    distrib = omega arith

-- The rounds from `i` on join to the text from `i * 255` on, if there are enough of them.
join-banners_from :
    (rounds i : ℕ) (msg : Bytes)
    → length msg ≤ (i + rounds) * 255
    → join (banners_from rounds i msg) ≡ drop (i * 255) msg
unfolding banners_from
join-banners_from zero i msg h = sym (drop_all (i * 255) msg (omega arith))
join-banners_from (suc rounds) i msg h =
    rw (join-banners_from rounds (i + 1) msg (omega arith)) (drop_next msg i)

banners_from-short :
    (rounds i : ℕ) (msg : Bytes) → All (λ p. length p ≤ 255) (banners_from rounds i msg)
unfolding banners_from
banners_from-short zero i msg = tt
banners_from-short (suc rounds) i msg = (length-chunk msg i, banners_from-short rounds (i + 1) msg)

banners_from-NoNull :
    (rounds i : ℕ) (msg : Bytes) → NoNull msg → All NoNull (banners_from rounds i msg)
unfolding banners_from chunk
banners_from-NoNull zero i msg h = tt
banners_from-NoNull (suc rounds) i msg h = (
  All-take (λ b. 0 < b) _ (drop (i * 255) msg) (All-drop (λ b. 0 < b) (i * 255) msg h),
  banners_from-NoNull rounds (i + 1) msg h,
)

length-banners_from : (rounds i : ℕ) (msg : Bytes) → length (banners_from rounds i msg) ≡ rounds
unfolding banners_from
length-banners_from zero i msg = refl
length-banners_from (suc rounds) i msg = ap suc (length-banners_from rounds (i + 1) msg)

-- The banners of a text hold at most 255 bytes each and join to the text.
pub get_banners-join :
    (msg : Bytes) → (join (get_banners msg) ≡ msg) × All (λ p. length p ≤ 255) (get_banners msg)
unfolding get_banners
get_banners-join msg = (
  join-banners_from (length msg / 255 + 1) 0 msg (omega arith),
  banners_from-short (length msg / 255 + 1) 0 msg,
)

-- What a peer reads from banners that were sent one by one.
abbrev pub receive : List Bytes → Result Bytes
receive [] = ok []
receive (p ∷ ps) = do text ← unpack_banner (pack_banner p); rest ← receive ps; ok (text ++ rest)

receive-join :
    (ps : List Bytes) → All NoNull ps → All (λ p. length p ≤ 255) ps → receive ps ≡ ok (join ps)
receive-join [] h l = refl
receive-join (p ∷ ps) (hp, h) (lp, l) = rw (
  unpack_banner-pack_banner p (record { no_null = hp; short = omega arith }),
  receive-join ps h l,
)

-- A text without null bytes that is split by `get_banners`, packed banner by banner, unpacked and
-- joined is the text again.
pub receive-get_banners : (msg : Bytes) → NoNull msg → receive (get_banners msg) ≡ ok msg
receive-get_banners msg h =
    receive-join (get_banners msg) no_null (get_banners-join msg).1 ∙ ap ok (get_banners-join msg).0
  where
    no_null : All NoNull (get_banners msg)
    no_null = unfold get_banners in banners_from-NoNull (length msg / 255 + 1) 0 msg h

-- Where the length of a text is a multiple of 255, the text fits in one banner fewer than
-- `get_banners` makes.
pub get_banners_not_minimal :
    (msg : Bytes)
    → length msg % 255 ≡ 0
    → (ps : List Bytes) × All (λ p. length p ≤ 255) ps
      × (join ps ≡ msg)
      × (length ps + 1 ≡ length (get_banners msg))
unfolding get_banners
get_banners_not_minimal msg h =
    let n = length msg / 255 in
    (
      banners_from n 0 msg,
      banners_from-short n 0 msg,
      join-banners_from n 0 msg (omega arith),
      omega (arith, length-banners_from n 0 msg, length-banners_from (n + 1) 0 msg),
    )

abbrev pub text_of : Message → Bytes
text_of (banner_msg p) = p
text_of (close_msg p) = p
text_of _ = []

abbrev pub texts : List Message → List Bytes
texts [] = []
texts (m ∷ ms) = text_of m ∷ texts ms

-- Banners, and one close message at the end.
abbrev pub ClosesLast : List Message → Type 0
ClosesLast (close_msg p ∷ []) = Unit {0}
ClosesLast (banner_msg p ∷ m ∷ ms) = ClosesLast (m ∷ ms)
ClosesLast _ = ⊥

texts-close_from :
    (rounds i n : ℕ) (msg : Bytes) → texts (close_from rounds i n msg) ≡ banners_from rounds i msg
unfolding close_from banners_from
texts-close_from zero i n msg = refl
texts-close_from (suc rounds) i n msg = ground (arith, texts-close_from rounds (i + 1) n msg)

close_from-ClosesLast :
    (rounds i n : ℕ) (msg : Bytes)
    → i + suc rounds ≡ n
    → ClosesLast (close_from (suc rounds) i n msg)
unfolding close_from
close_from-ClosesLast zero i n msg h = ground arith
close_from-ClosesLast (suc rounds) i n msg h =
    ground (arith, close_from-ClosesLast rounds (i + 1) n msg (omega arith))

-- The messages that end a connection carry the text in pieces of at most 255 bytes; all are
-- banners but the last, which closes.
pub get_banners_and_close_lem :
    (msg : Bytes)
    → (join (texts (get_banners_and_close msg)) ≡ msg)
      × All (λ p. length p ≤ 255) (texts (get_banners_and_close msg))
      × ClosesLast (get_banners_and_close msg)
unfolding get_banners_and_close
get_banners_and_close_lem msg =
    let n = length msg / 255 + 1 in
    rw (texts-close_from n 0 n msg)
      (join-banners_from n 0 msg (omega arith), banners_from-short n 0 msg, closes)
  where
    closes : ClosesLast (close_from (length msg / 255 + 1) 0 (length msg / 255 + 1) msg)
    closes =
        rw add-one
          (close_from-ClosesLast (length msg / 255) 0 (suc (length msg / 255)) msg (omega arith))

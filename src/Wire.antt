-- ===== src/Wire.antt =====
-- The messages of Project-4/pox/pox/openflow/libopenflow_01.py as bytes: `pack`, `unpack` and `==` of its
-- classes. A class is a record, and its layout says which fields go into which format. An `EthAddr`
-- is its `toInt()`, an `IPAddr` its `toUnsigned()`, a string a list of bytes.
pub mod Actions
pub mod Match
pub mod Messages
pub mod Stats
pub mod RoundTrip
mod Tests
use mathlib.Core.List.{append-nil}
use cs425a_computer_networks.Base.{
  ℕ, ◌+◌, ◌-◌, ◌%◌, ◌^◌, ◌<◌, ◌≡◌, ◌↔◌, refl, sym, ap, ◌∙◌, List, [], ◌∷◌, ◌++◌, Bool, true, ◌==◌,
  ltb, if◌then◌else◌, take, drop, length, Option, none, some, Result, ok, runtime_error, guard,
  ◌>>=◌, ◌>>◌,
}
use cs425a_computer_networks.Bytes.{Bytes}
use cs425a_computer_networks.Bytes.Format.{
  Format, num, Values, Fits, size, encode, read, write, same, unpacked, ◌&◌,
}
use cs425a_computer_networks.Bytes.Format.RoundTrip.{
  write-encode, read-encode, read-none, same→eq, same_refl,
}

-- The fields of a class in the order of a format, and the object of such fields.
pub record Layout {ℓ} (X : Type ℓ) (f : Format) : Type ℓ where
  pub values : X → Values f
  pub of_values : Values f → X
  pub back : (x : X) → of_values (values x) ≡ x

module _ {ℓ} {X : Type ℓ} {f : Format} (layout : Layout X f) where
  unfoldable pub pack_as : X → Result Bytes
  pack_as x = write f (layout.values x)

  unfoldable pub unpack_as : X → Bytes → X × Bytes
  unpack_as self raw = unpacked layout.of_values self raw (read f raw)

  unfoldable pub eq_as : X → X → Bool
  eq_as a b = same f (layout.values a) (layout.values b)

  -- All fields are in range.
  abbrev pub FitsLayout : X → Type 0
  FitsLayout x = Fits f (layout.values x)

  abbrev pub encode_as : X → Bytes
  encode_as x = encode f (layout.values x)

  pub pack_as-encode : (x : X) → FitsLayout x → pack_as x ≡ ok (encode_as x)
  unfolding pack_as
  pack_as-encode x h = write-encode f (layout.values x) h

  pub unpack_as-encode :
      (self x : X) (rest : Bytes) → FitsLayout x → unpack_as self (encode_as x ++ rest) ≡ (x, rest)
  unfolding unpack_as
  unpack_as-encode self x rest h = rw (read-encode f (layout.values x) rest h, layout.back x) refl

  pub unpack_as-encode_all : (self x : X) → FitsLayout x → unpack_as self (encode_as x) ≡ (x, [])
  unpack_as-encode_all self x h =
      ap (unpack_as self) (sym (append-nil (encode_as x))) ∙ unpack_as-encode self x [] h

  pub unpack_as_short :
      (self : X) (raw : Bytes) → length raw < size f → unpack_as self raw ≡ (self, raw)
  unfolding unpack_as
  unpack_as_short self raw h = rw (read-none f raw h) refl

  pub eq_as_iff : (a b : X) → (eq_as a b ≡ true) ↔ (a ≡ b)
  unfolding eq_as
  eq_as_iff a b = (
    λ h. sym (layout.back a) ∙ ap layout.of_values (same→eq f _ _ h) ∙ layout.back b,
    λ e. rw e (same_refl f (layout.values b)),
  )

-- `ofp_header`, which the messages inherit. The xid of a message that had none is that of
-- `assign_xid`.
pub record Header : Type 0 where
  pub version : ℕ
  pub header_type : ℕ
  pub length : ℕ
  pub xid : ℕ

abbrev pub header_format : Format
header_format = num 1 ∷ num 1 ∷ num 2 ∷ num 4 ∷ []

-- A message with a header and fields of a format.
abbrev pub with_header : Format → Format
with_header f = num 1 ∷ num 1 ∷ num 2 ∷ num 4 ∷ f

abbrev header_values : Header → Values header_format
header_values h = h.version & h.header_type & h.length & h.xid & tt

abbrev header_of : Values header_format → Header
header_of (version & header_type & length & xid & rest) = record {
  version = version;
  header_type = header_type;
  length = length;
  xid = xid;
}

abbrev pub header_layout : Layout Header header_format
header_layout = record { values = header_values; of_values = header_of; back = λ h. refl }

-- A header with another length: `self.length = …`.
abbrev pub with_length : ℕ → Header → Header
with_length size h = record h { length = size }

-- `buffer_id & 0xffffffff` of a buffer, where `none` is -1, and the buffer that is read.
unfoldable pub wire_buffer : Option ℕ → ℕ
wire_buffer none = 2 ^ 32 - 1
wire_buffer (some b) = b % 2 ^ 32

unfoldable pub buffer_of : ℕ → Option ℕ
buffer_of b = if b == 0xffffffff then none else some b

-- `s[first:stop]`
abbrev pub between : ℕ → ℕ → Bytes → Bytes
between first stop s = take (stop - first) (drop first s)

-- `generateXID`: the next xid to give, and the one after it: `_nextXID` is raised twice.
unfoldable pub generate_xid : ℕ → ℕ × ℕ
generate_xid next = (next, (next + 1 + 1) % 2 ^ 31)

-- `if self.xid is None: self.xid = generateXID()`
unfoldable pub assign_xid : Option ℕ → ℕ → ℕ × ℕ
unfolding generate_xid
assign_xid none next = generate_xid next
assign_xid (some xid) next = (xid, next)

-- `ofp_header._assert`: the type is one of the 22 of `ofp_type_map`.
unfoldable pub known_type : Header → Result (Unit {0})
known_type h = guard (ltb h.header_type 22) runtime_error

unfoldable pub pack_header : Header → Result Bytes
pack_header h = do known_type h; pack_as header_layout h

unfoldable pub unpack_header : Header → Bytes → Header × Bytes
unpack_header self raw = unpack_as header_layout self raw

unfoldable pub eq_header : Header → Header → Bool
eq_header a b = eq_as header_layout a b

-- ===== src/Vns/Tests.antt =====
-- Runs of the message classes, and the theorems at concrete messages.
use cs425a_computer_networks.Base.{
  codes, ◌+◌, ◌≤◌, ◌≡◌, refl, arith, List, [], ◌∷◌, ◌++◌, length, take, All, ok, err, struct_error,
  ◌>>=◌,
}
use cs425a_computer_networks.Bytes.{Bytes, pack_s, pack_u16, pack_u32}
use cs425a_computer_networks.Text.{split_on}
use cs425a_computer_networks.Text.Numbers.{decimal, digits_of, digit_char}
use cs425a_computer_networks.Vns.Template.{
  inet_aton, inet_ntoa, before_space, read_part, read_parts, fill_address, IsFilter,
  pack_open_template, unpack_open_template, length_open_template,
  unpack_open_template-pack_open_template,
}
use cs425a_computer_networks.Vns.Messages.{
  VnsOpenTemplate, set_src_filters, VnsOpen, VnsPacket, VnsRtable, VnsAuthReply,
}
use cs425a_computer_networks.Vns.Codec.{pack_open, unpack_open, pack_auth_reply}
use cs425a_computer_networks.Vns.Banners.{chunk, banners_from, get_banners}
use cs425a_computer_networks.Vns.RoundTrip.{unpack_open-pack_open}
use cs425a_computer_networks.Vns.Split.{join, receive, receive-get_banners, get_banners_not_minimal}

-- "eth1"
abbrev eth1 : Bytes
eth1 = b'e' ∷ b't' ∷ b'h' ∷ b'1' ∷ []

abbrev hello : Bytes
hello = b'h' ∷ b'e' ∷ b'l' ∷ b'l' ∷ b'o' ∷ []

abbrev an_open : VnsOpen
an_open = record { topo_id = 300; vhost = eth1; user = hello; pw = [] }

abbrev a_packet : VnsPacket
a_packet = record { intf_name = eth1; ethernet_frame = 0 ∷ 7 ∷ [] }

abbrev a_reply : VnsAuthReply
a_reply = record { username = hello; ssp = 1 ∷ 2 ∷ [] }

abbrev a_route : VnsRtable
a_route = record { vrhost = eth1; rtable = hello }

open_header : (pack_open an_open >>= λ b. ok (take 6 b)) ≡ ok (1 ∷ 44 ∷ 0 ∷ 0 ∷ b'e' ∷ b't' ∷ [])
unfolding pack_open pack_u16 pack_s
open_header = refl

short_open : unpack_open hello ≡ err struct_error
unfolding unpack_open
short_open = refl

banners_of_hello : get_banners hello ≡ hello ∷ []
unfolding get_banners banners_from chunk
banners_of_hello = refl

reply_bytes : pack_auth_reply a_reply ≡ ok (0 ∷ 0 ∷ 0 ∷ 5 ∷ (hello ++ (1 ∷ 2 ∷ [])))
unfolding pack_auth_reply pack_u32
reply_bytes = refl

unpack_open-pack_open_example : (pack_open an_open >>= unpack_open) ≡ ok an_open
unpack_open-pack_open_example = unpack_open-pack_open an_open (omega arith)

receive-get_banners_example : receive (get_banners hello) ≡ ok hello
receive-get_banners_example = receive-get_banners hello (omega arith)

get_banners_not_minimal_example :
    (ps : List Bytes) × All (λ p. length p ≤ 255) ps
    × (join ps ≡ [])
    × (length ps + 1 ≡ length (get_banners []))
get_banners_not_minimal_example = get_banners_not_minimal [] (omega arith)

abbrev ten_one : Bytes
ten_one = codes "10.0.0.1"

short_address : inet_aton (codes "0x7f.1") ≡ ok (127 ∷ 0 ∷ 0 ∷ 1 ∷ [])
unfolding inet_aton before_space split_on read_parts fill_address read_part
short_address = refl

ten_one-IsFilter : IsFilter (ten_one, 8)
unfolding inet_aton before_space split_on read_parts fill_address inet_ntoa read_part decimal
    digits_of digit_char
ten_one-IsFilter = record {
  address = 10 ∷ 0 ∷ 0 ∷ 1 ∷ [];
  reads = refl;
  four = refl;
  writes = refl;
  mask = omega arith;
}

abbrev a_template : VnsOpenTemplate
a_template = record { template_name = hello; vrhost = eth1; src_filters = (ten_one, 8) ∷ [] }

unpack_open_template-pack_open_template_example :
    (bytes : Bytes) × (pack_open_template a_template ≡ ok bytes)
    × (length bytes + 30 ≡ length_open_template a_template)
    × (unpack_open_template bytes ≡ ok a_template)
unpack_open_template-pack_open_template_example =
    unpack_open_template-pack_open_template a_template
      (record {
        no_null = (omega arith, (omega arith, (omega arith, (omega arith, (omega arith, tt)))));
        short = omega arith;
      })
      (record {
        no_null = (omega arith, (omega arith, (omega arith, (omega arith, tt))));
        short = omega arith;
      })
      (unfold set_src_filters in refl) (ten_one-IsFilter, tt)

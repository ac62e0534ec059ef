-- ===== src/Wire/Actions/Sent.antt =====
-- Actions that are packed and that `_unpack_actions` knows again, one by one.
use mathlib.Core.Path.{subst}
use cs425a_computer_networks.Base.{
  ℕ, ◌+◌, ◌^◌, ◌<◌, ◌≡◌, ◌⊎◌, inl, inr, refl, sym, ap, ◌∙◌, arith, [], ◌∷◌, ◌++◌, true, ◌||◌, ◌==◌,
  length, ok, lookup, nat_key,
}
use cs425a_computer_networks.Bytes.{Bytes}
use cs425a_computer_networks.Bytes.Format.{
  Format, num, pad, Fits, size, bound, encode, read, write, ◌&◌,
}
use cs425a_computer_networks.Bytes.Format.RoundTrip.{length-encode, write-encode}
use cs425a_computer_networks.Wire.{
  Layout, FitsLayout, pack_as, unpack_as, encode_as, pack_as-encode, unpack_as-encode_all,
}
use cs425a_computer_networks.Wire.Actions.Plain.{
  output_layout, enqueue_layout, nw_tos_layout, tp_port_layout, dl_addr_layout, nw_addr_layout,
  ActionOutput, settle_max_len, new_output, new_enqueue, new_nw_tos, set_tp, set_dl, set_nw,
  pack_output, pack_enqueue, pack_nw_tos, pack_tp_port, pack_dl_addr, pack_nw_addr, unpack_output,
  unpack_enqueue, unpack_nw_tos, unpack_tp_port, unpack_dl_addr, unpack_nw_addr,
}
use cs425a_computer_networks.Wire.Actions.Tags.{
  ActionVendor, vendor_layout, pack_vendor, vlan_vid_layout, vlan_pcp_layout, new_vlan_vid,
  new_vlan_pcp, pack_vlan_vid, pack_vlan_pcp, unpack_vlan_vid, unpack_vlan_pcp,
}
use cs425a_computer_networks.Wire.Actions.Mpls.{
  push_mpls_layout, mpls_label_layout, mpls_tc_layout, mpls_ttl_layout, pop_mpls_layout,
  new_push_mpls, new_mpls_label, new_mpls_tc, new_mpls_ttl, new_pop_mpls, pack_push_mpls,
  pack_mpls_label, pack_mpls_tc, pack_mpls_ttl, pack_pop_mpls, unpack_push_mpls, unpack_mpls_label,
  unpack_mpls_tc, unpack_mpls_ttl, unpack_pop_mpls,
}
use cs425a_computer_networks.Wire.Actions.Union.{
  ActionHeader, WireAction, act_output, act_enqueue, act_nw_tos, act_tp_port, act_dl_addr,
  act_nw_addr, act_vlan_vid, act_vlan_pcp, act_vendor, act_push_mpls, act_mpls_label, act_mpls_tc,
  act_mpls_ttl, act_pop_mpls, act_generic, new_action, known_action, pack_action, unpack_action,
  action_len, action_length, type_length, new_action_header, pack_action_header,
  unpack_action_header, set_action_header,
}

-- The fields are in range, and the type and the length are those of the class; an MPLS push has one of
-- the two MPLS ethertypes, and a generic header a type that no class of its own has.
abbrev pub IsPackable : WireAction → Type 0
IsPackable (act_output s) = FitsLayout output_layout s × (s.type ≡ 0) × (s.length ≡ 8)
IsPackable (act_enqueue s) = FitsLayout enqueue_layout s × (s.type ≡ 11) × (s.length ≡ 16)
IsPackable (act_nw_tos s) = FitsLayout nw_tos_layout s × (s.type ≡ 8) × (s.length ≡ 8)
IsPackable (act_tp_port s) =
    FitsLayout tp_port_layout s × ((s.type ≡ 9) ⊎ (s.type ≡ 10)) × (s.length ≡ 8)
IsPackable (act_dl_addr s) =
    FitsLayout dl_addr_layout s × ((s.type ≡ 4) ⊎ (s.type ≡ 5)) × (s.length ≡ 16)
IsPackable (act_nw_addr s) =
    FitsLayout nw_addr_layout s × ((s.type ≡ 6) ⊎ (s.type ≡ 7)) × (s.length ≡ 8)
IsPackable (act_vlan_vid s) = FitsLayout vlan_vid_layout s × (s.type ≡ 1) × (s.length ≡ 8)
IsPackable (act_vlan_pcp s) = FitsLayout vlan_pcp_layout s × (s.type ≡ 2) × (s.length ≡ 8)
IsPackable (act_push_mpls s) =
    FitsLayout push_mpls_layout s
    × (s.type ≡ 19)
    × (s.length ≡ 8)
    × ((s.ethertype == 0x8847 || s.ethertype == 0x8848) ≡ true)
IsPackable (act_mpls_label s) = FitsLayout mpls_label_layout s × (s.type ≡ 13) × (s.length ≡ 8)
IsPackable (act_mpls_tc s) = FitsLayout mpls_tc_layout s × (s.type ≡ 14) × (s.length ≡ 8)
IsPackable (act_mpls_ttl s) = FitsLayout mpls_ttl_layout s × (s.type ≡ 15) × (s.length ≡ 8)
IsPackable (act_pop_mpls s) = FitsLayout pop_mpls_layout s × (s.type ≡ 20) × (s.length ≡ 8)
IsPackable (act_vendor s) = FitsLayout vendor_layout s × (s.type ≡ 0xffff) × (s.length ≡ 8)
IsPackable (act_generic s) =
    (s.type < 2 ^ 16)
    × (s.length ≡ 8)
    × (n : ℕ) × (new_action s.type ≡ act_generic (new_action_header n))

-- What is parsed again: an output with the `max_len` that `pack` sets, a vendor action as a generic
-- header, and a generic header without data.
unfoldable pub settle_action : WireAction → WireAction
settle_action (act_output s) = act_output (settle_max_len s)
settle_action (act_vendor s) = act_generic (new_action_header 0xffff)
settle_action (act_generic s) = act_generic (record s { data_bytes = [] })
settle_action a = a

-- The bytes `b` of an action `a`, which is parsed to `parsed` of the same length.
pub record IsSent (a : WireAction) (b : Bytes) (parsed : WireAction) : Type 0 where
  pub packed : pack_action a ≡ ok b
  pub kind : ℕ
  pub body : Bytes
  pub head : b ≡ encode type_length (kind & length b & tt) ++ body
  pub fits : Fits type_length (kind & length b & tt)
  pub unpacked_to : unpack_action (new_action kind) b ≡ parsed
  pub sized : action_len parsed ≡ length b

module _ {f : Format} {X : Type 0} (layout : Layout X (num 2 ∷ num 2 ∷ f)) (a : WireAction) (x : X)
    (wrap : X → WireAction) (fits : FitsLayout layout x) where
  length-encode_as : length (encode_as layout x) ≡ 2 + (2 + size f)
  length-encode_as = length-encode _ (layout.values x) fits

  -- The class packs and unpacks by its layout, and a new action of the type is of the class.
  kept_as :
      (kind : ℕ) (new : X)
      → (layout.values x).0 ≡ kind
      → (layout.values x).1.0 ≡ 2 + (2 + size f)
      → pack_action a ≡ pack_as layout x
      → new_action kind ≡ wrap new
      → ((raw : Bytes) → unpack_action (wrap new) raw ≡ wrap (unpack_as layout new raw).0)
      → action_len (wrap x) ≡ 2 + (2 + size f)
      → IsSent a (encode_as layout x) (wrap x)
  unfolding encode
  kept_as kind new t l p known step e = record {
    packed = p ∙ pack_as-encode layout x fits;
    kind = (layout.values x).0;
    body = encode f (layout.values x).1.1;
    head =
        ap
          (λ n. encode type_length ((layout.values x).0 & n & tt) ++ encode f (layout.values x).1.1)
          (l ∙ sym length-encode_as);
    fits = (fits.0, (subst (λ n. n < bound 2) (l ∙ sym length-encode_as) fits.1.0, tt));
    unpacked_to =
        ap (λ k. unpack_action (new_action k) (encode_as layout x)) t
        ∙ ap (λ n. unpack_action n (encode_as layout x)) known
        ∙ step (encode_as layout x)
        ∙ ap (λ r. wrap r.0) (unpack_as-encode_all layout new x fits);
    sized = e ∙ sym length-encode_as;
  }

settled_output :
    (s : ActionOutput) → FitsLayout output_layout s → FitsLayout output_layout (settle_max_len s)
unfolding settle_max_len
settled_output s h = ground arith

settled_output_type : (s : ActionOutput) → (settle_max_len s).type ≡ s.type
unfolding settle_max_len
settled_output_type s = ground arith

settled_output_length : (s : ActionOutput) → (settle_max_len s).length ≡ s.length
unfolding settle_max_len
settled_output_length s = ground arith

-- The eight bytes of a generic header.
abbrev generic_bytes : ℕ → Bytes
generic_bytes type = encode (num 2 ∷ num 2 ∷ pad 4 ∷ []) (type & 8 & tt)

kept_generic :
    (s : ActionHeader) (n : ℕ)
    → s.type < 2 ^ 16
    → s.length ≡ 8
    → new_action s.type ≡ act_generic (new_action_header n)
    → IsSent (act_generic s) (generic_bytes s.type) (act_generic (record s { data_bytes = [] }))
unfolding encode pack_action pack_action_header unpack_action unpack_action_header set_action_header
    action_len read write
kept_generic s n small l known = record {
  packed =
      rw l (write-encode (num 2 ∷ num 2 ∷ pad 4 ∷ []) (s.type & 8 & tt) (small, (omega arith, tt)));
  kind = s.type;
  body = 0 ∷ 0 ∷ 0 ∷ 0 ∷ [];
  head = refl;
  fits = (small, (omega arith, tt));
  unpacked_to =
      ap (λ a. unpack_action a (generic_bytes s.type)) known
      ∙ ap (λ t. act_generic (new_action_header t)) {y = s.type} (omega (arith, small))
      ∙ rw l refl;
  sized = l;
}

-- A vendor action is packed by its class, but `_action_map` does not have its type.
kept_vendor :
    (s : ActionVendor)
    → FitsLayout vendor_layout s
    → s.type ≡ 0xffff
    → s.length ≡ 8
    → IsSent (act_vendor s) (encode_as vendor_layout s) (act_generic (new_action_header 0xffff))
unfolding encode pack_action pack_vendor unpack_action unpack_action_header set_action_header
    action_len read write new_action known_action lookup
kept_vendor s fits t l = record {
  packed = pack_as-encode vendor_layout s fits;
  kind = 0xffff;
  body = encode (num 4 ∷ []) (s.vendor & tt);
  head = rw (t, l) refl;
  fits = (omega arith, (omega arith, tt));
  unpacked_to = rw (t, l) refl;
  sized = refl;
}

-- Such an action is sent.
pub IsPackable-IsSent : (a : WireAction) → IsPackable a → (b : Bytes) × IsSent a b (settle_action a)
unfolding settle_action pack_action unpack_action action_len new_action known_action lookup
    pack_output unpack_output pack_enqueue unpack_enqueue pack_nw_tos unpack_nw_tos pack_tp_port
    unpack_tp_port pack_dl_addr unpack_dl_addr pack_nw_addr unpack_nw_addr pack_vlan_vid
    unpack_vlan_vid pack_vlan_pcp unpack_vlan_pcp pack_push_mpls unpack_push_mpls pack_mpls_label
    unpack_mpls_label pack_mpls_tc unpack_mpls_tc pack_mpls_ttl unpack_mpls_ttl pack_pop_mpls
    unpack_pop_mpls
IsPackable-IsSent (act_output s) (fits, t, l) =
    let x = settle_max_len s in
    (
      _,
      kept_as output_layout (act_output s) x act_output (settled_output s fits) 0 new_output
          (settled_output_type s ∙ t) (settled_output_length s ∙ l) refl refl (λ raw. refl) refl,
    )
IsPackable-IsSent (act_enqueue s) (fits, t, l) = (
  _,
  kept_as enqueue_layout (act_enqueue s) s act_enqueue fits 11 new_enqueue t l refl refl
      (λ raw. refl) refl,
)
IsPackable-IsSent (act_nw_tos s) (fits, t, l) = (
  _,
  kept_as nw_tos_layout (act_nw_tos s) s act_nw_tos fits 8 new_nw_tos t l refl refl (λ raw. refl)
      refl,
)
IsPackable-IsSent (act_vlan_vid s) (fits, t, l) = (
  _,
  kept_as vlan_vid_layout (act_vlan_vid s) s act_vlan_vid fits 1 new_vlan_vid t l refl refl
      (λ raw. refl) refl,
)
IsPackable-IsSent (act_vlan_pcp s) (fits, t, l) = (
  _,
  kept_as vlan_pcp_layout (act_vlan_pcp s) s act_vlan_pcp fits 2 new_vlan_pcp t l refl refl
      (λ raw. refl) refl,
)
IsPackable-IsSent (act_mpls_label s) (fits, t, l) = (
  _,
  kept_as mpls_label_layout (act_mpls_label s) s act_mpls_label fits 13 new_mpls_label t l refl refl
      (λ raw. refl) l,
)
IsPackable-IsSent (act_mpls_tc s) (fits, t, l) = (
  _,
  kept_as mpls_tc_layout (act_mpls_tc s) s act_mpls_tc fits 14 new_mpls_tc t l refl refl
      (λ raw. refl) l,
)
IsPackable-IsSent (act_mpls_ttl s) (fits, t, l) = (
  _,
  kept_as mpls_ttl_layout (act_mpls_ttl s) s act_mpls_ttl fits 15 new_mpls_ttl t l refl refl
      (λ raw. refl) l,
)
IsPackable-IsSent (act_pop_mpls s) (fits, t, l) = (
  _,
  kept_as pop_mpls_layout (act_pop_mpls s) s act_pop_mpls fits 20 new_pop_mpls t l refl refl
      (λ raw. refl) l,
)
IsPackable-IsSent (act_push_mpls s) (fits, t, l, e) = (
  _,
  kept_as push_mpls_layout (act_push_mpls s) s act_push_mpls fits 19 new_push_mpls t l (rw e refl)
      refl (λ raw. refl) l,
)
IsPackable-IsSent (act_tp_port s) (fits, t, l) = (
  _,
  elim t [
    | inl e ↦
        kept_as tp_port_layout (act_tp_port s) s act_tp_port fits 9 (set_tp 0 0) e l refl refl
          (λ raw. refl) refl
    | inr e ↦
        kept_as tp_port_layout (act_tp_port s) s act_tp_port fits 10 (set_tp 0 0) e l refl refl
          (λ raw. refl) refl
  ],
)
IsPackable-IsSent (act_dl_addr s) (fits, t, l) = (
  _,
  elim t [
    | inl e ↦
        kept_as dl_addr_layout (act_dl_addr s) s act_dl_addr fits 4 (set_dl 0 0) e l refl refl
          (λ raw. refl) refl
    | inr e ↦
        kept_as dl_addr_layout (act_dl_addr s) s act_dl_addr fits 5 (set_dl 0 0) e l refl refl
          (λ raw. refl) refl
  ],
)
IsPackable-IsSent (act_nw_addr s) (fits, t, l) = (
  _,
  elim t [
    | inl e ↦
        kept_as nw_addr_layout (act_nw_addr s) s act_nw_addr fits 6 (set_nw 0 0) e l refl refl
          (λ raw. refl) refl
    | inr e ↦
        kept_as nw_addr_layout (act_nw_addr s) s act_nw_addr fits 7 (set_nw 0 0) e l refl refl
          (λ raw. refl) refl
  ],
)
IsPackable-IsSent (act_vendor s) (fits, t, l) = (_, kept_vendor s fits t l)
IsPackable-IsSent (act_generic s) (small, l, n, known) =
    (generic_bytes s.type, kept_generic s n small l known)

-- The attribute of an action that is as its class makes it is its `__len__`.
pub action_length_lem : (a : WireAction) → IsPackable a → action_length a ≡ action_len a
unfolding action_length action_len
action_length_lem (act_output s) h = h.2
action_length_lem (act_enqueue s) h = h.2
action_length_lem (act_nw_tos s) h = h.2
action_length_lem (act_tp_port s) h = h.2
action_length_lem (act_dl_addr s) h = h.2
action_length_lem (act_nw_addr s) h = h.2
action_length_lem (act_vlan_vid s) h = h.2
action_length_lem (act_vlan_pcp s) h = h.2
action_length_lem (act_vendor s) h = h.2
action_length_lem (act_push_mpls s) h = refl
action_length_lem (act_mpls_label s) h = refl
action_length_lem (act_mpls_tc s) h = refl
action_length_lem (act_mpls_ttl s) h = refl
action_length_lem (act_pop_mpls s) h = refl
action_length_lem (act_generic s) h = refl

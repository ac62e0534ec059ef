-- ===== src/Wire/RoundTrip/Fixed.antt =====
-- What all the classes of one format promise.
use cs425a_computer_networks.Base.{
  ◌<◌, ◌≡◌, ◌↔◌, refl, ◌∙◌, arith, ◌++◌, true, le→leb, length, ok, ltb,
}
use cs425a_computer_networks.Bytes.{Bytes}
use cs425a_computer_networks.Bytes.Format.{Format, size}
use cs425a_computer_networks.Bytes.Format.RoundTrip.{length-encode}
use cs425a_computer_networks.Wire.{
  Header, Layout, known_type, pack_as, unpack_as, FitsLayout, encode_as, pack_as-encode,
  unpack_as-encode, unpack_as_short, eq_as_iff,
}
use cs425a_computer_networks.Wire.Messages.Symmetric.{
  hello_layout, pack_hello, unpack_hello, eq_hello, barrier_request_layout, pack_barrier_request,
  unpack_barrier_request, eq_barrier_request, barrier_reply_layout, pack_barrier_reply,
  unpack_barrier_reply, eq_barrier_reply, features_request_layout, pack_features_request,
  unpack_features_request, eq_features_request, vendor_header_layout, pack_vendor_header,
  unpack_vendor_header, eq_vendor_header,
}
use cs425a_computer_networks.Wire.Messages.Config.{
  switch_config_layout, pack_switch_config, unpack_switch_config, eq_switch_config,
  get_config_reply_layout, pack_get_config_reply, unpack_get_config_reply, eq_get_config_reply,
  set_config_layout, pack_set_config, unpack_set_config, eq_set_config, get_config_request_layout,
  pack_get_config_request, unpack_get_config_request, eq_get_config_request,
}
use cs425a_computer_networks.Wire.Messages.Ports.{
  port_mod_layout, pack_port_mod, unpack_port_mod, eq_port_mod, queue_get_config_request_layout,
  pack_queue_get_config_request, unpack_queue_get_config_request, eq_queue_get_config_request,
  phy_port_layout, pack_phy_port, unpack_phy_port, eq_phy_port,
}
use cs425a_computer_networks.Wire.Messages.Queues.{
  queue_prop_header_layout, pack_queue_prop_header, unpack_queue_prop_header, eq_queue_prop_header,
}
use cs425a_computer_networks.Wire.Stats.Counters.{
  port_stats_layout, pack_port_stats, unpack_port_stats, eq_port_stats, queue_stats_layout,
  pack_queue_stats, unpack_queue_stats, eq_queue_stats, aggregate_stats_layout,
  pack_aggregate_stats, unpack_aggregate_stats, eq_aggregate_stats,
}
use cs425a_computer_networks.Wire.Stats.Descriptions.{
  port_stats_request_layout, pack_port_stats_request, unpack_port_stats_request,
  eq_port_stats_request, queue_stats_request_layout, pack_queue_stats_request,
  unpack_queue_stats_request, eq_queue_stats_request, table_stats_layout, pack_table_stats,
  unpack_table_stats, eq_table_stats, desc_stats_layout, pack_desc_stats, unpack_desc_stats,
  eq_desc_stats,
}
use cs425a_computer_networks.Wire.RoundTrip.Objects.{
  FixedClass, a_hello, a_barrier_request, a_barrier_reply, a_features_request, a_vendor_header,
  a_switch_config, a_get_config_reply, a_set_config, a_get_config_request, a_port_mod,
  a_queue_get_config_request, a_queue_prop_header, a_port_stats, a_queue_stats, a_aggregate_stats,
  a_port_stats_request, a_queue_stats_request, a_phy_port, a_table_stats, a_desc_stats, Object,
  pack_object, unpack_object, eq_object, object_len, IsSendable,
}

-- What a class keeps that packs and unpacks by a layout.
abbrev RoundTrips : (c : FixedClass) → Object c → Type 0
RoundTrips c x =
    (bytes : Bytes) × (pack_object c x ≡ ok bytes)
    × (length bytes ≡ object_len c)
    × ((self : Object c) (rest : Bytes) → unpack_object c self (bytes ++ rest) ≡ (x, rest))

module _ (c : FixedClass) {f : Format} (layout : Layout (Object c) f) (len : size f ≡ object_len c)
    (unpacks : (self : Object c) (raw : Bytes)
      → unpack_object c self raw ≡ unpack_as layout self raw) where
  by_layout :
      (x : Object c) → FitsLayout layout x → pack_object c x ≡ pack_as layout x → RoundTrips c x
  by_layout x h packs = (
    encode_as layout x,
    packs ∙ pack_as-encode layout x h,
    length-encode f (layout.values x) h ∙ len,
    λ self rest. unpacks self (encode_as layout x ++ rest) ∙ unpack_as-encode layout self x rest h,
  )

  short_by_layout :
      (self : Object c) (raw : Bytes)
      → length raw < object_len c
      → unpack_object c self raw ≡ (self, raw)
  short_by_layout self raw h =
      unpacks self raw ∙ unpack_as_short layout self raw (omega (arith, len))

pub known : (h : Header) → h.header_type < 22 → known_type h ≡ ok tt
unfolding known_type
known h small = let e : ltb h.header_type 22 ≡ true = ground arith in rw e refl

object_RoundTrips : (c : FixedClass) (x : Object c) → IsSendable c x → RoundTrips c x
unfolding unpack_object pack_object object_len pack_hello unpack_hello pack_barrier_request
    unpack_barrier_request pack_barrier_reply unpack_barrier_reply pack_features_request
    unpack_features_request pack_vendor_header unpack_vendor_header pack_switch_config
    unpack_switch_config pack_get_config_reply unpack_get_config_reply pack_set_config
    unpack_set_config pack_get_config_request unpack_get_config_request pack_port_mod
    unpack_port_mod pack_queue_get_config_request unpack_queue_get_config_request
    pack_queue_prop_header unpack_queue_prop_header pack_port_stats unpack_port_stats
    pack_queue_stats unpack_queue_stats pack_aggregate_stats unpack_aggregate_stats
    pack_port_stats_request unpack_port_stats_request pack_queue_stats_request
    unpack_queue_stats_request pack_phy_port unpack_phy_port pack_table_stats unpack_table_stats
    pack_desc_stats unpack_desc_stats
object_RoundTrips a_hello x (t, h) =
    by_layout a_hello hello_layout refl (λ self raw. refl) x h (rw (known x.header t) refl)
object_RoundTrips a_barrier_request x (t, h) =
    by_layout a_barrier_request barrier_request_layout refl (λ self raw. refl) x h
      (rw (known x.header t) refl)
object_RoundTrips a_barrier_reply x (t, h) =
    by_layout a_barrier_reply barrier_reply_layout refl (λ self raw. refl) x h
      (rw (known x.header t) refl)
object_RoundTrips a_features_request x (t, h) =
    by_layout a_features_request features_request_layout refl (λ self raw. refl) x h
      (rw (known x.header t) refl)
object_RoundTrips a_vendor_header x (t, h) =
    by_layout a_vendor_header vendor_header_layout refl (λ self raw. refl) x h
      (rw (known x.header t) refl)
object_RoundTrips a_switch_config x (t, h) =
    by_layout a_switch_config switch_config_layout refl (λ self raw. refl) x h
      (rw (known x.header t) refl)
object_RoundTrips a_get_config_reply x (t, h) =
    by_layout a_get_config_reply get_config_reply_layout refl (λ self raw. refl) x h
      (rw (known x.header t) refl)
object_RoundTrips a_set_config x (t, h) =
    by_layout a_set_config set_config_layout refl (λ self raw. refl) x h
      (rw (known x.header t) refl)
object_RoundTrips a_get_config_request x (t, h) =
    by_layout a_get_config_request get_config_request_layout refl (λ self raw. refl) x h
      (rw (known x.header t) refl)
object_RoundTrips a_port_mod x (t, h) =
    by_layout a_port_mod port_mod_layout refl (λ self raw. refl) x h (rw (known x.header t) refl)
object_RoundTrips a_queue_get_config_request x (t, h) =
    by_layout a_queue_get_config_request queue_get_config_request_layout refl (λ self raw. refl) x h
      (rw (known x.header t) refl)
object_RoundTrips a_queue_prop_header x h =
    by_layout a_queue_prop_header queue_prop_header_layout refl (λ self raw. refl) x h refl
object_RoundTrips a_port_stats x h =
    by_layout a_port_stats port_stats_layout refl (λ self raw. refl) x h refl
object_RoundTrips a_queue_stats x h =
    by_layout a_queue_stats queue_stats_layout refl (λ self raw. refl) x h refl
object_RoundTrips a_aggregate_stats x h =
    by_layout a_aggregate_stats aggregate_stats_layout refl (λ self raw. refl) x h refl
object_RoundTrips a_port_stats_request x h =
    by_layout a_port_stats_request port_stats_request_layout refl (λ self raw. refl) x h refl
object_RoundTrips a_queue_stats_request x h =
    by_layout a_queue_stats_request queue_stats_request_layout refl (λ self raw. refl) x h refl
object_RoundTrips a_phy_port x h =
    by_layout a_phy_port phy_port_layout refl (λ self raw. refl) x h (rw (le→leb _ _ h.1.1.0) refl)
object_RoundTrips a_table_stats x h =
    by_layout a_table_stats table_stats_layout refl (λ self raw. refl) x h
      (rw (le→leb _ _ h.1.0) refl)
object_RoundTrips a_desc_stats x h =
    by_layout a_desc_stats desc_stats_layout refl (λ self raw. refl) x h
      (rw
        (
          le→leb _ _ h.0,
          le→leb _ _ h.2.0,
          le→leb _ _ h.2.2.0,
          le→leb _ _ h.2.2.2.0,
          le→leb _ _ h.2.2.2.2.0,
        )
        refl)

-- Bytes that are too few are not touched, nor is the object.
pub unpack_object_short :
    (c : FixedClass) (self : Object c) (raw : Bytes)
    → length raw < object_len c
    → unpack_object c self raw ≡ (self, raw)
unfolding unpack_object object_len unpack_hello unpack_barrier_request unpack_barrier_reply
    unpack_features_request unpack_vendor_header unpack_switch_config unpack_get_config_reply
    unpack_set_config unpack_get_config_request unpack_port_mod unpack_queue_get_config_request
    unpack_queue_prop_header unpack_port_stats unpack_queue_stats unpack_aggregate_stats
    unpack_port_stats_request unpack_queue_stats_request unpack_phy_port unpack_table_stats
    unpack_desc_stats
unpack_object_short a_hello self raw h =
    short_by_layout a_hello hello_layout refl (λ s r. refl) self raw h
unpack_object_short a_barrier_request self raw h =
    short_by_layout a_barrier_request barrier_request_layout refl (λ s r. refl) self raw h
unpack_object_short a_barrier_reply self raw h =
    short_by_layout a_barrier_reply barrier_reply_layout refl (λ s r. refl) self raw h
unpack_object_short a_features_request self raw h =
    short_by_layout a_features_request features_request_layout refl (λ s r. refl) self raw h
unpack_object_short a_vendor_header self raw h =
    short_by_layout a_vendor_header vendor_header_layout refl (λ s r. refl) self raw h
unpack_object_short a_switch_config self raw h =
    short_by_layout a_switch_config switch_config_layout refl (λ s r. refl) self raw h
unpack_object_short a_get_config_reply self raw h =
    short_by_layout a_get_config_reply get_config_reply_layout refl (λ s r. refl) self raw h
unpack_object_short a_set_config self raw h =
    short_by_layout a_set_config set_config_layout refl (λ s r. refl) self raw h
unpack_object_short a_get_config_request self raw h =
    short_by_layout a_get_config_request get_config_request_layout refl (λ s r. refl) self raw h
unpack_object_short a_port_mod self raw h =
    short_by_layout a_port_mod port_mod_layout refl (λ s r. refl) self raw h
unpack_object_short a_queue_get_config_request self raw h =
    short_by_layout a_queue_get_config_request queue_get_config_request_layout refl (λ s r. refl)
      self raw h
unpack_object_short a_queue_prop_header self raw h =
    short_by_layout a_queue_prop_header queue_prop_header_layout refl (λ s r. refl) self raw h
unpack_object_short a_port_stats self raw h =
    short_by_layout a_port_stats port_stats_layout refl (λ s r. refl) self raw h
unpack_object_short a_queue_stats self raw h =
    short_by_layout a_queue_stats queue_stats_layout refl (λ s r. refl) self raw h
unpack_object_short a_aggregate_stats self raw h =
    short_by_layout a_aggregate_stats aggregate_stats_layout refl (λ s r. refl) self raw h
unpack_object_short a_port_stats_request self raw h =
    short_by_layout a_port_stats_request port_stats_request_layout refl (λ s r. refl) self raw h
unpack_object_short a_queue_stats_request self raw h =
    short_by_layout a_queue_stats_request queue_stats_request_layout refl (λ s r. refl) self raw h
unpack_object_short a_phy_port self raw h =
    short_by_layout a_phy_port phy_port_layout refl (λ s r. refl) self raw h
unpack_object_short a_table_stats self raw h =
    short_by_layout a_table_stats table_stats_layout refl (λ s r. refl) self raw h
unpack_object_short a_desc_stats self raw h =
    short_by_layout a_desc_stats desc_stats_layout refl (λ s r. refl) self raw h

-- `==` of two objects of a class holds exactly if they are equal.
pub eq_object_iff : (c : FixedClass) (a b : Object c) → (eq_object c a b ≡ true) ↔ (a ≡ b)
unfolding eq_object eq_hello eq_barrier_request eq_barrier_reply eq_features_request
    eq_vendor_header eq_switch_config eq_get_config_reply eq_set_config eq_get_config_request
    eq_port_mod eq_queue_get_config_request eq_queue_prop_header eq_port_stats eq_queue_stats
    eq_aggregate_stats eq_port_stats_request eq_queue_stats_request eq_phy_port eq_table_stats
    eq_desc_stats
eq_object_iff a_hello a b = eq_as_iff hello_layout a b
eq_object_iff a_barrier_request a b = eq_as_iff barrier_request_layout a b
eq_object_iff a_barrier_reply a b = eq_as_iff barrier_reply_layout a b
eq_object_iff a_features_request a b = eq_as_iff features_request_layout a b
eq_object_iff a_vendor_header a b = eq_as_iff vendor_header_layout a b
eq_object_iff a_switch_config a b = eq_as_iff switch_config_layout a b
eq_object_iff a_get_config_reply a b = eq_as_iff get_config_reply_layout a b
eq_object_iff a_set_config a b = eq_as_iff set_config_layout a b
eq_object_iff a_get_config_request a b = eq_as_iff get_config_request_layout a b
eq_object_iff a_port_mod a b = eq_as_iff port_mod_layout a b
eq_object_iff a_queue_get_config_request a b = eq_as_iff queue_get_config_request_layout a b
eq_object_iff a_queue_prop_header a b = eq_as_iff queue_prop_header_layout a b
eq_object_iff a_port_stats a b = eq_as_iff port_stats_layout a b
eq_object_iff a_queue_stats a b = eq_as_iff queue_stats_layout a b
eq_object_iff a_aggregate_stats a b = eq_as_iff aggregate_stats_layout a b
eq_object_iff a_port_stats_request a b = eq_as_iff port_stats_request_layout a b
eq_object_iff a_queue_stats_request a b = eq_as_iff queue_stats_request_layout a b
eq_object_iff a_phy_port a b = eq_as_iff phy_port_layout a b
eq_object_iff a_table_stats a b = eq_as_iff table_stats_layout a b
eq_object_iff a_desc_stats a b = eq_as_iff desc_stats_layout a b

-- An object of any of the classes of one format, with fields that fit and of a known type of message,
-- is packed to as many bytes as its `__len__` says, and an object of the class that unpacks them
-- becomes equal to it, and returns the bytes behind them.
pub unpack_object-pack_object :
    (c : FixedClass) (x self : Object c) (rest : Bytes)
    → IsSendable c x
    → (bytes : Bytes) × (pack_object c x ≡ ok bytes)
      × (length bytes ≡ object_len c)
      × (unpack_object c self (bytes ++ rest) ≡ (x, rest))
unpack_object-pack_object c x self rest h =
    let (bytes, packed, len, back) = object_RoundTrips c x h in (bytes, packed, len, back self rest)

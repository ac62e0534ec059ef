-- ===== src/Wire/Messages/Symmetric.antt =====
-- The messages of libopenflow_01.py that are a header only, and the header of vendor messages.
use cs425a_computer_networks.Base.{ℕ, refl, [], ◌∷◌, Bool, Result, ◌>>◌}
use cs425a_computer_networks.Bytes.{Bytes}
use cs425a_computer_networks.Bytes.Format.{Format, num, Values, ◌&◌}
use cs425a_computer_networks.Wire.{
  Header, Layout, with_header, known_type, pack_as, unpack_as, eq_as,
}

-- `ofp_hello`.
pub record Hello : Type 0 where
  pub header : Header

abbrev pub hello_format : Format
hello_format = with_header ([])

abbrev hello_values : Hello → Values hello_format
hello_values s = s.header.version & s.header.header_type & s.header.length & s.header.xid & tt

abbrev hello_of : Values hello_format → Hello
hello_of (version & header_type & size & xid & rest) = record {
  header = record { version = version; header_type = header_type; length = size; xid = xid };
}

abbrev pub hello_layout : Layout Hello hello_format
hello_layout = record { values = hello_values; of_values = hello_of; back = λ s. refl }

abbrev pub new_hello : Hello
new_hello = record { header = record { version = 1; header_type = 0; length = 8; xid = 0 } }

unfoldable pub pack_hello : Hello → Result Bytes
pack_hello s = do known_type s.header; pack_as hello_layout s

unfoldable pub unpack_hello : Hello → Bytes → Hello × Bytes
unpack_hello self raw = unpack_as hello_layout self raw

unfoldable pub eq_hello : Hello → Hello → Bool
eq_hello a b = eq_as hello_layout a b

-- `ofp_barrier_request`.
pub record BarrierRequest : Type 0 where
  pub header : Header

abbrev pub barrier_request_format : Format
barrier_request_format = with_header ([])

abbrev barrier_request_values : BarrierRequest → Values barrier_request_format
barrier_request_values s =
    s.header.version & s.header.header_type & s.header.length & s.header.xid & tt

abbrev barrier_request_of : Values barrier_request_format → BarrierRequest
barrier_request_of (version & header_type & size & xid & rest) = record {
  header = record { version = version; header_type = header_type; length = size; xid = xid };
}

abbrev pub barrier_request_layout : Layout BarrierRequest barrier_request_format
barrier_request_layout = record {
  values = barrier_request_values;
  of_values = barrier_request_of;
  back = λ s. refl;
}

abbrev pub new_barrier_request : BarrierRequest
new_barrier_request = record {
  header = record { version = 1; header_type = 18; length = 8; xid = 0 };
}

unfoldable pub pack_barrier_request : BarrierRequest → Result Bytes
pack_barrier_request s = do known_type s.header; pack_as barrier_request_layout s

unfoldable pub unpack_barrier_request : BarrierRequest → Bytes → BarrierRequest × Bytes
unpack_barrier_request self raw = unpack_as barrier_request_layout self raw

unfoldable pub eq_barrier_request : BarrierRequest → BarrierRequest → Bool
eq_barrier_request a b = eq_as barrier_request_layout a b

-- `ofp_barrier_reply`.
pub record BarrierReply : Type 0 where
  pub header : Header

abbrev pub barrier_reply_format : Format
barrier_reply_format = with_header ([])

abbrev barrier_reply_values : BarrierReply → Values barrier_reply_format
barrier_reply_values s =
    s.header.version & s.header.header_type & s.header.length & s.header.xid & tt

abbrev barrier_reply_of : Values barrier_reply_format → BarrierReply
barrier_reply_of (version & header_type & size & xid & rest) = record {
  header = record { version = version; header_type = header_type; length = size; xid = xid };
}

abbrev pub barrier_reply_layout : Layout BarrierReply barrier_reply_format
barrier_reply_layout = record {
  values = barrier_reply_values;
  of_values = barrier_reply_of;
  back = λ s. refl;
}

abbrev pub new_barrier_reply : BarrierReply
new_barrier_reply = record {
  header = record { version = 1; header_type = 19; length = 8; xid = 0 };
}

unfoldable pub pack_barrier_reply : BarrierReply → Result Bytes
pack_barrier_reply s = do known_type s.header; pack_as barrier_reply_layout s

unfoldable pub unpack_barrier_reply : BarrierReply → Bytes → BarrierReply × Bytes
unpack_barrier_reply self raw = unpack_as barrier_reply_layout self raw

unfoldable pub eq_barrier_reply : BarrierReply → BarrierReply → Bool
eq_barrier_reply a b = eq_as barrier_reply_layout a b

-- `ofp_features_request`.
pub record FeaturesRequest : Type 0 where
  pub header : Header

abbrev pub features_request_format : Format
features_request_format = with_header ([])

abbrev features_request_values : FeaturesRequest → Values features_request_format
features_request_values s =
    s.header.version & s.header.header_type & s.header.length & s.header.xid & tt

abbrev features_request_of : Values features_request_format → FeaturesRequest
features_request_of (version & header_type & size & xid & rest) = record {
  header = record { version = version; header_type = header_type; length = size; xid = xid };
}

abbrev pub features_request_layout : Layout FeaturesRequest features_request_format
features_request_layout = record {
  values = features_request_values;
  of_values = features_request_of;
  back = λ s. refl;
}

abbrev pub new_features_request : FeaturesRequest
new_features_request = record {
  header = record { version = 1; header_type = 5; length = 8; xid = 0 };
}

unfoldable pub pack_features_request : FeaturesRequest → Result Bytes
pack_features_request s = do known_type s.header; pack_as features_request_layout s

unfoldable pub unpack_features_request : FeaturesRequest → Bytes → FeaturesRequest × Bytes
unpack_features_request self raw = unpack_as features_request_layout self raw

unfoldable pub eq_features_request : FeaturesRequest → FeaturesRequest → Bool
eq_features_request a b = eq_as features_request_layout a b

-- `ofp_vendor_header`.
pub record VendorHeader : Type 0 where
  pub header : Header
  pub vendor : ℕ

abbrev pub vendor_header_format : Format
vendor_header_format = with_header (num 4 ∷ [])

abbrev vendor_header_values : VendorHeader → Values vendor_header_format
vendor_header_values s =
    s.header.version & s.header.header_type & s.header.length & s.header.xid & s.vendor & tt

abbrev vendor_header_of : Values vendor_header_format → VendorHeader
vendor_header_of (version & header_type & size & xid & vendor & rest) = record {
  header = record { version = version; header_type = header_type; length = size; xid = xid };
  vendor = vendor;
}

abbrev pub vendor_header_layout : Layout VendorHeader vendor_header_format
vendor_header_layout = record {
  values = vendor_header_values;
  of_values = vendor_header_of;
  back = λ s. refl;
}

abbrev pub new_vendor_header : VendorHeader
new_vendor_header = record {
  header = record { version = 1; header_type = 4; length = 8; xid = 0 };
  vendor = 0;
}

unfoldable pub pack_vendor_header : VendorHeader → Result Bytes
pack_vendor_header s = do known_type s.header; pack_as vendor_header_layout s

unfoldable pub unpack_vendor_header : VendorHeader → Bytes → VendorHeader × Bytes
unpack_vendor_header self raw = unpack_as vendor_header_layout self raw

unfoldable pub eq_vendor_header : VendorHeader → VendorHeader → Bool
eq_vendor_header a b = eq_as vendor_header_layout a b

-- ===== src/Examples/Headers.antt =====
-- The headers' theorems at concrete arguments.
use flex_stack.Prelude.{
  ◌≡◌, ◌++◌, refl, inl, [], ◌∷◌, ok, err, ◌>>=◌, overflow_error, true, false, arith,
}
use flex_stack.Prelude.Int.{pos}
use flex_stack.Geonet.Address.RoundTrip.{IsValid}
use flex_stack.Geonet.BasicHeader as Basic
use flex_stack.Geonet.BasicHeader.{BasicHeader, set_value_in_millis, get_value_in_millis}
use flex_stack.Geonet.BasicHeader.RoundTrip.{basic_decode-encode}
use flex_stack.Geonet.BasicHeader.Lifetime.{set_value_loses}
use flex_stack.Geonet.Request
use flex_stack.Geonet.Request.{tc_encode_to_int, tc_decode_from_int}
use flex_stack.Geonet.CommonHeader as Common
use flex_stack.Geonet.CommonHeader.{CommonHeader, initialize_beacon, initialize_with_request}
use flex_stack.Geonet.CommonHeader.RoundTrip.{with_mobility_alone, common_decode-encode}
use flex_stack.Geonet.CommonHeader.Mobility.{beacon_mobility_lost}
use flex_stack.Geonet.PositionVector.{long_encode, long_decode, tst_gt, tst_ge, tst_lt, tst_le}
use flex_stack.Geonet.PositionVector.Timestamp.{stamp, tst_gt-stamp}
use flex_stack.Geonet.PositionVector.Long.{IsValidLong, long_decode-encode, long_encode-negative}
use flex_stack.Geonet.PositionVector.Short.{IsValidShort}
use flex_stack.Geonet.ExtendedHeaders.{
  GbcExtendedHeader, gbc_encode, gbc_decode, TsbExtendedHeader, tsb_encode, tsb_decode,
  GucExtendedHeader, guc_encode, guc_decode, LsRequestExtendedHeader, ls_request_encode,
  ls_request_decode,
}
use flex_stack.Geonet.ExtendedHeaders.Gbc.{gbc_decode-encode}
use flex_stack.Geonet.ExtendedHeaders.RoundTrips.{extended_decode-encode}
use flex_stack.Examples.{car, roadside, barcelona, santiago, near_barcelona, best_effort, mib}

car-IsValid : IsValid car
car-IsValid = record {
  six = refl;
  bytes =
      (omega arith, (omega arith, (omega arith, (omega arith, (omega arith, (omega arith, tt))))));
}

roadside-IsValid : IsValid roadside
roadside-IsValid = record {
  six = refl;
  bytes =
      (omega arith, (omega arith, (omega arith, (omega arith, (omega arith, (omega arith, tt))))));
}

pub barcelona-IsValid : IsValidLong barcelona
barcelona-IsValid = record {
  address = car-IsValid;
  tst = omega arith;
  latitude = (refl, omega arith);
  longitude = (refl, omega arith);
  s = (refl, omega arith);
  h = (refl, omega arith);
}

near_barcelona-IsValid : IsValidShort near_barcelona
near_barcelona-IsValid = record {
  address = roadside-IsValid;
  tst = omega arith;
  latitude = (refl, omega arith);
  longitude = (refl, omega arith);
}

abbrev basic_header : BasicHeader
basic_header = record {
  version = 1;
  nh = Basic.common_header;
  reserved = 0;
  lt = record { multiplier = 60; base = Basic.one_second };
  rhl = 10;
}

basic_decode-encode_example :
    (Basic.encode_to_bytes basic_header >>= λ bs. Basic.decode_from_bytes (bs ++ 7 ∷ []))
    ≡ ok basic_header
basic_decode-encode_example = basic_decode-encode basic_header (7 ∷ []) (record {
  version = omega arith;
  reserved = omega arith;
  multiplier = omega arith;
  rhl = omega arith;
})

set_value_loses_example : get_value_in_millis (set_value_in_millis 700) ≡ 0
set_value_loses_example = set_value_loses 700 (inl (omega arith, omega arith))

abbrev common_header : CommonHeader
common_header = record {
  nh = Request.btp_b;
  reserved = 0;
  ht = Request.geobroadcast;
  hst = Request.geobroadcast_circle;
  tc = best_effort;
  flags = 133;
  pl = 300;
  mhl = 10;
}

common_decode-encode_example :
    (Common.encode_to_bytes common_header >>= λ bs. Common.decode_from_bytes (bs ++ 7 ∷ []))
    ≡ ok (with_mobility_alone common_header)
common_decode-encode_example = common_decode-encode common_header (7 ∷ []) (record {
  reserved = omega arith;
  subtype = refl;
  tc_id = omega arith;
  flags = omega arith;
  pl = omega arith;
  mhl = omega arith;
})

beacon_mobility_lost_example :
    (Common.encode_to_bytes (initialize_beacon mib) >>= λ bs. Common.decode_from_bytes (bs ++ []))
    ≡ ok (record (initialize_beacon mib) { flags = 0 })
beacon_mobility_lost_example = beacon_mobility_lost mib []

-- 50 ms before the timestamp wraps, and 50 ms after.
tst_gt-stamp_example :
    (tst_gt (stamp 4294967346) (stamp 4294967246) ≡ true)
    × (tst_ge (stamp 4294967346) (stamp 4294967246) ≡ true)
    × (tst_gt (stamp 4294967246) (stamp 4294967346) ≡ false)
    × (tst_lt (stamp 4294967246) (stamp 4294967346) ≡ true)
    × (tst_le (stamp 4294967346) (stamp 4294967246) ≡ false)
tst_gt-stamp_example = tst_gt-stamp 4294967246 4294967346 (omega arith) (omega arith)

long_decode-encode_example :
    (long_encode barcelona >>= λ bs. long_decode (bs ++ 7 ∷ [])) ≡ ok barcelona
long_decode-encode_example = long_decode-encode barcelona (7 ∷ []) barcelona-IsValid

long_encode-negative_example : long_encode santiago ≡ err overflow_error
long_encode-negative_example = long_encode-negative santiago refl

abbrev tsb_header : TsbExtendedHeader
tsb_header = record { sn = 17; reserved = 0; so_pv = barcelona }

abbrev gbc_header : GbcExtendedHeader
gbc_header = record {
  sn = 17;
  reserved = 0;
  so_pv = barcelona;
  latitude = pos 413872756;
  longitude = pos 21122260;
  a = 1000;
  b = 500;
  angle = 45;
  reserved2 = 0;
}

gbc_decode-encode_example :
    (gbc_encode gbc_header >>= λ bs. gbc_decode (bs ++ 7 ∷ [])) ≡ ok gbc_header
gbc_decode-encode_example = gbc_decode-encode gbc_header (7 ∷ []) (record {
  sn = omega arith;
  reserved = omega arith;
  so_pv = barcelona-IsValid;
  latitude = (refl, omega arith);
  longitude = (refl, omega arith);
  a = omega arith;
  b = omega arith;
  angle = omega arith;
  reserved2 = omega arith;
})

abbrev guc_header : GucExtendedHeader
guc_header = record { sn = 17; reserved = 0; so_pv = barcelona; de_pv = near_barcelona }

abbrev ls_request_header : LsRequestExtendedHeader
ls_request_header = record { sn = 17; reserved = 0; so_pv = barcelona; request_gn_addr = roadside }

extended_decode-encode_example :
    ((tsb_encode tsb_header >>= λ bs. tsb_decode (bs ++ 7 ∷ [])) ≡ ok tsb_header)
    × (((guc_encode guc_header >>= λ bs. guc_decode (bs ++ 7 ∷ [])) ≡ ok guc_header)
        × ((ls_request_encode ls_request_header >>= λ bs. ls_request_decode (bs ++ 7 ∷ []))
            ≡ ok ls_request_header))
extended_decode-encode_example =
    extended_decode-encode tsb_header guc_header ls_request_header (7 ∷ [])
      (record { sn = omega arith; reserved = omega arith; so_pv = barcelona-IsValid })
      (record {
        sn = omega arith;
        reserved = omega arith;
        so_pv = barcelona-IsValid;
        de_pv = near_barcelona-IsValid;
      })
      (record {
        sn = omega arith;
        reserved = omega arith;
        so_pv = barcelona-IsValid;
        request_gn_addr = roadside-IsValid;
      })

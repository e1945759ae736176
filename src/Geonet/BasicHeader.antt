-- ===== src/Geonet/BasicHeader.antt =====
-- src/flexstack/geonet/basic_header.py: the packet lifetime and the Basic Header, 4 octets. Times
-- are whole milliseconds that are not negative; `value / 50 % 64` of the source is a division of
-- floats that `int` cuts, which for numbers below a million is the division of naturals.
pub mod Lifetime
pub mod RoundTrip
use flex_stack.Prelude.{
  ℕ, zero, suc, ◌*◌, ◌/◌, ◌%◌, ◌+◌, length, ltb, Option, none, some, Result, ok, err, value_error,
  decode_error, ◌>>=◌, if◌then◌else◌,
}
use flex_stack.Prelude.Bits.{◌<<◌, ◌>>>◌, ◌&◌, ◌¦◌}
use flex_stack.Bytes.{Bytes, to_bytes, from_bytes, slice}
use flex_stack.Geonet.Mib.{Mib}

pub data BasicNh : Type 0 where
  any common_header secured_packet : BasicNh

abbrev pub basic_nh_value : BasicNh → ℕ
basic_nh_value any = 0
basic_nh_value common_header = 1
basic_nh_value secured_packet = 2

-- `BasicNH(v)`
abbrev pub basic_nh_of_value : ℕ → Result BasicNh
basic_nh_of_value zero = ok any
basic_nh_of_value (suc zero) = ok common_header
basic_nh_of_value (suc (suc zero)) = ok secured_packet
basic_nh_of_value (suc (suc (suc v))) = err value_error

pub data LtBase : Type 0 where
  fifty_milliseconds one_second ten_seconds one_hundred_seconds : LtBase

abbrev pub lt_base_value : LtBase → ℕ
lt_base_value fifty_milliseconds = 0
lt_base_value one_second = 1
lt_base_value ten_seconds = 2
lt_base_value one_hundred_seconds = 3

-- `LTbase(v)`
abbrev pub lt_base_of_value : ℕ → Result LtBase
lt_base_of_value zero = ok fifty_milliseconds
lt_base_of_value (suc zero) = ok one_second
lt_base_of_value (suc (suc zero)) = ok ten_seconds
lt_base_of_value (suc (suc (suc zero))) = ok one_hundred_seconds
lt_base_of_value (suc (suc (suc (suc v)))) = err value_error

pub record Lt : Type 0 where
  pub multiplier : ℕ
  pub base : LtBase

abbrev pub lt_of : ℕ → LtBase → Lt
lt_of multiplier base = record { multiplier = multiplier; base = base }

unfoldable pub set_value_in_millis : ℕ → Lt
set_value_in_millis value =
    if ltb value 50
    then lt_of 0 fifty_milliseconds
    else if ltb value 100
    then lt_of 1 fifty_milliseconds
    else if ltb value 500
    then lt_of (value / 50 % 64) fifty_milliseconds
    else if ltb value 1000
    then lt_of 0 one_second
    else if ltb value 10000
    then lt_of (value / 1000 % 64) one_second
    else if ltb value 100000
    then lt_of (value / 10000 % 64) ten_seconds
    else if ltb value 1000000
    then lt_of (value / 100000 % 64) one_hundred_seconds
    else lt_of 0 one_hundred_seconds

unfoldable pub set_value_in_seconds : ℕ → Lt
unfolding set_value_in_millis
set_value_in_seconds value = set_value_in_millis (value * 1000)

unit_in_millis : LtBase → ℕ → ℕ
unit_in_millis fifty_milliseconds multiplier = multiplier * 50
unit_in_millis one_second multiplier = multiplier * 1000
unit_in_millis ten_seconds multiplier = multiplier * 10000
unit_in_millis one_hundred_seconds multiplier = multiplier * 100000

unfoldable pub get_value_in_millis : Lt → ℕ
unfolding unit_in_millis
get_value_in_millis lt = unit_in_millis lt.base lt.multiplier

unfoldable pub get_value_in_seconds : Lt → ℕ
unfolding get_value_in_millis
get_value_in_seconds lt = get_value_in_millis lt / 1000

unfoldable pub lt_encode_to_int : Lt → ℕ
lt_encode_to_int lt = lt.multiplier << 2 ¦ lt_base_value lt.base

pub record BasicHeader : Type 0 where
  pub version : ℕ
  pub nh : BasicNh
  pub reserved : ℕ
  pub lt : Lt
  pub rhl : ℕ

-- `initialize_with_mib_and_rhl`
unfoldable pub initialize_with_mib_and_rhl : Mib → ℕ → BasicHeader
unfolding set_value_in_seconds
initialize_with_mib_and_rhl mib rhl =
    let lt = set_value_in_seconds mib.its_gn_default_packet_lifetime in
    record { version = 1; nh = common_header; reserved = 0; lt = lt; rhl = rhl }

-- The lifetime of the request, in whole milliseconds where the source has `int(seconds * 1000)`.
abbrev pub request_lt : Mib → Option ℕ → Lt
request_lt mib none = set_value_in_seconds mib.its_gn_default_packet_lifetime
request_lt mib (some lifetime_millis) = set_value_in_millis lifetime_millis

unfoldable pub initialize_with_mib_request_and_rhl : Mib → Option ℕ → ℕ → BasicHeader
initialize_with_mib_request_and_rhl mib max_packet_lifetime rhl = record {
  version = 1;
  nh = common_header;
  reserved = 0;
  lt = request_lt mib max_packet_lifetime;
  rhl = rhl;
}

unfoldable pub initialize_with_mib : Mib → BasicHeader
unfolding set_value_in_seconds
initialize_with_mib mib = record {
  version = mib.its_gn_protocol_version;
  nh = common_header;
  reserved = 0;
  lt = set_value_in_seconds mib.its_gn_default_packet_lifetime;
  rhl = mib.its_gn_default_hop_limit;
}

unfoldable pub set_nh : BasicHeader → BasicNh → BasicHeader
set_nh h nh = record h { nh = nh }

unfoldable pub set_version : BasicHeader → ℕ → BasicHeader
set_version h version = record h { version = version }

unfoldable pub set_lt : BasicHeader → Lt → BasicHeader
set_lt h lt = record h { lt = lt }

unfoldable pub set_rhl : BasicHeader → ℕ → BasicHeader
set_rhl h rhl = record h { rhl = rhl % 256 }

unfoldable pub encode_to_int : BasicHeader → ℕ
unfolding lt_encode_to_int
encode_to_int h =
    h.version << (4 + 3 * 8)
    ¦ basic_nh_value h.nh << (0 + 3 * 8)
    ¦ h.reserved << (2 * 8)
    ¦ lt_encode_to_int h.lt << 8
    ¦ h.rhl

unfoldable pub encode_to_bytes : BasicHeader → Result Bytes
unfolding encode_to_int
encode_to_bytes h = to_bytes (encode_to_int h) 4

unfoldable pub decode_from_int : ℕ → Result BasicHeader
decode_from_int value = do
  let version = value >>> (4 + 3 * 8) & 0xF
  nh ← basic_nh_of_value (value >>> (0 + 3 * 8) & 0xF)
  let reserved = value >>> (2 * 8) & 0xFF
  let multiplier = value >>> 10 & 0x3F
  base ← lt_base_of_value (value >>> 8 & 0x03)
  let rhl = value & 0xFF
  ok (record {
    version = version;
    nh = nh;
    reserved = reserved;
    lt = lt_of multiplier base;
    rhl = rhl;
  })

unfoldable pub decode_from_bytes : Bytes → Result BasicHeader
unfolding decode_from_int
decode_from_bytes value =
    if ltb (length value) 4
    then err decode_error
    else decode_from_int (from_bytes (slice value 0 4))

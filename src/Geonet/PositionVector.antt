-- ===== src/Geonet/PositionVector.antt =====
-- src/flexstack/geonet/position_vector.py: timestamps modulo 2^32 and the long and short position
-- vectors. Coordinates, speed and heading are integers as the source keeps them; the conversions
-- from floats of `set_latitude` and its kin are not modelled.
pub mod Timestamp
pub mod Unsigned
pub mod Long
pub mod Short
use flex_stack.Prelude.{
  ℕ, ◌+◌, ◌-◌, ◌*◌, ◌/◌, ◌%◌, ◌^◌, Bool, true, false, not, ◌&&◌, ◌||◌, length, ltb, leb, ◌==◌, [],
  ◌∷◌, Result, ok, err, decode_error, ◌>>=◌, if◌then◌else◌,
}
use flex_stack.Prelude.Bits.{◌>>>◌, ◌&◌}
use flex_stack.Prelude.Int.{ℤ, pos, eq_ℤ, ◌<<ℤ◌, ◌¦ℤ◌}
use flex_stack.Bytes.{Bytes, to_bytes, to_bytes_ℤ, from_bytes, slice}
use flex_stack.Geonet.Address
use flex_stack.Geonet.Address.{GnAddress, gn_unicast, unknown}

pub record Tst : Type 0 where
  pub msec : ℕ

-- src/flexstack/utils/time_service.py
abbrev its_epoch_ms : ℕ
its_epoch_ms = 1072915200 * 1000

abbrev elapsed_milliseconds : ℕ
elapsed_milliseconds = 5 * 1000

-- Python's `%` is not negative. The multiple of 2^32 is more than the epoch.
unfoldable pub set_in_normal_timestamp_milliseconds : ℕ → Tst
set_in_normal_timestamp_milliseconds utc = record {
  msec = (utc + 250 * 2 ^ 32 - its_epoch_ms + elapsed_milliseconds) % 2 ^ 32;
}

-- At a whole number of seconds, as `refresh_table` calls it.
unfoldable pub set_in_normal_timestamp_seconds : ℕ → Tst
set_in_normal_timestamp_seconds utc = record {
  msec = (utc * 1000 + 250 * 2 ^ 32 - its_epoch_ms + elapsed_milliseconds) % 2 ^ 32;
}

unfoldable pub tst_encode : Tst → ℕ
tst_encode t = t.msec % 2 ^ 32

unfoldable pub tst_decode : ℕ → Tst
tst_decode n = record { msec = n % 2 ^ 32 }

unfoldable pub tst_eq : Tst → Tst → Bool
tst_eq s t = s.msec == t.msec

-- `s > t`
unfoldable pub tst_gt : Tst → Tst → Bool
tst_gt s t =
    ltb t.msec s.msec && leb (s.msec - t.msec) (2 ^ 31)
    || ltb s.msec t.msec && ltb (2 ^ 31) (t.msec - s.msec)

-- `s >= t`
unfoldable pub tst_ge : Tst → Tst → Bool
unfolding tst_eq tst_gt
tst_ge s t = tst_eq s t || tst_gt s t

-- `s < t`
unfoldable pub tst_lt : Tst → Tst → Bool
unfolding tst_ge
tst_lt s t = not (tst_ge s t)

-- `s <= t`
unfoldable pub tst_le : Tst → Tst → Bool
unfolding tst_gt
tst_le s t = not (tst_gt s t)

unfoldable pub tst_add : Tst → Tst → ℕ
tst_add s t = (s.msec + t.msec) % 2 ^ 32

unfoldable pub tst_sub : Tst → Tst → ℕ
tst_sub s t = if ltb s.msec t.msec then s.msec + 2 ^ 32 - t.msec else s.msec - t.msec

pub record LongPositionVector : Type 0 where
  pub gn_addr : GnAddress
  pub tst : Tst
  pub latitude : ℤ
  pub longitude : ℤ
  pub pai : Bool
  pub s : ℤ
  pub h : ℤ

abbrev pub default_long_position_vector : LongPositionVector
default_long_position_vector = record {
  gn_addr = record {
    m = gn_unicast;
    st = unknown;
    mid = record { mid = 0 ∷ 0 ∷ 0 ∷ 0 ∷ 0 ∷ 0 ∷ [] };
  };
  tst = record { msec = 0 };
  latitude = pos 0;
  longitude = pos 0;
  pai = false;
  s = pos 0;
  h = pos 0;
}

abbrev pub pai_bit : Bool → ℕ
pai_bit true = 1
pai_bit false = 0

-- The expression of `encode_to_int` over its seven fields.
pub pack_long : ℕ → ℕ → ℤ → ℤ → ℕ → ℤ → ℤ → ℤ
pack_long address tst latitude longitude pai s h =
    pos address <<ℤ (32 * 4)
    ¦ℤ pos tst <<ℤ (32 * 3)
    ¦ℤ latitude <<ℤ (32 * 2)
    ¦ℤ longitude <<ℤ 32
    ¦ℤ pos pai <<ℤ 31
    ¦ℤ s <<ℤ 16
    ¦ℤ h

unfoldable pub long_encode_to_int : LongPositionVector → ℤ
unfolding pack_long tst_encode
long_encode_to_int p =
    pack_long (Address.encode_to_int p.gn_addr) (tst_encode p.tst) p.latitude p.longitude
      (pai_bit p.pai) p.s p.h

unfoldable pub long_encode : LongPositionVector → Result Bytes
unfolding long_encode_to_int
long_encode p = to_bytes_ℤ (long_encode_to_int p) 24

-- `bool(n)` at one binary digit
abbrev truth_of_bit : ℕ → Bool
truth_of_bit n = not (n == 0)

unfoldable pub long_decode : Bytes → Result LongPositionVector
unfolding tst_decode
long_decode bs = if ltb (length bs) 24 then err decode_error else do
  let data_as_int = from_bytes (slice bs 0 24)
  address_bytes ← to_bytes (data_as_int >>> (32 * 4)) 8
  gn_addr ← Address.decode address_bytes
  ok (record {
    gn_addr = gn_addr;
    tst = tst_decode (data_as_int >>> (32 * 3));
    latitude = pos (data_as_int >>> (32 * 2) & 0xFFFFFFFF);
    longitude = pos (data_as_int >>> 32 & 0xFFFFFFFF);
    pai = truth_of_bit (data_as_int >>> 31 & 0x1);
    s = pos (data_as_int >>> 16 & 0x7FFF);
    h = pos (data_as_int & 0xFFFF);
  })

-- `__eq__` of the long position vector
unfoldable pub long_eq : LongPositionVector → LongPositionVector → Bool
unfolding tst_eq
long_eq p q =
    Address.eq p.gn_addr q.gn_addr
    && tst_eq p.tst q.tst
    && eq_ℤ p.latitude q.latitude
    && eq_ℤ p.longitude q.longitude
    && (pai_bit p.pai == pai_bit q.pai)
    && eq_ℤ p.s q.s
    && eq_ℤ p.h q.h

pub record ShortPositionVector : Type 0 where
  pub gn_addr : GnAddress
  pub tst : Tst
  pub latitude : ℤ
  pub longitude : ℤ

pub pack_short : ℕ → ℕ → ℤ → ℤ → ℤ
pack_short address tst latitude longitude =
    pos address <<ℤ (32 * 3) ¦ℤ pos tst <<ℤ (32 * 2) ¦ℤ latitude <<ℤ (32 * 1) ¦ℤ longitude

unfoldable pub short_encode_to_int : ShortPositionVector → ℤ
unfolding pack_short tst_encode
short_encode_to_int p =
    pack_short (Address.encode_to_int p.gn_addr) (tst_encode p.tst) p.latitude p.longitude

unfoldable pub short_encode : ShortPositionVector → Result Bytes
unfolding short_encode_to_int
short_encode p = to_bytes_ℤ (short_encode_to_int p) 20

unfoldable pub short_decode : Bytes → Result ShortPositionVector
unfolding tst_decode
short_decode bs = do
  let data_int = from_bytes bs
  address_bytes ← to_bytes (data_int >>> (32 * 3)) 8
  gn_addr ← Address.decode address_bytes
  ok (record {
    gn_addr = gn_addr;
    tst = tst_decode (data_int >>> (32 * 2));
    latitude = pos (data_int >>> (32 * 1) & 0xFFFFFFFF);
    longitude = pos (data_int & 0xFFFFFFFF);
  })

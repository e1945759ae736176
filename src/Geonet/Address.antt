-- ===== src/Geonet/Address.antt =====
-- src/flexstack/geonet/gn_address.py: the GeoNetworking address and its 8 octets on the wire.
pub mod RoundTrip
use flex_stack.Prelude.{
  ℕ, zero, suc, ◌*◌, Bool, true, false, List, [], ◌∷◌, ◌++◌, length, ltb, ◌==◌, Result, ok, err,
  value_error, decode_error, invalid_mid_length, ◌>>=◌, if◌then◌else◌, ◌&&◌,
}
use flex_stack.Prelude.Bits.{◌<<◌, ◌>>>◌, ◌&◌, ◌¦◌}
use flex_stack.Bytes.{Bytes, to_bytes, from_bytes, slice, first_byte}

pub data M : Type 0 where
  gn_unicast gn_multicast : M

abbrev pub m_value : M → ℕ
m_value gn_unicast = 0
m_value gn_multicast = 1

-- `M(v)`
abbrev pub m_of_value : ℕ → Result M
m_of_value zero = ok gn_unicast
m_of_value (suc zero) = ok gn_multicast
m_of_value (suc (suc v)) = err value_error

pub data St : Type 0 where
  unknown pedestrian cyclist moped motorcycle passenger_car bus light_truck heavy_truck : St
  trailer special_vehicle tram road_side_unit : St

abbrev pub st_value : St → ℕ
st_value unknown = 0
st_value pedestrian = 1
st_value cyclist = 2
st_value moped = 3
st_value motorcycle = 4
st_value passenger_car = 5
st_value bus = 6
st_value light_truck = 7
st_value heavy_truck = 8
st_value trailer = 9
st_value special_vehicle = 10
st_value tram = 11
st_value road_side_unit = 12

-- `ST(v)`
abbrev pub st_of_value : ℕ → Result St
st_of_value v =
    if v == 0
    then ok unknown
    else if v == 1
    then ok pedestrian
    else if v == 2
    then ok cyclist
    else if v == 3
    then ok moped
    else if v == 4
    then ok motorcycle
    else if v == 5
    then ok passenger_car
    else if v == 6
    then ok bus
    else if v == 7
    then ok light_truck
    else if v == 8
    then ok heavy_truck
    else if v == 9
    then ok trailer
    else if v == 10
    then ok special_vehicle
    else if v == 11
    then ok tram
    else if v == 12
    then ok road_side_unit
    else err value_error

-- A `MID` that exists has passed `mid_of_bytes`.
pub record Mid : Type 0 where
  pub mid : Bytes

-- `MID(mid)` with its `__post_init__`
abbrev pub mid_of_bytes : Bytes → Result Mid
mid_of_bytes bs = if length bs == 6 then ok (record { mid = bs }) else err invalid_mid_length

pub record GnAddress : Type 0 where
  pub m : M
  pub st : St
  pub mid : Mid

unfoldable pub set_m : GnAddress → M → GnAddress
set_m a m = record a { m = m }

unfoldable pub set_st : GnAddress → St → GnAddress
set_st a st = record a { st = st }

unfoldable pub set_mid : GnAddress → Mid → GnAddress
set_mid a mid = record a { mid = mid }

m_encode_to_address : M → ℕ
m_encode_to_address m = m_value m << 7 << (8 * 7)

st_encode_to_address : St → ℕ
st_encode_to_address st = st_value st << 2 << (8 * 7)

mid_encode_to_address : Mid → ℕ
mid_encode_to_address mid = from_bytes (0 ∷ 0 ∷ mid.mid)

unfoldable pub encode_to_int : GnAddress → ℕ
unfolding m_encode_to_address st_encode_to_address mid_encode_to_address
encode_to_int a = m_encode_to_address a.m ¦ st_encode_to_address a.st ¦ mid_encode_to_address a.mid

unfoldable pub encode : GnAddress → Result Bytes
unfolding m_encode_to_address st_encode_to_address mid_encode_to_address
encode a =
    to_bytes (m_encode_to_address a.m ¦ st_encode_to_address a.st ¦ mid_encode_to_address a.mid) 8

unfoldable pub decode : Bytes → Result GnAddress
decode bs = if ltb (length bs) 8 then err decode_error else do
  m ← m_of_value ((first_byte bs & 0x80) >>> 7)
  st ← st_of_value ((first_byte bs & 0x7C) >>> 2)
  mid ← mid_of_bytes (slice bs 2 8)
  ok (record { m = m; st = st; mid = mid })

abbrev pub eq_bytes : Bytes → Bytes → Bool
eq_bytes [] [] = true
eq_bytes [] (y ∷ ys) = false
eq_bytes (x ∷ xs) [] = false
eq_bytes (x ∷ xs) (y ∷ ys) = x == y && eq_bytes xs ys

-- `__eq__` compares the link-layer address alone.
unfoldable pub eq : GnAddress → GnAddress → Bool
eq a b = eq_bytes a.mid.mid b.mid.mid

-- ===== src/Geonet/Address/RoundTrip.antt =====
-- What `GNAddress.encode` writes, `GNAddress.decode` reads back.
use flex_stack.Prelude.{
  ℕ, ◌+◌, ◌*◌, ◌^◌, ◌≤◌, ◌<◌, ◌≡◌, refl, ap, ◌++◌, [], ◌∷◌, length, length-append, take-append,
  Result, ok, ◌>>=◌, ltb, lt→ltb, ◌==◌, true, false, arith,
}
use flex_stack.Prelude.Bits.{◌&◌, ◌>>>◌, or_fields}
use Prim.Native.Nat.{bit_or}
use mathlib.Core.List.{append-nil}
use flex_stack.Bytes.{Bytes, AreBytes, big_endian, to_bytes, from_bytes}
use flex_stack.Bytes.RoundTrip.{
  big_endian_fields, big_endian_two, big_endian-from_bytes, from_bytes-lt,
}
use flex_stack.Geonet.Address.{
  M, gn_unicast, gn_multicast, m_value, m_of_value, St, unknown, st_value, st_of_value, GnAddress,
  encode_to_int, encode, decode,
}

-- The `MID` of an address is what `MID(...)` accepts, and holds bytes.
pub record IsValid (a : GnAddress) : Type 0 where
  pub six : length a.mid.mid ≡ 6
  pub bytes : AreBytes a.mid.mid

abbrev wire_byte : M → St → ℕ
wire_byte m st = m_value m * 128 + st_value st * 4

st_value-lt : (st : St) → st_value st ≤ 12
st_value-lt unknown = omega arith
st_value-lt _ = omega arith

m_value-lt : (m : M) → m_value m ≤ 1
m_value-lt gn_unicast = omega arith
m_value-lt gn_multicast = omega arith

read_m : (m : M) (st : St) → m_of_value ((wire_byte m st & 0x80) >>> 7) ≡ ok m
read_m gn_unicast unknown = refl
read_m gn_multicast unknown = refl
read_m _ _ = refl

read_st : (m : M) (st : St) → st_of_value ((wire_byte m st & 0x7C) >>> 2) ≡ ok st
read_st gn_unicast unknown = refl
read_st gn_multicast unknown = refl
read_st _ _ = refl

module _ (a : GnAddress) (valid : IsValid a) where
  mid-lt : from_bytes a.mid.mid < 256 ^ 6
  mid-lt = rw valid.six at (from_bytes-lt a.mid.mid valid.bytes)

  pub encode_to_int-fields : encode_to_int a ≡ wire_byte a.m a.st * 256 ^ 7 + from_bytes a.mid.mid
  unfolding encode_to_int from_bytes
  encode_to_int-fields =
      let kinds =
        or_fields 63 (m_value a.m) (m_value a.m * 2 ^ 7 * 2 ^ 56) (st_value a.st * 2 ^ 2 * 2 ^ 56)
          (omega arith) (omega (arith, st_value-lt a.st)) in
      omega (
        arith,
        kinds,
        or_fields 56 (wire_byte a.m a.st)
            (bit_or (m_value a.m * 2 ^ 7 * 2 ^ 56) (st_value a.st * 2 ^ 2 * 2 ^ 56))
            (from_bytes a.mid.mid) (omega (arith, kinds)) (omega (arith, mid-lt)),
      )

  pub encode_to_int-lt : encode_to_int a < 2 ^ 64
  encode_to_int-lt = omega (arith, encode_to_int-fields, mid-lt, m_value-lt a.m, st_value-lt a.st)

  big_endian-encode : big_endian 8 (encode_to_int a) ≡ wire_byte a.m a.st ∷ 0 ∷ a.mid.mid
  big_endian-encode =
      rw (encode_to_int-fields, regroup)
        (rw (big_endian_fields 2 6 (wire_byte a.m a.st * 256) (from_bytes a.mid.mid) mid-lt)
          (rw (two_bytes, mid_bytes) refl))
    where
      regroup :
          wire_byte a.m a.st * 256 ^ 7 + from_bytes a.mid.mid
          ≡ wire_byte a.m a.st * 256 * 256 ^ 6 + from_bytes a.mid.mid
      regroup = omega arith

      two_bytes : big_endian 2 (wire_byte a.m a.st * 256) ≡ wire_byte a.m a.st ∷ 0 ∷ []
      two_bytes =
          rw
            (big_endian_two (wire_byte a.m a.st * 256)
              (omega (arith, m_value-lt a.m, st_value-lt a.st)))
            (ground arith)

      mid_bytes : big_endian 6 (from_bytes a.mid.mid) ≡ a.mid.mid
      mid_bytes = rw valid.six at (big_endian-from_bytes a.mid.mid valid.bytes)

  pub to_bytes-encode_to_int :
      to_bytes (encode_to_int a) 8 ≡ ok (wire_byte a.m a.st ∷ 0 ∷ a.mid.mid)
  unfolding to_bytes
  to_bytes-encode_to_int = rw (lt→ltb _ _ encode_to_int-lt) (ap ok big_endian-encode)

  pub encode_lem : encode a ≡ ok (wire_byte a.m a.st ∷ 0 ∷ a.mid.mid)
  unfolding encode encode_to_int
  encode_lem = to_bytes-encode_to_int

  pub decode_lem : (rest : Bytes) → decode (wire_byte a.m a.st ∷ 0 ∷ a.mid.mid ++ rest) ≡ ok a
  unfolding decode
  decode_lem rest =
      rw
        (
          long_enough,
          read_m a.m a.st,
          read_st a.m a.st,
          take-append 6 a.mid.mid rest valid.six,
          six_bytes,
        )
        refl
    where
      long_enough : ltb (length (wire_byte a.m a.st ∷ 0 ∷ a.mid.mid ++ rest)) 8 ≡ false
      long_enough = ground (arith, length-append a.mid.mid rest, valid.six)

      six_bytes : (length a.mid.mid == 6) ≡ true
      six_bytes = rw valid.six refl

  -- The position vectors carry an address as a number, and read it back by way of its octets.
  pub decode-encode_to_int {ℓ} :
      {B : Type ℓ} (read : GnAddress → Result B)
      → (to_bytes (encode_to_int a) 8 >>= λ bs. decode bs >>= read) ≡ read a
  decode-encode_to_int read = rw (to_bytes-encode_to_int, rw append-nil at (decode_lem []))

pub decode-big_endian : (a : GnAddress) → IsValid a → decode (big_endian 8 (encode_to_int a)) ≡ ok a
decode-big_endian a valid =
    rw (big_endian-encode a valid) (rw append-nil at (decode_lem a valid []))

-- An address whose link-layer address has six octets is encoded, and the octets, with whatever
-- follows them in the packet, decode to the same address.
pub address_decode-encode :
    (a : GnAddress) (rest : Bytes) → IsValid a → (encode a >>= λ bs. decode (bs ++ rest)) ≡ ok a
address_decode-encode a rest valid = rw (encode_lem a valid) (decode_lem a valid rest)

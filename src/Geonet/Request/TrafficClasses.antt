-- ===== src/Geonet/Request/TrafficClasses.antt =====
-- The octet of the traffic class.
use Prim.Native.Nat.{bit_or}
use flex_stack.Prelude.{ℕ, ◌+◌, ◌*◌, ◌/◌, ◌^◌, ◌≤◌, ◌<◌, ◌≡◌, refl, Bool, true, false, arith}
use flex_stack.Prelude.Bits.{◌&◌, ◌>>>◌, or_fields, and_mask}
use flex_stack.Geonet.Request.{TrafficClass, bit, truth, tc_encode_to_int, tc_decode_from_int}

pub bit-le : (b : Bool) → bit b ≤ 1
bit-le true = omega arith
bit-le false = omega arith

truth-bit : (b : Bool) → truth (bit b) ≡ b
truth-bit true = refl
truth-bit false = refl

module _ (tc : TrafficClass) (fits : tc.tc_id < 64) where
  pub tc_encode_to_int-fields :
      tc_encode_to_int tc ≡ bit tc.scf * 2 ^ 7 + bit tc.channel_offload * 2 ^ 6 + tc.tc_id
  unfolding tc_encode_to_int
  tc_encode_to_int-fields =
      let scf = bit tc.scf in
      let offload = bit tc.channel_offload in
      let first =
        or_fields 7 scf (scf * 2 ^ 7) (offload * 2 ^ 6) (omega arith)
          (omega (arith, bit-le tc.channel_offload)) in
      omega (
        arith,
        first,
        or_fields 6 (scf * 2 + offload) (bit_or (scf * 2 ^ 7) (offload * 2 ^ 6)) tc.tc_id
            (omega (arith, first)) (omega arith),
      )

  pub tc_encode_to_int-lt : tc_encode_to_int tc < 256
  tc_encode_to_int-lt =
      omega (arith, tc_encode_to_int-fields, fits, bit-le tc.scf, bit-le tc.channel_offload)

  -- A traffic class whose identifier fits six bits is what its octet decodes to.
  pub tc_decode-encode : tc_decode_from_int (tc_encode_to_int tc) ≡ tc
  unfolding tc_decode_from_int
  tc_decode-encode =
      rw (scf_digit, offload_digit, id_digits, truth-bit tc.scf, truth-bit tc.channel_offload)
    where
      n : ℕ
      n = tc_encode_to_int tc

      scf_digit : (n >>> 7 & 1) ≡ bit tc.scf
      scf_digit = omega (
        arith,
        tc_encode_to_int-fields,
        fits,
        bit-le tc.scf,
        bit-le tc.channel_offload,
        and_mask 1 (n / 2 ^ 7),
      )

      offload_digit : (n >>> 6 & 1) ≡ bit tc.channel_offload
      offload_digit = omega (
        arith,
        tc_encode_to_int-fields,
        fits,
        bit-le tc.scf,
        bit-le tc.channel_offload,
        and_mask 1 (n / 2 ^ 6),
      )

      id_digits : (n & 63) ≡ tc.tc_id
      id_digits = omega (arith, tc_encode_to_int-fields, fits, and_mask 6 n)

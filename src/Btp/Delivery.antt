-- ===== src/Btp/Delivery.antt =====
-- From a request to the callback: what the sender's `btp_data_request` hands down, carried in a
-- GeoNetworking indication, and what the receiver's router calls.
use Prim.Native.Nat.{bit_or}
use flex_stack.Prelude.{
  ℕ, ◌+◌, ◌*◌, ◌/◌, ◌%◌, ◌^◌, ◌<◌, ◌≡◌, refl, ap, ◌∙◌, List, [], ◌∷◌, length, Option, none, Result,
  ok, ◌>>=◌, arith,
}
use flex_stack.Prelude.Bits.{◌¦◌, ◌<<◌, or_fields}
use flex_stack.Bytes.{Bytes, big_endian, to_bytes, from_bytes}
use flex_stack.Bytes.RoundTrip.{big_endian_fields, big_endian_two}
use flex_stack.Geonet.ExtendedHeaders.Layout.{to_bytes-eq}
use flex_stack.Geonet.Request.{btp_a, btp_b, GnDataRequest, GnDataIndication}
use flex_stack.Geonet.PositionVector.{default_long_position_vector}
use flex_stack.Btp.{
  BtpDataRequest, BtpDataIndication, new_router, freeze_callbacks, btp_data_request,
  btp_data_indication, btp_a_data_indication, btp_b_data_indication, call_of,
}
use flex_stack.Btp.Ports.{last_for, register_all, register_all-open, port_get-ports_after}

-- The four octets of two port numbers.
abbrev port_octets : ℕ → ℕ → Bytes
port_octets a b = a / 256 ∷ a % 256 ∷ b / 256 ∷ b % 256 ∷ []

to_bytes-ports : (a b : ℕ) → a < 65536 → b < 65536 → to_bytes (a << 16 ¦ b) 4 ≡ ok (port_octets a b)
to_bytes-ports a b ha hb =
    rw together (to_bytes-eq (a * 256 ^ 2 + b) 4 (omega arith) ∙ ap ok octets)
  where
    octets : big_endian 4 (a * 256 ^ 2 + b) ≡ port_octets a b
    octets = big_endian_fields 2 2 a b hb ∙ rw (big_endian_two a ha, big_endian_two b hb)

    together : bit_or (a * 2 ^ 16) b ≡ a * 256 ^ 2 + b
    together = omega (arith, or_fields 16 a (a * 2 ^ 16) b (omega arith) (omega arith))

from_bytes-two : (n : ℕ) → n < 65536 → from_bytes (n / 256 ∷ n % 256 ∷ []) ≡ n
unfolding from_bytes
from_bytes-two n h = omega arith

module _ (request : BtpDataRequest) where
  -- What the receiver is told, where a GeoNetworking indication `carrier` has brought the octets.
  abbrev pub carried : GnDataIndication → GnDataRequest → GnDataIndication
  carried carrier gn = record carrier {
    upper_protocol_entity = gn.upper_protocol_entity;
    payload = gn.payload;
  }

  abbrev pub told : GnDataIndication → ℕ → ℕ → BtpDataIndication
  told carrier source_port info = record {
    source_port = source_port;
    destination_port = request.destination_port;
    destination_port_info = info;
    gn_packet_transport_type = carrier.packet_transport_type;
    gn_destination_address = default_long_position_vector.gn_addr;
    gn_source_position_vector = carrier.source_position_vector;
    gn_traffic_class = carrier.traffic_class;
    length = length request.payload;
    payload = request.payload;
  }

  module _ {ℓ} (Callback : Type ℓ) where
    -- The receiver registers its callbacks, freezes them, and gets the packet.
    unfoldable pub deliver :
        List (ℕ × Callback) → GnDataIndication → Result (Option (Callback × BtpDataIndication))
    deliver registrations carrier = do
      r ← register_all Callback registrations (new_router Callback)
      gn ← btp_data_request request
      btp_data_indication Callback (carried carrier gn) (freeze_callbacks Callback r)

    -- A BTP-B packet whose ports fit 16 bits calls the callback that was registered last for its
    -- destination port, or none, with the sender's payload, port and port information.
    pub deliver-btp_b :
        (registrations : List (ℕ × Callback)) (carrier : GnDataIndication)
        → request.btp_type ≡ btp_b
        → request.destination_port < 65536
        → request.destination_port_info < 65536
        → deliver registrations carrier
          ≡ ok (
              call_of Callback
                (told carrier 0 request.destination_port_info)
                (last_for request.destination_port registrations none))
    unfolding deliver new_router btp_data_request freeze_callbacks btp_data_indication
        btp_b_data_indication
    deliver-btp_b registrations carrier b fits info_fits =
        rw
          (
            register_all-open Callback registrations [],
            b,
            to_bytes-ports request.destination_port request.destination_port_info fits info_fits,
            from_bytes-two request.destination_port fits,
            from_bytes-two request.destination_port_info info_fits,
            port_get-ports_after Callback request.destination_port registrations [],
          )
          refl

    -- A BTP-A packet whose ports fit 16 bits calls the callback that was registered last for its
    -- destination port, or none, with the sender's payload and both ports.
    pub deliver-btp_a :
        (registrations : List (ℕ × Callback)) (carrier : GnDataIndication)
        → request.btp_type ≡ btp_a
        → request.destination_port < 65536
        → request.source_port < 65536
        → deliver registrations carrier
          ≡ ok (
              call_of Callback
                (told carrier request.source_port 0)
                (last_for request.destination_port registrations none))
    unfolding deliver new_router btp_data_request freeze_callbacks btp_data_indication
        btp_a_data_indication
    deliver-btp_a registrations carrier a fits source_fits =
        rw
          (
            register_all-open Callback registrations [],
            a,
            to_bytes-ports request.destination_port request.source_port fits source_fits,
            from_bytes-two request.destination_port fits,
            from_bytes-two request.source_port source_fits,
            port_get-ports_after Callback request.destination_port registrations [],
          )
          refl

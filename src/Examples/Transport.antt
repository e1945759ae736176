-- ===== src/Examples/Transport.antt =====
-- The transport protocol's theorems at concrete arguments.
use flex_stack.Prelude.{ℕ, ◌≡◌, refl, List, [], ◌∷◌, none, ok, arith}
use flex_stack.Geonet.Request
use flex_stack.Geonet.Request.{GnDataIndication}
use flex_stack.Btp.{BtpDataRequest, call_of}
use flex_stack.Btp.Ports.{last_for}
use flex_stack.Btp.Delivery.{deliver, told, deliver-btp_b}
use flex_stack.Examples.{roadside, barcelona, best_effort, warning_request}

abbrev awareness_request : BtpDataRequest
awareness_request = record {
  btp_type = Request.btp_b;
  source_port = 0;
  destination_port = 2001;
  destination_port_info = 3;
  gn_packet_transport_type = warning_request.packet_transport_type;
  gn_destination_address = roadside;
  gn_area = warning_request.area;
  gn_max_hop_limit = 1;
  gn_max_packet_lifetime = none;
  traffic_class = best_effort;
  security_profile = Request.no_security;
  its_aid = 36;
  security_permissions = [];
  payload = 9 ∷ 8 ∷ 7 ∷ [];
}

abbrev interactive_request : BtpDataRequest
interactive_request = record awareness_request { btp_type = Request.btp_a; source_port = 5000 }

abbrev carrier : GnDataIndication
carrier = record {
  upper_protocol_entity = Request.any;
  packet_transport_type = warning_request.packet_transport_type;
  destination_area = none;
  source_position_vector = barcelona;
  traffic_class = best_effort;
  remaining_packet_lifetime = none;
  remaining_hop_limit = none;
  length = 7;
  payload = [];
}

-- Callbacks are told apart by numbers.
abbrev registrations : List (ℕ × ℕ)
registrations = (2001, 1) ∷ (2002, 2) ∷ (2001, 3) ∷ []

deliver-btp_b_example :
    deliver awareness_request ℕ registrations carrier
    ≡ ok (call_of ℕ (told awareness_request carrier 0 3) (last_for 2001 registrations none))
deliver-btp_b_example =
    deliver-btp_b awareness_request ℕ registrations carrier refl (omega arith) (omega arith)

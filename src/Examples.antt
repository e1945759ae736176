-- ===== src/Examples.antt =====
-- Concrete values of the code's types, and each theorem that has hypotheses at concrete arguments.
mod Headers
mod Table
mod Area
mod Exchange
mod Reception
mod Clustering
mod Congestion
mod Map
mod Transport
use flex_stack.Prelude.{ℕ, ◌+◌, ◌-◌, ◌*◌, ◌/◌, true, false, none, [], ◌∷◌, ltb, leb}
use flex_stack.Prelude.Int.{ℤ, pos, negsuc, pos_part}
use flex_stack.Floats.{Floats, Trig}
use flex_stack.Bytes.{from_bytes}
use flex_stack.Geonet.Address.{GnAddress, gn_unicast, passenger_car, road_side_unit}
use flex_stack.Geonet.Mib
use flex_stack.Geonet.Mib.{Mib}
use flex_stack.Geonet.PositionVector.{LongPositionVector, ShortPositionVector}
use flex_stack.Geonet.Request.{TrafficClass, GnDataRequest}
use flex_stack.Geonet.Request

abbrev pub car : GnAddress
car = record {
  m = gn_unicast;
  st = passenger_car;
  mid = record { mid = 2 ∷ 0 ∷ 0 ∷ 0 ∷ 0 ∷ 1 ∷ [] };
}

abbrev pub roadside : GnAddress
roadside = record {
  m = gn_unicast;
  st = road_side_unit;
  mid = record { mid = 2 ∷ 0 ∷ 0 ∷ 0 ∷ 0 ∷ 2 ∷ [] };
}

abbrev pub barcelona : LongPositionVector
barcelona = record {
  gn_addr = car;
  tst = record { msec = 4000000000 };
  latitude = pos 413872756;
  longitude = pos 21122260;
  pai = true;
  s = pos 1389;
  h = pos 900;
}

abbrev pub santiago : LongPositionVector
santiago = record barcelona { latitude = negsuc 334489999; longitude = negsuc 706692999 }

abbrev pub near_barcelona : ShortPositionVector
near_barcelona = record {
  gn_addr = roadside;
  tst = record { msec = 4000000001 };
  latitude = pos 413872000;
  longitude = pos 21122000;
}

abbrev pub best_effort : TrafficClass
best_effort = record { scf = true; channel_offload = false; tc_id = 2 }

abbrev pub mib : Mib
mib = record {
  its_gn_local_gn_addr = roadside;
  its_gn_protocol_version = 1;
  its_gn_is_mobile = Mib.mobile;
  its_gn_lifetime_loc_te = 20;
  its_gn_security = Mib.disabled;
  its_gn_default_hop_limit = 10;
  its_gn_dpl_length = 8;
  its_gn_default_packet_lifetime = 60;
  its_gn_max_packet_data_rate = 100;
  its_gn_max_packet_data_rate_ema_beta = 90;
  its_gn_area_forwarding_algorithm = Mib.cbf;
  its_gn_max_geo_area_size = 10;
  its_gn_cbf_min_time = 1;
  its_gn_cbf_max_time = 100;
  its_gn_default_max_communication_range = 1000;
  its_gn_location_service_max_retrans = 2;
}

abbrev pub warning_request : GnDataRequest
warning_request = record {
  upper_protocol_entity = Request.btp_b;
  packet_transport_type = record {
    header_type = Request.geobroadcast;
    header_subtype = Request.geobroadcast_circle;
  };
  security_profile = Request.no_security;
  its_aid = 37;
  security_permissions = [];
  traffic_class = best_effort;
  length = 3;
  payload = 1 ∷ 2 ∷ 3 ∷ [];
  area = record { latitude = pos 413872756; longitude = pos 21122260; a = 1000; b = 0; angle = 0 };
  max_hop_limit = 10;
  max_packet_lifetime = none;
  destination = none;
}

-- Whole numbers in the place of floats.
abbrev pub whole : Floats
whole = record {
  Float = ℕ;
  of_int = λ n. n;
  fadd = ◌+◌;
  fsub = ◌-◌;
  fmul = ◌*◌;
  fdiv = ◌/◌;
  flt = ltb;
}

abbrev pub hash : GnAddress → ℕ
hash a = from_bytes a.mid.mid

-- Whole numbers for trigonometry, as if the earth were a square.
abbrev pub flat : Trig whole
flat = record {
  of_ℤ = pos_part;
  pi = 3;
  radians = λ x. x;
  sin = λ x. x;
  cos = λ x. 1;
  square = λ x. x * x;
  sqrt = λ x. x;
  atan2 = λ y x. y;
  fle = leb;
}

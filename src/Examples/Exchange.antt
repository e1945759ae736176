-- ===== src/Examples/Exchange.antt =====
-- The theorems on packets from one router to another at concrete arguments.
use flex_stack.Prelude.{◌≡◌, refl, [], ◌∷◌, ◌++◌, false, none, some, ok, arith}
use flex_stack.Bytes.{Bytes, slice, from_bytes, to_bytes}
use flex_stack.Geonet.Address
use flex_stack.Geonet.Request
use flex_stack.Geonet.Request.{GnDataRequest}
use flex_stack.Geonet.PositionVector.{long_decode}
use flex_stack.Geonet.ExtendedHeaders.{LsRequestExtendedHeader, ls_request_decode}
use flex_stack.Geonet.Router.Geo.{Link}
use flex_stack.Geonet.Router.LocationService as Service
use flex_stack.Geonet.Router.Requests.{gn_data_request}
use flex_stack.Geonet.Router.Indications.{gn_data_indicate, gn_data_indicate_ls_request}
use flex_stack.Geonet.Router.Indications.SingleHop.{heard, gn_data_indicate-gn_data_request}
use flex_stack.Geonet.Router.Indications.Locating.{Located, gn_data_indicate_ls_request-sent}
use flex_stack.Examples.{roadside, barcelona, whole, flat, hash, warning_request}
use flex_stack.Examples.Table.{table, basic_header, origin, sixteen_zeros}
use flex_stack.Examples.Area.{warning_header, basic_header-IsValid}
use flex_stack.Examples.Headers.{barcelona-IsValid}

-- A link layer that sends everything.
abbrev open_air : Link
open_air bs = ok tt

-- The roadside station, which knows the car, and the car.
abbrev station : Service.Router whole
station = record {
  node = record { ego_position_vector = origin; location_table = table; cbf_buffer = [] };
  sequence_number = 17;
  beacon_reset_event = some false;
  ls_timers = [];
  ls_retransmit_counters = [];
  ls_packet_buffers = [];
}

abbrev vehicle : Service.Router whole
vehicle = record station { node = record station.node { ego_position_vector = barcelona } }

abbrev awareness_request : GnDataRequest
awareness_request = record warning_request {
  packet_transport_type = record { header_type = Request.tsb; header_subtype = Request.single_hop };
}

gn_data_indicate-gn_data_request_example :
    (bs : Bytes) × ((gn_data_request whole hash open_air flat none awareness_request vehicle).sent
      ≡ bs ∷ [])
    × (let a = gn_data_indicate whole hash open_air flat none 1700000000 bs station in
        (a.sent ≡ [])
        × (a.answer ≡ ok (some (heard whole hash open_air flat awareness_request vehicle))))
unfolding Address.eq
gn_data_indicate-gn_data_request_example =
    gn_data_indicate-gn_data_request whole hash open_air flat none none 1700000000 awareness_request
      vehicle station
      (record { header_type = refl; header_subtype = refl; tc_id = omega arith; pl = omega arith })
      barcelona-IsValid refl refl refl refl

-- The car looks for the roadside station.
abbrev search : LsRequestExtendedHeader
search = record { sn = 5; reserved = 0; so_pv = origin; request_gn_addr = roadside }

abbrev search_octets : Bytes
search_octets =
    0 ∷ 5 ∷ 0 ∷ 0 ∷ 20 ∷ 0 ∷ 2 ∷ 0 ∷ 0 ∷ 0 ∷ 0 ∷ 1 ∷ sixteen_zeros
    ++ 48 ∷ 0 ∷ 2 ∷ 0 ∷ 0 ∷ 0 ∷ 0 ∷ 2 ∷ []

search_decoded : ls_request_decode (slice search_octets 0 36) ≡ ok search
unfolding ls_request_decode long_decode from_bytes to_bytes Address.decode
search_decoded = refl

gn_data_indicate_ls_request-sent_example :
    Located whole hash open_air flat basic_header roadside roadside (
      gn_data_indicate_ls_request whole hash open_air flat 1700000000 search_octets warning_header
        basic_header station)
gn_data_indicate_ls_request-sent_example =
    gn_data_indicate_ls_request-sent whole hash open_air flat 1700000000 search_octets
      warning_header basic_header search station basic_header-IsValid search_decoded

-- ===== src/Examples/Area.antt =====
-- The theorems on packets for an area, and on GeoUnicast packets, at concrete arguments.
use flex_stack.Prelude.{ℕ, ◌≡◌, ◌||◌, refl, inr, ◌⊎◌, [], ◌∷◌, ◌++◌, true, false, none, ok, arith}
use flex_stack.Prelude.Int.{pos}
use flex_stack.Bytes.{Bytes, slice, from_bytes, to_bytes, to_bytes_ℤ}
use flex_stack.Geonet.BasicHeader as Basic
use flex_stack.Geonet.CommonHeader as Common
use flex_stack.Geonet.ExtendedHeaders.{gbc_encode}
use flex_stack.Geonet.PositionVector.{long_encode}
use flex_stack.Geonet.Router.Area.{is_waiting, gbc_packet, gn_area_cbf_forwarding, cbf_timeout}
use flex_stack.Geonet.Router.Area.Contention.{gn_area_cbf_forwarding-once}
use flex_stack.Geonet.Address
use flex_stack.Geonet.Request.{tc_encode_to_int}
use flex_stack.Geonet.BasicHeader.{BasicHeader, set_rhl}
use flex_stack.Geonet.BasicHeader.RoundTrip.{IsValid}
use flex_stack.Geonet.CommonHeader.{CommonHeader, initialize_with_request}
use flex_stack.Geonet.PositionVector.{long_decode}
use flex_stack.Geonet.ExtendedHeaders.{GbcExtendedHeader, gbc_decode}
use flex_stack.Geonet.LocationTable.{new_gac_packet, refresh_table, get_entry, get_neighbours}
use flex_stack.Geonet.Geometry.{distance_m, gn_geometric_function_f, calculate_distance}
use flex_stack.Geonet.Router.Area.{Node, gn_greedy_forwarding}
use flex_stack.Geonet.Router.Area.Greedy.{any_nearer, gn_greedy_forwarding-nearer}
use flex_stack.Geonet.Router.Geo.{lower, too_large, Link, stop, area_of, gn_data_indicate_gbc}
use flex_stack.Geonet.Router.Geo.Sent.{SendsWith, SendsLower, gn_data_indicate_gbc-sent}
use flex_stack.Geonet.Router.Geo.Dropped.{gn_data_indicate_gbc-dropped}
use flex_stack.Geonet.Router.Anycast.{
  gac_known, gac_received, unless_inside, gac_forward, gn_data_indicate_gac, gn_data_indicate_guc,
}
use flex_stack.Geonet.Router.Anycast.Hops.{SendAlike, gn_data_indicate_gac_alike}
use flex_stack.Geonet.Router.Anycast.Sent.{delivers, gn_data_indicate_gac-sent}
use flex_stack.Geonet.Router.Anycast.Unicast.{gn_data_indicate_guc-sent}
use flex_stack.Geonet.Entry.{check_duplicate_sn, check_sn, update_pv_and_pdr}
use flex_stack.Geonet.PositionVector.{tst_sub, tst_gt, set_in_normal_timestamp_seconds}
use flex_stack.Geonet.Router.{duplicate_address_detection}
use flex_stack.Geonet.Router.LocationService
use flex_stack.Geonet.Router.LocationService.{is_pending, gn_ls_request}
use flex_stack.Geonet.Router.LocationService.Unanswered.{fires, gn_ls_request-ends}
use flex_stack.Prelude.{length, ◌≤◌, some, ltb, List}
use flex_stack.Floats.{Trig}
use flex_stack.Geonet.Request.{GnDataRequest}
use flex_stack.Examples.{
  barcelona, best_effort, roadside, car, whole, flat, hash, mib, warning_request,
}
use flex_stack.Examples.Table.{table, car_entry, basic_header, origin, sixteen_zeros}

-- A link layer that sends everything.
abbrev air : Link
air bs = ok tt

abbrev here : Node whole
here = record { ego_position_vector = origin; location_table = table; cbf_buffer = [] }

abbrev pub warning_header : CommonHeader
warning_header = initialize_with_request warning_request mib

-- The header of a circle about the place of latitude and longitude 0 with the radius, from the car.
abbrev circle : ℕ → GbcExtendedHeader
circle radius = record {
  sn = 5;
  reserved = 0;
  so_pv = origin;
  latitude = pos 0;
  longitude = pos 0;
  a = radius;
  b = 0;
  angle = 0;
  reserved2 = 0;
}

abbrev area_packet : ℕ → Bytes
area_packet radius =
    0 ∷ 5 ∷ 0 ∷ 0 ∷ 20 ∷ 0 ∷ 2 ∷ 0 ∷ 0 ∷ 0 ∷ 0 ∷ 1 ∷ sixteen_zeros
    ++ 0 ∷ 0 ∷ 0 ∷ 0 ∷ 0 ∷ 0 ∷ 0 ∷ 0 ∷ 0 ∷ radius ∷ 0 ∷ 0 ∷ 0 ∷ 0 ∷ 0 ∷ 0 ∷ 1 ∷ 2 ∷ []

pub basic_header-IsValid : IsValid basic_header
basic_header-IsValid = record {
  version = omega arith;
  reserved = omega arith;
  multiplier = omega arith;
  rhl = omega arith;
}

area_packet_decoded : gbc_decode (slice (area_packet 100) 0 44) ≡ ok (circle 100)
unfolding gbc_decode long_decode from_bytes Address.decode to_bytes
area_packet_decoded = refl

flat_packet_decoded : gbc_decode (slice (area_packet 0) 0 44) ≡ ok (circle 0)
unfolding gbc_decode long_decode from_bytes Address.decode to_bytes
flat_packet_decoded = refl

gn_greedy_forwarding-nearer_example : gn_greedy_forwarding whole flat (pos 5) (pos 7) true here ≡ (
    any_nearer whole flat
      (pos 5)
      (pos 7)
      (distance_m whole flat (pos 5) (pos 7) (pos 0) (pos 0))
      (get_neighbours whole table)
    || false)
gn_greedy_forwarding-nearer_example =
    gn_greedy_forwarding-nearer whole flat (pos 5) (pos 7) true here

gn_data_indicate_gbc-sent_example :
    SendsLower whole flat hash air basic_header
      (gn_data_indicate_gbc whole flat hash air 1700000000
        (area_packet 100)
        warning_header
        basic_header
        here).sent
gn_data_indicate_gbc-sent_example =
    gn_data_indicate_gbc-sent whole flat hash air 1700000000 (area_packet 100) warning_header
      basic_header here basic_header-IsValid

-- A place is inside of an area only if the area's function is not 0 there.
abbrev strict : Trig whole
strict = record flat { fle = ltb }

-- A router far from the circle, and a packet that it may send on without a neighbour.
abbrev away : Node whole
away = record here { ego_position_vector = barcelona }

abbrev immediate_header : CommonHeader
immediate_header = record warning_header { tc = record best_effort { scf = false } }

abbrev area_packet_six : Bytes
area_packet_six =
    0 ∷ 6 ∷ 0 ∷ 0 ∷ 20 ∷ 0 ∷ 2 ∷ 0 ∷ 0 ∷ 0 ∷ 0 ∷ 1 ∷ sixteen_zeros
    ++ 0 ∷ 0 ∷ 0 ∷ 0 ∷ 0 ∷ 0 ∷ 0 ∷ 0 ∷ 0 ∷ 100 ∷ 0 ∷ 0 ∷ 0 ∷ 0 ∷ 0 ∷ 0 ∷ 1 ∷ 2 ∷ []

abbrev sent_on : BasicHeader → List Bytes
sent_on b =
    (gn_data_indicate_gac whole strict hash air 1700000000 area_packet_six immediate_header b
      away).sent

gn_data_indicate_gac-sent_example :
    SendsWith (set_rhl basic_header 264) (sent_on basic_header)
    × ((sent_on basic_header ≡ [])
        ⊎ (delivers
              (gn_data_indicate_gac whole strict hash air 1700000000 area_packet_six
                immediate_header basic_header away).answer
            ≡ false))
gn_data_indicate_gac-sent_example =
    gn_data_indicate_gac-sent whole strict hash air 1700000000 area_packet_six immediate_header
      basic_header away basic_header-IsValid

no_hops-IsValid : IsValid (set_rhl basic_header 0)
unfolding set_rhl
no_hops-IsValid = record {
  version = omega arith;
  reserved = omega arith;
  multiplier = omega arith;
  rhl = omega arith;
}

-- The packet with a hop limit of 0 is sent on.
no_hops-sent : length (sent_on (set_rhl basic_header 0)) ≡ 1
unfolding gn_data_indicate_gac gbc_decode long_decode from_bytes Address.decode to_bytes gac_known
    duplicate_address_detection Address.eq gn_geometric_function_f calculate_distance
    initialize_with_request gac_received unless_inside gac_forward lower set_rhl
    gn_greedy_forwarding gbc_packet Basic.encode_to_bytes Common.encode_to_bytes gbc_encode
    long_encode tc_encode_to_int to_bytes_ℤ Address.encode_to_int get_entry get_neighbours
    new_gac_packet too_large check_duplicate_sn check_sn refresh_table tst_sub
    set_in_normal_timestamp_seconds update_pv_and_pdr tst_gt
no_hops-sent = refl

gn_data_indicate_gac_alike_example :
    SendAlike
      (set_rhl basic_header 264)
      (set_rhl basic_header 255)
      (sent_on basic_header)
      (sent_on (set_rhl basic_header 0))
unfolding set_rhl
gn_data_indicate_gac_alike_example =
    gn_data_indicate_gac_alike whole strict hash air 1700000000 area_packet_six immediate_header
      basic_header (set_rhl basic_header 0) away basic_header-IsValid no_hops-IsValid refl refl

gn_data_indicate_guc-sent_example :
    SendsLower whole flat hash air basic_header
      (gn_data_indicate_guc whole flat hash air 1700000000
        (area_packet 100 ++ area_packet 0)
        warning_header
        basic_header
        here).sent
    × (((gn_data_indicate_guc whole flat hash air 1700000000
            (area_packet 100 ++ area_packet 0)
            warning_header
            basic_header
            here).sent
          ≡ [])
        ⊎ (delivers
              (gn_data_indicate_guc whole flat hash air 1700000000
                (area_packet 100 ++ area_packet 0)
                warning_header
                basic_header
                here).answer
            ≡ false))
gn_data_indicate_guc-sent_example =
    gn_data_indicate_guc-sent whole flat hash air 1700000000 (area_packet 100 ++ area_packet 0)
      warning_header basic_header here basic_header-IsValid

warning_inside :
    gn_geometric_function_f whole flat warning_header.hst (area_of (circle 100)) (pos 0) (pos 0)
    ≡ ok 1
unfolding gn_geometric_function_f calculate_distance initialize_with_request
warning_inside = refl

gn_data_indicate_gbc-dropped_example :
    gn_data_indicate_gbc whole flat hash air 1700000000
      (area_packet 100)
      warning_header
      basic_header
      here
    ≡ stop whole here (ok none)
unfolding get_entry from_bytes Address.eq
gn_data_indicate_gbc-dropped_example =
    gn_data_indicate_gbc-dropped whole flat hash air 1700000000 (area_packet 100) warning_header
      basic_header here (circle 100) 1 area_packet_decoded warning_inside
      (inr (car_entry, refl, refl))

-- The octets of the packet with its headers.
abbrev whole_packet : Bytes
whole_packet = 17 ∷ 0 ∷ 241 ∷ 9 ∷ 32 ∷ 64 ∷ 130 ∷ 128 ∷ 0 ∷ 3 ∷ 10 ∷ 0 ∷ area_packet 100

whole_packet_encoded :
    gbc_packet whole flat hash basic_header warning_header (circle 100) (1 ∷ 2 ∷ [])
    ≡ ok whole_packet
unfolding gbc_packet Basic.encode_to_bytes Common.encode_to_bytes gbc_encode long_encode to_bytes
    initialize_with_request tc_encode_to_int to_bytes_ℤ Address.encode_to_int from_bytes
whole_packet_encoded = refl

gn_area_cbf_forwarding-once_example :
    (cbf_timeout whole flat hash
        (car, 5)
        whole_packet
        (gn_area_cbf_forwarding whole flat hash basic_header warning_header
          (circle 100)
          (1 ∷ 2 ∷ [])
          here).1
      ≡ (whole_packet ∷ [], here))
    × (cbf_timeout whole flat hash
          (car, 5)
          whole_packet
          (gn_area_cbf_forwarding whole flat hash
            (set_rhl basic_header 7)
            warning_header
            (circle 100)
            (1 ∷ 2 ∷ [])
            (gn_area_cbf_forwarding whole flat hash basic_header warning_header
              (circle 100)
              (1 ∷ 2 ∷ [])
              here).1).1
        ≡ ([], here))
unfolding is_waiting
gn_area_cbf_forwarding-once_example =
    gn_area_cbf_forwarding-once whole flat hash basic_header (set_rhl basic_header 7) warning_header
      warning_header (circle 100) (1 ∷ 2 ∷ []) (1 ∷ 2 ∷ []) whole_packet here refl
      whole_packet_encoded

-- A router that knows the car alone, and a request to the roadside station.
abbrev router : LocationService.Router whole
router = record {
  node = here;
  sequence_number = 17;
  beacon_reset_event = none;
  ls_timers = [];
  ls_retransmit_counters = [];
  ls_packet_buffers = [];
}

abbrev call_request : GnDataRequest
call_request = record warning_request { destination = some roadside }

roadside_idle : is_pending whole hash air (get_entry whole hash roadside table) ≡ false
unfolding get_entry from_bytes Address.eq
roadside_idle = refl

gn_ls_request-ends_example :
    let s = gn_ls_request whole hash air roadside (some call_request) router in
    (length (s.sent ++ (fires whole hash air 3 roadside s.router).0) ≤ 3)
    × ((fires whole hash air 3 roadside s.router).1.ls_packet_buffers ≡ [])
gn_ls_request-ends_example =
    gn_ls_request-ends whole hash air roadside (some call_request) router roadside_idle refl

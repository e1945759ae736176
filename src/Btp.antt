-- ===== src/Btp.antt =====
-- The Basic Transport Protocol: src/flexstack/btp/btp_header.py, the primitives of
-- src/flexstack/btp/service_access_point.py and the router of src/flexstack/btp/router.py.
pub mod Ports
pub mod Delivery
use flex_stack.Prelude.{
  ℕ, List, [], ◌∷◌, ◌++◌, length, drop, ◌==◌, Option, none, some, Result, ok, err, value_error,
  runtime_error, ◌>>=◌, if◌then◌else◌,
}
use flex_stack.Prelude.Bits.{◌<<◌, ◌¦◌}
use flex_stack.Bytes.{Bytes, to_bytes, from_bytes, slice}
use flex_stack.Geonet.Address.{GnAddress}
use flex_stack.Geonet.PositionVector.{LongPositionVector, default_long_position_vector}
use flex_stack.Geonet.Request.{
  CommonNh, any, btp_a, btp_b, ipv6, PacketTransportType, Area, SecurityProfile, TrafficClass,
  GnDataRequest, GnDataIndication,
}

pub record BtpAHeader : Type 0 where
  pub destination_port : ℕ
  pub source_port : ℕ

pub record BtpBHeader : Type 0 where
  pub destination_port : ℕ
  pub destination_port_info : ℕ

unfoldable pub btp_a_encode : BtpAHeader → Result Bytes
btp_a_encode h = to_bytes (h.destination_port << 16 ¦ h.source_port) 4

unfoldable pub btp_b_encode : BtpBHeader → Result Bytes
btp_b_encode h = to_bytes (h.destination_port << 16 ¦ h.destination_port_info) 4

-- The length of the octets is not tested.
unfoldable pub btp_a_decode : Bytes → BtpAHeader
btp_a_decode bs = record {
  destination_port = from_bytes (slice bs 0 2);
  source_port = from_bytes (slice bs 2 4);
}

unfoldable pub btp_b_decode : Bytes → BtpBHeader
btp_b_decode bs = record {
  destination_port = from_bytes (slice bs 0 2);
  destination_port_info = from_bytes (slice bs 2 4);
}

-- The lifetime is in whole milliseconds, `communication_profile` has one value and is left out, and
-- so are the repetition fields, which the router does not read.
pub record BtpDataRequest : Type 0 where
  pub btp_type : CommonNh
  pub source_port : ℕ
  pub destination_port : ℕ
  pub destination_port_info : ℕ
  pub gn_packet_transport_type : PacketTransportType
  pub gn_destination_address : GnAddress
  pub gn_area : Area
  pub gn_max_hop_limit : ℕ
  pub gn_max_packet_lifetime : Option ℕ
  pub traffic_class : TrafficClass
  pub security_profile : SecurityProfile
  pub its_aid : ℕ
  pub security_permissions : Bytes
  pub payload : Bytes

-- The security fields and the lifetime, which no modelled code sets, are left out.
pub record BtpDataIndication : Type 0 where
  pub source_port : ℕ
  pub destination_port : ℕ
  pub destination_port_info : ℕ
  pub gn_packet_transport_type : PacketTransportType
  pub gn_destination_address : GnAddress
  pub gn_source_position_vector : LongPositionVector
  pub gn_traffic_class : TrafficClass
  pub length : ℕ
  pub payload : Bytes

unfoldable pub initialize_with_gn_data_indication : GnDataIndication → BtpDataIndication
initialize_with_gn_data_indication indication =
    let payload = drop 4 indication.payload in
    record {
      source_port = 0;
      destination_port = 0;
      destination_port_info = 0;
      gn_packet_transport_type = indication.packet_transport_type;
      gn_destination_address = default_long_position_vector.gn_addr;
      gn_source_position_vector = indication.source_position_vector;
      gn_traffic_class = indication.traffic_class;
      length = length payload;
      payload = payload;
    }

unfoldable pub set_destination_port_and_info : BtpDataIndication → ℕ → ℕ → BtpDataIndication
set_destination_port_and_info indication port info = record indication {
  destination_port = port;
  destination_port_info = info;
}

-- The request to the GeoNetworking router, made of the header's octets and the payload.
unfoldable pub gn_request : BtpDataRequest → Bytes → GnDataRequest
gn_request request data_bytes = record {
  upper_protocol_entity = request.btp_type;
  packet_transport_type = request.gn_packet_transport_type;
  security_profile = request.security_profile;
  its_aid = request.its_aid;
  security_permissions = request.security_permissions;
  traffic_class = request.traffic_class;
  length = length data_bytes;
  payload = data_bytes;
  area = request.gn_area;
  max_hop_limit = request.gn_max_hop_limit;
  max_packet_lifetime = request.gn_max_packet_lifetime;
  destination = none;
}

-- `Router.btp_data_request`, with what it hands to the GeoNetworking router.
unfoldable pub btp_data_request : BtpDataRequest → Result GnDataRequest
unfolding btp_a_encode btp_b_encode gn_request
btp_data_request request =
    let with_header = λ (header : Bytes). ok (gn_request request (header ++ request.payload)) in
    elim request.btp_type [
      | any ↦ err value_error
      | btp_a ↦
          btp_a_encode (record {
            destination_port = request.destination_port;
            source_port = request.source_port;
          })
          >>= with_header
      | btp_b ↦
          btp_b_encode (record {
            destination_port = request.destination_port;
            destination_port_info = request.destination_port_info;
          })
          >>= with_header
      | ipv6 ↦ err value_error
    ]

module _ {ℓ} {Callback : Type ℓ} where
  -- `callbacks.get(port)`
  abbrev pub port_get : ℕ → List (ℕ × Callback) → Option Callback
  port_get port [] = none
  port_get port ((p, callback) ∷ ports) = if p == port then some callback else port_get port ports

  -- `callbacks[port] = callback`
  abbrev pub port_set : ℕ → Callback → List (ℕ × Callback) → List (ℕ × Callback)
  port_set port callback [] = (port, callback) ∷ []
  port_set port callback ((p, old) ∷ ports) =
      if p == port then (p, callback) ∷ ports else (p, old) ∷ port_set port callback ports

module _ {ℓ} (Callback : Type ℓ) where
  -- The frozen callbacks are a copy of the registered ones.
  pub record Router : Type ℓ where
    pub pre_indication_callbacks : List (ℕ × Callback)
    pub indication_callbacks : Option (List (ℕ × Callback))

  unfoldable pub new_router : Router
  new_router = record { pre_indication_callbacks = []; indication_callbacks = none }

  unfoldable pub freeze_callbacks : Router → Router
  freeze_callbacks r = record r { indication_callbacks = some r.pre_indication_callbacks }

  unfoldable pub register_indication_callback_btp : ℕ → Callback → Router → Result Router
  register_indication_callback_btp port callback r = elim r.indication_callbacks [
    | none ↦
        ok (record r {
          pre_indication_callbacks = port_set port callback r.pre_indication_callbacks;
        })
    | some frozen ↦ err runtime_error
  ]

  -- The callback that is called, with its argument, if there is one for the port.
  abbrev pub call_of : BtpDataIndication → Option Callback → Option (Callback × BtpDataIndication)
  call_of indication none = none
  call_of indication (some callback) = some (callback, indication)

  abbrev pub dispatch :
      BtpDataIndication
      → Option (List (ℕ × Callback))
      → Result (Option (Callback × BtpDataIndication))
  dispatch indication none = err runtime_error
  dispatch indication (some ports) =
      ok (call_of indication (port_get indication.destination_port ports))

  unfoldable pub btp_b_data_indication :
      GnDataIndication → Router → Result (Option (Callback × BtpDataIndication))
  unfolding initialize_with_gn_data_indication btp_b_decode set_destination_port_and_info
  btp_b_data_indication gn r =
      let header = btp_b_decode gn.payload in
      dispatch
        (set_destination_port_and_info (initialize_with_gn_data_indication gn)
          header.destination_port header.destination_port_info)
        r.indication_callbacks

  unfoldable pub btp_a_data_indication :
      GnDataIndication → Router → Result (Option (Callback × BtpDataIndication))
  unfolding initialize_with_gn_data_indication btp_a_decode
  btp_a_data_indication gn r =
      let header = btp_a_decode gn.payload in
      dispatch
        (record (initialize_with_gn_data_indication gn) {
          source_port = header.source_port;
          destination_port = header.destination_port;
          destination_port_info = 0;
        })
        r.indication_callbacks

  unfoldable pub btp_data_indication :
      GnDataIndication → Router → Result (Option (Callback × BtpDataIndication))
  btp_data_indication gn r = elim gn.upper_protocol_entity [
    | any ↦ err value_error
    | btp_a ↦ btp_a_data_indication gn r
    | btp_b ↦ btp_b_data_indication gn r
    | ipv6 ↦ err value_error
  ]

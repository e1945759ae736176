-- ===== src/Geonet/ExtendedHeaders.antt =====
-- src/flexstack/geonet/{gbc,tsb,guc,ls}_extended_header.py: the extended headers of GeoBroadcast and
-- GeoAnycast, topological broadcast, GeoUnicast and the Location Service.
pub mod Layout
pub mod Tsb
pub mod Gbc
pub mod Guc
pub mod LsRequest
pub mod RoundTrips
use flex_stack.Prelude.{
  ℕ, ◌-◌, ◌++◌, length, ltb, Result, ok, err, decode_error, ◌>>=◌, if◌then◌else◌,
}
use flex_stack.Prelude.Int.{ℤ, pos}
use flex_stack.Bytes.{Bytes, to_bytes, to_bytes_ℤ, from_bytes, slice}
use flex_stack.Geonet.Address
use flex_stack.Geonet.Address.{GnAddress}
use flex_stack.Geonet.PositionVector.{
  LongPositionVector, long_encode, long_decode, ShortPositionVector, short_encode, short_decode,
}
use flex_stack.Geonet.Request.{GnDataRequest}

pub record GbcExtendedHeader : Type 0 where
  pub sn : ℕ
  pub reserved : ℕ
  pub so_pv : LongPositionVector
  pub latitude : ℤ
  pub longitude : ℤ
  pub a : ℕ
  pub b : ℕ
  pub angle : ℕ
  pub reserved2 : ℕ

-- `initialize_with_request_sequence_number_ego_pv`
unfoldable pub gbc_initialize : GnDataRequest → ℕ → LongPositionVector → GbcExtendedHeader
gbc_initialize request sequence_number ego_pv = record {
  sn = sequence_number;
  reserved = 0;
  so_pv = ego_pv;
  latitude = request.area.latitude;
  longitude = request.area.longitude;
  a = request.area.a;
  b = request.area.b;
  angle = request.area.angle;
  reserved2 = 0;
}

unfoldable pub gbc_encode : GbcExtendedHeader → Result Bytes
gbc_encode h = do
  sn ← to_bytes h.sn 2
  reserved ← to_bytes h.reserved 2
  so_pv ← long_encode h.so_pv
  latitude ← to_bytes_ℤ h.latitude 4
  longitude ← to_bytes_ℤ h.longitude 4
  a ← to_bytes h.a 2
  b ← to_bytes h.b 2
  angle ← to_bytes h.angle 2
  reserved2 ← to_bytes h.reserved2 2
  ok (
      sn
      ++ (reserved ++ (so_pv ++ (latitude ++ (longitude ++ (a ++ (b ++ (angle ++ reserved2))))))))

unfoldable pub gbc_decode : Bytes → Result GbcExtendedHeader
gbc_decode header = if ltb (length header) 44 then err decode_error else do
  so_pv ← long_decode (slice header 4 28)
  ok (record {
    sn = from_bytes (slice header 0 2);
    reserved = from_bytes (slice header 2 4);
    so_pv = so_pv;
    latitude = pos (from_bytes (slice header 28 32));
    longitude = pos (from_bytes (slice header 32 36));
    a = from_bytes (slice header 36 38);
    b = from_bytes (slice header 38 40);
    angle = from_bytes (slice header 40 42);
    reserved2 = from_bytes (slice header 42 44);
  })

pub record TsbExtendedHeader : Type 0 where
  pub sn : ℕ
  pub reserved : ℕ
  pub so_pv : LongPositionVector

-- `initialize_with_request_sequence_number_ego_pv`, which ignores the request
unfoldable pub tsb_initialize : ℕ → LongPositionVector → TsbExtendedHeader
tsb_initialize sequence_number ego_pv = record {
  sn = sequence_number;
  reserved = 0;
  so_pv = ego_pv;
}

unfoldable pub tsb_encode : TsbExtendedHeader → Result Bytes
tsb_encode h = do
  sn ← to_bytes h.sn 2
  reserved ← to_bytes h.reserved 2
  so_pv ← long_encode h.so_pv
  ok (sn ++ (reserved ++ so_pv))

unfoldable pub tsb_decode : Bytes → Result TsbExtendedHeader
tsb_decode header = if ltb (length header) 28 then err decode_error else do
  so_pv ← long_decode (slice header 4 28)
  ok (record {
    sn = from_bytes (slice header 0 2);
    reserved = from_bytes (slice header 2 4);
    so_pv = so_pv;
  })

-- `GUCExtendedHeader`, and `LSReplyExtendedHeader`, which has the same fields and the same code.
pub record GucExtendedHeader : Type 0 where
  pub sn : ℕ
  pub reserved : ℕ
  pub so_pv : LongPositionVector
  pub de_pv : ShortPositionVector

-- `initialize_with_request_sequence_number_ego_pv_de_pv`
unfoldable pub guc_initialize : ℕ → LongPositionVector → ShortPositionVector → GucExtendedHeader
guc_initialize sequence_number ego_pv de_pv = record {
  sn = sequence_number;
  reserved = 0;
  so_pv = ego_pv;
  de_pv = de_pv;
}

unfoldable pub with_de_pv : GucExtendedHeader → ShortPositionVector → GucExtendedHeader
with_de_pv h de_pv = record h { de_pv = de_pv }

unfoldable pub guc_encode : GucExtendedHeader → Result Bytes
guc_encode h = do
  sn ← to_bytes h.sn 2
  reserved ← to_bytes h.reserved 2
  so_pv ← long_encode h.so_pv
  de_pv ← short_encode h.de_pv
  ok (sn ++ (reserved ++ (so_pv ++ de_pv)))

unfoldable pub guc_decode : Bytes → Result GucExtendedHeader
guc_decode header = if ltb (length header) 48 then err decode_error else do
  so_pv ← long_decode (slice header 4 28)
  de_pv ← short_decode (slice header 28 48)
  ok (record {
    sn = from_bytes (slice header 0 2);
    reserved = from_bytes (slice header 2 4);
    so_pv = so_pv;
    de_pv = de_pv;
  })

pub record LsRequestExtendedHeader : Type 0 where
  pub sn : ℕ
  pub reserved : ℕ
  pub so_pv : LongPositionVector
  pub request_gn_addr : GnAddress

-- `LSRequestExtendedHeader.initialize`
unfoldable pub ls_request_initialize : ℕ → LongPositionVector → GnAddress → LsRequestExtendedHeader
ls_request_initialize sequence_number ego_pv request_gn_addr = record {
  sn = sequence_number;
  reserved = 0;
  so_pv = ego_pv;
  request_gn_addr = request_gn_addr;
}

unfoldable pub ls_request_encode : LsRequestExtendedHeader → Result Bytes
ls_request_encode h = do
  sn ← to_bytes h.sn 2
  reserved ← to_bytes h.reserved 2
  so_pv ← long_encode h.so_pv
  request_gn_addr ← to_bytes (Address.encode_to_int h.request_gn_addr) 8
  ok (sn ++ (reserved ++ (so_pv ++ request_gn_addr)))

unfoldable pub ls_request_decode : Bytes → Result LsRequestExtendedHeader
ls_request_decode header = if ltb (length header) 36 then err decode_error else do
  so_pv ← long_decode (slice header 4 28)
  request_gn_addr ← Address.decode (slice header 28 36)
  ok (record {
    sn = from_bytes (slice header 0 2);
    reserved = from_bytes (slice header 2 4);
    so_pv = so_pv;
    request_gn_addr = request_gn_addr;
  })

-- ===== src/Geonet/ExtendedHeaders/RoundTrips.antt =====
-- The extended headers of the packets without an area, and of the Location Service, together.
use flex_stack.Prelude.{◌≡◌, ◌++◌, ok, ◌>>=◌}
use flex_stack.Bytes.{Bytes}
use flex_stack.Geonet.ExtendedHeaders.{
  TsbExtendedHeader, tsb_encode, tsb_decode, GucExtendedHeader, guc_encode, guc_decode,
  LsRequestExtendedHeader, ls_request_encode, ls_request_decode,
}
use flex_stack.Geonet.ExtendedHeaders.Tsb.{IsValidTsb, tsb_decode-encode}
use flex_stack.Geonet.ExtendedHeaders.Guc.{IsValidGuc, guc_decode-encode}
use flex_stack.Geonet.ExtendedHeaders.LsRequest.{IsValidLsRequest, ls_request_decode-encode}

-- A topological broadcast header, a GeoUnicast header (or that of a Location Service reply) and a
-- Location Service request header whose fields fit are each encoded, and the octets, with whatever
-- follows them in the packet, decode to the same header.
pub extended_decode-encode :
    (tsb : TsbExtendedHeader) (guc : GucExtendedHeader) (ls : LsRequestExtendedHeader)
    (rest : Bytes)
    → IsValidTsb tsb
    → IsValidGuc guc
    → IsValidLsRequest ls
    → ((tsb_encode tsb >>= λ bs. tsb_decode (bs ++ rest)) ≡ ok tsb)
      × (((guc_encode guc >>= λ bs. guc_decode (bs ++ rest)) ≡ ok guc)
          × ((ls_request_encode ls >>= λ bs. ls_request_decode (bs ++ rest)) ≡ ok ls))
extended_decode-encode tsb guc ls rest t g l = (
  tsb_decode-encode tsb rest t,
  (guc_decode-encode guc rest g, ls_request_decode-encode ls rest l),
)

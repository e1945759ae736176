-- ===== src/Examples/Reception.antt =====
-- The theorem on single-hop broadcasts at concrete arguments.
use flex_stack.Prelude.{ℕ, ◌≡◌, refl, List, [], ◌∷◌, ◌++◌, some, ok}
use flex_stack.Bytes.{slice, from_bytes, to_bytes}
use flex_stack.Geonet.Address
use flex_stack.Geonet.BasicHeader as Basic
use flex_stack.Geonet.BasicHeader.{BasicHeader}
use flex_stack.Geonet.CommonHeader.{CommonHeader, initialize_with_request}
use flex_stack.Geonet.PositionVector.{LongPositionVector, default_long_position_vector, long_decode}
use flex_stack.Geonet.LocationTable.{LocationTable, get_entry}
use flex_stack.Geonet.Router.{gn_data_indicate_shb}
use flex_stack.Geonet.Router.Reception.{shb_indication, Heard, gn_data_indicate_shb-delivered}
use flex_stack.Examples.{car, mib, whole, hash, warning_request}

abbrev origin : LongPositionVector
origin = record default_long_position_vector { gn_addr = car }

abbrev sixteen_zeros : List ℕ
sixteen_zeros = 0 ∷ 0 ∷ 0 ∷ 0 ∷ 0 ∷ 0 ∷ 0 ∷ 0 ∷ 0 ∷ 0 ∷ 0 ∷ 0 ∷ 0 ∷ 0 ∷ 0 ∷ 0 ∷ []

-- The position vector, four octets of media dependent data and two of payload.
abbrev awareness : List ℕ
awareness = 20 ∷ 0 ∷ 2 ∷ 0 ∷ 0 ∷ 0 ∷ 0 ∷ 1 ∷ sixteen_zeros ++ 0 ∷ 0 ∷ 0 ∷ 0 ∷ 1 ∷ 2 ∷ []

abbrev common_header : CommonHeader
common_header = initialize_with_request warning_request mib

abbrev basic_header : BasicHeader
basic_header = record {
  version = 1;
  nh = Basic.common_header;
  reserved = 0;
  lt = record { multiplier = 1; base = Basic.one_second };
  rhl = 1;
}

abbrev empty_table : LocationTable whole
empty_table = record { mib = mib; loc_t = [] }

awareness_decoded : long_decode (slice awareness 0 24) ≡ ok origin
unfolding long_decode from_bytes to_bytes Address.decode
awareness_decoded = refl

gn_data_indicate_shb-delivered_example :
    let handled =
      gn_data_indicate_shb whole hash 1700000000 awareness common_header basic_header empty_table in
    (handled.sent ≡ [])
    × (handled.answer ≡ ok (some (shb_indication common_header basic_header origin (1 ∷ 2 ∷ []))))
    × Heard whole 1700000000 mib origin
        (get_entry whole hash car empty_table)
        (get_entry whole hash car handled.table)
unfolding Address.eq
gn_data_indicate_shb-delivered_example =
    gn_data_indicate_shb-delivered whole hash 1700000000 empty_table awareness common_header
      basic_header origin awareness_decoded refl tt

-- ===== src/Geonet/Router/LocationService/Pending.antt =====
-- A second GeoUnicast request while the Location Service looks for the destination.
use flex_stack.Prelude.{ℕ, true}
use flex_stack.Floats.{Floats, Trig}
use flex_stack.Bytes.{Bytes}
use flex_stack.Geonet.Address.{GnAddress}
use flex_stack.Geonet.Entry.{new_entry}
use flex_stack.Geonet.LocationTable.{Entry, LocationTable}
use flex_stack.Geonet.Router.Geo.{Link}
use flex_stack.Geonet.Router.LocationService.{Router, mib_of}

module _ (fl : Floats) (trig : Trig fl) (hash : GnAddress → ℕ) (link : Link) where
  -- The entry that the service makes: it has the position of a new entry.
  abbrev pub sought_entry : Router fl → Entry fl
  sought_entry r = record (new_entry fl (mib_of fl r)) { ls_pending = true }

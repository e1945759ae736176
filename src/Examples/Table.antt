-- ===== src/Examples/Table.antt =====
-- The theorems on the location table and its entries at concrete arguments.
use flex_stack.Prelude.{
  ℕ, ◌≡◌, ◌*◌, ◌-◌, ◌&&◌, refl, [], ◌∷◌, true, false, err, some, leb, duplicated_packet,
  if◌then◌else◌, arith,
}
use flex_stack.Geonet.Address
use flex_stack.Bytes.{from_bytes}
use flex_stack.Geonet.PositionVector.{
  set_in_normal_timestamp_milliseconds, set_in_normal_timestamp_seconds,
}
use flex_stack.Geonet.Entry.{Dpl}
use flex_stack.Geonet.Entry.Duplicates.{Remembers, check_all, accept_all, check_all-accept_all}
use flex_stack.Geonet.Entry.Freshness.{Fix, sent, latest, update_all, update_all-latest}
use flex_stack.Geonet.LocationTable.{
  Entry, LocationTable, get_entry, fresh, lookup, insert, same_key,
}
use flex_stack.Geonet.LocationTable.Keys.{lookup-insert}
use flex_stack.Geonet.LocationTable.Refresh.{IsUnique, fresh-times}
use flex_stack.Geonet.LocationTable.Arrivals.{Arrival, tsb, arrive, sender, outcome, updated}
use flex_stack.Geonet.LocationTable.Receive.{arrive-duplicate, get_entry-arrive}
use flex_stack.Geonet.PositionVector.{LongPositionVector, default_long_position_vector, long_decode}
use flex_stack.Geonet.BasicHeader as Basic
use flex_stack.Geonet.BasicHeader.{BasicHeader}
use flex_stack.Geonet.CommonHeader.{initialize_with_request}
use flex_stack.Geonet.ExtendedHeaders.{tsb_decode}
use flex_stack.Geonet.Router.{gn_data_indicate_tsb, ended}
use flex_stack.Geonet.Router.Forwarding.{
  SendsOneHopLess, gn_data_indicate_tsb-sent, gn_data_indicate_tsb-dropped,
}
use flex_stack.Bytes.{slice, to_bytes}
use flex_stack.Prelude.{◌++◌, inr, none, List, ok}
use flex_stack.Examples.{warning_request, car, roadside, barcelona, mib, whole, hash}

abbrev two_seen : Dpl
two_seen = record { dpl_set = 5 ∷ 4 ∷ []; dpl_deque = 4 ∷ 5 ∷ [] }

two_seen-Remembers : Remembers 2 (3 ∷ 4 ∷ 5 ∷ []) two_seen
two_seen-Remembers = record {
  deque = refl;
  members = λ sn. ground arith;
  distinct = (refl, (refl, tt));
  bounded = omega arith;
}

check_all-accept_all_example :
    ((check_all 2 (5 ∷ 3 ∷ 6 ∷ 3 ∷ 4 ∷ []) two_seen).0
      ≡ (accept_all 2 (5 ∷ 3 ∷ 6 ∷ 3 ∷ 4 ∷ []) (3 ∷ 4 ∷ 5 ∷ [])).0)
    × Remembers 2
        (accept_all 2 (5 ∷ 3 ∷ 6 ∷ 3 ∷ 4 ∷ []) (3 ∷ 4 ∷ 5 ∷ [])).1
        (check_all 2 (5 ∷ 3 ∷ 6 ∷ 3 ∷ 4 ∷ []) two_seen).1
check_all-accept_all_example =
    check_all-accept_all 2 (5 ∷ 3 ∷ 6 ∷ 3 ∷ 4 ∷ []) (3 ∷ 4 ∷ 5 ∷ []) two_seen (omega arith)
      two_seen-Remembers

abbrev fix : ℕ → Fix
fix time = record { time = time; vector = barcelona }

abbrev pub car_entry : Entry whole
car_entry = record {
  version = 1;
  position_vector = sent (fix 1000);
  ls_pending = false;
  is_neighbour = true;
  tst = record { msec = 1000 };
  pdr = 0;
  dpl = two_seen;
}

update_all-latest_example :
    (update_all whole (fix 900 ∷ fix 1200 ∷ fix 1100 ∷ []) car_entry).position_vector
    ≡ sent (latest (fix 1000) (fix 900 ∷ fix 1200 ∷ fix 1100 ∷ []))
update_all-latest_example =
    update_all-latest whole 800 (fix 1000) (fix 900 ∷ fix 1200 ∷ fix 1100 ∷ []) car_entry
      (record { from_base = omega arith; near = omega arith; nonzero = λ e. omega (arith, e) })
      (
        record { from_base = omega arith; near = omega arith; nonzero = λ e. omega (arith, e) },
        (
          record { from_base = omega arith; near = omega arith; nonzero = λ e. omega (arith, e) },
          (
            record { from_base = omega arith; near = omega arith; nonzero = λ e. omega (arith, e) },
            tt,
          ),
        ),
      )
      refl

abbrev pub table : LocationTable whole
table = record { mib = mib; loc_t = (car, car_entry) ∷ [] }

table-IsUnique : IsUnique hash table.loc_t
table-IsUnique = (refl, tt)

lookup-insert_example : lookup {V = ℕ} hash roadside (insert hash car 7 ((roadside, 8) ∷ [])) ≡ (
    if same_key hash car roadside
    then some 7
    else lookup {V = ℕ} hash roadside ((roadside, 8) ∷ []))
lookup-insert_example = lookup-insert hash car roadside 7 ((roadside, 8) ∷ [])

abbrev known_packet : Arrival
known_packet = tsb (record { sn = 5; reserved = 0; so_pv = barcelona }) (1 ∷ 2 ∷ [])

abbrev new_packet : Arrival
new_packet = tsb (record { sn = 6; reserved = 0; so_pv = barcelona }) (1 ∷ 2 ∷ [])

arrive-duplicate_example :
    arrive whole hash 1700000000 known_packet table ≡ (err duplicated_packet, table)
unfolding get_entry from_bytes Address.eq
arrive-duplicate_example =
    arrive-duplicate whole hash 1700000000 known_packet table 5 car_entry refl refl refl

get_entry-arrive_example :
    get_entry whole hash car (arrive whole hash 1700000000 new_packet table).1
    ≡ outcome whole table.mib.its_gn_lifetime_loc_te 1700000000
        (updated whole hash table new_packet).0
        (if same_key hash (sender new_packet) car
          then some (updated whole hash table new_packet).1
          else get_entry whole hash car table)
get_entry-arrive_example =
    get_entry-arrive whole hash 1700000000 new_packet car table table-IsUnique

-- A position vector of a quarter of a second after the whole second of the clock.
abbrev just_received : Entry whole
just_received = record car_entry {
  position_vector = record barcelona { tst = set_in_normal_timestamp_milliseconds 1700000000250 };
}

fresh-times_example :
    fresh whole 20 (set_in_normal_timestamp_seconds 1700000000) just_received
    ≡ (leb 1700000000250 (1700000000 * 1000) && leb (1700000000 * 1000 - 1700000000250) (20 * 1000))
fresh-times_example =
    fresh-times whole 1700000000 1700000000250 20 just_received refl (omega arith) (omega arith)
      (omega arith)

-- A multi-hop broadcast of the car with the sequence number 5.
abbrev pub origin : LongPositionVector
origin = record default_long_position_vector { gn_addr = car }

abbrev pub sixteen_zeros : List ℕ
sixteen_zeros = 0 ∷ 0 ∷ 0 ∷ 0 ∷ 0 ∷ 0 ∷ 0 ∷ 0 ∷ 0 ∷ 0 ∷ 0 ∷ 0 ∷ 0 ∷ 0 ∷ 0 ∷ 0 ∷ []

abbrev broadcast : List ℕ
broadcast = 0 ∷ 5 ∷ 0 ∷ 0 ∷ 20 ∷ 0 ∷ 2 ∷ 0 ∷ 0 ∷ 0 ∷ 0 ∷ 1 ∷ sixteen_zeros ++ 1 ∷ 2 ∷ []

abbrev pub basic_header : BasicHeader
basic_header = record {
  version = 1;
  nh = Basic.common_header;
  reserved = 0;
  lt = record { multiplier = 60; base = Basic.one_second };
  rhl = 9;
}

gn_data_indicate_tsb-sent_example :
    SendsOneHopLess basic_header
      (gn_data_indicate_tsb whole hash 1700000000 broadcast
        (initialize_with_request warning_request mib)
        basic_header
        table).sent
gn_data_indicate_tsb-sent_example =
    gn_data_indicate_tsb-sent basic_header
      (record {
        version = omega arith;
        reserved = omega arith;
        multiplier = omega arith;
        rhl = omega arith;
      })
      whole hash 1700000000 broadcast (initialize_with_request warning_request mib) table

broadcast_decoded :
    tsb_decode (slice broadcast 0 28) ≡ ok (record { sn = 5; reserved = 0; so_pv = origin })
unfolding tsb_decode long_decode from_bytes to_bytes Address.decode
broadcast_decoded = refl

gn_data_indicate_tsb-dropped_example :
    gn_data_indicate_tsb whole hash 1700000000 broadcast
      (initialize_with_request warning_request mib)
      basic_header
      table
    ≡ ended whole table (ok none)
unfolding get_entry from_bytes Address.eq
gn_data_indicate_tsb-dropped_example =
    gn_data_indicate_tsb-dropped whole hash 1700000000 broadcast
      (initialize_with_request warning_request mib) basic_header table
      (record { sn = 5; reserved = 0; so_pv = origin }) broadcast_decoded
      (inr (car_entry, refl, refl))

-- ===== src/Lib.antt =====
-- FlexStack, a software stack for vehicles and roadside stations that talk to each other (ETSI
-- ITS): its GeoNetworking protocol, and the Basic Transport Protocol on top of it, which gives
-- packets ports and calls the callback of a port. Packets are read and written by the header
-- classes, a location table keeps what is known of other stations, and the GeoNetworking router
-- joins the two: it decodes a packet's headers, tells the location table of the packet, and
-- delivers or forwards it if the table does not refuse it as a duplicate. Reactive and adaptive
-- congestion control stand beside these and bound the rate of sending. Above them, the
-- awareness service of vulnerable road users forms clusters, of which only the leader sends: a
-- state machine that is moved by calls of the device, by received messages and by time. The
-- local dynamic map keeps the data of received messages until they expire.
--
-- Which file models what (sources of Geonet are under src/flexstack/geonet):
--   Geonet/Address: gn_address.py. `encode`, `encode_to_int`, `decode` and `eq` are the methods
--     of GNAddress; the enumerations have a function to their value and one from it.
--   Geonet/BasicHeader: basic_header.py, the lifetime coding (`LT`) and the Basic Header.
--   Geonet/PositionVector: position_vector.py and the constants of
--     src/flexstack/utils/time_service.py. `tst_gt` and its kin are the operators of TST,
--     `long_*` and `short_*` the methods of the vectors.
--   Geonet/Request: service_access_point.py, the traffic class and the service primitives.
--   Geonet/CommonHeader: common_header.py.
--   Geonet/ExtendedHeaders: {gbc,tsb,guc,ls}_extended_header.py. A Location Service reply is
--     coded by the same text as a GUC header and shares its definitions.
--   Geonet/Mib: the constants of mib.py that modelled code reads.
--   Geonet/Entry: LocationTableEntry of location_table.py. `check_sn` is `check_duplicate_sn`
--     on the set and the deque alone.
--   Geonet/LocationTable: LocationTable of location_table.py. Arrivals names its seven
--     `new_*_packet` methods as one data type of steps.
--   Geonet/Geometry: the geometry of router.py: distances, the function F of an area and its
--     size.
--   Geonet/Router: router.py, the receiving of SHB, multi-hop TSB and beacon packets.
--     Forwarding says which multi-hop broadcasts are dropped and what is sent, Reception what
--     becomes of a single-hop broadcast. Area has greedy and contention-based forwarding, Geo
--     the receiving of GeoBroadcast and Anycast that of GeoAnycast and GeoUnicast packets, with
--     Anycast/Hops for what the hop limit of a GeoAnycast packet decides. LocationService has
--     the requests of the Location Service with their timer, and GeoUnicast requests; Requests
--     the other requests, and Indications the dispatch of received packets with the handlers of
--     Location Service packets.
--   Btp: src/flexstack/btp. Ports registers a sequence of callbacks, Delivery goes from a
--     request to the callback that the receiver's router calls.
--   Dcc: src/flexstack/management/dcc_reactive.py. `update_dcc` is `DccReactive.update`.
--     Adaptive has src/flexstack/management/dcc_adaptive.py: Bounds says what becomes of the
--     duty cycle, Spacing when packets are admitted.
--   Vru/Clustering: src/flexstack/facilities/vru_awareness_service/vru_clustering.py, with its
--     constants in Vru/Constants. Operations, Creation, Reception and Maintenance have the
--     methods of VBSClusteringManager that change it, Containers those that tell of it. Calls
--     makes a data type of the methods and runs a sequence of them, each at its time; the
--     invariant of all histories is in Invariant and Histories, the table of state changes in
--     Transitions.
--   Ldm: src/flexstack/facilities/local_dynamic_map: Database has dictionary_database.py,
--     Maintenance has ldm_maintenance.py with the deletion of expired containers. A container
--     is a value whose equality and times are parameters.
--   Prelude, Bytes, Floats, Sets, Dicts: Python's integers, octet strings, exceptions, floats,
--     sets and dictionaries.
--   Examples: the theorems at concrete arguments.
--
-- Python's integers are the native natural numbers, or the integers of Prelude/Int where a
-- value may be negative; `to_bytes` raises where a number does not fit. Exceptions are values
-- of Result; a method that may raise after a change returns the object beside the exception.
-- Floats are a type with operations of which nothing is assumed, but for the order in which the
-- gate keeper of adaptive congestion control admits packets. A callback that the code calls is
-- an output of the model. Every loop is a structural recursion, so no fuel is needed; the 100
-- attempts at a cluster identifier are the code's own bound. In the clustering, times are whole
-- milliseconds, and a method that reads its clock twice is given one reading.
--
-- Parameters: the floats (in Dcc, the type of busy ratios with its comparisons), the clock's
-- reading at each step, the hash of an address, the callbacks, the link layer's answer to a
-- packet, what the sign and verify services make of a packet, Python's trigonometry, and the
-- random draws of cluster identifiers. The dictionary of the location table is an association
-- list whose keys are found by hash and `__eq__` as Python finds them.
--
-- Not modelled: the thread that repeats beacons, the drawing of a router's own address and its
-- GPS reports, the facilities other than clustering and the storing part of the local dynamic
-- map and the security services; conversions to and from JSON dictionaries; setters that take
-- floats; the locks of the location table and of the clustering manager, whose methods are one
-- step each.
pub mod Btp
pub mod Bytes
pub mod Dcc
pub mod Dicts
pub mod Examples
pub mod Floats
pub mod Geonet
pub mod Ldm
pub mod Prelude
pub mod Sets
pub mod Vru

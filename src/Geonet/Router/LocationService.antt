-- ===== src/Geonet/Router/LocationService.antt =====
-- The Location Service and the GeoUnicast requests that wait for it, in src/flexstack/geonet/router.py.
-- A timer that runs is a key of the timers; that it fires is a call of `ls_retransmit`.
pub mod Unanswered
pub mod Pending
use flex_stack.Prelude.{
  ℕ, ◌+◌, List, [], ◌∷◌, ◌++◌, Bool, true, false, not, leb, ◌&&◌, Option, none, some, Result, ok,
  err, assertion_error, packet_too_long, sending_error, ◌>>=◌, if◌then◌else◌,
}
use flex_stack.Floats.{Floats, Trig}
use flex_stack.Bytes.{Bytes}
use flex_stack.Geonet.Address.{GnAddress}
use flex_stack.Geonet.Mib.{Mib, is_mobile_value}
use flex_stack.Geonet.PositionVector.{LongPositionVector}
use flex_stack.Geonet.BasicHeader as Basic
use flex_stack.Geonet.BasicHeader.{BasicHeader, initialize_with_mib_request_and_rhl}
use flex_stack.Geonet.CommonHeader as Common
use flex_stack.Geonet.CommonHeader.{CommonHeader, initialize_with_request}
use flex_stack.Geonet.Request.{
  any, ls, ls_request, Hst, default_traffic_class, GnDataRequest, ResultCode, accepted,
}
use flex_stack.Geonet.ExtendedHeaders.{guc_initialize, ls_request_initialize, ls_request_encode}
use flex_stack.Geonet.LocationTable.{
  Entry, LocationTable, same_key, lookup, insert, get_entry, ensure_entry, get_neighbours,
}
use flex_stack.Geonet.Router.{get_sequence_number, is_empty}
use flex_stack.Geonet.Router.Area.{Node, gn_greedy_forwarding}
use flex_stack.Geonet.Router.Geo.{Link, confirm}
use flex_stack.Geonet.Router.Anycast.{guc_packet, short_of}

-- `d.pop(key, None)`
abbrev pub remove {ℓ} :
    {V : Type ℓ} → (GnAddress → ℕ) → GnAddress → List (GnAddress × V) → List (GnAddress × V)
remove hash key [] = []
remove hash key ((k, v) ∷ d) = if same_key hash k key then d else (k, v) ∷ remove hash key d

-- `d.get(key, default)`
abbrev pub get_or {ℓ} : {V : Type ℓ} → V → Option V → V
get_or default none = default
get_or default (some v) = v

-- The Common Header of the service's packets.
abbrev pub ls_common : Hst → Mib → CommonHeader
ls_common hst mib = record {
  nh = any;
  reserved = 0;
  ht = ls;
  hst = hst;
  tc = default_traffic_class;
  flags = is_mobile_value mib.its_gn_is_mobile;
  pl = 0;
  mhl = mib.its_gn_default_hop_limit;
}

unfoldable pub ls_request_packet : Mib → ℕ → LongPositionVector → GnAddress → Result Bytes
ls_request_packet mib sn ego_pv sought = do
  basic ←
      Basic.encode_to_bytes
        (initialize_with_mib_request_and_rhl mib none mib.its_gn_default_hop_limit)
  common ← Common.encode_to_bytes (ls_common ls_request mib)
  extended ← ls_request_encode (ls_request_initialize sn ego_pv sought)
  ok (basic ++ common ++ extended)

-- `except (PacketTooLongException, SendingException): pass`
abbrev pub forgive : Result (Unit {0}) → Result (Unit {0})
forgive (err packet_too_long) = ok tt
forgive (err sending_error) = ok tt
forgive r = r

-- The hop limit of a request, or the default one.
abbrev pub hop_limit : Mib → ℕ → ℕ
hop_limit mib max_hop_limit =
    if leb max_hop_limit 1 then mib.its_gn_default_hop_limit else max_hop_limit

module _ (fl : Floats) where
  pub record Router : Type 0 where
    pub node : Node fl
    pub sequence_number : ℕ
    pub beacon_reset_event : Option Bool
    pub ls_timers : List (GnAddress × Unit {0})
    pub ls_retransmit_counters : List (GnAddress × ℕ)
    pub ls_packet_buffers : List (GnAddress × List GnDataRequest)

  -- The router after an operation, what it gave the link layer, and how it ended.
  pub record Step (A : Type 0) : Type 0 where
    pub router : Router
    pub sent : List Bytes
    pub answer : Result A

  abbrev pub mib_of : Router → Mib
  mib_of r = r.node.location_table.mib

  -- The router with another location table.
  abbrev pub with_table : LocationTable fl → Router → Router
  with_table t r = record r { node = record r.node { location_table = t } }

  -- What follows an operation that may raise.
  abbrev pub before : {A B : Type 0} → List Bytes → Router → Result A → (Router → Step B) → Step B
  before sent r (err e) next = record { router = r; sent = sent; answer = err e }
  before sent r (ok a) next =
      let s = next r in record { router = s.router; sent = sent ++ s.sent; answer = s.answer }

  module _ (hash : GnAddress → ℕ) (link : Link) where
    -- `entry.ls_pending = pending` on the entry object of the table
    abbrev pub set_pending : Bool → GnAddress → LocationTable fl → LocationTable fl
    set_pending pending gn_addr t = elim (get_entry fl hash gn_addr t) [
      | none ↦ t
      | some entry ↦ record t {
        loc_t = insert hash gn_addr (record entry { ls_pending = pending }) t.loc_t;
      }
    ]

    abbrev pub hand_over : Router → Result Bytes → Step (Unit {0})
    hand_over r (err e) = record { router = r; sent = []; answer = err e }
    hand_over r (ok bs) = record { router = r; sent = bs ∷ []; answer = forgive (link bs) }

    -- `_send_ls_request_packet`
    unfoldable pub send_ls_request_packet : GnAddress → Router → Step (Unit {0})
    unfolding get_sequence_number ls_request_packet
    send_ls_request_packet sought r =
        let sn = get_sequence_number r.sequence_number in
        hand_over (record r { sequence_number = sn })
          (ls_request_packet (mib_of r) sn r.node.ego_position_vector sought)

    -- The packet, and its timer if that raises nothing.
    unfoldable pub send_and_wait : GnAddress → Router → Step (Unit {0})
    unfolding send_ls_request_packet
    send_and_wait sought r =
        let s = send_ls_request_packet sought r in
        before s.sent s.router s.answer (λ r'. record {
          router = record r' { ls_timers = insert hash sought tt r'.ls_timers };
          sent = [];
          answer = ok tt;
        })

    abbrev pub is_pending : Option (Entry fl) → Bool
    is_pending none = false
    is_pending (some entry) = entry.ls_pending

    abbrev pub queued : GnAddress → Option GnDataRequest → Router → Router
    queued sought none r = r
    queued sought (some request) r = record r {
      ls_packet_buffers =
          insert hash sought (get_or [] (lookup hash sought r.ls_packet_buffers) ++ request ∷ [])
            r.ls_packet_buffers;
    }

    abbrev pub singleton : Option GnDataRequest → List GnDataRequest
    singleton none = []
    singleton (some request) = request ∷ []

    unfoldable pub gn_ls_request : GnAddress → Option GnDataRequest → Router → Step (Unit {0})
    unfolding send_and_wait
    gn_ls_request sought buffered_request r =
        let t = r.node.location_table in
        if is_pending (get_entry fl hash sought t)
        then record { router = queued sought buffered_request r; sent = []; answer = ok tt }
        else let (entry, t') = ensure_entry fl hash sought t in
          send_and_wait sought (record (with_table (set_pending true sought t') r) {
            ls_packet_buffers = insert hash sought (singleton buffered_request) r.ls_packet_buffers;
            ls_retransmit_counters = insert hash sought 0 r.ls_retransmit_counters;
          })

    -- The Location Service for the address is over.
    abbrev pub give_up : GnAddress → Router → Router
    give_up sought r = record (with_table (set_pending false sought r.node.location_table) r) {
      ls_packet_buffers = remove hash sought r.ls_packet_buffers;
      ls_timers = remove hash sought r.ls_timers;
      ls_retransmit_counters = remove hash sought r.ls_retransmit_counters;
    }

    -- `_ls_retransmit`: the timer fires.
    unfoldable pub ls_retransmit : GnAddress → Router → Step (Unit {0})
    unfolding send_and_wait
    ls_retransmit sought r =
        let count = get_or 0 (lookup hash sought r.ls_retransmit_counters) in
        if leb (mib_of r).its_gn_location_service_max_retrans count
        then record { router = give_up sought r; sent = []; answer = ok tt }
        else send_and_wait sought (record r {
          ls_retransmit_counters = insert hash sought (count + 1) r.ls_retransmit_counters;
        })

    -- The packet of a request.
    abbrev pub hand_down : Router → Result Bytes → Step ResultCode
    hand_down r (err e) = record { router = r; sent = []; answer = err e }
    hand_down r (ok bs) = record { router = r; sent = bs ∷ []; answer = confirm (link bs) }

    module _ (trig : Trig fl) where
      -- From the position of the destination on.
      unfoldable pub guc_towards : GnDataRequest → Entry fl → Router → Step ResultCode
      unfolding get_sequence_number gn_greedy_forwarding guc_packet
      guc_towards request de_entry r =
          let mib = mib_of r in
          let hops = hop_limit mib request.max_hop_limit in
          let de_pv = short_of de_entry.position_vector in
          let sn = get_sequence_number r.sequence_number in
          let header = guc_initialize sn r.node.ego_position_vector de_pv in
          let r' = record r { sequence_number = sn } in
          let scf = request.traffic_class.scf in
          if is_empty fl (get_neighbours fl r.node.location_table) && scf
          then record { router = r'; sent = []; answer = ok accepted }
          else if not (gn_greedy_forwarding fl trig de_pv.latitude de_pv.longitude scf r.node)
          then record { router = r'; sent = []; answer = ok accepted }
          else hand_down r' (
              guc_packet fl trig hash link
                (initialize_with_mib_request_and_rhl mib request.max_packet_lifetime hops)
                (initialize_with_request (record request { max_hop_limit = hops }) mib) header
                request.payload)

      unfoldable pub gn_data_request_guc : GnDataRequest → Router → Step ResultCode
      unfolding guc_towards gn_ls_request
      gn_data_request_guc request r = elim request.destination [
        | none ↦ record { router = r; sent = []; answer = err assertion_error }
        | some destination ↦ elim (get_entry fl hash destination r.node.location_table) [
          | none ↦
              let s = gn_ls_request destination (some request) r in
              before s.sent s.router s.answer
                (λ r'. record { router = r'; sent = []; answer = ok accepted })
          | some de_entry ↦ guc_towards request de_entry r
        ]
      ]

      -- `for req in buffered: self.gn_data_request_guc(req)`
      unfoldable pub flush : List GnDataRequest → Router → Step (Unit {0})
      unfolding gn_data_request_guc
      flush [] r = record { router = r; sent = []; answer = ok tt }
      flush (request ∷ requests) r =
          let s = gn_data_request_guc request r in before s.sent s.router s.answer (flush requests)

      -- The reply to this device: the service is over and the requests that waited are made again.
      unfoldable pub ls_answered : GnAddress → Router → Step (Unit {0})
      unfolding flush
      ls_answered sought r =
          flush (get_or [] (lookup hash sought r.ls_packet_buffers)) (give_up sought r)

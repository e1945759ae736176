-- ===== src/Geonet/Router/LocationService/Unanswered.antt =====
-- A Location Service that gets no reply.
use flex_stack.Prelude.{
  ℕ, zero, suc, ◌+◌, ◌≤◌, ◌≡◌, ◌∙◌, refl, sym, List, [], ◌∷◌, ◌++◌, length, length-append, true,
  false, leb, Option, none, some, Result, ok, err, arith,
}
use flex_stack.Floats.{Floats}
use flex_stack.Bytes.{Bytes}
use flex_stack.Geonet.Address.{GnAddress}
use flex_stack.Geonet.Request.{GnDataRequest}
use flex_stack.Geonet.LocationTable.{lookup, insert, get_entry, ensure_entry}
use flex_stack.Geonet.LocationTable.Keys.{same_key_refl}
use flex_stack.Geonet.Router.{get_sequence_number}
use flex_stack.Geonet.Router.Geo.{Link}
use flex_stack.Geonet.Router.LocationService.{
  remove, Router, Step, mib_of, hand_over, send_ls_request_packet, send_and_wait, before,
  ls_request_packet, gn_ls_request, with_table, set_pending, give_up, ls_retransmit, is_pending,
  singleton,
}

module _ {ℓ} {V : Type ℓ} (hash : GnAddress → ℕ) where
  remove-insert :
      (key : GnAddress) (v : V) (d : List (GnAddress × V))
      → lookup hash key d ≡ none
      → remove hash key (insert hash key v d) ≡ d
  remove-insert key v [] e = ground (arith, same_key_refl hash key)
  remove-insert key v ((k, w) ∷ d) e = ground (arith, remove-insert key v d)

  pub lookup_inserted :
      (key : GnAddress) (v : V) (d : List (GnAddress × V))
      → lookup hash key (insert hash key v d) ≡ some v
  lookup_inserted key v [] = ground (arith, same_key_refl hash key)
  lookup_inserted key v ((k, w) ∷ d) = ground (arith, lookup_inserted key v d)

module _ (fl : Floats) (hash : GnAddress → ℕ) (link : Link) where
  -- What a sending leaves as it was.
  pub record Kept (r : Router fl) (sent : List Bytes) (r' : Router fl) : Type 0 where
    pub table : r'.node.location_table ≡ r.node.location_table
    pub counters : r'.ls_retransmit_counters ≡ r.ls_retransmit_counters
    pub buffers : r'.ls_packet_buffers ≡ r.ls_packet_buffers
    pub few : length sent ≤ 1

  abbrev timer_set : GnAddress → Router fl → Step fl (Unit {0})
  timer_set sought r' = record {
    router = record r' { ls_timers = insert hash sought tt r'.ls_timers };
    sent = [];
    answer = ok tt;
  }

  before-Kept :
      (sought : GnAddress) (r r' : Router fl) (sent : List Bytes) (answer : Result (Unit {0}))
      → Kept r sent r'
      → Kept r
          (before fl sent r' answer (timer_set sought)).sent
          (before fl sent r' answer (timer_set sought)).router
  before-Kept sought r r' sent (err e) k = k
  before-Kept sought r r' sent (ok done) k = record {
    table = k.table;
    counters = k.counters;
    buffers = k.buffers;
    few = rw (length-append sent []) (omega (arith, k.few));
  }

  hand_over-Kept :
      (r : Router fl) (sn : ℕ) (packet : Result Bytes)
      → Kept r
          (hand_over fl hash link (record r { sequence_number = sn }) packet).sent
          (hand_over fl hash link (record r { sequence_number = sn }) packet).router
  hand_over-Kept r sn (err e) = record {
    table = refl;
    counters = refl;
    buffers = refl;
    few = omega arith;
  }
  hand_over-Kept r sn (ok bs) = record {
    table = refl;
    counters = refl;
    buffers = refl;
    few = omega arith;
  }

  pub send-Kept :
      (sought : GnAddress) (r : Router fl)
      → Kept r
          (send_and_wait fl hash link sought r).sent
          (send_and_wait fl hash link sought r).router
  unfolding send_and_wait send_ls_request_packet
  send-Kept sought r =
      let sn = get_sequence_number r.sequence_number in
      let packet = ls_request_packet (mib_of fl r) sn r.node.ego_position_vector sought in
      before-Kept sought r _ _ _ (hand_over-Kept r sn packet)

  -- The timer fires so many times.
  unfoldable pub fires : ℕ → GnAddress → Router fl → List Bytes × Router fl
  fires zero sought r = ([], r)
  fires (suc n) sought r =
      let s = ls_retransmit fl hash link sought r in
      let (sent, r') = fires n sought s.router in (s.sent ++ sent, r')

  abbrev counted : GnAddress → ℕ → Router fl → Router fl
  counted sought c r = record r {
    ls_retransmit_counters = insert hash sought (c + 1) r.ls_retransmit_counters;
  }

  retransmit-eq :
      (sought : GnAddress) (r : Router fl) (c : ℕ)
      → lookup hash sought r.ls_retransmit_counters ≡ some c
      → c + 1 ≤ (mib_of fl r).its_gn_location_service_max_retrans
      → ls_retransmit fl hash link sought r ≡ send_and_wait fl hash link sought (counted sought c r)
  unfolding ls_retransmit
  retransmit-eq sought r c e l =
      let below : leb (mib_of fl r).its_gn_location_service_max_retrans c ≡ false =
        ground (arith, l) in
      rw (ls_retransmit, e, below) refl

  retransmit-over :
      (sought : GnAddress) (r : Router fl) (c : ℕ)
      → lookup hash sought r.ls_retransmit_counters ≡ some c
      → (mib_of fl r).its_gn_location_service_max_retrans ≤ c
      → ls_retransmit fl hash link sought r
        ≡ record { router = give_up fl hash link sought r; sent = []; answer = ok tt }
  unfolding ls_retransmit
  retransmit-over sought r c e l =
      let reached : leb (mib_of fl r).its_gn_location_service_max_retrans c ≡ true =
        ground (arith, l) in
      rw (ls_retransmit, e, reached) refl

  -- The firings up to the maximum, and the one after it.
  fires-over :
      (n : ℕ) (sought : GnAddress) (r : Router fl) (c : ℕ)
      → lookup hash sought r.ls_retransmit_counters ≡ some c
      → c + n ≡ (mib_of fl r).its_gn_location_service_max_retrans
      → (length (fires (suc n) sought r).0 ≤ n)
        × (((fires (suc n) sought r).1.ls_packet_buffers ≡ remove hash sought r.ls_packet_buffers)
            × (((fires (suc n) sought r).1.node.location_table)
                ≡ set_pending fl hash link false sought r.node.location_table))
  unfolding fires
  fires-over zero sought r c e l =
      rw (retransmit-over sought r c e (omega (arith, l))) (omega arith, (refl, refl))
  fires-over (suc n) sought r c e l =
      let next = counted sought c r in
      let s = send_and_wait fl hash link sought next in
      let k = send-Kept sought next in
      let counter : lookup hash sought s.router.ls_retransmit_counters ≡ some (c + 1) =
        (λ i. lookup hash sought (k.counters i))
        ∙ lookup_inserted hash sought (c + 1) r.ls_retransmit_counters in
      let max : c + 1 + n ≡ (mib_of fl s.router).its_gn_location_service_max_retrans =
        omega (arith, l) ∙ sym (λ i. (k.table i).mib.its_gn_location_service_max_retrans) in
      let later = fires-over n sought s.router (c + 1) counter max in
      rw (retransmit-eq sought r c e (omega (arith, l))) (
        rw (length-append s.sent (fires (suc n) sought s.router).0) (omega (arith, k.few, later.0)),
        (
          later.1.0 ∙ (λ i. remove hash sought (k.buffers i)),
          later.1.1 ∙ (λ i. set_pending fl hash link false sought (k.table i)),
        ),
      )

  -- The router when the service starts.
  abbrev pub started : GnAddress → Option GnDataRequest → Router fl → Router fl
  started sought request r =
      record (with_table fl
        (set_pending fl hash link true sought (ensure_entry fl hash sought r.node.location_table).1)
        r) {
          ls_packet_buffers =
              insert hash sought (singleton fl hash link request) r.ls_packet_buffers;
          ls_retransmit_counters = insert hash sought 0 r.ls_retransmit_counters;
        }

  pub start-eq :
      (sought : GnAddress) (request : Option GnDataRequest) (r : Router fl)
      → is_pending fl hash link (get_entry fl hash sought r.node.location_table) ≡ false
      → gn_ls_request fl hash link sought request r
        ≡ send_and_wait fl hash link sought (started sought request r)
  unfolding gn_ls_request
  start-eq sought request r idle = rw (gn_ls_request, idle) refl

  started-mib :
      (sought : GnAddress) (request : Option GnDataRequest) (r : Router fl)
      → mib_of fl (started sought request r) ≡ mib_of fl r
  unfolding ensure_entry get_entry
  started-mib sought request r = ground arith

  -- The Location Service starts for an address for which it is not pending and no request waits. If
  -- nobody answers and the timer has fired once more than the maximum of retransmissions, the waiting
  -- requests are those of before, and at most one more packet than the maximum was sent.
  pub gn_ls_request-ends :
      (sought : GnAddress) (request : Option GnDataRequest) (r : Router fl)
      → is_pending fl hash link (get_entry fl hash sought r.node.location_table) ≡ false
      → lookup hash sought r.ls_packet_buffers ≡ none
      → let s = gn_ls_request fl hash link sought request r in
        let max = (mib_of fl r).its_gn_location_service_max_retrans in
        (length (s.sent ++ (fires (suc max) sought s.router).0) ≤ max + 1)
        × ((fires (suc max) sought s.router).1.ls_packet_buffers ≡ r.ls_packet_buffers)
  unfolding gn_ls_request
  gn_ls_request-ends sought request r idle new =
      let begun = started sought request r in
      let s = send_and_wait fl hash link sought begun in
      let k = send-Kept sought begun in
      let max = (mib_of fl r).its_gn_location_service_max_retrans in
      let counter : lookup hash sought s.router.ls_retransmit_counters ≡ some 0 =
        (λ i. lookup hash sought (k.counters i))
        ∙ lookup_inserted hash sought 0 r.ls_retransmit_counters in
      let same : max ≡ (mib_of fl s.router).its_gn_location_service_max_retrans = sym (
        (λ i. (k.table i).mib.its_gn_location_service_max_retrans)
        ∙ (λ i. (started-mib sought request r i).its_gn_location_service_max_retrans)) in
      let over = fires-over max sought s.router 0 counter (omega (arith, same)) in
      rw (start-eq sought request r idle) (
        rw (length-append s.sent (fires (suc max) sought s.router).0)
            (omega (arith, k.few, over.0)),
        over.1.0
            ∙ ((λ i. remove hash sought (k.buffers i))
                ∙ remove-insert hash sought (singleton fl hash link request) r.ls_packet_buffers
                    new),
      )

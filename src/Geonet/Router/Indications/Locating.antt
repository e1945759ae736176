-- ===== src/Geonet/Router/Indications/Locating.antt =====
-- What becomes of a received Location Service request.
use mathlib.Core.Path.{subst}
use mathlib.Core.List.{append_assoc}
use flex_stack.Prelude.{
  ℕ, ◌-◌, ◌≤◌, ◌≡◌, refl, ◌∙◌, inl, inr, ◌⊎◌, ◌++◌, length, drop, true, false, ltb, Option, none,
  some, Result, ok, err, Error, Result-cases, Bool-cases, arith,
}
use flex_stack.Floats.{Floats, Trig}
use flex_stack.Bytes.{Bytes, slice}
use flex_stack.Geonet.Address
use flex_stack.Geonet.Address.{GnAddress}
use flex_stack.Geonet.BasicHeader.{BasicHeader, set_rhl}
use flex_stack.Geonet.BasicHeader.RoundTrip.{IsValid}
use flex_stack.Geonet.CommonHeader as Common
use flex_stack.Geonet.CommonHeader.{CommonHeader}
use flex_stack.Geonet.ExtendedHeaders.{
  LsRequestExtendedHeader, ls_request_encode, ls_request_decode,
}
use flex_stack.Geonet.LocationTable.{
  Entry, LocationTable, get_entry, new_ls_request_packet, receive, store, checked_update, is_none,
  ensure_entry, refresh_table,
}
use flex_stack.Geonet.Router.{
  get_sequence_number, swallow, rate_exceeded, duplicate_address_detection,
}
use flex_stack.Geonet.Router.Geo.{Link}
use flex_stack.Geonet.Router.Geo.Sent.{SendsWith, SendsLower, set_rhl-IsValid, octets, lower_of}
use flex_stack.Geonet.Router.Anycast.{short_of}
use flex_stack.Geonet.Router.Anycast.Sent.{delivers}
use flex_stack.Geonet.Router.LocationService.{Router, Step, mib_of, with_table, hand_over}
use flex_stack.Geonet.Router.Indications.{
  Answer, if_taken, ls_reply_packet, quiet, unless_known, reply_to, ls_request_forward_packet,
  ls_request_received, gn_data_indicate_ls_request,
}

module _ (fl : Floats) (hash : GnAddress → ℕ) (link : Link) (trig : Trig fl) where
  quiet-silent : (s : Step fl (Unit {0})) → delivers (quiet fl hash link trig s).answer ≡ false
  quiet-silent s = ground arith

  handed-few :
      (r : Router fl) (packet : Result Bytes) → length (hand_over fl hash link r packet).sent ≤ 1
  handed-few r (err e) = omega arith
  handed-few r (ok bs) = omega arith

  forward-cases :
      (b : BasicHeader) (common_header : CommonHeader) (header : LsRequestExtendedHeader)
      (payload : Bytes) (r : Router fl)
      → IsValid b
      → SendsWith b
          (hand_over fl hash link r (ls_request_forward_packet b common_header header payload)).sent
  unfolding ls_request_forward_packet
  forward-cases b common_header header payload r v =
      let (basic, encoded, read_back) = octets b v in
      elim (Result-cases (Common.encode_to_bytes common_header)) [
        | inr (e, fails) ↦ inl (rw (ls_request_forward_packet, encoded, fails) refl)
        | inl (common, done) ↦ elim (Result-cases (ls_request_encode header)) [
          | inr (e, fails) ↦ inl (rw (ls_request_forward_packet, encoded, done, fails) refl)
          | inl (extended, done') ↦ inr (
            basic ++ common ++ extended ++ payload,
            rw (ls_request_forward_packet, encoded, done, done') refl,
            simp append_assoc (read_back (common ++ (extended ++ payload))),
          )
        ]
      ]

  -- No indication; and sent on with one hop less, or the address is the device's own and at most one
  -- packet is sent.
  abbrev pub Located : BasicHeader → GnAddress → GnAddress → Answer fl hash link trig → Type 0
  Located b sought own a =
      (delivers a.answer ≡ false)
      × (SendsLower fl trig hash link b a.sent
          ⊎ ((Address.eq sought own ≡ true) × (length a.sent ≤ 1)))

  reply-sent :
      (so_entry : Entry fl) (r : Router fl)
      → (delivers (reply_to fl hash link trig (some so_entry) r).answer ≡ false)
        × (length (reply_to fl hash link trig (some so_entry) r).sent ≤ 1)
  unfolding reply_to
  reply-sent so_entry r =
      let sn = get_sequence_number r.sequence_number in
      let packet =
        ls_reply_packet (mib_of fl r) sn r.node.ego_position_vector
          (short_of so_entry.position_vector) in
      let r' = record r { sequence_number = sn } in
      (quiet-silent (hand_over fl hash link r' packet), handed-few r' packet)

  reply-few :
      (entry : Option (Entry fl)) (r : Router fl)
      → (delivers (reply_to fl hash link trig entry r).answer ≡ false)
        × (length (reply_to fl hash link trig entry r).sent ≤ 1)
  unfolding reply_to
  reply-few none r = (refl, omega arith)
  reply-few (some so_entry) r = reply-sent so_entry r

  received-Located :
      (header : LsRequestExtendedHeader) (payload : Bytes) (common_header : CommonHeader)
      (b : BasicHeader) (r : Router fl)
      → IsValid b
      → Located b header.request_gn_addr
          (mib_of fl r).its_gn_local_gn_addr
          (ls_request_received fl hash link trig header payload common_header b r)
  unfolding ls_request_received
  received-Located header payload common_header b r v =
      let so_entry = get_entry fl hash header.so_pv.gn_addr r.node.location_table in
      elim (Bool-cases (Address.eq header.request_gn_addr (mib_of fl r).its_gn_local_gn_addr)) [
        | inl own ↦
            let few = reply-few so_entry r in
            rw (ls_request_received, own) (few.0, inr (refl, few.1))
        | inr away ↦ elim (Bool-cases (rate_exceeded fl (mib_of fl r) so_entry)) [
          | inl exceeded ↦ rw (ls_request_received, away, exceeded) (refl, inl (inl refl))
          | inr within ↦ elim (Bool-cases (ltb 0 (b.rhl - 1))) [
            | inr last ↦ rw (ls_request_received, away, within, last) (refl, inl (inl refl))
            | inl hops ↦
                rw (ls_request_received, away, within, hops)
                  (
                    quiet-silent (
                        hand_over fl hash link r (
                          ls_request_forward_packet (set_rhl b (b.rhl - 1)) common_header header
                            payload)),
                    inl (
                        lower_of fl trig hash link b _ hops (
                          forward-cases (set_rhl b (b.rhl - 1)) common_header header payload r
                            (set_rhl-IsValid b (b.rhl - 1) v))),
                  )
          ]
        ]
      ]

  swallow-silent : (e : Error) → delivers (swallow e) ≡ false
  swallow-silent e = ground arith

  taken-Located :
      (b : BasicHeader) (sought : GnAddress) (r : Router fl) (taken : Result (Unit {0}))
      (t : LocationTable fl) (rest : Router fl → Answer fl hash link trig)
      → t.mib ≡ mib_of fl r
      → ((r' : Router fl) → Located b sought (mib_of fl r').its_gn_local_gn_addr (rest r'))
      → Located b sought
          (mib_of fl r).its_gn_local_gn_addr
          (if_taken fl hash link trig r taken t rest)
  taken-Located b sought r (err e) t rest same each = (swallow-silent e, inl (inl refl))
  taken-Located b sought r (ok done) t rest same each =
      subst (λ m. Located b sought m.its_gn_local_gn_addr (rest (with_table fl t r))) same
        (each (with_table fl t r))

  known-Located :
      (b : BasicHeader) (sought so : GnAddress) (r : Router fl) (taken : Result (Unit {0}))
      (t : LocationTable fl) (rest : Router fl → Answer fl hash link trig)
      → t.mib ≡ mib_of fl r
      → ((r' : Router fl) → Located b sought (mib_of fl r').its_gn_local_gn_addr (rest r'))
      → Located b sought
          (mib_of fl r).its_gn_local_gn_addr
          (unless_known fl hash link trig r so (taken, t) rest)
  known-Located b sought so r taken t rest same each =
      elim (Result-cases (duplicate_address_detection (mib_of fl r) so)) [
        | inr (e, own) ↦ rw (unless_known, own) (swallow-silent e, inl (inl refl))
        | inl (done, unique) ↦
            rw (unless_known, unique) (taken-Located b sought r taken t rest same each)
      ]

  stored-mib :
      (now : ℕ) (so : GnAddress) (updated : Result (Unit {0}) × Entry fl) (t : LocationTable fl)
      → (store fl hash now so updated t).1.mib ≡ t.mib
  unfolding store refresh_table
  stored-mib now so (ok done, entry) t = refl
  stored-mib now so (err e, entry) t = refl

  ensured-mib : (so : GnAddress) (t : LocationTable fl) → (ensure_entry fl hash so t).1.mib ≡ t.mib
  unfolding ensure_entry get_entry
  ensured-mib so t = ground arith

  table-mib :
      (now : ℕ) (header : LsRequestExtendedHeader) (payload : Bytes) (t : LocationTable fl)
      → (new_ls_request_packet fl hash now header payload t).1.mib ≡ t.mib
  unfolding new_ls_request_packet receive store
  table-mib now header payload t =
      stored-mib now header.so_pv.gn_addr
        (checked_update fl t.mib header.sn header.so_pv payload
          (is_none fl (get_entry fl hash header.so_pv.gn_addr t))
          (ensure_entry fl hash header.so_pv.gn_addr t).0)
        (ensure_entry fl hash header.so_pv.gn_addr t).1
      ∙ ensured-mib header.so_pv.gn_addr t

  -- A Location Service request with a valid Basic Header whose extended header decodes ends in no
  -- indication. It is sent on at most once, with a Basic Header that decodes to the received one with
  -- a hop limit that is one lower and not 0; but if the device's own address is sought, at most one
  -- packet of whatever kind is sent.
  pub gn_data_indicate_ls_request-sent :
      (now : ℕ) (packet : Bytes) (common_header : CommonHeader) (b : BasicHeader)
      (header : LsRequestExtendedHeader) (r : Router fl)
      → IsValid b
      → ls_request_decode (slice packet 0 36) ≡ ok header
      → Located b header.request_gn_addr
          (mib_of fl r).its_gn_local_gn_addr
          (gn_data_indicate_ls_request fl hash link trig now packet common_header b r)
  unfolding gn_data_indicate_ls_request
  gn_data_indicate_ls_request-sent now packet common_header b header r v decoded =
      rw (gn_data_indicate_ls_request, decoded)
        (known-Located b header.request_gn_addr header.so_pv.gn_addr r _ _
          (ls_request_received fl hash link trig header (drop 36 packet) common_header b)
          (table-mib now header (drop 36 packet) r.node.location_table)
          (λ r'. received-Located header (drop 36 packet) common_header b r' v))

-- ===== src/Geonet/Router/Anycast/Unicast.antt =====
-- What becomes of a GeoUnicast packet that the location table takes.
use mathlib.Core.List.{append_assoc}
use flex_stack.Prelude.{
  ℕ, ◌-◌, ◌≡◌, refl, inl, inr, ◌⊎◌, [], ◌++◌, drop, false, ltb, ◌&&◌, Option, Result, ok, err,
  Result-cases, Bool-cases, arith,
}
use flex_stack.Floats.{Floats, Trig}
use flex_stack.Bytes.{Bytes, slice}
use flex_stack.Geonet.Address
use flex_stack.Geonet.Address.{GnAddress}
use flex_stack.Geonet.BasicHeader.{BasicHeader, set_rhl}
use flex_stack.Geonet.BasicHeader.RoundTrip.{IsValid}
use flex_stack.Geonet.CommonHeader as Common
use flex_stack.Geonet.CommonHeader.{CommonHeader}
use flex_stack.Geonet.Request.{GnDataIndication}
use flex_stack.Geonet.ExtendedHeaders.{GucExtendedHeader, guc_encode, guc_decode}
use flex_stack.Geonet.LocationTable.{LocationTable, get_entry, get_neighbours, new_guc_packet}
use flex_stack.Geonet.Router.{is_empty, rate_exceeded, duplicate_address_detection}
use flex_stack.Geonet.Router.Area.{Node, gn_greedy_forwarding}
use flex_stack.Geonet.Router.Geo.{Link, Done, transmit, after_table}
use flex_stack.Geonet.Router.Geo.Sent.{SendsWith, set_rhl-IsValid, octets}
use flex_stack.Geonet.Router.Anycast.{guc_packet, guc_forward, guc_received, gn_data_indicate_guc}
use flex_stack.Geonet.Router.Geo.Sent.{SendsLower, lower_of}
use flex_stack.Geonet.Router.Anycast.Sent.{delivers, answer-silent}

module _ (fl : Floats) (trig : Trig fl) (hash : GnAddress → ℕ) (link : Link) where
  guc-cases :
      (b : BasicHeader) (common_header : CommonHeader) (header : GucExtendedHeader) (packet : Bytes)
      (node : Node fl)
      → IsValid b
      → SendsWith b
          (transmit fl trig hash link node
            (guc_packet fl trig hash link b common_header header packet)).sent
  unfolding guc_packet
  guc-cases b common_header header packet node v =
      let (basic, encoded, read_back) = octets b v in
      elim (Result-cases (Common.encode_to_bytes common_header)) [
        | inr (e, fails) ↦ inl (rw (encoded, fails) refl)
        | inl (common, done) ↦ elim (Result-cases (guc_encode header)) [
          | inr (e, fails) ↦ inl (rw (encoded, done, fails) refl)
          | inl (extended, done') ↦ inr (
            basic ++ common ++ extended ++ packet,
            rw (encoded, done, done') refl,
            simp append_assoc (read_back (common ++ (extended ++ packet))),
          )
        ]
      ]

  guc_forward-SendsLower :
      (common_header : CommonHeader) (b : BasicHeader) (header : GucExtendedHeader) (packet : Bytes)
      (node : Node fl)
      → IsValid b
      → SendsLower fl trig hash link b
          (guc_forward fl trig hash link common_header b header packet node).sent
  unfolding guc_forward
  guc_forward-SendsLower common_header b header packet node v =
      elim (Bool-cases (ltb 0 (b.rhl - 1))) [
        | inr last ↦ inl (rw last refl)
        | inl hops ↦
            elim (Bool-cases
              (is_empty fl (get_neighbours fl node.location_table) && common_header.tc.scf)) [
                | inl alone ↦ inl (rw (hops, alone) refl)
                | inr together ↦
                    elim (Bool-cases (
                      gn_greedy_forwarding fl trig header.de_pv.latitude header.de_pv.longitude
                        common_header.tc.scf node)) [
                          | inl onwards ↦
                              rw (hops, together, onwards)
                                (lower_of fl trig hash link b _ hops (
                                  guc-cases (set_rhl b (b.rhl - 1)) common_header header packet node
                                    (set_rhl-IsValid b (b.rhl - 1) v)))
                          | inr kept ↦ inl (rw (hops, together, kept) refl)
                        ]
              ]
      ]

  -- Delivered to this device, or sent on with one hop less.
  abbrev Either : BasicHeader → Done fl (Option GnDataIndication) → Type 0
  Either b d = SendsLower fl trig hash link b d.sent × ((d.sent ≡ []) ⊎ (delivers d.answer ≡ false))

  guc_forward-silent :
      (common_header : CommonHeader) (b : BasicHeader) (header : GucExtendedHeader) (packet : Bytes)
      (node : Node fl)
      → delivers (guc_forward fl trig hash link common_header b header packet node).answer ≡ false
  unfolding guc_forward
  guc_forward-silent common_header b header packet node = ground (
    arith,
    answer-silent fl trig hash link (
        transmit fl trig hash link node
          (guc_packet fl trig hash link (set_rhl b (b.rhl - 1)) common_header header packet)),
  )

  guc_received-Either :
      (common_header : CommonHeader) (b : BasicHeader) (header : GucExtendedHeader) (packet : Bytes)
      (node : Node fl)
      → IsValid b
      → Either b (guc_received fl trig hash link common_header b header packet node)
  unfolding guc_received
  guc_received-Either common_header b header packet node v =
      elim (Bool-cases
        (Address.eq header.de_pv.gn_addr node.location_table.mib.its_gn_local_gn_addr)) [
          | inl here ↦ rw here (inl refl, inl refl)
          | inr away ↦
              elim (Bool-cases (
                rate_exceeded fl node.location_table.mib
                  (get_entry fl hash header.so_pv.gn_addr node.location_table))) [
                    | inl exceeded ↦ rw (away, exceeded) (inl refl, inl refl)
                    | inr within ↦
                        rw (away, within)
                          (
                            guc_forward-SendsLower common_header b _ packet node v,
                            inr (guc_forward-silent common_header b _ packet node),
                          )
                  ]
        ]

  after-Either :
      (b : BasicHeader) (rest : Node fl → Done fl (Option GnDataIndication)) (node : Node fl)
      (r : Result (Unit {0}) × LocationTable fl)
      → ((n : Node fl) → Either b (rest n))
      → Either b (after_table fl trig hash link node r rest)
  after-Either b rest node (ok done, t) each = each (record node { location_table = t })
  after-Either b rest node (err e, t) each = (inl refl, inl refl)

  -- A GeoUnicast packet with a valid Basic Header is not both delivered and sent on. It is sent on at
  -- most once, and what is sent has a Basic Header that decodes to the received one with a hop limit
  -- that is one lower and not 0.
  pub gn_data_indicate_guc-sent :
      (now : ℕ) (packet : Bytes) (common_header : CommonHeader) (b : BasicHeader) (node : Node fl)
      → IsValid b
      → SendsLower fl trig hash link b
          (gn_data_indicate_guc fl trig hash link now packet common_header b node).sent
        × (((gn_data_indicate_guc fl trig hash link now packet common_header b node).sent ≡ [])
            ⊎ (delivers
                  (gn_data_indicate_guc fl trig hash link now packet common_header b node).answer
                ≡ false))
  unfolding gn_data_indicate_guc
  gn_data_indicate_guc-sent now packet common_header b node v =
      elim (Result-cases (guc_decode (slice packet 0 48))) [
        | inr (e, fails) ↦ rw (gn_data_indicate_guc, fails) (inl refl, inl refl)
        | inl (header, decoded) ↦
            elim (Result-cases
              (duplicate_address_detection node.location_table.mib header.so_pv.gn_addr)) [
                | inr (e, own) ↦ rw (gn_data_indicate_guc, decoded, own) (inl refl, inl refl)
                | inl (done, unique) ↦
                    rw (gn_data_indicate_guc, decoded, unique)
                      (after-Either b
                        (guc_received fl trig hash link common_header b header (drop 48 packet))
                        node
                        (new_guc_packet fl hash now header (drop 48 packet) node.location_table)
                        (λ n. guc_received-Either common_header b header (drop 48 packet) n v))
              ]
      ]

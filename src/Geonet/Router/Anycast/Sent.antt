-- ===== src/Geonet/Router/Anycast/Sent.antt =====
-- What becomes of a GeoAnycast or GeoUnicast packet that the location table takes.
use flex_stack.Prelude.{
  ℕ, ◌+◌, ◌≡◌, refl, inl, inr, ◌⊎◌, [], drop, Bool, true, false, ◌==◌, ◌&&◌, Option, none, some,
  Result, ok, err, Error, Result-cases, Bool-cases, arith,
}
use flex_stack.Floats.{Floats, Trig}
use flex_stack.Bytes.{Bytes, slice}
use flex_stack.Geonet.Address.{GnAddress}
use flex_stack.Geonet.BasicHeader.{BasicHeader, set_rhl}
use flex_stack.Geonet.BasicHeader.RoundTrip.{IsValid}
use flex_stack.Geonet.CommonHeader.{CommonHeader}
use flex_stack.Geonet.Request.{GnDataIndication, ResultCode}
use flex_stack.Geonet.ExtendedHeaders.{GbcExtendedHeader, gbc_decode}
use flex_stack.Geonet.LocationTable.{LocationTable, get_entry, get_neighbours, new_gac_packet}
use flex_stack.Geonet.Router.{swallow, is_empty, rate_exceeded, duplicate_address_detection}
use flex_stack.Geonet.Router.Area.{Node, gn_greedy_forwarding, gbc_packet}
use flex_stack.Geonet.Router.Geo.{
  Link, lower, Done, transmit, then_deliver, area_of, too_large, after_table,
}
use flex_stack.Geonet.Router.Geo.Sent.{SendsWith, lower-IsValid, transmit-SendsWith}
use flex_stack.Geonet.Router.Anycast.{
  gac_forward, unless_inside, sender_inside, gac_received, gac_known, gn_data_indicate_gac,
}

abbrev pub delivers : Result (Option GnDataIndication) → Bool
delivers (ok (some indication)) = true
delivers _ = false

module _ (fl : Floats) (trig : Trig fl) (hash : GnAddress → ℕ) (link : Link) where
  gac_forward-SendsWith :
      (common_header : CommonHeader) (b : BasicHeader) (header : GbcExtendedHeader) (packet : Bytes)
      (node : Node fl)
      → IsValid b
      → SendsWith (lower b) (gac_forward fl trig hash link common_header b header packet node).sent
  unfolding gac_forward
  gac_forward-SendsWith common_header b header packet node v = elim (Bool-cases (b.rhl == 1)) [
    | inl last ↦ inl (rw last refl)
    | inr hops ↦
        elim (Bool-cases
          (is_empty fl (get_neighbours fl node.location_table) && common_header.tc.scf)) [
            | inl alone ↦ inl (rw (hops, alone) refl)
            | inr together ↦
                elim (Bool-cases (
                  gn_greedy_forwarding fl trig header.latitude header.longitude common_header.tc.scf
                    node)) [
                      | inl onwards ↦
                          rw (hops, together, onwards)
                            (transmit-SendsWith fl trig hash link (lower b) common_header header
                              packet node (lower-IsValid b v))
                      | inr kept ↦ inl (rw (hops, together, kept) refl)
                    ]
          ]
  ]

  unless-SendsWith :
      (r : Result Bool) (common_header : CommonHeader) (b : BasicHeader)
      (header : GbcExtendedHeader) (packet : Bytes) (node : Node fl)
      → IsValid b
      → SendsWith
          (lower b)
          (unless_inside fl trig hash link r common_header b header packet node).sent
  unfolding unless_inside
  unless-SendsWith (err e) common_header b header packet node v = inl refl
  unless-SendsWith (ok true) common_header b header packet node v = inl refl
  unless-SendsWith (ok false) common_header b header packet node v =
      gac_forward-SendsWith common_header b header packet node v

  gac_received-SendsWith :
      (inside : Bool) (common_header : CommonHeader) (b : BasicHeader) (header : GbcExtendedHeader)
      (packet : Bytes) (node : Node fl)
      → IsValid b
      → SendsWith
          (lower b)
          (gac_received fl trig hash link inside common_header b header packet node).sent
  unfolding gac_received
  gac_received-SendsWith true common_header b header packet node v = inl refl
  gac_received-SendsWith false common_header b header packet node v =
      elim (Bool-cases (too_large fl trig hash link common_header.hst (area_of header) node)) [
        | inl large ↦ inl (rw large refl)
        | inr fits ↦
            elim (Bool-cases (
              rate_exceeded fl node.location_table.mib
                (get_entry fl hash header.so_pv.gn_addr node.location_table))) [
                  | inl exceeded ↦ inl (rw (fits, exceeded) refl)
                  | inr within ↦
                      rw (fits, within) (unless-SendsWith _ common_header b header packet node v)
                ]
      ]

  -- What a packet is delivered from is not sent on, and what is sent on has the given Basic Header.
  abbrev pub DeliversOrSends : BasicHeader → Done fl (Option GnDataIndication) → Type 0
  DeliversOrSends b d = SendsWith b d.sent × ((d.sent ≡ []) ⊎ (delivers d.answer ≡ false))

  pub swallow-silent : (e : Error) → delivers (swallow e) ≡ false
  swallow-silent e = ground arith

  pub answer-silent :
      (d : Done fl ResultCode) → delivers (then_deliver fl trig hash link none d).answer ≡ false
  answer-silent d = elim (Result-cases d.answer) [
    | inl (code, e) ↦ rw e refl
    | inr (x, e) ↦ rw e (swallow-silent x)
  ]

  gac_forward-silent :
      (common_header : CommonHeader) (b : BasicHeader) (header : GbcExtendedHeader) (packet : Bytes)
      (node : Node fl)
      → delivers (gac_forward fl trig hash link common_header b header packet node).answer ≡ false
  unfolding gac_forward
  gac_forward-silent common_header b header packet node = ground (
    arith,
    answer-silent (
        transmit fl trig hash link node
          (gbc_packet fl trig hash (lower b) common_header header packet)),
  )

  unless-silent :
      (r : Result Bool) (common_header : CommonHeader) (b : BasicHeader)
      (header : GbcExtendedHeader) (packet : Bytes) (node : Node fl)
      → delivers (unless_inside fl trig hash link r common_header b header packet node).answer
        ≡ false
  unfolding unless_inside
  unless-silent (err e) common_header b header packet node = swallow-silent e
  unless-silent (ok true) common_header b header packet node = refl
  unless-silent (ok false) common_header b header packet node =
      gac_forward-silent common_header b header packet node

  gac_received-exclusive :
      (inside : Bool) (common_header : CommonHeader) (b : BasicHeader) (header : GbcExtendedHeader)
      (packet : Bytes) (node : Node fl)
      → ((gac_received fl trig hash link inside common_header b header packet node).sent ≡ [])
        ⊎ (delivers
              (gac_received fl trig hash link inside common_header b header packet node).answer
            ≡ false)
  unfolding gac_received
  gac_received-exclusive true common_header b header packet node = inl refl
  gac_received-exclusive false common_header b header packet node = inr (
      ground (
        arith,
        unless-silent
            (sender_inside fl trig hash link common_header.hst (area_of header)
              (get_entry fl hash header.so_pv.gn_addr node.location_table))
            common_header b header packet node,
      ))

  after-either :
      (b : BasicHeader) (rest : Node fl → Done fl (Option GnDataIndication)) (node : Node fl)
      (r : Result (Unit {0}) × LocationTable fl)
      → ((n : Node fl) → DeliversOrSends b (rest n))
      → DeliversOrSends b (after_table fl trig hash link node r rest)
  after-either b rest node (ok done, t) each = each (record node { location_table = t })
  after-either b rest node (err e, t) each = (inl refl, inl refl)

  gac_known-either :
      (now : ℕ) (f : Result fl.Float) (common_header : CommonHeader) (b : BasicHeader)
      (header : GbcExtendedHeader) (packet : Bytes) (node : Node fl)
      → IsValid b
      → DeliversOrSends
          (lower b)
          (gac_known fl trig hash link now f common_header b header packet node)
  unfolding gac_known
  gac_known-either now (err e) common_header b header packet node v = (inl refl, inl refl)
  gac_known-either now (ok area_f) common_header b header packet node v =
      elim (Result-cases
        (duplicate_address_detection node.location_table.mib header.so_pv.gn_addr)) [
          | inr (e, own) ↦ rw (gac_known, own) (inl refl, inl refl)
          | inl (done, unique) ↦
              rw (gac_known, unique)
                (after-either (lower b)
                  (gac_received fl trig hash link (trig.fle (fl.of_int 0) area_f) common_header b
                    header packet)
                  node (new_gac_packet fl hash now header packet node.location_table)
                  (λ n. (
                    gac_received-SendsWith (trig.fle (fl.of_int 0) area_f) common_header b header
                        packet n v,
                    gac_received-exclusive (trig.fle (fl.of_int 0) area_f) common_header b header
                        packet n,
                  )))
        ]

  -- A GeoAnycast packet with a valid Basic Header is not both delivered and sent on. It is sent on
  -- at most once, and what is sent has a Basic Header that decodes to the received one with a hop
  -- limit that is one lower modulo 256.
  pub gn_data_indicate_gac-sent :
      (now : ℕ) (packet : Bytes) (common_header : CommonHeader) (b : BasicHeader) (node : Node fl)
      → IsValid b
      → SendsWith
          (set_rhl b (b.rhl + 255))
          (gn_data_indicate_gac fl trig hash link now packet common_header b node).sent
        × (((gn_data_indicate_gac fl trig hash link now packet common_header b node).sent ≡ [])
            ⊎ (delivers
                  (gn_data_indicate_gac fl trig hash link now packet common_header b node).answer
                ≡ false))
  unfolding gn_data_indicate_gac lower
  gn_data_indicate_gac-sent now packet common_header b node v =
      elim (Result-cases (gbc_decode (slice packet 0 44))) [
        | inr (e, fails) ↦ rw (gn_data_indicate_gac, fails) (inl refl, inl refl)
        | inl (header, decoded) ↦
            rw (gn_data_indicate_gac, decoded)
              (gac_known-either now _ common_header b header (drop 44 packet) node v)
      ]

-- ===== src/Geonet/Router/Anycast/Hops.antt =====
-- For which hop limits the GeoAnycast handler sends a packet on.
use mathlib.Core.List.{append_assoc}
use flex_stack.Prelude.{
  ℕ, ◌+◌, ◌≡◌, refl, inl, inr, ◌⊎◌, List, [], ◌∷◌, ◌++◌, drop, Bool, true, false, ◌==◌, ◌&&◌,
  Option, Result, ok, err, Result-cases, Bool-cases,
}
use flex_stack.Floats.{Floats, Trig}
use flex_stack.Bytes.{Bytes, slice}
use flex_stack.Geonet.Address.{GnAddress}
use flex_stack.Geonet.BasicHeader as Basic
use flex_stack.Geonet.BasicHeader.{BasicHeader, set_rhl}
use flex_stack.Geonet.BasicHeader.RoundTrip.{IsValid}
use flex_stack.Geonet.CommonHeader as Common
use flex_stack.Geonet.CommonHeader.{CommonHeader}
use flex_stack.Geonet.Request.{GnDataIndication}
use flex_stack.Geonet.ExtendedHeaders.{GbcExtendedHeader, gbc_encode, gbc_decode}
use flex_stack.Geonet.LocationTable.{LocationTable, get_entry, get_neighbours, new_gac_packet}
use flex_stack.Geonet.Router.{is_empty, rate_exceeded, duplicate_address_detection}
use flex_stack.Geonet.Router.Area.{Node, gn_greedy_forwarding, gbc_packet}
use flex_stack.Geonet.Router.Geo.{Link, Done, lower, transmit, area_of, too_large, after_table}
use flex_stack.Geonet.Router.Geo.Sent.{lower-IsValid, octets}
use flex_stack.Geonet.Router.Anycast.{
  gac_forward, unless_inside, gac_received, gac_known, gn_data_indicate_gac,
}

-- Nothing is sent in both cases, or one packet in each, with the Basic Headers.
abbrev pub SendAlike : BasicHeader → BasicHeader → List Bytes → List Bytes → Type 0
SendAlike b b' sent sent' =
    ((sent ≡ []) × (sent' ≡ []))
    ⊎ ((bs : Bytes) × (bs' : Bytes) × (sent ≡ bs ∷ [])
        × (sent' ≡ bs' ∷ [])
        × (Basic.decode_from_bytes bs ≡ ok b)
        × (Basic.decode_from_bytes bs' ≡ ok b'))

module _ (fl : Floats) (trig : Trig fl) (hash : GnAddress → ℕ) (link : Link) where
  transmit-SendAlike :
      (b b' : BasicHeader) (common_header : CommonHeader) (header : GbcExtendedHeader)
      (packet : Bytes) (node : Node fl)
      → IsValid b
      → IsValid b'
      → SendAlike b b'
          (transmit fl trig hash link node
            (gbc_packet fl trig hash b common_header header packet)).sent
          (transmit fl trig hash link node
            (gbc_packet fl trig hash b' common_header header packet)).sent
  unfolding gbc_packet
  transmit-SendAlike b b' common_header header packet node v v' =
      let (basic, encoded, read_back) = octets b v in
      let (basic', encoded', read_back') = octets b' v' in
      elim (Result-cases (Common.encode_to_bytes common_header)) [
        | inr (e, fails) ↦ inl (rw (encoded, encoded', fails) (refl, refl))
        | inl (common, done) ↦ elim (Result-cases (gbc_encode header)) [
          | inr (e, fails) ↦ inl (rw (encoded, encoded', done, fails) (refl, refl))
          | inl (extended, done') ↦ inr (
            basic ++ common ++ extended ++ packet,
            basic' ++ common ++ extended ++ packet,
            rw (encoded, done, done') refl,
            rw (encoded', done, done') refl,
            simp append_assoc (read_back (common ++ (extended ++ packet))),
            simp append_assoc (read_back' (common ++ (extended ++ packet))),
          )
        ]
      ]

  -- Two valid Basic Headers, neither of which has a hop limit of 1.
  module _ (b b' : BasicHeader) (v : IsValid b) (v' : IsValid b') (hops : (b.rhl == 1) ≡ false)
      (hops' : (b'.rhl == 1) ≡ false) where
    abbrev Alike : (BasicHeader → Done fl (Option GnDataIndication)) → Type 0
    Alike handler = SendAlike (lower b) (lower b') (handler b).sent (handler b').sent

    gac_forward-Alike :
        (common_header : CommonHeader) (header : GbcExtendedHeader) (packet : Bytes)
        (node : Node fl)
        → Alike (λ h. gac_forward fl trig hash link common_header h header packet node)
    unfolding gac_forward
    gac_forward-Alike common_header header packet node =
        elim (Bool-cases
          (is_empty fl (get_neighbours fl node.location_table) && common_header.tc.scf)) [
            | inl alone ↦ inl (rw (hops, hops', alone) (refl, refl))
            | inr together ↦
                elim (Bool-cases (
                  gn_greedy_forwarding fl trig header.latitude header.longitude common_header.tc.scf
                    node)) [
                      | inl onwards ↦
                          rw (hops, hops', together, onwards)
                            (transmit-SendAlike (lower b) (lower b') common_header header packet
                              node (lower-IsValid b v) (lower-IsValid b' v'))
                      | inr kept ↦ inl (rw (hops, hops', together, kept) (refl, refl))
                    ]
          ]

    unless-Alike :
        (r : Result Bool) (common_header : CommonHeader) (header : GbcExtendedHeader)
        (packet : Bytes) (node : Node fl)
        → Alike (λ h. unless_inside fl trig hash link r common_header h header packet node)
    unfolding unless_inside
    unless-Alike (err e) common_header header packet node = inl (refl, refl)
    unless-Alike (ok true) common_header header packet node = inl (refl, refl)
    unless-Alike (ok false) common_header header packet node =
        gac_forward-Alike common_header header packet node

    received-Alike :
        (inside : Bool) (common_header : CommonHeader) (header : GbcExtendedHeader) (packet : Bytes)
        (node : Node fl)
        → Alike (λ h. gac_received fl trig hash link inside common_header h header packet node)
    unfolding gac_received
    received-Alike true common_header header packet node = inl (refl, refl)
    received-Alike false common_header header packet node =
        elim (Bool-cases (too_large fl trig hash link common_header.hst (area_of header) node)) [
          | inl large ↦ inl (rw large (refl, refl))
          | inr fits ↦
              elim (Bool-cases (
                rate_exceeded fl node.location_table.mib
                  (get_entry fl hash header.so_pv.gn_addr node.location_table))) [
                    | inl exceeded ↦ inl (rw (fits, exceeded) (refl, refl))
                    | inr within ↦
                        rw (fits, within) (unless-Alike _ common_header header packet node)
                  ]
        ]

    after-Alike :
        (rest : BasicHeader → Node fl → Done fl (Option GnDataIndication)) (node : Node fl)
        (r : Result (Unit {0}) × LocationTable fl)
        → ((n : Node fl) → Alike (λ h. rest h n))
        → Alike (λ h. after_table fl trig hash link node r (rest h))
    after-Alike rest node (ok done, t) each = each (record node { location_table = t })
    after-Alike rest node (err e, t) each = inl (refl, refl)

    known-Alike :
        (now : ℕ) (f : Result fl.Float) (common_header : CommonHeader) (header : GbcExtendedHeader)
        (packet : Bytes) (node : Node fl)
        → Alike (λ h. gac_known fl trig hash link now f common_header h header packet node)
    unfolding gac_known
    known-Alike now (err e) common_header header packet node = inl (refl, refl)
    known-Alike now (ok area_f) common_header header packet node =
        elim (Result-cases
          (duplicate_address_detection node.location_table.mib header.so_pv.gn_addr)) [
            | inr (e, own) ↦ inl (rw (gac_known, own) (refl, refl))
            | inl (done, unique) ↦
                rw (gac_known, unique)
                  (after-Alike
                    (λ h.
                      gac_received fl trig hash link (trig.fle (fl.of_int 0) area_f) common_header h
                        header packet)
                    node (new_gac_packet fl hash now header packet node.location_table)
                    (received-Alike (trig.fle (fl.of_int 0) area_f) common_header header packet))
          ]

  -- Of two valid Basic Headers neither has a hop limit of 1, but one may have one of 0: a GeoAnycast
  -- packet that is received with the one is sent on exactly if it is with the other, both times once
  -- and with a hop limit that is one lower modulo 256. So where a packet with hops left is sent on,
  -- the same packet with a hop limit of 0 is sent on with one of 255.
  pub gn_data_indicate_gac_alike :
      (now : ℕ) (packet : Bytes) (common_header : CommonHeader) (b b' : BasicHeader)
      (node : Node fl)
      → IsValid b
      → IsValid b'
      → (b.rhl == 1) ≡ false
      → (b'.rhl == 1) ≡ false
      → SendAlike
          (set_rhl b (b.rhl + 255))
          (set_rhl b' (b'.rhl + 255))
          (gn_data_indicate_gac fl trig hash link now packet common_header b node).sent
          (gn_data_indicate_gac fl trig hash link now packet common_header b' node).sent
  unfolding gn_data_indicate_gac lower
  gn_data_indicate_gac_alike now packet common_header b b' node v v' hops hops' =
      elim (Result-cases (gbc_decode (slice packet 0 44))) [
        | inr (e, fails) ↦ inl (rw (gn_data_indicate_gac, fails) (refl, refl))
        | inl (header, decoded) ↦
            rw (gn_data_indicate_gac, decoded)
              (known-Alike b b' v v' hops hops' now _ common_header header (drop 44 packet) node)
      ]

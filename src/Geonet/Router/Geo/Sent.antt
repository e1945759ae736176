-- ===== src/Geonet/Router/Geo/Sent.antt =====
-- What the forwarders of packets with an area give the link layer.
use mathlib.Core.List.{append_assoc}
use mathlib.Core.Path.{subst}
use flex_stack.Prelude.{
  ℕ, ◌+◌, ◌-◌, ◌%◌, ◌<◌, ◌≡◌, refl, inl, inr, ◌⊎◌, List, [], ◌∷◌, ◌++◌, drop, Bool, true, not, ltb,
  ◌||◌, Result, ok, err, Error, Result-cases, Bool-cases, arith,
}
use flex_stack.Floats.{Floats, Trig}
use flex_stack.Bytes.{Bytes, slice}
use flex_stack.Geonet.Address.{GnAddress}
use flex_stack.Geonet.BasicHeader as Basic
use flex_stack.Geonet.BasicHeader.{BasicHeader, set_rhl}
use flex_stack.Geonet.BasicHeader.RoundTrip.{IsValid, encode_to_bytes-eq, decode_from_bytes-eq}
use flex_stack.Geonet.CommonHeader as Common
use flex_stack.Geonet.CommonHeader.{CommonHeader}
use flex_stack.Geonet.ExtendedHeaders.{GbcExtendedHeader, gbc_encode, gbc_decode}
use flex_stack.Geonet.LocationTable.{LocationTable, get_entry, get_neighbours, new_gbc_packet}
use flex_stack.Geonet.Router.{is_empty, rate_exceeded, duplicate_address_detection}
use flex_stack.Geonet.Router.Area.{
  Node, GnForwardingAlgorithmResponse, area_forwarding, non_area_forwarding, discarted, gbc_packet,
  gn_greedy_forwarding,
}
use flex_stack.Geonet.Router.Geo.{
  Link, area_of, too_large, gbc_received, known_area, after_table, gn_data_indicate_gbc, is_cbf,
  lower, transmit, buffered, by_algorithm, gn_data_forward_gbc,
}

-- No packet, or one whose Basic Header decodes to the given one.
abbrev pub SendsWith : BasicHeader → List Bytes → Type 0
SendsWith basic_header sent =
    (sent ≡ []) ⊎ ((bs : Bytes) × (sent ≡ bs ∷ []) × (Basic.decode_from_bytes bs ≡ ok basic_header))

-- The header with a changed hop limit has the widths of the old one.
pub set_rhl-IsValid : (h : BasicHeader) (rhl : ℕ) → IsValid h → IsValid (set_rhl h rhl)
unfolding set_rhl
set_rhl-IsValid h rhl v = record {
  version = v.version;
  reserved = v.reserved;
  multiplier = v.multiplier;
  rhl = omega arith;
}

pub lower-IsValid : (b : BasicHeader) → IsValid b → IsValid (lower b)
unfolding lower
lower-IsValid b v = set_rhl-IsValid b (b.rhl + 255) v

-- With hops left, the lowered hop limit is one lower.
lower-eq :
    (b : BasicHeader) → IsValid b → ltb 0 (b.rhl - 1) ≡ true → lower b ≡ set_rhl b (b.rhl - 1)
unfolding lower set_rhl
lower-eq b v hops = λ i. record b { rhl = same i }
  where
    same : (b.rhl + 255) % 256 ≡ (b.rhl - 1) % 256
    same = ground (arith, hops, v.rhl)

pub octets :
    (b : BasicHeader)
    → IsValid b
    → (basic : Bytes) × (Basic.encode_to_bytes b ≡ ok basic)
      × ((rest : Bytes) → Basic.decode_from_bytes (basic ++ rest) ≡ ok b)
octets b v = (_, encode_to_bytes-eq b v, decode_from_bytes-eq b v)

module _ (fl : Floats) (trig : Trig fl) (hash : GnAddress → ℕ) (link : Link) where
  packet-cases :
      (b : BasicHeader) (common_header : CommonHeader) (header : GbcExtendedHeader) (packet : Bytes)
      → IsValid b
      → ((e : Error) × (gbc_packet fl trig hash b common_header header packet ≡ err e))
        ⊎ ((bs : Bytes) × (gbc_packet fl trig hash b common_header header packet ≡ ok bs)
            × (Basic.decode_from_bytes bs ≡ ok b))
  unfolding gbc_packet
  packet-cases b common_header header packet v =
      let (basic, encoded, read_back) = octets b v in
      elim (Result-cases (Common.encode_to_bytes common_header)) [
        | inr (e, fails) ↦ inl (e, rw (encoded, fails) refl)
        | inl (common, done) ↦ elim (Result-cases (gbc_encode header)) [
          | inr (e, fails) ↦ inl (e, rw (encoded, done, fails) refl)
          | inl (extended, done') ↦ inr (
            basic ++ common ++ extended ++ packet,
            rw (encoded, done, done') refl,
            simp append_assoc (read_back (common ++ (extended ++ packet))),
          )
        ]
      ]

  pub transmit-SendsWith :
      (b : BasicHeader) (common_header : CommonHeader) (header : GbcExtendedHeader) (packet : Bytes)
      (node : Node fl)
      → IsValid b
      → SendsWith b
          (transmit fl trig hash link node
            (gbc_packet fl trig hash b common_header header packet)).sent
  transmit-SendsWith b common_header header packet node v =
      elim (packet-cases b common_header header packet v) [
        | inl (e, fails) ↦ inl (rw fails refl)
        | inr (bs, made, decoded) ↦ inr (bs, rw made refl, decoded)
      ]

  buffered-sent : (r : Result Bool × Node fl) → (buffered fl trig hash link r).sent ≡ []
  buffered-sent (ok b, node) = refl
  buffered-sent (err e, node) = refl

  algorithm-SendsWith :
      (r : Result GnForwardingAlgorithmResponse) (b : BasicHeader) (common_header : CommonHeader)
      (header : GbcExtendedHeader) (packet : Bytes) (node : Node fl)
      → IsValid b
      → SendsWith b (by_algorithm fl trig hash link r b common_header header packet node).sent
  unfolding by_algorithm
  algorithm-SendsWith (err e) b common_header header packet node v = inl refl
  algorithm-SendsWith (ok discarted) b common_header header packet node v = inl refl
  algorithm-SendsWith (ok area_forwarding) b common_header header packet node v =
      elim (Bool-cases (is_cbf node.location_table.mib.its_gn_area_forwarding_algorithm)) [
        | inl so ↦ inl (rw so (buffered-sent _))
        | inr otherwise ↦ rw otherwise (transmit-SendsWith b common_header header packet node v)
      ]
  algorithm-SendsWith (ok non_area_forwarding) b common_header header packet node v =
      elim (Bool-cases
        (gn_greedy_forwarding fl trig header.latitude header.longitude common_header.tc.scf node)) [
          | inl so ↦ rw so (transmit-SendsWith b common_header header packet node v)
          | inr otherwise ↦ inl (rw otherwise refl)
        ]

  pub forward-SendsWith :
      (b : BasicHeader) (common_header : CommonHeader) (header : GbcExtendedHeader) (packet : Bytes)
      (node : Node fl)
      → IsValid b
      → SendsWith
          (lower b)
          (gn_data_forward_gbc fl trig hash link b common_header header packet node).sent
  unfolding gn_data_forward_gbc
  forward-SendsWith b common_header header packet node v =
      let v' = lower-IsValid b v in
      elim (Bool-cases
        (not (is_empty fl (get_neighbours fl node.location_table)) || not common_header.tc.scf)) [
          | inl so ↦ rw so (algorithm-SendsWith _ _ common_header header packet node v')
          | inr otherwise ↦ rw otherwise (transmit-SendsWith _ common_header header packet node v')
        ]

  -- No packet, or one with a hop limit that is one lower than the received one and not 0.
  abbrev pub SendsLower : BasicHeader → List Bytes → Type 0
  SendsLower b sent =
      (sent ≡ [])
      ⊎ ((1 < b.rhl)
          × ((bs : Bytes) × (sent ≡ bs ∷ [])
              × (Basic.decode_from_bytes bs ≡ ok (set_rhl b (b.rhl - 1)))))

  pub lower_of :
      (b : BasicHeader) (sent : List Bytes)
      → ltb 0 (b.rhl - 1) ≡ true
      → SendsWith (set_rhl b (b.rhl - 1)) sent
      → SendsLower b sent
  lower_of b sent hops (inl nothing) = inl nothing
  lower_of b sent hops (inr made) = inr (ground (arith, hops), made)

  received-SendsLower :
      (inside : Bool) (common_header : CommonHeader) (b : BasicHeader) (header : GbcExtendedHeader)
      (packet : Bytes) (node : Node fl)
      → IsValid b
      → SendsLower b (gbc_received fl trig hash link inside common_header b header packet node).sent
  unfolding gbc_received
  received-SendsLower inside common_header b header packet node v =
      elim (Bool-cases (too_large fl trig hash link common_header.hst (area_of header) node)) [
        | inl large ↦ inl (rw large refl)
        | inr fits ↦
            elim (Bool-cases (
              rate_exceeded fl node.location_table.mib
                (get_entry fl hash header.so_pv.gn_addr node.location_table))) [
                  | inl exceeded ↦ inl (rw (fits, exceeded) refl)
                  | inr within ↦ elim (Bool-cases (ltb 0 (b.rhl - 1))) [
                    | inr last ↦ inl (rw (fits, within, last) refl)
                    | inl hops ↦
                        rw (fits, within, hops)
                          (lower_of b _ hops (
                            subst
                              (λ h.
                                SendsWith h
                                  (gn_data_forward_gbc fl trig hash link b common_header header
                                    packet node).sent)
                              (lower-eq b v hops)
                              (forward-SendsWith b common_header header packet node v)))
                  ]
                ]
      ]

  after-SendsLower :
      (b : BasicHeader) (common_header : CommonHeader) (inside : Bool) (header : GbcExtendedHeader)
      (packet : Bytes) (node : Node fl) (r : Result (Unit {0}) × LocationTable fl)
      → IsValid b
      → SendsLower b
          (after_table fl trig hash link node r
            (gbc_received fl trig hash link inside common_header b header packet)).sent
  after-SendsLower b common_header inside header packet node (ok done, t) v =
      received-SendsLower inside common_header b header packet (record node { location_table = t })
        v
  after-SendsLower b common_header inside header packet node (err e, t) v = inl refl

  known-SendsLower :
      (now : ℕ) (f : Result fl.Float) (common_header : CommonHeader) (b : BasicHeader)
      (header : GbcExtendedHeader) (packet : Bytes) (node : Node fl)
      → IsValid b
      → SendsLower b (known_area fl trig hash link now f common_header b header packet node).sent
  unfolding known_area
  known-SendsLower now (err e) common_header b header packet node v = inl refl
  known-SendsLower now (ok area_f) common_header b header packet node v =
      elim (Result-cases
        (duplicate_address_detection node.location_table.mib header.so_pv.gn_addr)) [
          | inr (e, own) ↦ inl (rw (known_area, own) refl)
          | inl (done, unique) ↦
              rw (known_area, unique)
                (after-SendsLower b common_header (trig.fle (fl.of_int 0) area_f) header packet node
                  (new_gbc_packet fl hash now header packet node.location_table) v)
        ]

  -- A handled GeoBroadcast packet with a valid Basic Header is sent on at most once at the time, and
  -- what is sent has a Basic Header that decodes to the received one with a hop limit that is one
  -- lower and not 0.
  pub gn_data_indicate_gbc-sent :
      (now : ℕ) (packet : Bytes) (common_header : CommonHeader) (b : BasicHeader) (node : Node fl)
      → IsValid b
      → SendsLower b (gn_data_indicate_gbc fl trig hash link now packet common_header b node).sent
  unfolding gn_data_indicate_gbc
  gn_data_indicate_gbc-sent now packet common_header b node v =
      elim (Result-cases (gbc_decode (slice packet 0 44))) [
        | inr (e, fails) ↦ inl (rw (gn_data_indicate_gbc, fails) refl)
        | inl (header, decoded) ↦
            rw (gn_data_indicate_gbc, decoded)
              (known-SendsLower now _ common_header b header (drop 44 packet) node v)
      ]

-- ===== src/Geonet/Router/Forwarding.antt =====
-- Which multi-hop broadcasts the handler of src/flexstack/geonet/router.py drops, and what it forwards.
use mathlib.Core.List.{append_assoc}
use flex_stack.Prelude.{
  ℕ, ◌-◌, ◌<◌, ◌≡◌, refl, inl, inr, ◌⊎◌, List, [], ◌∷◌, ◌++◌, drop, true, ltb, ◌&&◌, none, some,
  Result, ok, err, Error, duplicated_packet, Result-cases, Bool-cases, arith,
}
use flex_stack.Floats.{Floats}
use flex_stack.Bytes.{Bytes, slice}
use flex_stack.Geonet.Address
use flex_stack.Geonet.Address.{GnAddress}
use flex_stack.Geonet.BasicHeader as Basic
use flex_stack.Geonet.BasicHeader.{BasicHeader, set_rhl}
use flex_stack.Geonet.BasicHeader.RoundTrip.{IsValid, encode_to_bytes-eq, decode_from_bytes-eq}
use flex_stack.Geonet.CommonHeader as Common
use flex_stack.Geonet.CommonHeader.{CommonHeader}
use flex_stack.Geonet.ExtendedHeaders.{TsbExtendedHeader, tsb_decode, tsb_encode}
use flex_stack.Sets.{contains}
use flex_stack.Geonet.LocationTable.{
  Entry, LocationTable, get_entry, get_neighbours, new_tsb_packet,
}
use flex_stack.Geonet.LocationTable.Arrivals.{tsb, arrive}
use flex_stack.Geonet.LocationTable.Receive.{arrive-duplicate}
use flex_stack.Geonet.Router.{
  ended, duplicate_address_detection, tsb_forward_packet, forward_tsb, gn_data_indicate_tsb,
  rate_exceeded, is_empty, after_table,
}

-- What the forwarder makes: one packet, whose Basic Header decodes to the received one with the hop
-- limit one lower.
pub record IsOneHopLess (basic_header : BasicHeader) (bs : Bytes) : Type 0 where
  pub hops_left : 1 < basic_header.rhl
  pub decoded : Basic.decode_from_bytes bs ≡ ok (set_rhl basic_header (basic_header.rhl - 1))

-- No packet, or one whose hop limit is one lower.
abbrev pub SendsOneHopLess : BasicHeader → List Bytes → Type 0
SendsOneHopLess basic_header sent =
    (sent ≡ []) ⊎ ((bs : Bytes) × (sent ≡ bs ∷ []) × IsOneHopLess basic_header bs)

module _ (basic_header : BasicHeader) (valid : IsValid basic_header) where
  abbrev lowered : BasicHeader
  lowered = set_rhl basic_header (basic_header.rhl - 1)

  lowered-IsValid : IsValid lowered
  unfolding set_rhl
  lowered-IsValid = record {
    version = valid.version;
    reserved = valid.reserved;
    multiplier = valid.multiplier;
    rhl = omega (arith, valid.rhl);
  }

  lowered_octets :
      (basic : Bytes) × (Basic.encode_to_bytes lowered ≡ ok basic)
      × ((rest : Bytes) → Basic.decode_from_bytes (basic ++ rest) ≡ ok lowered)
  lowered_octets =
      (_, encode_to_bytes-eq lowered lowered-IsValid, decode_from_bytes-eq lowered lowered-IsValid)

  forward_packet-cases :
      (common_header : CommonHeader) (header : TsbExtendedHeader) (packet : Bytes)
      → 1 < basic_header.rhl
      → ((e : Error) × (tsb_forward_packet basic_header common_header header packet ≡ err e))
        ⊎ ((bs : Bytes) × (tsb_forward_packet basic_header common_header header packet ≡ ok bs)
            × IsOneHopLess basic_header bs)
  unfolding tsb_forward_packet
  forward_packet-cases common_header header packet hops =
      let (basic, encoded, read_back) = lowered_octets in
      elim (Result-cases (Common.encode_to_bytes common_header)) [
        | inr (e, fails) ↦ inl (e, rw (encoded, fails) refl)
        | inl (common, done) ↦ elim (Result-cases (tsb_encode header)) [
          | inr (e, fails) ↦ inl (e, rw (encoded, done, fails) refl)
          | inl (extended, done') ↦ inr (
            basic ++ common ++ extended ++ packet,
            rw (encoded, done, done') refl,
            record {
              hops_left = hops;
              decoded = simp append_assoc (read_back (common ++ (extended ++ packet)));
            },
          )
        ]
      ]

  module _ (fl : Floats) (hash : GnAddress → ℕ) where
    forward_tsb-sent :
        (common_header : CommonHeader) (header : TsbExtendedHeader) (packet : Bytes)
        (t : LocationTable fl)
        → SendsOneHopLess basic_header
            (forward_tsb fl hash basic_header common_header header packet t).sent
    unfolding forward_tsb
    forward_tsb-sent common_header header packet t =
        elim (Bool-cases (rate_exceeded fl t.mib (get_entry fl hash header.so_pv.gn_addr t))) [
          | inl exceeded ↦ inl (rw exceeded refl)
          | inr within ↦ elim (Bool-cases (ltb 0 (basic_header.rhl - 1))) [
            | inr last_hop ↦ inl (rw (within, last_hop) refl)
            | inl hops ↦
                elim (Bool-cases (is_empty fl (get_neighbours fl t) && common_header.tc.scf)) [
                  | inl alone ↦ inl (rw (within, hops, alone) refl)
                  | inr together ↦
                      elim (forward_packet-cases common_header header packet
                        (ground (arith, hops))) [
                          | inl (e, fails) ↦ inl (rw (within, hops, together, fails) refl)
                          | inr (bs, made, less) ↦
                              inr (bs, rw (within, hops, together, made) refl, less)
                        ]
                ]
          ]
        ]

    -- A handled multi-hop broadcast with a valid Basic Header is forwarded at most once, and what is
    -- sent has a Basic Header that decodes to the received one with a hop limit that is one lower
    -- and not 0.
    pub gn_data_indicate_tsb-sent :
        (now : ℕ) (packet : Bytes) (common_header : CommonHeader) (t : LocationTable fl)
        → SendsOneHopLess basic_header
            (gn_data_indicate_tsb fl hash now packet common_header basic_header t).sent
    unfolding gn_data_indicate_tsb
    gn_data_indicate_tsb-sent now packet common_header t =
        elim (Result-cases (tsb_decode (slice packet 0 28))) [
          | inr (e, fails) ↦ inl (rw (gn_data_indicate_tsb, fails) refl)
          | inl (header, decoded) ↦
              elim (Result-cases (duplicate_address_detection t.mib header.so_pv.gn_addr)) [
                | inr (e, own) ↦ inl (rw (gn_data_indicate_tsb, decoded, own) refl)
                | inl (done, unique) ↦
                    rw (gn_data_indicate_tsb, decoded, unique)
                      (after header (new_tsb_packet fl hash now header (drop 28 packet) t))
              ]
        ]
      where
        after :
            (header : TsbExtendedHeader) (answer : Result (Unit {0}) × LocationTable fl)
            → SendsOneHopLess basic_header
                (after_table fl answer
                  (forward_tsb fl hash basic_header common_header header (drop 28 packet))).sent
        after header (ok done, t') = forward_tsb-sent common_header header (drop 28 packet) t'
        after header (err e, t') = inl refl

-- A multi-hop broadcast that decodes, from the receiver's own address, or with a sequence number that
-- is in the duplicate packet list of its source's entry, is not delivered and not forwarded, and the
-- location table stays as it was.
pub gn_data_indicate_tsb-dropped :
    (fl : Floats) (hash : GnAddress → ℕ) (now : ℕ) (packet : Bytes) (common_header : CommonHeader)
    (basic_header : BasicHeader) (t : LocationTable fl) (header : TsbExtendedHeader)
    → tsb_decode (slice packet 0 28) ≡ ok header
    → (Address.eq t.mib.its_gn_local_gn_addr header.so_pv.gn_addr ≡ true)
      ⊎ ((entry : Entry fl) × (get_entry fl hash header.so_pv.gn_addr t ≡ some entry)
          × (contains header.sn entry.dpl.dpl_set ≡ true))
    → gn_data_indicate_tsb fl hash now packet common_header basic_header t ≡ ended fl t (ok none)
unfolding gn_data_indicate_tsb duplicate_address_detection
gn_data_indicate_tsb-dropped fl hash now packet common_header basic_header t header decoded
      (inl own) =
    rw (gn_data_indicate_tsb, decoded, own) refl
gn_data_indicate_tsb-dropped fl hash now packet common_header basic_header t header decoded
      (inr (entry, found, known)) =
    elim (Bool-cases (Address.eq t.mib.its_gn_local_gn_addr header.so_pv.gn_addr)) [
      | inl own ↦ rw (gn_data_indicate_tsb, decoded, own) refl
      | inr other ↦ rw (gn_data_indicate_tsb, decoded, other, refused) refl
    ]
  where
    refused : new_tsb_packet fl hash now header (drop 28 packet) t ≡ (err duplicated_packet, t)
    refused =
        unfold arrive in
        arrive-duplicate fl hash now (tsb header (drop 28 packet)) t header.sn entry refl found
          known

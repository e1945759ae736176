-- ===== src/Geonet/Router/Area/Contention.antt =====
-- The life of a packet in the buffer of contention-based forwarding.
use flex_stack.Prelude.{ℕ, ◌≡◌, refl, List, [], ◌∷◌, ◌++◌, true, false, ok, ==_refl, arith}
use flex_stack.Floats.{Floats, Trig}
use flex_stack.Bytes.{Bytes}
use flex_stack.Geonet.Address.{GnAddress}
use flex_stack.Geonet.BasicHeader.{BasicHeader}
use flex_stack.Geonet.CommonHeader.{CommonHeader}
use flex_stack.Geonet.ExtendedHeaders.{GbcExtendedHeader}
use flex_stack.Geonet.LocationTable.{get_entry}
use flex_stack.Geonet.LocationTable.Keys.{same_key_refl}
use flex_stack.Geonet.Router.Area.{
  Node, Waiting, same_packet, is_waiting, stop_waiting, timeout_for, gbc_packet,
  gn_area_cbf_forwarding, cbf_timeout,
}

module _ (fl : Floats) (trig : Trig fl) (hash : GnAddress → ℕ) where
  abbrev Buffer : Type 0
  Buffer = List ((GnAddress × ℕ) × Waiting fl)

  key_refl : (key : GnAddress × ℕ) → same_packet fl trig hash key key ≡ true
  key_refl (a, sn) = rw (same_key_refl hash a, ==_refl sn) refl

  waits-at-end :
      (key : GnAddress × ℕ) (w : Waiting fl) (buffer : Buffer)
      → is_waiting fl trig hash key buffer ≡ false
      → is_waiting fl trig hash key (buffer ++ (key, w) ∷ []) ≡ true
  unfolding is_waiting
  waits-at-end key w [] e = ground (arith, key_refl key)
  waits-at-end key w ((k, w') ∷ buffer) e = ground (arith, waits-at-end key w buffer)

  stopped :
      (key : GnAddress × ℕ) (w : Waiting fl) (buffer : Buffer)
      → is_waiting fl trig hash key buffer ≡ false
      → stop_waiting fl trig hash key (buffer ++ (key, w) ∷ []) ≡ buffer
  unfolding is_waiting stop_waiting
  stopped key w [] e = ground (arith, key_refl key)
  stopped key w ((k, w') ∷ buffer) e = ground (arith, stopped key w buffer)

  -- What a new packet does to the buffer.
  enters :
      (b : BasicHeader) (c : CommonHeader) (header : GbcExtendedHeader) (packet bs : Bytes)
      (node : Node fl)
      → is_waiting fl trig hash (header.so_pv.gn_addr, header.sn) node.cbf_buffer ≡ false
      → gbc_packet fl trig hash b c header packet ≡ ok bs
      → gn_area_cbf_forwarding fl trig hash b c header packet node ≡ (
        ok true,
        record node {
          cbf_buffer =
              node.cbf_buffer
              ++ (
                (header.so_pv.gn_addr, header.sn),
                record {
                  timeout_ms =
                      timeout_for fl trig hash
                        (get_entry fl hash header.so_pv.gn_addr node.location_table)
                        node;
                  full_packet = bs;
                },
              )
                ∷ [];
        },
      )
  unfolding gn_area_cbf_forwarding
  enters b c header packet bs node new made = rw (gn_area_cbf_forwarding, new, made) refl

  leaves :
      (b : BasicHeader) (c : CommonHeader) (header : GbcExtendedHeader) (packet : Bytes)
      (node : Node fl)
      → is_waiting fl trig hash (header.so_pv.gn_addr, header.sn) node.cbf_buffer ≡ true
      → gn_area_cbf_forwarding fl trig hash b c header packet node ≡ (
        ok false,
        record node {
          cbf_buffer = stop_waiting fl trig hash (header.so_pv.gn_addr, header.sn) node.cbf_buffer;
        },
      )
  unfolding gn_area_cbf_forwarding
  leaves b c header packet node waits = rw (gn_area_cbf_forwarding, waits) refl

  -- A packet that does not wait yet and can be encoded: after the forwarding its timer sends it once
  -- and leaves the node as it was before; but after a second forwarding of the same packet, whatever
  -- its other headers, the timer sends nothing, and the node is as before too.
  pub gn_area_cbf_forwarding-once :
      (b b' : BasicHeader) (c c' : CommonHeader) (header : GbcExtendedHeader)
      (packet packet' bs : Bytes) (node : Node fl)
      → is_waiting fl trig hash (header.so_pv.gn_addr, header.sn) node.cbf_buffer ≡ false
      → gbc_packet fl trig hash b c header packet ≡ ok bs
      → (cbf_timeout fl trig hash
            (header.so_pv.gn_addr, header.sn)
            bs
            (gn_area_cbf_forwarding fl trig hash b c header packet node).1
          ≡ (bs ∷ [], node))
        × (cbf_timeout fl trig hash
              (header.so_pv.gn_addr, header.sn)
              bs
              (gn_area_cbf_forwarding fl trig hash b' c' header packet'
                (gn_area_cbf_forwarding fl trig hash b c header packet node).1).1
            ≡ ([], node))
  unfolding cbf_timeout
  gn_area_cbf_forwarding-once b b' c c' header packet packet' bs node new made =
      let key : GnAddress × ℕ = (header.so_pv.gn_addr, header.sn) in
      let w : Waiting fl = record {
        timeout_ms =
            timeout_for fl trig hash (get_entry fl hash header.so_pv.gn_addr node.location_table)
              node;
        full_packet = bs;
      } in
      let buffered : Node fl = record node { cbf_buffer = node.cbf_buffer ++ (key, w) ∷ [] } in
      let waits = waits-at-end key w node.cbf_buffer new in
      let gone = stopped key w node.cbf_buffer new in
      rw (enters b c header packet bs node new made, leaves b' c' header packet' buffered waits)
        (rw (waits, gone) refl, rw (gone, new) refl)

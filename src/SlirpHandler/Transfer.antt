-- ===== src/SlirpHandler/Transfer.antt =====
-- What `execute` and `fd` of the handler do with the packets in the rings.
use slirp4tinc.Prelude.{
  ℕ, ◌-◌, ◌≡◌, ap, ◌∙◌, Bool, true, false, some, List, [], ◌∷◌, arith, length, ne→==, eq→==,
}
use slirp4tinc.Prelude.Int.{ℤ}
use slirp4tinc.Prelude.Run.{ok, undefined}
use slirp4tinc.ProducerConsumer.Refine.Release.{release_foreign}
use slirp4tinc.ProducerConsumer.Exchange.{
  Holds, produce_lends, consume_cleanup, consume_nothing_lem,
}
use slirp4tinc.Packets.{
  put_get, assert_some-some, XferBuffer, ring_size, BufferId, Buffers, get_ring, put_ring,
  is_nonzero, PacketRingBuffer,
}
use slirp4tinc.Packets.View.{IsPacket, ArePackets, Carries, Carries-available}
use slirp4tinc.Daemon.Os.{Sys}
use slirp4tinc.SlirpHandler.{SlirpHandler, fd, send_packet, receive_packet, packets_sent, execute}

-- The handler is connected to the library and to the rings `tx` and `rx`.
pub record IsConnected (h : SlirpHandler) (tx rx : BufferId) (slirp : ℕ) : Type 0 where
  pub tx_ring : h.tx_packets ≡ some tx
  pub rx_ring : h.rx_packets ≡ some rx
  pub library : h.my_slirp ≡ some slirp

-- An empty packet is not given to the library.
abbrev pub nonempty : List ℕ → List (List ℕ)
nonempty [] = []
nonempty (b ∷ p) = (b ∷ p) ∷ []

receive_packet-undefined :
    (answer : Sys (List ℕ)) (rx : BufferId) (b : Buffers) (qs : List (List ℕ))
    → Carries (get_ring rx b) qs
    → receive_packet answer rx b ≡ undefined
unfolding receive_packet
receive_packet-undefined answer rx b qs c =
    let (x, s1, it, made, lent) = produce_lends c.holds in
    rw (made, lent.item, release_foreign ring_size s1)

module _ (b : Buffers) (tx : BufferId) (h : SlirpHandler) where
  sent_packet : (v : XferBuffer) (p : List ℕ) → IsPacket v p → packets_sent v ≡ nonempty p
  unfolding packets_sent
  sent_packet v [] q = rw (eq→== v.fill 0 q.fill)
  sent_packet v (c ∷ p) q = rw (ne→== v.fill 0 (λ e. omega (arith, q.fill)), q.bytes)

  send_packet_lem :
      (p : List ℕ) (ps : List (List ℕ)) (l : List XferBuffer)
      → Holds ring_size (get_ring tx b) l
      → ArePackets l (p ∷ ps)
      → (s : PacketRingBuffer) × (send_packet tx h b ≡ ok (h, put_ring tx s b, nonempty p))
        × Carries s ps
  unfolding send_packet
  send_packet_lem p ps [] holds q = absurd q
  send_packet_lem p ps (v ∷ l) holds q =
      let t = consume_cleanup holds in
      let sent : packets_sent t.item.payload ≡ nonempty p =
        ap packets_sent t.payload ∙ sent_packet v p q.0 in
      (
        t.after,
        rw (t.consumed, t.item_found, t.cleaned, sent),
        record { buffers = l; holds = t.holds; packets = q.1 },
      )

  send_packet-empty :
      (l : List XferBuffer)
      → Holds ring_size (get_ring tx b) l
      → ArePackets l []
      → send_packet tx h b ≡ ok (record h { wait_for_write = false }, b, [])
  unfolding send_packet
  send_packet-empty [] holds q = rw (consume_nothing_lem holds, put_get tx b)
  send_packet-empty (v ∷ l) holds q = absurd q

  module _ (rx : BufferId) (slirp : ℕ) (answer : Sys (List ℕ))
      (connected : IsConnected h tx rx slirp) where
    -- Called for a writable descriptor of a connected handler with a packet waiting, `execute`
    -- returns, gives the oldest packet to the library, unless it is empty, and takes it from its
    -- ring; the handler stays as it is.
    pub execute_sends :
        (p : List ℕ) (ps : List (List ℕ))
        → Carries (get_ring tx b) (p ∷ ps)
        → (s : PacketRingBuffer) × (execute answer false true h b
            ≡ ok (h, put_ring tx s b, nonempty p))
          × Carries s ps
    unfolding execute
    execute_sends p ps c =
        let (s, e, d) = send_packet_lem p ps c.buffers c.holds c.packets in
        (
          s,
          rw (
            assert_some-some h.tx_packets connected.tx_ring,
            assert_some-some h.rx_packets connected.rx_ring,
            assert_some-some h.my_slirp connected.library,
            e,
          ),
          d,
        )

    -- With no packet waiting, `execute` of a connected handler for a writable descriptor returns,
    -- sends nothing, leaves the rings and stops waiting for the descriptor to become writable.
    pub execute_sends-nothing :
        Carries (get_ring tx b) []
        → execute answer false true h b ≡ ok (record h { wait_for_write = false }, b, [])
    unfolding execute
    execute_sends-nothing c = rw (
      assert_some-some h.tx_packets connected.tx_ring,
      assert_some-some h.rx_packets connected.rx_ring,
      assert_some-some h.my_slirp connected.library,
      send_packet-empty c.buffers c.holds c.packets,
    )

    -- Called for a readable descriptor of a connected handler, `execute` never returns: it releases
    -- a copy of the item that it produced, which is no item of the ring, and that is undefined.
    pub execute_readable-undefined :
        (writable : Bool) (qs : List (List ℕ))
        → Carries (get_ring rx b) qs
        → execute answer true writable h b ≡ undefined
    unfolding execute
    execute_readable-undefined writable qs c = rw (
      assert_some-some h.tx_packets connected.tx_ring,
      assert_some-some h.rx_packets connected.rx_ring,
      assert_some-some h.my_slirp connected.library,
      receive_packet-undefined answer rx b qs c,
    )

    -- With no slot of either ring held, `fd` of a connected handler returns the library's
    -- descriptor and leaves the rings: the handler then waits for the descriptor to be readable if
    -- the receive ring has a free slot, and to be writable if a packet waits to be sent.
    pub slirp_fd_lem :
        (vdeslirp_fd : ℕ → ℤ) (ps qs : List (List ℕ))
        → Carries (get_ring tx b) ps
        → Carries (get_ring rx b) qs
        → fd vdeslirp_fd h b
          ≡ ok (
            vdeslirp_fd slirp,
            record h {
              wait_for_read = is_nonzero (ring_size - length qs);
              wait_for_write = is_nonzero (length ps);
            },
            b,
          )
    unfolding fd
    slirp_fd_lem vdeslirp_fd ps qs ct cr =
        let (slots, unused) = Carries-available cr in
        let (unused', items) = Carries-available ct in
        rw (
          assert_some-some h.tx_packets connected.tx_ring,
          assert_some-some h.rx_packets connected.rx_ring,
          assert_some-some h.my_slirp connected.library,
          slots,
          put_get rx b,
          items,
          put_get tx b,
        )
